-- ===== src/Xds/Reconciler/Converges.antt =====
-- internal/xds/reconciler.go: a reconcile brings the registry to the broker's inventory.
use infraforge.Base.{
  ℕ, ◌≡◌, refl, ◌∙◌, Text, txt, List, [], ◌∷◌, arith, ℤ, pos, none, some, GoError, Result, ok, err,
  wrap, int_eq, ltb_ℤ, inl, inr, Bool-cases,
}
use infraforge.Model.{Job}
use infraforge.Xds.Envoy.{SnapshotCache}
use infraforge.Xds.Registry.{Endpoint, replace_all}
use infraforge.Xds.Registry.View.{registered, IsValid}
use infraforge.Xds.Registry.Replace.Exact.{
  replace_all-IsValid, registered-replace_all, replace_all-replace_all,
}
use infraforge.Xds.Reconciler.{
  JobLister, World, Wake, tick, done, build_desired, reconcile, run_loop, run, replaced,
}
use infraforge.Xds.Reconciler.Desired.{
  DistinctEndpoints, served, wanted-build_desired, build_desired-IsDesired,
  build_desired-NodupLists,
}

module _ {W C : Type 0} (broker : JobLister W) (cache : SnapshotCache C) where
  pub reconcile-plane :
      (unix : ℕ) (s : World broker cache) (jobs : List Job)
      → (broker.list s.world).0 ≡ ok jobs
      → ((reconcile broker cache unix s).1.plane
          ≡ (replace_all cache unix (build_desired jobs) s.plane).1)
        × ((reconcile broker cache unix s).0
            ≡ replaced broker cache (replace_all cache unix (build_desired jobs) s.plane).0)
  unfolding reconcile
  reconcile-plane unix s jobs h = ground arith

  -- After a reconcile whose listing succeeds, whatever had drifted, an endpoint is registered for a
  -- service exactly if a ready job of the listed inventory serves it; no two jobs may serve one
  -- endpoint of one service.
  pub reconcile_exact :
      (unix : ℕ) (s : World broker cache) (jobs : List Job) (svc : Text) (e : Endpoint)
      → (broker.list s.world).0 ≡ ok jobs
      → IsValid s.plane.0.services
      → DistinctEndpoints jobs
      → registered (reconcile broker cache unix s).1.plane.0.services svc e ≡ served jobs svc e
  reconcile_exact unix s jobs svc e listed v distinct = rw (reconcile-plane unix s jobs listed).0 (
      registered-replace_all cache unix (build_desired jobs) s.plane.0 s.plane.1 svc e v
        (build_desired-IsDesired jobs) (build_desired-NodupLists jobs distinct)
      ∙ wanted-build_desired jobs svc e)

  -- A reconcile whose listing fails reports that error and leaves the registry and the cache alone.
  pub reconcile_list_error :
      (unix : ℕ) (s : World broker cache) (x : GoError)
      → (broker.list s.world).0 ≡ err x
      → ((reconcile broker cache unix s).0 ≡ some (wrap (txt "list jobs: ") x []))
        × ((reconcile broker cache unix s).1.plane ≡ s.plane)
  unfolding reconcile
  reconcile_list_error unix s x failed = ground arith

  reconcile-IsValid :
      (unix : ℕ) (s : World broker cache)
      → IsValid s.plane.0.services
      → IsValid (reconcile broker cache unix s).1.plane.0.services
  reconcile-IsValid unix s v = split (broker.list s.world).0 refl
    where
      split :
          (a : Result (List Job))
          → (broker.list s.world).0 ≡ a
          → IsValid (reconcile broker cache unix s).1.plane.0.services
      split (err x) e = rw (reconcile_list_error unix s x e).1 v
      split (ok jobs) e = rw (reconcile-plane unix s jobs e).0 (
          replace_all-IsValid cache unix (build_desired jobs) s.plane.0 s.plane.1
            (build_desired-IsDesired jobs) v)

  run_loop-IsValid :
      (wakes : List (Wake × ℕ)) (s : World broker cache)
      → IsValid s.plane.0.services
      → IsValid (run_loop broker cache wakes s).plane.0.services
  unfolding run_loop
  run_loop-IsValid [] s v = v
  run_loop-IsValid ((done, _) ∷ wakes) s v = v
  run_loop-IsValid ((tick, unix) ∷ wakes) s v =
      run_loop-IsValid wakes (reconcile broker cache unix s).1 (reconcile-IsValid unix s v)

  -- However long `Run` goes on and whatever the broker answers, a well-formed registry stays well
  -- formed.
  pub run-IsValid :
      (every : ℤ) (unix : ℕ) (wakes : List (Wake × ℕ)) (s : World broker cache)
      → IsValid s.plane.0.services
      → IsValid (run broker cache every unix wakes s).left.plane.0.services
  unfolding run
  run-IsValid every unix wakes s v = elim (Bool-cases (int_eq every (pos 0))) [
    | inl off ↦ rw off (reconcile-IsValid unix s v)
    | inr on ↦ elim (Bool-cases (ltb_ℤ (pos 0) every)) [
      | inl ticks ↦ rw on (
          rw ticks
            (run_loop-IsValid wakes (reconcile broker cache unix s).1 (reconcile-IsValid unix s v)))
      | inr negative ↦ rw on (rw negative (reconcile-IsValid unix s v))
    ]
  ]

  -- For a well-formed registry and distinct endpoints, a tick at which the broker lists the same jobs as at the tick before is quiet: no error, and
  -- neither the registry with its version nor the cache changes.
  pub reconcile_quiet :
      (unix unix' : ℕ) (s : World broker cache) (jobs : List Job)
      → (broker.list s.world).0 ≡ ok jobs
      → (broker.list (reconcile broker cache unix s).1.world).0 ≡ ok jobs
      → IsValid s.plane.0.services
      → DistinctEndpoints jobs
      → let t = (reconcile broker cache unix s).1 in
        ((reconcile broker cache unix' t).0 ≡ none)
        × ((reconcile broker cache unix' t).1.plane ≡ t.plane)
  unfolding replaced
  reconcile_quiet unix unix' s jobs first second v distinct =
      let t = (reconcile broker cache unix s).1 in
      let again =
        replace_all-replace_all cache unix unix' (build_desired jobs) s.plane.0 s.plane.1 v
          (build_desired-IsDesired jobs) (build_desired-NodupLists jobs distinct) in
      let before = (reconcile-plane unix s jobs first).0 in
      let after = reconcile-plane unix' t jobs second in
      (after.1 ∙ rw before (rw again refl), after.0 ∙ rw before (rw again refl))
