-- ===== src/Xds/Reconciler/Shown.antt =====
-- internal/xds/reconciler.go, registry.go: what Envoy is shown after a reconcile.
use infraforge.Base.{
  ℕ, ◌≡◌, sym, ◌∙◌, subst, Bool, true, false, Text, List, [], arith, Option, none, some, GoError,
  ok, inl, inr, Bool-cases,
}
use infraforge.Base.Dict.{Dict}
use infraforge.Model.{Job}
use infraforge.Xds.Envoy.{Snapshot, SnapshotCache, node_id}
use infraforge.Xds.Registry.{
  Endpoint, Registry, Plane, build_locked, equal_locked, services_of, push_snapshot, replace_all,
}
use infraforge.Xds.Registry.View.{registered}
use infraforge.Xds.Registry.Replace.{IsDesired, services_of-IsValid}
use infraforge.Xds.Registry.Replace.Exact.{unchanged}
use infraforge.Xds.Registry.Build.Routing.{routes_to, routes_to-registered}
use infraforge.Xds.Reconciler.{JobLister, World, build_desired, reconcile, replaced}
use infraforge.Xds.Reconciler.Desired.{build_desired-IsDesired}
use infraforge.Xds.Reconciler.Converges.{reconcile-plane}

module _ {C : Type 0} (cache : SnapshotCache C) (current : C → Option Snapshot) where
  -- `current` is the snapshot of Envoy's node: the one that was last set without an error.
  pub record IsCache : Type 0 where
    pub kept :
        (snap : Snapshot) (c : C)
        → (cache.set_snapshot node_id snap c).0 ≡ none
        → current (cache.set_snapshot node_id snap c).1 ≡ some snap

  -- There is a snapshot, and it routes every service to each of its registered endpoints.
  abbrev pub Shows : Plane cache → Type 0
  Shows (r, c) =
      (snap : Snapshot) × (current c ≡ some snap)
      × ((svc : Text) (e : Endpoint)
          → registered r.services svc e ≡ true
          → routes_to svc e snap ≡ true)

  module _ (lawful : IsCache) where
    push_snapshot-current :
        (snap : Snapshot) (c : C)
        → (push_snapshot cache snap c).0 ≡ none
        → current (push_snapshot cache snap c).1 ≡ some snap
    unfolding push_snapshot
    push_snapshot-current snap c fine = ground (arith, lawful.kept snap c)

    -- What `ReplaceAll` does where the comparison fails.
    abbrev rebuilt : ℕ → Dict (List Endpoint) → Registry → Snapshot × Registry
    rebuilt unix desired r = build_locked unix (record r { services = services_of desired [] })

    replace_all-rebuilt :
        (unix : ℕ) (desired : Dict (List Endpoint)) (r : Registry) (c : C)
        → equal_locked r.services desired ≡ false
        → let (snap, r') = rebuilt unix desired r in
          let (failure, c') = push_snapshot cache snap c in
          replace_all cache unix desired (r, c)
          ≡ (record { changed = true; failure = failure }, (r', c'))
    unfolding replace_all
    replace_all-rebuilt unix desired r c differ = ground arith

    replace_all-Shows :
        (unix : ℕ) (desired : Dict (List Endpoint)) (r : Registry) (c : C)
        → IsDesired desired
        → (replace_all cache unix desired (r, c)).0.failure ≡ none
        → Shows (r, c)
        → Shows (replace_all cache unix desired (r, c)).1
    unfolding build_locked
    replace_all-Shows unix desired r c d fine before =
        elim (Bool-cases (equal_locked r.services desired)) [
          | inl same ↦ rw (unchanged cache unix desired r c same) before
          | inr differ ↦
              let is = replace_all-rebuilt unix desired r c differ in
              let (snap, r') = rebuilt unix desired r in
              rw is (
                snap,
                push_snapshot-current snap c (subst (λ x. x.0.failure ≡ none) is fine),
                λ svc e h.
                    routes_to-registered unix (record r { services = services_of desired [] }) svc e
                      (services_of-IsValid desired d) h,
              )
        ]

module _ {W C : Type 0} (broker : JobLister W) (cache : SnapshotCache C)
    (current : C → Option Snapshot) (lawful : (IsCache cache current)) where
  no_failure :
      (x : record { changed : Bool; failure : Option GoError })
      → replaced broker cache x ≡ none
      → x.failure ≡ none
  unfolding replaced
  no_failure x h = ground arith

  -- After a reconcile without an error, the snapshot that Envoy is given routes every service to each
  -- of its registered endpoints, if it did before.
  pub reconcile-Shows :
      (unix : ℕ) (s : World broker cache) (jobs : List Job)
      → (broker.list s.world).0 ≡ ok jobs
      → (reconcile broker cache unix s).0 ≡ none
      → Shows cache current s.plane
      → Shows cache current (reconcile broker cache unix s).1.plane
  reconcile-Shows unix s jobs listed fine before =
      let (plane, error) = reconcile-plane broker cache unix s jobs listed in
      rw plane (
        replace_all-Shows cache current lawful unix (build_desired jobs) s.plane.0 s.plane.1
          (build_desired-IsDesired jobs)
          (no_failure (replace_all cache unix (build_desired jobs) s.plane).0 (sym error ∙ fine))
          before)
