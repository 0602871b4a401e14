-- ===== src/Xds/Reconciler.antt =====
-- internal/xds/reconciler.go: the reconciler, over a world `W` in which the broker answers.
pub mod Desired
pub mod Converges
pub mod Shown
use infraforge.Base.{
  ℕ, ◌+◌, Bool, true, false, not, ◌||◌, Text, txt, List, [], ◌∷◌, ◌++◌, ℤ, pos, Option, none, some,
  GoError, Result, ok, err, wrap, length, if◌then◌else◌, int_eq, ltb_ℤ,
}
use infraforge.Base.Dict
use infraforge.Base.Dict.{Dict}
use infraforge.Model.{Job, HttpEndpoint, Status, ready, same_status}
use infraforge.Xds.Envoy.{SnapshotCache}
use infraforge.Xds.Registry.{Endpoint, Registry, replace_all}

-- The slice of the broker client that the reconciler uses.
pub record JobLister (W : Type 0) : Type 0 where
  pub list : W → Result (List Job) × W

abbrev pub list_at : Option (List Endpoint) → List Endpoint
list_at none = []
list_at (some l) = l

-- `out[j.ServiceName] = append(out[j.ServiceName], …)`
unfoldable pub append_endpoint : Text → Endpoint → Dict (List Endpoint) → Dict (List Endpoint)
append_endpoint svc e out = Dict.insert svc (list_at (Dict.lookup svc out) ++ (e ∷ [])) out

unfoldable pub add_job : Job → Option HttpEndpoint → Dict (List Endpoint) → Dict (List Endpoint)
unfolding append_endpoint
add_job j none out = out
add_job j (some h) out =
    if same_status j.status ready
    then append_endpoint j.service_name (record { host = h.host; port = h.port }) out
    else out

-- The loop of `buildDesired`, over the map built so far.
unfoldable pub build_desired_onto : Dict (List Endpoint) → List Job → Dict (List Endpoint)
unfolding add_job
build_desired_onto out [] = out
build_desired_onto out (j ∷ jobs) = build_desired_onto (add_job j j.http out) jobs

unfoldable pub build_desired : List Job → Dict (List Endpoint)
unfolding build_desired_onto
build_desired jobs = build_desired_onto [] jobs

unfoldable pub count_endpoints : Dict (List Endpoint) → ℕ
count_endpoints [] = 0
count_endpoints ((_, eps) ∷ m) = length eps + count_endpoints m

-- What wakes the loop of `Run`: the ticker, or the end of the context.
pub data Wake : Type 0 where
  tick : Wake
  done : Wake

module _ {W C : Type 0} (broker : JobLister W) (cache : SnapshotCache C) where
  abbrev pub World : Type 0
  World = record { plane : Registry × C; world : W }

  -- What `ReplaceAll` returned, with the context that `Reconcile` adds to its error.
  unfoldable pub replaced : record { changed : Bool; failure : Option GoError } → Option GoError
  unfolding txt
  replaced r = elim r.failure [ none ↦ none | some e ↦ some (wrap (txt "replace registry: ") e []) ]

  -- The seconds of the clock at the rebuild are an argument.
  unfoldable pub reconcile : ℕ → World → Option GoError × World
  unfolding build_desired replaced txt
  reconcile unix s =
      let (answer, w) = broker.list s.world in
      elim answer [
        | err e ↦ (some (wrap (txt "list jobs: ") e []), record { plane = s.plane; world = w })
        | ok jobs ↦
            let (r, plane) = replace_all cache unix (build_desired jobs) s.plane in
            (replaced r, record { plane = plane; world = w })
      ]

  -- The loop after the first reconcile: an error is logged, and the loop goes on.
  unfoldable pub run_loop : List (Wake × ℕ) → World → World
  unfolding reconcile
  run_loop [] s = s
  run_loop ((done, _) ∷ wakes) s = s
  run_loop ((tick, unix) ∷ wakes) s = run_loop wakes (reconcile unix s).1

  -- Whether `Run` panics, as `time.NewTicker` does for an interval that is not positive, and what it
  -- leaves.
  unfoldable pub run : ℤ → ℕ → List (Wake × ℕ) → World → record { panicked : Bool; left : World }
  unfolding run_loop reconcile
  run every unix wakes s =
      let s' = (reconcile unix s).1 in
      if int_eq every (pos 0)
      then record { panicked = false; left = s' }
      else if ltb_ℤ (pos 0) every
      then record { panicked = false; left = run_loop wakes s' }
      else record { panicked = true; left = s' }
