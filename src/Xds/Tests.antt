-- ===== src/Xds/Tests.antt =====
-- internal/xds: the registry and the reconciler at concrete data.
use infraforge.Base.{
  ◌≡◌, ◌≢◌, refl, ◌↔◌, true, false, Text, txt, List, [], ◌∷◌, arith, pos, Option, none, some, ok,
  err, text_eq, new_error, ap, show_int, contains, subst,
}
use infraforge.Base.Dict
use infraforge.Base.Dict.{Dict}
use infraforge.Model.{Job, pending, ready}
use infraforge.Xds.Envoy.{Snapshot, SnapshotCache, uint32, make_lb_endpoint}
use infraforge.Xds.Registry.{
  Endpoint, endpoint_key, Registry, new_registry, build_locked, register_locked, unregister_locked,
  bucket, replace_all, push_snapshot, clusters_of, route_config_of,
}
use infraforge.Xds.Registry.View.{registered, IsValid, new_registry-IsValid}
use infraforge.Xds.Registry.Methods.{register_locked-IsValid, registered-register_locked}
use infraforge.Xds.Registry.Replace.{wanted, endpoint_keys}
use infraforge.Xds.Registry.Replace.Exact.{
  registered-replace_all, replace_all-unchanged_iff, replace_all_blind,
}
use infraforge.Xds.Registry.Build.{build_deterministic}
use infraforge.Xds.Registry.Build.Routing.{is_at, routes_to}
use infraforge.Xds.Registry.Key.{endpoint_eq, endpoint_eq_iff}
use infraforge.Xds.Reconciler.{JobLister, World, build_desired, reconcile}
use infraforge.Xds.Reconciler.Desired.{
  DistinctEndpoints, served, build_desired-IsDesired, build_desired-NodupLists,
}
use infraforge.Xds.Reconciler.Converges.{reconcile_exact, reconcile_quiet}
use infraforge.Xds.Interleaving.{
  registering, enter, System, Reach, here, next, locked, Reach-IsValid, overtaken_push,
}

abbrev near : Endpoint
near = record { host = txt "10.0.0.1"; port = pos 8001 }

abbrev far : Endpoint
far = record { host = txt "10.0.0.2"; port = pos 8002 }

abbrev shop : Text
shop = txt "checkout"

-- A cache that keeps the last snapshot.
abbrev memory_cache : SnapshotCache (Option Snapshot)
memory_cache = record { consistent = λ snap. none; set_snapshot = λ node snap c. (none, some snap) }

abbrev one : Registry
one = (register_locked 7 shop near new_registry).1

abbrev two : Registry
two = (register_locked 8 shop far one).1

abbrev two' : Registry
two' = (register_locked 8 shop near (register_locked 7 shop far new_registry).1).1

one-IsValid : IsValid one.services
one-IsValid = register_locked-IsValid 7 shop near new_registry new_registry-IsValid

two-IsValid : IsValid two.services
two-IsValid = register_locked-IsValid 8 shop far one one-IsValid

abbrev job_at : Endpoint → Job
job_at e = record {
  id = txt "j1";
  service_name = shop;
  resource = txt "postgres";
  status = ready;
  detail = [];
  attempts = pos 1;
  connection = none;
  http = some (record { host = e.host; port = e.port });
  created_at = 1;
  updated_at = 2;
}

abbrev inventory : List Job
inventory = job_at near ∷ record (job_at far) { id = txt "j2"; status = pending; http = none } ∷ []

inventory-Distinct : DistinctEndpoints inventory
inventory-Distinct svc e = ground arith

-- The last endpoint takes its service with it.
unregister_last : (unregister_locked 9 shop near one).1.services ≡ []
unfolding unregister_locked register_locked new_registry Dict.lookup Dict.insert Dict.erase text_eq
    txt endpoint_key show_int build_locked
unregister_last = refl

registered-replace_all_example :
    registered
      (replace_all memory_cache 9 (build_desired inventory) (two, none)).1.0.services
      shop
      far
    ≡ wanted (build_desired inventory) shop far
registered-replace_all_example =
    registered-replace_all memory_cache 9 (build_desired inventory) two none shop far two-IsValid
      (build_desired-IsDesired inventory) (build_desired-NodupLists inventory inventory-Distinct)

replace_all-unchanged_iff_example :
    ((replace_all memory_cache 9 (build_desired inventory) (two, none)).0.changed ≡ false) ↔ (
      (svc : Text) (e : Endpoint)
      → registered two.services svc e ≡ wanted (build_desired inventory) svc e)
replace_all-unchanged_iff_example =
    replace_all-unchanged_iff memory_cache 9 (build_desired inventory) two none two-IsValid
      (build_desired-IsDesired inventory) (build_desired-NodupLists inventory inventory-Distinct)

near-ne-far : near ≢ far
unfolding txt
near-ne-far e = ground (arith, ap (λ (x : Endpoint). x.port) e)

abbrev both : Registry
both = record {
  services = (shop, (endpoint_key near, near) ∷ (endpoint_key far, far) ∷ []) ∷ [];
  version = pos 4;
}

both_unchanged :
    (replace_all memory_cache 9 ((shop, near ∷ far ∷ []) ∷ []) (both, none)).0.changed ≡ false
unfolding replace_all endpoint_key txt Dict.lookup text_eq show_int
both_unchanged = refl

far_once : contains (endpoint_keys []) (endpoint_key far) ≡ false
far_once = refl

replace_all_blind_example :
    let doubled : Dict (List Endpoint) = (shop, near ∷ near ∷ []) ∷ [] in
    (replace_all memory_cache 9 doubled (both, none)
      ≡ (record { changed = false; failure = none }, (both, none)))
    × (registered both.services shop far ≡ true)
    × (wanted doubled shop far ≡ false)
replace_all_blind_example =
    replace_all_blind memory_cache 9 shop near far [] [] both none near-ne-far far_once
      both_unchanged

two-same :
    (svc : Text) (e : Endpoint) → registered two.services svc e ≡ registered two'.services svc e
two-same svc e = ground (
  arith,
  registered-register_locked 8 shop svc far e one,
  registered-register_locked 7 shop svc near e new_registry,
  registered-register_locked 8 shop svc near e (register_locked 7 shop far new_registry).1,
  registered-register_locked 7 shop svc far e new_registry,
)

two'-IsValid : IsValid two'.services
two'-IsValid =
    register_locked-IsValid 8 shop near (register_locked 7 shop far new_registry).1
      (register_locked-IsValid 7 shop far new_registry new_registry-IsValid)

build_deterministic_example :
    (clusters_of two.services ≡ clusters_of two'.services)
    × (route_config_of two.services ≡ route_config_of two'.services)
build_deterministic_example =
    build_deterministic two.services two'.services two-IsValid two'-IsValid two-same

-- A broker that always lists the inventory.
abbrev broker : JobLister Unit
broker = record { list = λ w. (ok inventory, w) }

abbrev failing : JobLister Unit
failing = record { list = λ w. (err (new_error (txt "connection refused")), w) }

abbrev idle_system : World broker memory_cache
idle_system = record { plane = (two, none); world = tt }

reconcile_exact_example :
    registered (reconcile broker memory_cache 9 idle_system).1.plane.0.services shop far
    ≡ served inventory shop far
reconcile_exact_example =
    reconcile_exact broker memory_cache 9 idle_system inventory shop far refl two-IsValid
      inventory-Distinct

reconcile_quiet_example :
    let t = (reconcile broker memory_cache 9 idle_system).1 in
    ((reconcile broker memory_cache 10 t).0 ≡ none)
    × ((reconcile broker memory_cache 10 t).1.plane ≡ t.plane)
unfolding reconcile
reconcile_quiet_example =
    reconcile_quiet broker memory_cache 9 10 idle_system inventory refl refl two-IsValid
      inventory-Distinct

abbrev idle : System memory_cache
idle = record { registry = new_registry; envoy = none; pushing = [] }

-- A system in which one call has left the lock.
abbrev busy : System memory_cache
busy = record {
  registry = one;
  envoy = none;
  pushing = (register_locked 7 shop near new_registry).0 ∷ [];
}

idle-busy : Reach memory_cache idle busy
unfolding enter
idle-busy =
    next {t = idle} here
      (locked 7 (registering shop near) (register_locked 7 shop near new_registry).0 one refl refl)

Reach-IsValid_example : IsValid one.services
Reach-IsValid_example =
    Reach-IsValid memory_cache {s = idle} {t = busy} idle-busy new_registry-IsValid

near_apart : is_at far (make_lb_endpoint near.host (uint32 near.port)) ≡ false
unfolding make_lb_endpoint uint32 txt text_eq
near_apart = refl

-- The first call registers the other endpoint only.
far_apart :
    (d : Endpoint)
    → registered (register_locked 7 shop near idle.registry).1.services shop d ≡ true
    → is_at far (make_lb_endpoint d.host (uint32 d.port)) ≡ false
unfolding registered new_registry bucket Dict.lookup
far_apart d h =
    let same : endpoint_eq near d ≡ true =
      ground (arith, registered-register_locked 7 shop shop near d new_registry) in
    subst (λ (i : Endpoint). is_at far (make_lb_endpoint i.host (uint32 i.port)) ≡ false)
      ((endpoint_eq_iff near d).0 same) near_apart

overtaken_push_example :
    let first = register_locked 7 shop near idle.registry in
    let second = register_locked 8 shop far first.1 in
    (t : System memory_cache) × Reach memory_cache idle t
    × (t.pushing ≡ [])
    × (t.envoy
        ≡ (push_snapshot memory_cache first.0 (push_snapshot memory_cache second.0 idle.envoy).1).1)
    × (registered t.registry.services shop far ≡ true)
    × (routes_to shop far first.0 ≡ false)
    × (routes_to shop far second.0 ≡ true)
overtaken_push_example =
    overtaken_push memory_cache 7 8 shop shop near far idle refl new_registry-IsValid far_apart
