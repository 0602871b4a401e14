-- ===== src/Xds/Registry.antt =====
-- internal/xds/registry.go: the registry of endpoints. Each method is a section under the lock,
-- which changes the registry and builds a snapshot, and a push of that snapshot after it. The time
-- of a build, in seconds, is an argument.
pub mod Key
pub mod View
pub mod Methods
pub mod Replace
pub mod Build
use infraforge.Base.{
  ℕ, ◌≡◌, Bool, true, false, ◌&&◌, Text, txt, List, [], ◌∷◌, ◌++◌, ℤ, pos, incr, show_int, show_nat,
  Option, none, some, GoError, wrap, length, ◌==◌, if◌then◌else◌, text_eq, text_leb, int_eq,
  sort_texts, sort_by, map,
}
use infraforge.Base.Dict
use infraforge.Base.Dict.{Dict}
use infraforge.Xds.Envoy.{
  uint32, Snapshot, SnapshotCache, LbEndpoint, Cluster, Route, RouteConfiguration, node_id,
  route_cfg_name, make_cluster, make_lb_endpoint, make_prefix_route, make_listener,
}

pub record Endpoint : Type 0 where
  pub host : Text
  pub port : ℤ

unfoldable pub endpoint_key : Endpoint → Text
endpoint_key e = e.host ++ (b':' ∷ show_int e.port)

-- service -> "host:port" -> endpoint
abbrev pub Services : Type 0
Services = Dict (Dict Endpoint)

pub record Registry : Type 0 where
  pub services : Services
  pub version : ℤ

unfoldable pub new_registry : Registry
new_registry = record { services = []; version = pos 0 }

-- `r.services[service]`: a service that is not there has the empty map.
abbrev pub bucket_or_empty : Option (Dict Endpoint) → Dict Endpoint
bucket_or_empty none = []
bucket_or_empty (some b) = b

unfoldable pub bucket : Text → Services → Dict Endpoint
bucket svc services = bucket_or_empty (Dict.lookup svc services)

-- The endpoints of a service, in the order of their keys.
unfoldable pub lb_endpoints_of : Dict Endpoint → List Text → List LbEndpoint
lb_endpoints_of endpoints [] = []
lb_endpoints_of endpoints (k ∷ ks) =
    let rest = lb_endpoints_of endpoints ks in
    elim (Dict.lookup k endpoints) [
      | none ↦ rest
      | some e ↦ make_lb_endpoint e.host (uint32 e.port) ∷ rest
    ]

unfoldable pub cluster_of : Services → Text → Cluster
unfolding bucket
cluster_of services svc =
    let endpoints = bucket svc services in
    make_cluster svc (lb_endpoints_of endpoints (sort_texts (Dict.keys endpoints)))

unfoldable pub clusters_of : Services → List Cluster
clusters_of services = map (cluster_of services) (sort_texts (Dict.keys services))

unfoldable pub route_config_of : Services → RouteConfiguration
unfolding txt
route_config_of services = record {
  name = route_cfg_name;
  virtual_hosts =
      (record {
        name = txt "all";
        domains = txt "*" ∷ [];
        routes = map make_prefix_route (sort_texts (Dict.keys services));
      })
      ∷ [];
}

-- `buildLocked`: the version is "v<builds>-<seconds>".
unfoldable pub build_locked : ℕ → Registry → Snapshot × Registry
build_locked unix r =
    let version = incr r.version in
    (
      record {
        version = b'v' ∷ (show_int version ++ (b'-' ∷ show_nat unix));
        listeners = make_listener ∷ [];
        route_configs = route_config_of r.services ∷ [];
        clusters = clusters_of r.services;
      },
      record r { version = version },
    )

-- The sections under the lock.
unfoldable pub register_locked : ℕ → Text → Endpoint → Registry → Snapshot × Registry
unfolding bucket
register_locked unix service e r = build_locked unix (record r {
  services =
      Dict.insert service (Dict.insert (endpoint_key e) e (bucket service r.services)) r.services;
})

-- A bucket that is left empty goes too.
unfoldable pub drop_endpoint : Text → Endpoint → Option (Dict Endpoint) → Services → Services
drop_endpoint service e none services = services
drop_endpoint service e (some endpoints) services =
    let endpoints' = Dict.erase (endpoint_key e) endpoints in
    if length endpoints' == 0
    then Dict.erase service services
    else Dict.insert service endpoints' services

unfoldable pub unregister_locked : ℕ → Text → Endpoint → Registry → Snapshot × Registry
unfolding drop_endpoint
unregister_locked unix service e r =
    build_locked unix
      (record r { services = drop_endpoint service e (Dict.lookup service r.services) r.services })

unfoldable pub all_present : Dict Endpoint → List Endpoint → Bool
all_present have [] = true
all_present have (e ∷ es) = elim (Dict.lookup (endpoint_key e) have) [
  | none ↦ false
  | some _ ↦ all_present have es
]

-- The loop of `equalLocked` over the desired services.
unfoldable pub equal_buckets : Services → Dict (List Endpoint) → Bool
unfolding bucket all_present
equal_buckets services [] = true
equal_buckets services ((svc, want) ∷ desired) =
    let have = bucket svc services in
    let rest = equal_buckets services desired in
    if length have == length want then (if all_present have want then rest else false) else false

unfoldable pub equal_locked : Services → Dict (List Endpoint) → Bool
unfolding equal_buckets
equal_locked services desired =
    if length services == length desired then equal_buckets services desired else false

unfoldable pub bucket_of : List Endpoint → Dict Endpoint → Dict Endpoint
bucket_of [] b = b
bucket_of (e ∷ es) b = bucket_of es (Dict.insert (endpoint_key e) e b)

unfoldable pub services_of : Dict (List Endpoint) → Services → Services
unfolding bucket_of
services_of [] services = services
services_of ((svc, eps) ∷ desired) services =
    services_of desired (Dict.insert svc (bucket_of eps []) services)

-- `none` where nothing is to be pushed.
unfoldable pub replace_all_locked :
    ℕ → Dict (List Endpoint) → Registry → Option (Snapshot × Registry)
unfolding equal_locked services_of
replace_all_locked unix desired r =
    if equal_locked r.services desired
    then none
    else some (build_locked unix (record r { services = services_of desired [] }))

-- `List`: the endpoints of each service in the order of their keys.
abbrev pub values : Dict Endpoint → List Endpoint
values [] = []
values ((_, e) ∷ b) = e ∷ values b

unfoldable pub list : Services → Dict (List Endpoint)
list [] = []
list ((svc, eps) ∷ services) =
    (svc, sort_by (λ a b. text_leb (endpoint_key a) (endpoint_key b)) (values eps)) ∷ list services

module _ {C : Type 0} (cache : SnapshotCache C) where
  unfoldable pub push_snapshot : Snapshot → C → Option GoError × C
  unfolding txt
  push_snapshot snap c = elim (cache.consistent snap) [
    | some e ↦ (some (wrap (txt "snapshot inconsistent: ") e []), c)
    | none ↦
        let (failure, c') = cache.set_snapshot node_id snap c in
        (elim failure [ none ↦ none | some e ↦ some (wrap (txt "set snapshot: ") e []) ], c')
  ]

  -- A registry with the state of its cache.
  abbrev pub Plane : Type 0
  Plane = Registry × C

  unfoldable pub register : ℕ → Text → Endpoint → Plane → Option GoError × Plane
  unfolding register_locked push_snapshot
  register unix service e (r, c) =
      let (snap, r') = register_locked unix service e r in
      let (failure, c') = push_snapshot snap c in (failure, (r', c'))

  unfoldable pub unregister : ℕ → Text → Endpoint → Plane → Option GoError × Plane
  unfolding unregister_locked push_snapshot
  unregister unix service e (r, c) =
      let (snap, r') = unregister_locked unix service e r in
      let (failure, c') = push_snapshot snap c in (failure, (r', c'))

  unfoldable pub push_empty : ℕ → Plane → Option GoError × Plane
  unfolding build_locked push_snapshot
  push_empty unix (r, c) =
      let (snap, r') = build_locked unix r in
      let (failure, c') = push_snapshot snap c in (failure, (r', c'))

  -- (changed, error)
  unfoldable pub replace_all :
      ℕ → Dict (List Endpoint) → Plane → record { changed : Bool; failure : Option GoError } × Plane
  unfolding replace_all_locked push_snapshot
  replace_all unix desired (r, c) = elim (replace_all_locked unix desired r) [
    | none ↦ (record { changed = false; failure = none }, (r, c))
    | some (snap, r') ↦
        let (failure, c') = push_snapshot snap c in
        (record { changed = true; failure = failure }, (r', c'))
  ]
