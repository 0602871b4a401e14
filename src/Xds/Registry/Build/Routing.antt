-- ===== src/Xds/Registry/Build/Routing.antt =====
-- internal/xds/registry.go: where a snapshot leads requests. Envoy sends a request for a service to an
-- address if a route with the service's prefix names a cluster, and the cluster has that address.
use infraforge.Base.{
  ℕ, ◌≡◌, refl, sym, ap, ◌∙◌, Bool, true, false, ◌&&◌, ◌||◌, Text, txt, List, [], ◌∷◌, ◌++◌, arith,
  some, text_eq, text_eq_refl, text_eq_iff, ◌==◌, contains, map, sort_texts, contains-sort_texts,
  Option-cases, inl, inr,
}
use infraforge.Base.Dict
use infraforge.Base.Dict.{Dict, contains-keys_of_lookup}
use infraforge.Xds.Envoy.{
  uint32, Snapshot, Cluster, LbEndpoint, LocalityLbEndpoints, Route, VirtualHost,
  RouteConfiguration, make_cluster, make_lb_endpoint, make_prefix_route,
}
use infraforge.Xds.Registry.{
  Endpoint, endpoint_key, Services, Registry, bucket, lb_endpoints_of, cluster_of, clusters_of,
  route_config_of, build_locked,
}
use infraforge.Xds.Registry.Key.{endpoint_key-injective}
use infraforge.Xds.Registry.View.{is_some, registered, IsValid, IsKeyed-bucket}
use infraforge.Xds.Registry.Replace.Complete.{service_of_registered}

-- Some element passes the test.
abbrev pub any {ℓ} : {A : Type ℓ} → (A → Bool) → List A → Bool
any p [] = false
any p (x ∷ xs) = p x || any p xs

-- The address is that of the endpoint.
abbrev pub is_at : Endpoint → LbEndpoint → Bool
is_at e a = text_eq a.socket_address.address e.host && a.socket_address.port_value == uint32 e.port

abbrev pub has_address : Endpoint → Cluster → Bool
has_address e c =
    any (λ (l : LocalityLbEndpoints). any (is_at e) l.lb_endpoints) c.load_assignment.endpoints

abbrev pub reaches : Text → Endpoint → Cluster → Bool
reaches svc e c = text_eq c.name svc && has_address e c

-- A route of the service's own prefix.
abbrev pub leads_to : Text → Route → Bool
leads_to svc r = text_eq r.cluster svc && text_eq r.prefix (txt "/" ++ (svc ++ txt "/"))

abbrev pub has_route : Text → RouteConfiguration → Bool
has_route svc c = any (λ (h : VirtualHost). any (leads_to svc) h.routes) c.virtual_hosts

-- Requests for the service may go to the endpoint.
abbrev pub routes_to : Text → Endpoint → Snapshot → Bool
routes_to svc e snap = any (has_route svc) snap.route_configs && any (reaches svc e) snap.clusters

any-route :
    (svc : Text) (ks : List Text)
    → contains ks svc ≡ true
    → any (leads_to svc) (map make_prefix_route ks) ≡ true
unfolding make_prefix_route txt
any-route svc [] h = cc
any-route svc (k ∷ ks) h = ground (
  arith,
  any-route svc ks,
  text_eq_iff k svc,
  text_eq_refl svc,
  text_eq_refl (txt "/" ++ (svc ++ txt "/")),
)

any-cluster :
    (s : Services) (svc : Text) (e : Endpoint) (ks : List Text)
    → contains ks svc ≡ true
    → has_address e (cluster_of s svc) ≡ true
    → any (reaches svc e) (map (cluster_of s) ks) ≡ true
unfolding cluster_of make_cluster
any-cluster s svc e [] h at = cc
any-cluster s svc e (k ∷ ks) h at =
    ground (arith, any-cluster s svc e ks, text_eq_iff k svc, text_eq_refl svc)

no-cluster :
    (s : Services) (svc : Text) (e : Endpoint) (ks : List Text)
    → has_address e (cluster_of s svc) ≡ false
    → any (reaches svc e) (map (cluster_of s) ks) ≡ false
unfolding cluster_of make_cluster
no-cluster s svc e [] at = refl
no-cluster s svc e (k ∷ ks) at = ground (arith, no-cluster s svc e ks at, text_eq_iff k svc)

any-address :
    (b : Dict Endpoint) (e : Endpoint) (ks : List Text)
    → contains ks (endpoint_key e) ≡ true
    → Dict.lookup (endpoint_key e) b ≡ some e
    → any (is_at e) (lb_endpoints_of b ks) ≡ true
unfolding lb_endpoints_of make_lb_endpoint
any-address b e [] h at = cc
any-address b e (k ∷ ks) h at =
    ground (arith, any-address b e ks, text_eq_iff k (endpoint_key e), text_eq_refl e.host)

no-address :
    (b : Dict Endpoint) (e : Endpoint) (ks : List Text)
    → ((k : Text) (d : Endpoint)
        → Dict.lookup k b ≡ some d
        → is_at e (make_lb_endpoint d.host (uint32 d.port)) ≡ false)
    → any (is_at e) (lb_endpoints_of b ks) ≡ false
unfolding lb_endpoints_of
no-address b e [] apart = refl
no-address b e (k ∷ ks) apart = elim (Option-cases (Dict.lookup k b)) [
  | inl absent ↦ ground (arith, absent, no-address b e ks apart)
  | inr (d, here) ↦ ground (arith, here, apart k d here, no-address b e ks apart)
]

module _ (services : Services) (svc : Text) (e : Endpoint) (v : IsValid services) where
  found_of_registered :
      registered services svc e ≡ true → Dict.lookup (endpoint_key e) (bucket svc services) ≡ some e
  unfolding registered
  found_of_registered h = elim (Option-cases (Dict.lookup (endpoint_key e) (bucket svc services))) [
    | inl absent ↦ ground (arith, absent)
    | inr (d, here) ↦
        let key = (IsKeyed-bucket svc services v).keyed (endpoint_key e) d here in
        here ∙ ap some (sym (endpoint_key-injective e d key))
  ]

  registered_of_found :
      (k : Text) (d : Endpoint)
      → Dict.lookup k (bucket svc services) ≡ some d
      → registered services svc d ≡ true
  unfolding registered
  registered_of_found k d h =
      let key = (IsKeyed-bucket svc services v).keyed k d h in
      ap (λ i. is_some (Dict.lookup i (bucket svc services))) (sym key) ∙ ap is_some h

  has_address-registered :
      registered services svc e ≡ true → has_address e (cluster_of services svc) ≡ true
  unfolding cluster_of make_cluster
  has_address-registered h =
      let found = found_of_registered h in
      let keys = Dict.keys (bucket svc services) in
      ground (
        arith,
        any-address (bucket svc services) e (sort_texts keys)
            (contains-sort_texts keys (endpoint_key e)
              ∙ contains-keys_of_lookup (endpoint_key e) (bucket svc services) found)
            found,
      )

  has_address-apart :
      ((d : Endpoint)
        → registered services svc d ≡ true
        → is_at e (make_lb_endpoint d.host (uint32 d.port)) ≡ false)
      → has_address e (cluster_of services svc) ≡ false
  unfolding cluster_of make_cluster
  has_address-apart apart = ground (
    arith,
    no-address (bucket svc services) e (sort_texts (Dict.keys (bucket svc services)))
        (λ k d h. apart d (registered_of_found k d h)),
  )

module _ (unix : ℕ) (r : Registry) (svc : Text) (e : Endpoint) (v : IsValid r.services) where
  -- The snapshot of a well-formed registry routes a service to every endpoint that is registered for
  -- it.
  pub routes_to-registered :
      registered r.services svc e ≡ true → routes_to svc e (build_locked unix r).0 ≡ true
  unfolding build_locked clusters_of route_config_of
  routes_to-registered h =
      let keys = Dict.keys r.services in
      let inside = contains-sort_texts keys svc ∙ service_of_registered r.services svc e h in
      ground (
        arith,
        any-route svc (sort_texts keys) inside,
        any-cluster r.services svc e (sort_texts keys) inside
            (has_address-registered r.services svc e v h),
      )

  -- The snapshot of a well-formed registry does not route a service to an endpoint if none that is
  -- registered for the service has its address.
  pub routes_to-apart :
      ((d : Endpoint)
        → registered r.services svc d ≡ true
        → is_at e (make_lb_endpoint d.host (uint32 d.port)) ≡ false)
      → routes_to svc e (build_locked unix r).0 ≡ false
  unfolding build_locked clusters_of route_config_of
  routes_to-apart apart = ground (
    arith,
    no-cluster r.services svc e (sort_texts (Dict.keys r.services))
        (has_address-apart r.services svc e v apart),
  )
