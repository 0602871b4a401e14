-- ===== src/Xds/Registry/Build.antt =====
-- internal/xds/registry.go: what `buildLocked` puts into a snapshot.
pub mod Endpoints
pub mod Routing
use mathlib.Core.Path.{fun_ext}
use infraforge.Base.{
  ℕ, suc, ◌≡◌, ◌≢◌, refl, ap, sym, ◌∙◌, Bool, true, false, Text, List, [], ◌∷◌, arith, Option, none,
  some, text_eq, text_eq_iff, if◌then◌else◌, inl, inr, Bool-cases, Option-cases, contains,
  NodupTexts, map, sort_texts, sort_texts-IsSorted, sort_texts-NodupTexts, contains-sort_texts,
  sorted_unique, Bool-ext, Includes, IsSorted, text_leb,
}
use infraforge.Base.Dict
use infraforge.Base.Dict.{Dict, lookup_of_contains-keys, contains-keys_of_lookup, lookup-absent}
use infraforge.Xds.Envoy.{
  Cluster, Route, RouteConfiguration, VirtualHost, make_cluster, make_prefix_route, make_listener,
}
use infraforge.Xds.Registry.{
  Endpoint, endpoint_key, Services, Registry, bucket, lb_endpoints_of, cluster_of, clusters_of,
  route_config_of,
}
use infraforge.Xds.Registry.Key.{endpoint_key-injective}
use infraforge.Xds.Registry.View.{
  is_some, registered, IsKeyed, IsKeyed-bucket, IsBucket, IsValid, bucket-some,
}
use infraforge.Xds.Registry.Replace.{contains-keys}
use infraforge.Xds.Registry.Replace.Complete.{
  some_endpoint, service_of_registered, registered-contains,
}

-- The keys of two maps with the same keys are the same list once sorted.
sort_same :
    (xs ys : List Text)
    → NodupTexts xs
    → NodupTexts ys
    → ((k : Text) → contains xs k ≡ contains ys k)
    → sort_texts xs ≡ sort_texts ys
sort_same xs ys nx ny same =
    sorted_unique (sort_texts xs) (sort_texts ys) (sort_texts-IsSorted xs) (sort_texts-IsSorted ys)
      (sort_texts-NodupTexts xs nx) (sort_texts-NodupTexts ys ny)
      λ k. contains-sort_texts xs k ∙ same k ∙ sym (contains-sort_texts ys k)

lb_endpoints_of-same :
    (b c : Dict Endpoint) (ks : List Text)
    → ((k : Text) → Dict.lookup k b ≡ Dict.lookup k c)
    → lb_endpoints_of b ks ≡ lb_endpoints_of c ks
unfolding lb_endpoints_of
lb_endpoints_of-same b c [] same = refl
lb_endpoints_of-same b c (k ∷ ks) same = ground (arith, same k, lb_endpoints_of-same b c ks same)

module _ (s t : Services) (vs : IsValid s) (vt : IsValid t)
    (same : (svc : Text) (e : Endpoint) → registered s svc e ≡ registered t svc e) where
  services_from : Includes (Dict.keys s) (Dict.keys t)
  services_from svc m =
      let (b, here) = lookup_of_contains-keys svc s m in
      let (e, inside) = some_endpoint b (vs.buckets svc b here) in
      service_of_registered t svc e (
        sym (same svc e)
        ∙ registered-contains s svc e
        ∙ ap (λ (c : Dict Endpoint). contains (Dict.keys c) (endpoint_key e))
            (bucket-some svc s b here)
        ∙ inside)

  bucket_from :
      (svc k : Text) (e : Endpoint)
      → Dict.lookup k (bucket svc s) ≡ some e
      → Dict.lookup k (bucket svc t) ≡ some e
  unfolding registered
  bucket_from svc k e h =
      let key = (IsKeyed-bucket svc s vs).keyed k e h in
      elim (Option-cases (Dict.lookup k (bucket svc t))) [
        | inl absent ↦ ground (arith, same svc e, key)
        | inr (d, here) ↦
            ground
              (arith, key, (IsKeyed-bucket svc t vt).keyed k d here, endpoint_key-injective d e)
      ]

Option-ext {ℓ} :
    {A : Type ℓ} (o p : Option A)
    → ((a : A) → o ≡ some a → p ≡ some a)
    → ((a : A) → p ≡ some a → o ≡ some a)
    → o ≡ p
Option-ext none none f g = refl
Option-ext none (some a) f g = g a refl
Option-ext (some a) p f g = sym (f a refl)

module _ (s t : Services) (vs : IsValid s) (vt : IsValid t)
    (same : (svc : Text) (e : Endpoint) → registered s svc e ≡ registered t svc e) where
  services_sorted : sort_texts (Dict.keys s) ≡ sort_texts (Dict.keys t)
  services_sorted = sort_same (Dict.keys s) (Dict.keys t) vs.nodup vt.nodup λ k.
      Bool-ext _ _ (services_from s t vs vt same k)
        (services_from t s vt vs (λ svc e. sym (same svc e)) k)

  bucket_same : (svc k : Text) → Dict.lookup k (bucket svc s) ≡ Dict.lookup k (bucket svc t)
  bucket_same svc k =
      Option-ext _ _ (bucket_from s t vs vt same svc k)
        (bucket_from t s vt vs (λ svc e. sym (same svc e)) svc k)

  cluster_same : (svc : Text) → cluster_of s svc ≡ cluster_of t svc
  unfolding cluster_of
  cluster_same svc =
      let keys_sorted =
        sort_same (Dict.keys (bucket svc s)) (Dict.keys (bucket svc t))
          (IsKeyed-bucket svc s vs).nodup (IsKeyed-bucket svc t vt).nodup
          (λ k.
            contains-keys k (bucket svc s)
            ∙ ap is_some (bucket_same svc k)
            ∙ sym (contains-keys k (bucket svc t))) in
      ap (make_cluster svc) (
        lb_endpoints_of-same (bucket svc s) (bucket svc t) (sort_texts (Dict.keys (bucket svc s)))
          (bucket_same svc)
        ∙ ap (lb_endpoints_of (bucket svc t)) keys_sorted)

  -- Two well-formed registries with the same registered pairs have equal clusters and routes: the
  -- order in which the pairs came, or in which Go visits a map, has no influence.
  pub build_deterministic :
      (clusters_of s ≡ clusters_of t) × (route_config_of s ≡ route_config_of t)
  unfolding clusters_of route_config_of
  build_deterministic = (
    ap (λ f. map f (sort_texts (Dict.keys s))) (fun_ext cluster_same)
        ∙ ap (map (cluster_of t)) services_sorted,
    rw services_sorted,
  )

abbrev pub cluster_name : Cluster → Text
cluster_name c = c.name

abbrev pub route_target : Route → Text
route_target r = r.cluster

names_of_clusters : (s : Services) (ks : List Text) → map cluster_name (map (cluster_of s) ks) ≡ ks
unfolding cluster_of make_cluster
names_of_clusters s [] = refl
names_of_clusters s (k ∷ ks) = ap (λ l. k ∷ l) (names_of_clusters s ks)

targets_of_routes : (ks : List Text) → map route_target (map make_prefix_route ks) ≡ ks
unfolding make_prefix_route
targets_of_routes [] = refl
targets_of_routes (k ∷ ks) = ap (λ l. k ∷ l) (targets_of_routes ks)

abbrev pub first_routes : List VirtualHost → List Route
first_routes [] = []
first_routes (h ∷ hs) = h.routes

abbrev pub routes_of : RouteConfiguration → List Route
routes_of c = first_routes c.virtual_hosts

-- The clusters are named after the services of the registry, each once and in sorted order, and the
-- routes lead to the same names in the same order.
pub build_aligned :
    (s : Services)
    → IsValid s
    → let names = map cluster_name (clusters_of s) in
      (names ≡ map route_target (routes_of (route_config_of s)))
      × NodupTexts names
      × IsSorted text_leb names
      × ((svc : Text) → contains names svc ≡ contains (Dict.keys s) svc)
unfolding clusters_of route_config_of
build_aligned s v =
    let ks = sort_texts (Dict.keys s) in
    (
      names_of_clusters s ks ∙ sym (targets_of_routes ks),
      rw (names_of_clusters s ks) (sort_texts-NodupTexts (Dict.keys s) v.nodup),
      rw (names_of_clusters s ks) (sort_texts-IsSorted (Dict.keys s)),
      λ svc. rw (names_of_clusters s ks) (contains-sort_texts (Dict.keys s) svc),
    )
