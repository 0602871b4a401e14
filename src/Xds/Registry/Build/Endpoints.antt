-- ===== src/Xds/Registry/Build/Endpoints.antt =====
-- internal/xds/registry.go: the endpoints of a cluster in a snapshot are those that `List` shows.
use infraforge.Base.{
  ◌≡◌, refl, ap, sym, ◌∙◌, Bool, false, Text, List, [], ◌∷◌, arith, Option, none, some, text_eq_iff,
  map, sort_texts, sort_by, insert_sorted, text_leb, All, contains,
}
use infraforge.Base.Dict
use infraforge.Base.Dict.{Dict, NodupKeys, contains-keys_of_lookup}
use infraforge.Xds.Envoy.{LbEndpoint, uint32, make_cluster, make_lb_endpoint}
use infraforge.Xds.Registry.{
  Endpoint, endpoint_key, Services, lb_endpoints_of, cluster_of, values, list,
}
use infraforge.Xds.Registry.View.{IsValid, bucket-some}

abbrev by_key : Endpoint → Endpoint → Bool
by_key a b = text_leb (endpoint_key a) (endpoint_key b)

abbrev pub lb_of : Endpoint → LbEndpoint
lb_of e = make_lb_endpoint e.host (uint32 e.port)

-- Every endpoint of the list is found under its key.
abbrev Filed : Dict Endpoint → List Endpoint → Type 0
Filed b es = All (λ e. Dict.lookup (endpoint_key e) b ≡ some e) es

insert_sorted-Filed :
    (b : Dict Endpoint) (e : Endpoint) (es : List Endpoint)
    → Filed b (e ∷ es)
    → Filed b (insert_sorted by_key e es)
unfolding insert_sorted
insert_sorted-Filed b e [] h = h
insert_sorted-Filed b e (d ∷ es) h = ground (arith, insert_sorted-Filed b e es (h.0, h.1.1))

sort_by-Filed : (b : Dict Endpoint) (es : List Endpoint) → Filed b es → Filed b (sort_by by_key es)
unfolding sort_by
sort_by-Filed b [] h = tt
sort_by-Filed b (e ∷ es) h =
    insert_sorted-Filed b e (sort_by by_key es) (h.0, sort_by-Filed b es h.1)

abbrev keys_of : List Endpoint → List Text
keys_of [] = []
keys_of (e ∷ es) = endpoint_key e ∷ keys_of es

keys_of-insert_sorted :
    (e : Endpoint) (es : List Endpoint)
    → keys_of (insert_sorted by_key e es) ≡ insert_sorted text_leb (endpoint_key e) (keys_of es)
unfolding insert_sorted
keys_of-insert_sorted e [] = refl
keys_of-insert_sorted e (d ∷ es) = ground (arith, keys_of-insert_sorted e es)

keys_of-sort_by : (es : List Endpoint) → keys_of (sort_by by_key es) ≡ sort_texts (keys_of es)
unfolding sort_texts sort_by
keys_of-sort_by [] = refl
keys_of-sort_by (e ∷ es) =
    keys_of-insert_sorted e (sort_by by_key es)
    ∙ ap (insert_sorted text_leb (endpoint_key e)) (keys_of-sort_by es)

lb_endpoints_of-Filed :
    (b : Dict Endpoint) (es : List Endpoint)
    → Filed b es
    → lb_endpoints_of b (keys_of es) ≡ map lb_of es
unfolding lb_endpoints_of
lb_endpoints_of-Filed b [] h = refl
lb_endpoints_of-Filed b (e ∷ es) h = ground (arith, lb_endpoints_of-Filed b es h.1)

weaken_Filed :
    (k : Text) (x : Endpoint) (m : Dict Endpoint) (es : List Endpoint)
    → contains (Dict.keys m) k ≡ false
    → Filed m es
    → Filed ((k, x) ∷ m) es
unfolding Dict.lookup
weaken_Filed k x m [] n h = tt
weaken_Filed k x m (e ∷ es) n h = ground (
  arith,
  weaken_Filed k x m es n h.1,
  text_eq_iff k (endpoint_key e),
  contains-keys_of_lookup (endpoint_key e) m h.0,
)

values-Filed :
    (b : Dict Endpoint)
    → NodupKeys b
    → ((k : Text) (e : Endpoint) → Dict.lookup k b ≡ some e → k ≡ endpoint_key e)
    → Filed b (values b) × (keys_of (values b) ≡ Dict.keys b)
unfolding Dict.lookup
values-Filed [] n keyed = (tt, refl)
values-Filed ((k, e) ∷ m) n keyed =
    let own : k ≡ endpoint_key e = keyed k e (ground (arith, text_eq_iff k k)) in
    let rest =
      values-Filed m n.1
        (λ j d h. keyed j d (ground (arith, text_eq_iff k j, contains-keys_of_lookup j m h))) in
    (
      ground (arith, own, text_eq_iff k (endpoint_key e), weaken_Filed k e m (values m) n.0 rest.0),
      ground (arith, own, rest.1),
    )

none-some : {eps : List Endpoint} → ◌≡◌ {A = Option (List Endpoint)} none (some eps) → ⊥
none-some e = cc

abbrev listed : Option (Dict Endpoint) → Option (List Endpoint)
listed none = none
listed (some b) = some (sort_by by_key (values b))

lookup-list :
    (svc : Text) (services : Services)
    → Dict.lookup svc (list services) ≡ listed (Dict.lookup svc services)
unfolding list Dict.lookup
lookup-list svc [] = refl
lookup-list svc ((j, b) ∷ services) = ground (arith, lookup-list svc services)

-- In a well-formed registry the cluster of a service that `List` shows has the endpoints that `List`
-- shows, in that order.
pub cluster_of-list :
    (services : Services) (svc : Text) (eps : List Endpoint)
    → IsValid services
    → Dict.lookup svc (list services) ≡ some eps
    → cluster_of services svc ≡ make_cluster svc (map lb_of eps)
unfolding cluster_of
cluster_of-list services svc eps v h = split (Dict.lookup svc services) refl
  where
    split :
        (o : Option (Dict Endpoint))
        → Dict.lookup svc services ≡ o
        → cluster_of services svc ≡ make_cluster svc (map lb_of eps)
    split none e = absurd (none-some (ap listed (sym e) ∙ sym (lookup-list svc services) ∙ h))
    split (some b) e =
        let i = v.buckets svc b e in
        let (filed, same) = values-Filed b i.nodup i.keyed in
        let sorted = sort_by by_key (values b) in
        let shown : sorted ≡ eps = ground (arith, lookup-list svc services) in
        ap (make_cluster svc) (
          rw (bucket-some svc services b e) (
            ap (λ ks. lb_endpoints_of b ks)
              (ap sort_texts (sym same) ∙ sym (keys_of-sort_by (values b)))
            ∙ lb_endpoints_of-Filed b sorted (sort_by-Filed b (values b) filed)
            ∙ ap (map lb_of) shown))
