-- ===== src/Xds/Registry/Replace/Complete.antt =====
-- internal/xds/registry.go: `equalLocked` says yes of every registry that holds exactly the desired
-- pairs.
use infraforge.Base.{
  ◌≡◌, ◌≢◌, refl, ap, sym, ◌∙◌, true, Text, List, [], ◌∷◌, arith, some, text_eq, text_eq_iff,
  length, inl, inr, Bool-cases, Option-cases, contains, Includes, Includes-length,
}
use infraforge.Base.Dict
use infraforge.Base.Dict.{Dict, contains-keys_of_lookup, lookup_of_contains-keys}
use infraforge.Xds.Registry.{Endpoint, endpoint_key, Services, bucket, equal_locked}
use infraforge.Xds.Registry.View.{registered, IsKeyed-bucket, IsBucket, IsValid, bucket-some}
use infraforge.Xds.Registry.Replace.{endpoint_keys, wanted, IsDesired, contains-keys}
use infraforge.Xds.Registry.Replace.Equal.{
  NodupLists, length-keys, length-endpoint_keys, all_present_of_Includes, equal_buckets_intro,
}

endpoint_keys-mem :
    (l : List Endpoint) (k : Text)
    → contains (endpoint_keys l) k ≡ true
    → (e : Endpoint) × (endpoint_key e ≡ k)
endpoint_keys-mem [] k h = cc
endpoint_keys-mem (e ∷ l) k h = elim (Bool-cases (text_eq (endpoint_key e) k)) [
  | inl same ↦ (e, (text_eq_iff _ _).0 same)
  | inr differ ↦ endpoint_keys-mem l k (ground arith)
]

head_present :
    (e : Endpoint) (l : List Endpoint) → contains (endpoint_keys (e ∷ l)) (endpoint_key e) ≡ true
head_present e l = ground (arith, text_eq_iff (endpoint_key e) (endpoint_key e))

pub registered-contains :
    (services : Services) (svc : Text) (e : Endpoint)
    → registered services svc e ≡ contains (Dict.keys (bucket svc services)) (endpoint_key e)
unfolding registered
registered-contains services svc e = sym (contains-keys (endpoint_key e) (bucket svc services))

wanted_of :
    (desired : Dict (List Endpoint)) (svc : Text) (e : Endpoint) (l : List Endpoint)
    → Dict.lookup svc desired ≡ some l
    → wanted desired svc e ≡ contains (endpoint_keys l) (endpoint_key e)
unfolding wanted
wanted_of desired svc e l h = rw h

pub service_of_registered :
    (services : Services) (svc : Text) (e : Endpoint)
    → registered services svc e ≡ true
    → contains (Dict.keys services) svc ≡ true
unfolding registered bucket Dict.lookup
service_of_registered services svc e h = elim (Option-cases (Dict.lookup svc services)) [
  | inl absent ↦ ground arith
  | inr (b, here) ↦ contains-keys_of_lookup svc services here
]

service_of_wanted :
    (desired : Dict (List Endpoint)) (svc : Text) (e : Endpoint)
    → wanted desired svc e ≡ true
    → contains (Dict.keys desired) svc ≡ true
unfolding wanted
service_of_wanted desired svc e h = elim (Option-cases (Dict.lookup svc desired)) [
  | inl absent ↦ ground arith
  | inr (l, here) ↦ contains-keys_of_lookup svc desired here
]

-- A bucket in a well-formed registry has an endpoint.
pub some_endpoint :
    (b : Dict Endpoint)
    → IsBucket b
    → (e : Endpoint) × (contains (Dict.keys b) (endpoint_key e) ≡ true)
unfolding Dict.lookup
some_endpoint [] i = absurd (i.nonempty refl)
some_endpoint ((k, e) ∷ b) i =
    (e, ground (arith, i.keyed k e, text_eq_iff k k, text_eq_iff k (endpoint_key e)))

module _ (services : Services) (desired : Dict (List Endpoint)) (v : IsValid services)
    (d : IsDesired desired)
    (same : (svc : Text) (e : Endpoint) → registered services svc e ≡ wanted desired svc e) where
  desired-Includes : Includes (Dict.keys desired) (Dict.keys services)
  desired-Includes svc m =
      let (l, here) = lookup_of_contains-keys svc desired m in
      first svc l here (d.nonempty svc l here)
    where
      first :
          (svc : Text) (l : List Endpoint)
          → Dict.lookup svc desired ≡ some l
          → l ≢ []
          → contains (Dict.keys services) svc ≡ true
      first svc [] p h = absurd (h refl)
      first svc (e ∷ l) p h =
          service_of_registered services svc e
            (same svc e ∙ wanted_of desired svc e (e ∷ l) p ∙ head_present e l)

  services-Includes : Includes (Dict.keys services) (Dict.keys desired)
  services-Includes svc m =
      let (b, here) = lookup_of_contains-keys svc services m in
      let (e, inside) = some_endpoint b (v.buckets svc b here) in
      service_of_wanted desired svc e (
        sym (same svc e)
        ∙ registered-contains services svc e
        ∙ ap (λ (b : Dict Endpoint). contains (Dict.keys b) (endpoint_key e))
            (bucket-some svc services b here)
        ∙ inside)

  bucket-Includes :
      (svc : Text) (l : List Endpoint)
      → Dict.lookup svc desired ≡ some l
      → Includes (endpoint_keys l) (Dict.keys (bucket svc services))
  bucket-Includes svc l p k m =
      let (e, key) = endpoint_keys-mem l k m in
      rw (← key) (
        sym (registered-contains services svc e)
        ∙ same svc e
        ∙ wanted_of desired svc e l p
        ∙ rw key m)

  list-Includes :
      (svc : Text) (l : List Endpoint)
      → Dict.lookup svc desired ≡ some l
      → Includes (Dict.keys (bucket svc services)) (endpoint_keys l)
  list-Includes svc l p k m =
      let (e, here) = lookup_of_contains-keys k (bucket svc services) m in
      let key = (IsKeyed-bucket svc services v).keyed k e here in
      rw key (
        sym (wanted_of desired svc e l p)
        ∙ sym (same svc e)
        ∙ registered-contains services svc e
        ∙ rw (← key) m)

  -- A registry that holds exactly the desired pairs is found equal.
  pub equal_locked_complete : NodupLists desired → equal_locked services desired ≡ true
  unfolding equal_locked
  equal_locked_complete distinct =
      let long : length services ≡ length desired = omega (
        arith,
        length-keys services,
        length-keys desired,
        Includes-length (Dict.keys desired) (Dict.keys services) d.nodup desired-Includes,
        Includes-length (Dict.keys services) (Dict.keys desired) v.nodup services-Includes,
      ) in
      let loop = equal_buckets_intro services desired d.nodup (λ svc l p. (
        omega (
          arith,
          length-endpoint_keys l,
          length-keys (bucket svc services),
          Includes-length (endpoint_keys l) (Dict.keys (bucket svc services)) (distinct svc l p)
              (bucket-Includes svc l p),
          Includes-length (Dict.keys (bucket svc services)) (endpoint_keys l)
              (IsKeyed-bucket svc services v).nodup (list-Includes svc l p),
        ),
        all_present_of_Includes (bucket svc services) l (bucket-Includes svc l p),
      )) in
      ground (arith, long, loop)
