-- ===== src/Xds/Registry/Replace/Equal.antt =====
-- internal/xds/registry.go: `equalLocked` decides whether a registry holds exactly the desired
-- pairs, provided that no desired list names an endpoint twice.
use infraforge.Base.{
  ℕ, suc, ◌≡◌, ◌≢◌, refl, ap, sym, ◌∙◌, true, false, Text, List, [], ◌∷◌, arith, none, some,
  text_eq_iff, length, inl, inr, Bool-cases, Option-cases, contains, NodupTexts, Bool-ext, Includes,
  Includes-of_length,
}
use infraforge.Base.Dict
use infraforge.Base.Dict.{
  Dict, NodupKeys, lookup-absent, contains-keys_of_lookup, lookup_of_contains-keys,
}
use infraforge.Xds.Registry.{
  Endpoint, endpoint_key, Services, bucket, all_present, equal_buckets, equal_locked,
}
use infraforge.Xds.Registry.View.{is_some, registered, IsValid}
use infraforge.Xds.Registry.Replace.{endpoint_keys, wanted, IsDesired, contains-keys}

-- No desired list names an endpoint twice.
abbrev pub NodupLists : Dict (List Endpoint) → Type 0
NodupLists desired =
    (svc : Text) (l : List Endpoint)
    → Dict.lookup svc desired ≡ some l
    → NodupTexts (endpoint_keys l)

all_present-Includes :
    (b : Dict Endpoint) (l : List Endpoint)
    → all_present b l ≡ true
    → Includes (endpoint_keys l) (Dict.keys b)
unfolding all_present
all_present-Includes b [] h k m = cc
all_present-Includes b (e ∷ l) h k m = ground (
  arith,
  all_present-Includes b l (ground arith) k,
  contains-keys (endpoint_key e) b,
  text_eq_iff (endpoint_key e) k,
)

pub all_present_of_Includes :
    (b : Dict Endpoint) (l : List Endpoint)
    → Includes (endpoint_keys l) (Dict.keys b)
    → all_present b l ≡ true
unfolding all_present
all_present_of_Includes b [] inc = refl
all_present_of_Includes b (e ∷ l) inc = ground (
  arith,
  all_present_of_Includes b l (λ k m. inc k (ground (arith, text_eq_iff (endpoint_key e) k))),
  inc (endpoint_key e),
  contains-keys (endpoint_key e) b,
  text_eq_iff (endpoint_key e) (endpoint_key e),
)

pub length-keys {ℓ} : {V : Type ℓ} (m : Dict V) → length (Dict.keys m) ≡ length m
length-keys [] = refl
length-keys ((k, v) ∷ m) = ap suc (length-keys m)

pub length-endpoint_keys : (l : List Endpoint) → length (endpoint_keys l) ≡ length l
length-endpoint_keys [] = refl
length-endpoint_keys (e ∷ l) = ap suc (length-endpoint_keys l)

-- What the loop has checked of each desired service.
equal_buckets-at :
    (services : Services) (desired : Dict (List Endpoint)) (svc : Text) (l : List Endpoint)
    → equal_buckets services desired ≡ true
    → Dict.lookup svc desired ≡ some l
    → (length (bucket svc services) ≡ length l) × (all_present (bucket svc services) l ≡ true)
unfolding equal_buckets Dict.lookup
equal_buckets-at services [] svc l h p = cc
equal_buckets-at services ((j, m) ∷ desired) svc l h p =
    ground (arith, text_eq_iff j svc, equal_buckets-at services desired svc l)

pub equal_buckets_intro :
    (services : Services) (desired : Dict (List Endpoint))
    → NodupKeys desired
    → ((svc : Text) (l : List Endpoint)
        → Dict.lookup svc desired ≡ some l
        → (length (bucket svc services) ≡ length l) × (all_present (bucket svc services) l ≡ true))
    → equal_buckets services desired ≡ true
unfolding equal_buckets Dict.lookup
equal_buckets_intro services [] n at = refl
equal_buckets_intro services ((j, m) ∷ desired) n at = ground (
  arith,
  at j m,
  text_eq_iff j j,
  equal_buckets_intro services desired n.1 (λ svc l p.
      at svc l (ground (arith, text_eq_iff j svc, contains-keys_of_lookup svc desired {v = l}))),
)

equal_locked-parts :
    (services : Services) (desired : Dict (List Endpoint))
    → equal_locked services desired ≡ true
    → (length services ≡ length desired) × (equal_buckets services desired ≡ true)
unfolding equal_locked
equal_locked-parts services desired h = ground arith

no_bucket :
    (svc : Text) (services : Services) (n : ℕ)
    → Dict.lookup svc services ≡ none
    → length (bucket svc services) ≢ suc n
unfolding bucket
no_bucket svc services n h e = ground arith

absent_is_some :
    (svc : Text) (e : Endpoint) (services : Services)
    → Dict.lookup svc services ≡ none
    → is_some (Dict.lookup (endpoint_key e) (bucket svc services)) ≡ false
unfolding bucket Dict.lookup
absent_is_some svc e services h = rw h

pub length_of_nonempty {ℓ} : {A : Type ℓ} (l : List A) → l ≢ [] → (n : ℕ) × (length l ≡ suc n)
length_of_nonempty [] h = absurd (h refl)
length_of_nonempty (x ∷ l) h = (length l, refl)

-- A service whose bucket is not empty is there.
contains_of_bucket :
    (svc : Text) (services : Services) (n : ℕ)
    → length (bucket svc services) ≡ suc n
    → contains (Dict.keys services) svc ≡ true
contains_of_bucket svc services n h = elim (Bool-cases (contains (Dict.keys services) svc)) [
  | inl here ↦ here
  | inr absent ↦ absurd (no_bucket svc services n (lookup-absent svc services absent) h)
]

module _ (services : Services) (desired : Dict (List Endpoint)) (d : IsDesired desired) where
  Includes-services :
      equal_buckets services desired ≡ true → Includes (Dict.keys desired) (Dict.keys services)
  Includes-services h svc m =
      let (l, here) = lookup_of_contains-keys svc desired m in
      let at = equal_buckets-at services desired svc l h here in
      let (n, long) = length_of_nonempty l (d.nonempty svc l here) in
      contains_of_bucket svc services n (at.0 ∙ long)

  module _ (v : IsValid services) (distinct : NodupLists desired) where
    equal_locked-sound_at :
        (svc : Text) (e : Endpoint) (l : List Endpoint)
        → equal_locked services desired ≡ true
        → Dict.lookup svc desired ≡ some l
        → contains (Dict.keys (bucket svc services)) (endpoint_key e)
          ≡ contains (endpoint_keys l) (endpoint_key e)
    equal_locked-sound_at svc e l h p =
        let b = bucket svc services in
        let at =
          equal_buckets-at services desired svc l (equal_locked-parts services desired h).1 p in
        let inc = all_present-Includes b l at.1 in
        Bool-ext _ _
          (Includes-of_length (endpoint_keys l) (Dict.keys b) (distinct svc l p) inc
            (omega (arith, at.0, length-keys b, length-endpoint_keys l)) (endpoint_key e))
          (inc (endpoint_key e))

    equal_locked-sound_absent :
        (svc : Text)
        → equal_locked services desired ≡ true
        → Dict.lookup svc desired ≡ none
        → Dict.lookup svc services ≡ none
    equal_locked-sound_absent svc h p = elim (Bool-cases (contains (Dict.keys services) svc)) [
      | inl here ↦
          let (long, loop) = equal_locked-parts services desired h in
          let back =
            Includes-of_length (Dict.keys desired) (Dict.keys services) d.nodup
              (Includes-services loop)
              (omega (arith, long, length-keys services, length-keys desired)) in
          let (l, q) = lookup_of_contains-keys svc desired (back svc here) in cc (p, q)
      | inr absent ↦ lookup-absent svc services absent
    ]

    -- Where `equalLocked` says yes, the registry holds exactly the desired pairs.
    pub equal_locked_sound :
        (svc : Text) (e : Endpoint)
        → equal_locked services desired ≡ true
        → registered services svc e ≡ wanted desired svc e
    unfolding registered wanted
    equal_locked_sound svc e h = elim (Option-cases (Dict.lookup svc desired)) [
      | inl absent ↦
          rw absent (absent_is_some svc e services (equal_locked-sound_absent svc h absent))
      | inr (l, here) ↦ rw here (
          sym (contains-keys (endpoint_key e) (bucket svc services))
          ∙ equal_locked-sound_at svc e l h here)
    ]
