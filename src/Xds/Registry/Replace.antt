-- ===== src/Xds/Registry/Replace.antt =====
-- internal/xds/registry.go: `ReplaceAll` makes the registry hold exactly the desired pairs.
pub mod Equal
pub mod Complete
pub mod Exact
use infraforge.Base.{
  ℕ, suc, ◌≡◌, ◌≢◌, refl, ap, sym, ◌∙◌, subst, Bool, true, false, ◌&&◌, ◌||◌, Text, List, [], ◌∷◌,
  arith, Option, none, some, text_eq, text_eq_iff, if◌then◌else◌, length, ◌==◌, inl, inr,
  Bool-cases, Option-cases, contains, NodupTexts, Bool-ext,
}
use infraforge.Base.Dict
use infraforge.Base.Dict.{
  Dict, NodupKeys, lookup-insert, insert-NodupKeys, lookup-absent, contains-keys_of_lookup,
  lookup_of_contains-keys,
}
use infraforge.Xds.Registry.{
  Endpoint, endpoint_key, Services, Registry, bucket, bucket_or_empty, build_locked, bucket_of,
  services_of,
}
use infraforge.Xds.Registry.View.{
  is_some, registered, IsKeyed, IsKeyed-nil, IsBucket, IsValid, insert-IsBucket, insert-IsValid,
}

abbrev pub endpoint_keys : List Endpoint → List Text
endpoint_keys [] = []
endpoint_keys (e ∷ es) = endpoint_key e ∷ endpoint_keys es

abbrev pub list_or_empty : Option (List Endpoint) → List Endpoint
list_or_empty none = []
list_or_empty (some l) = l

-- The desired map asks for the endpoint under the service.
unfoldable pub wanted : Dict (List Endpoint) → Text → Endpoint → Bool
wanted desired svc e =
    contains (endpoint_keys (list_or_empty (Dict.lookup svc desired))) (endpoint_key e)

-- A Go map whose lists are not empty.
pub record IsDesired (desired : Dict (List Endpoint)) : Type 0 where
  pub nodup : NodupKeys desired
  pub nonempty : (svc : Text) (l : List Endpoint) → Dict.lookup svc desired ≡ some l → l ≢ []

pub contains-keys :
    (k : Text) (b : Dict Endpoint) → contains (Dict.keys b) k ≡ is_some (Dict.lookup k b)
unfolding Dict.lookup
contains-keys k [] = refl
contains-keys k ((j, e) ∷ b) = ground (arith, contains-keys k b)

is_some-bucket_of :
    (k : Text) (es : List Endpoint) (b : Dict Endpoint)
    → is_some (Dict.lookup k (bucket_of es b))
      ≡ (contains (endpoint_keys es) k || is_some (Dict.lookup k b))
unfolding bucket_of
is_some-bucket_of k [] b = refl
is_some-bucket_of k (e ∷ es) b = ground (
  arith,
  is_some-bucket_of k es (Dict.insert (endpoint_key e) e b),
  lookup-insert (endpoint_key e) k e b,
)

bucket_of-IsKeyed :
    (es : List Endpoint) (b : Dict Endpoint) → IsBucket b → IsBucket (bucket_of es b)
unfolding bucket_of
bucket_of-IsKeyed [] b h = h
bucket_of-IsKeyed (e ∷ es) b h =
    bucket_of-IsKeyed es (Dict.insert (endpoint_key e) e b)
      (insert-IsBucket e b (record { nodup = h.nodup; keyed = h.keyed }))

bucket_of-IsBucket : (es : List Endpoint) → es ≢ [] → IsBucket (bucket_of es [])
unfolding bucket_of
bucket_of-IsBucket [] h = absurd (h refl)
bucket_of-IsBucket (e ∷ es) h =
    bucket_of-IsKeyed es (Dict.insert (endpoint_key e) e []) (insert-IsBucket e [] IsKeyed-nil)

abbrev bucket_or : Option (List Endpoint) → Option (Dict Endpoint) → Option (Dict Endpoint)
bucket_or none old = old
bucket_or (some l) old = some (bucket_of l [])

lookup-services_of :
    (svc : Text) (desired : Dict (List Endpoint)) (services : Services)
    → NodupKeys desired
    → Dict.lookup svc (services_of desired services)
      ≡ bucket_or (Dict.lookup svc desired) (Dict.lookup svc services)
unfolding services_of Dict.lookup
lookup-services_of svc [] services n = refl
lookup-services_of svc ((j, l) ∷ desired) services n =
    lookup-services_of svc desired (Dict.insert j (bucket_of l []) services) n.1
    ∙ elim (Bool-cases (text_eq j svc)) [
      | inl same ↦ ground (
        arith,
        lookup-insert j svc (bucket_of l []) services,
        text_eq_iff j svc,
        lookup-absent svc desired,
      )
      | inr differ ↦ ground (arith, lookup-insert j svc (bucket_of l []) services)
    ]

services_of-NodupKeys :
    (desired : Dict (List Endpoint)) (services : Services)
    → NodupKeys services
    → NodupKeys (services_of desired services)
unfolding services_of
services_of-NodupKeys [] services n = n
services_of-NodupKeys ((svc, l) ∷ desired) services n =
    services_of-NodupKeys desired (Dict.insert svc (bucket_of l []) services)
      (insert-NodupKeys svc (bucket_of l []) services n)

lookup_nil :
    (svc k : Text)
    → is_some (Dict.lookup k (bucket_or_empty (Dict.lookup {V = Dict Endpoint} svc []))) ≡ false
unfolding Dict.lookup
lookup_nil svc k = refl

is_some-bucket_of_nil :
    (k : Text) (l : List Endpoint)
    → is_some (Dict.lookup k (bucket_of l [])) ≡ contains (endpoint_keys l) k
unfolding Dict.lookup
is_some-bucket_of_nil k l = ground (arith, is_some-bucket_of k l [])

absent_none : (svc : Text) (b : Dict Endpoint) → Dict.lookup svc [] ≢ some b
unfolding Dict.lookup
absent_none svc b e = cc

-- The registry that `ReplaceAll` installs holds exactly the desired pairs.
pub registered-services_of :
    (desired : Dict (List Endpoint)) (svc : Text) (e : Endpoint)
    → NodupKeys desired
    → registered (services_of desired []) svc e ≡ wanted desired svc e
unfolding registered wanted bucket
registered-services_of desired svc e n =
    rw (lookup-services_of svc desired [] n) (split (Dict.lookup svc desired))
  where
    split :
        (o : Option (List Endpoint))
        → is_some
            (Dict.lookup (endpoint_key e) (bucket_or_empty (bucket_or o (Dict.lookup svc []))))
          ≡ contains (endpoint_keys (list_or_empty o)) (endpoint_key e)
    split none = lookup_nil svc (endpoint_key e)
    split (some l) = is_some-bucket_of_nil (endpoint_key e) l

lookup-bucket_or :
    (svc : Text) (desired : Dict (List Endpoint)) (b : Dict Endpoint)
    → NodupKeys desired
    → Dict.lookup svc (services_of desired []) ≡ some b
    → (l : List Endpoint) × (Dict.lookup svc desired ≡ some l) × (b ≡ bucket_of l [])
lookup-bucket_or svc desired b n h = split (Dict.lookup svc desired) refl
  where
    split :
        (o : Option (List Endpoint))
        → Dict.lookup svc desired ≡ o
        → (l : List Endpoint) × (Dict.lookup svc desired ≡ some l) × (b ≡ bucket_of l [])
    split none e = absurd (
        absent_none svc b (
          sym (lookup-services_of svc desired [] n ∙ ap (λ o. bucket_or o (Dict.lookup svc [])) e)
          ∙ h))
    split (some l) e = (l, e, ground (arith, lookup-services_of svc desired [] n))

pub services_of-IsValid :
    (desired : Dict (List Endpoint)) → IsDesired desired → IsValid (services_of desired [])
services_of-IsValid desired d = record {
  nodup = services_of-NodupKeys desired [] tt;
  buckets = λ svc b p.
      let (l, here, e) = lookup-bucket_or svc desired b d.nodup p in
      subst IsBucket (sym e) (bucket_of-IsBucket l (d.nonempty svc l here));
}
