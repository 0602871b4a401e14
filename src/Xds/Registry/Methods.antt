-- ===== src/Xds/Registry/Methods.antt =====
-- internal/xds/registry.go: `Register` and `Unregister` keep a registry well formed, and add or
-- remove one (service, endpoint) pair.
use infraforge.Base.{
  ℕ, ◌≡◌, refl, ap, true, false, ◌&&◌, Text, [], ◌∷◌, arith, Option, none, some, text_eq,
  text_eq_iff, if◌then◌else◌, length, ◌==◌, inl, inr, Bool-cases,
}
use infraforge.Base.Dict
use infraforge.Base.Dict.{Dict, lookup-insert, lookup-erase, erase-NodupKeys, insert-NodupKeys}
use infraforge.Xds.Registry.{
  Endpoint, endpoint_key, Services, Registry, bucket, build_locked, register_locked, drop_endpoint,
  unregister_locked,
}
use infraforge.Xds.Registry.Key.{endpoint_eq}
use infraforge.Xds.Registry.View.{
  registered, IsBucket, IsValid, insert-IsBucket, IsKeyed-bucket, insert-IsValid,
}

-- Registering keeps the registry well formed.
pub register_locked-IsValid :
    (unix : ℕ) (svc : Text) (e : Endpoint) (r : Registry)
    → IsValid r.services
    → IsValid (register_locked unix svc e r).1.services
unfolding register_locked build_locked
register_locked-IsValid unix svc e r v =
    insert-IsValid svc (Dict.insert (endpoint_key e) e (bucket svc r.services)) r.services
      (insert-IsBucket e (bucket svc r.services) (IsKeyed-bucket svc r.services v)) v

-- After `Register(svc, e)` that pair is registered, and every other pair is as it was.
pub registered-register_locked :
    (unix : ℕ) (svc j : Text) (e d : Endpoint) (r : Registry)
    → registered (register_locked unix svc e r).1.services j d
      ≡ (if text_eq svc j && endpoint_eq e d then true else registered r.services j d)
unfolding registered register_locked build_locked bucket
registered-register_locked unix svc j e d r = ground (
  arith,
  lookup-insert svc j (Dict.insert (endpoint_key e) e (bucket svc r.services)) r.services,
  lookup-insert (endpoint_key e) (endpoint_key d) e (bucket svc r.services),
  text_eq_iff svc j,
)

length-eq-zero : (b : Dict Endpoint) → (length b == 0) ≡ true → b ≡ []
length-eq-zero [] h = refl
length-eq-zero (x ∷ b) h = ground arith

erase-IsBucket :
    (e : Endpoint) (b : Dict Endpoint)
    → IsBucket b
    → (length (Dict.erase (endpoint_key e) b) == 0) ≡ false
    → IsBucket (Dict.erase (endpoint_key e) b)
erase-IsBucket e b i h = record {
  nodup = erase-NodupKeys (endpoint_key e) b i.nodup;
  keyed = λ k d p. ground (arith, lookup-erase (endpoint_key e) k b i.nodup, i.keyed k d);
  nonempty = λ p. cc (ap (λ (m : Dict Endpoint). length m == 0) p);
}

erase-IsValid :
    (svc : Text) (services : Services) → IsValid services → IsValid (Dict.erase svc services)
erase-IsValid svc services v = record {
  nodup = erase-NodupKeys svc services v.nodup;
  buckets = λ j b p. v.buckets j b (ground (arith, lookup-erase svc j services v.nodup));
}

drop_endpoint-IsValid :
    (svc : Text) (e : Endpoint) (o : Option (Dict Endpoint)) (services : Services)
    → IsValid services
    → Dict.lookup svc services ≡ o
    → IsValid (drop_endpoint svc e o services)
unfolding drop_endpoint
drop_endpoint-IsValid svc e none services v h = v
drop_endpoint-IsValid svc e (some b) services v h =
    elim (Bool-cases (length (Dict.erase (endpoint_key e) b) == 0)) [
      | inl empty ↦ rw empty (erase-IsValid svc services v)
      | inr kept ↦ rw kept (
          insert-IsValid svc (Dict.erase (endpoint_key e) b) services
            (erase-IsBucket e b (v.buckets svc b h) kept) v)
    ]

-- Unregistering keeps the registry well formed; in particular it leaves no empty bucket.
pub unregister_locked-IsValid :
    (unix : ℕ) (svc : Text) (e : Endpoint) (r : Registry)
    → IsValid r.services
    → IsValid (unregister_locked unix svc e r).1.services
unfolding unregister_locked build_locked
unregister_locked-IsValid unix svc e r v = drop_endpoint-IsValid svc e _ r.services v refl

registered-drop_endpoint :
    (svc j : Text) (e d : Endpoint) (o : Option (Dict Endpoint)) (services : Services)
    → IsValid services
    → Dict.lookup svc services ≡ o
    → registered (drop_endpoint svc e o services) j d
      ≡ (if text_eq svc j && endpoint_eq e d then false else registered services j d)
unfolding registered drop_endpoint bucket Dict.lookup
registered-drop_endpoint svc j e d none services v h = ground (arith, text_eq_iff svc j)
registered-drop_endpoint svc j e d (some b) services v h =
    let gone = lookup-erase (endpoint_key e) (endpoint_key d) b (v.buckets svc b h).nodup in
    elim (Bool-cases (length (Dict.erase (endpoint_key e) b) == 0)) [
      | inl empty ↦ rw empty (
          ground (
            arith,
            lookup-erase svc j services v.nodup,
            text_eq_iff svc j,
            gone,
            length-eq-zero (Dict.erase (endpoint_key e) b) empty,
          ))
      | inr kept ↦ rw kept (
          ground (
            arith,
            lookup-insert svc j (Dict.erase (endpoint_key e) b) services,
            text_eq_iff svc j,
            gone,
          ))
    ]

-- After `Unregister(svc, e)` on a well-formed registry that pair is not registered, and every other
-- pair is as it was.
pub registered-unregister_locked :
    (unix : ℕ) (svc j : Text) (e d : Endpoint) (r : Registry)
    → IsValid r.services
    → registered (unregister_locked unix svc e r).1.services j d
      ≡ (if text_eq svc j && endpoint_eq e d then false else registered r.services j d)
unfolding unregister_locked build_locked
registered-unregister_locked unix svc j e d r v =
    registered-drop_endpoint svc j e d _ r.services v refl
