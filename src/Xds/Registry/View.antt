-- ===== src/Xds/Registry/View.antt =====
-- internal/xds/registry.go: what a registry stands for, a set of (service, endpoint) pairs, and
-- what the methods do to it.
use infraforge.Base.{
  ◌≡◌, ◌≢◌, subst, Bool, true, false, Text, [], ◌∷◌, arith, Option, none, some, text_eq,
  text_eq_iff, inl, inr, Bool-cases, Option-cases,
}
use infraforge.Base.Dict
use infraforge.Base.Dict.{
  Dict, lookup-insert, lookup-erase, insert-NodupKeys, erase-NodupKeys, NodupKeys, lookup-all_none,
}
use infraforge.Xds.Registry.{Endpoint, endpoint_key, Services, bucket, new_registry}

abbrev pub is_some {ℓ} : {A : Type ℓ} → Option A → Bool
is_some none = false
is_some (some _) = true

-- The endpoint is registered for the service.
unfoldable pub registered : Services → Text → Endpoint → Bool
registered services svc e = is_some (Dict.lookup (endpoint_key e) (bucket svc services))

-- Every entry of a bucket is filed under its own key.
pub record IsBucket (b : Dict Endpoint) : Type 0 where
  pub nodup : NodupKeys b
  pub keyed : (k : Text) (e : Endpoint) → Dict.lookup k b ≡ some e → k ≡ endpoint_key e
  pub nonempty : b ≢ []

-- A registry between two calls: maps with each key once, no empty bucket, endpoints under their
-- keys.
pub record IsValid (services : Services) : Type 0 where
  pub nodup : NodupKeys services
  pub buckets : (svc : Text) (b : Dict Endpoint) → Dict.lookup svc services ≡ some b → IsBucket b

pub bucket-some :
    (svc : Text) (services : Services) (b : Dict Endpoint)
    → Dict.lookup svc services ≡ some b
    → bucket svc services ≡ b
unfolding bucket
bucket-some svc services b h = rw h

insert-nonempty {ℓ} : {V : Type ℓ} (k : Text) (v : V) (m : Dict V) → Dict.insert k v m ≢ []
unfolding Dict.insert
insert-nonempty k v [] = λ e. cc
insert-nonempty k v ((j, w) ∷ m) = λ e. ground arith

-- What an insertion needs of the bucket that it goes into, which may be the empty one.
pub record IsKeyed (b : Dict Endpoint) : Type 0 where
  pub nodup : NodupKeys b
  pub keyed : (k : Text) (e : Endpoint) → Dict.lookup k b ≡ some e → k ≡ endpoint_key e

pub IsKeyed-nil : IsKeyed []
unfolding Dict.lookup
IsKeyed-nil = record { nodup = tt; keyed = λ k e h. cc }

pub IsKeyed-bucket :
    (svc : Text) (services : Services) → IsValid services → IsKeyed (bucket svc services)
unfolding bucket
IsKeyed-bucket svc services v = elim (Option-cases (Dict.lookup svc services)) [
  | inl absent ↦ rw absent IsKeyed-nil
  | inr (b, here) ↦
      rw here (let i = v.buckets svc b here in record { nodup = i.nodup; keyed = i.keyed })
]

pub insert-IsBucket :
    (e : Endpoint) (b : Dict Endpoint) → IsKeyed b → IsBucket (Dict.insert (endpoint_key e) e b)
insert-IsBucket e b h = record {
  nodup = insert-NodupKeys (endpoint_key e) e b h.nodup;
  keyed = λ k d p.
      ground
        (arith, lookup-insert (endpoint_key e) k e b, text_eq_iff (endpoint_key e) k, h.keyed k d);
  nonempty = insert-nonempty (endpoint_key e) e b;
}

pub insert-IsValid :
    (svc : Text) (b : Dict Endpoint) (services : Services)
    → IsBucket b
    → IsValid services
    → IsValid (Dict.insert svc b services)
insert-IsValid svc b services i v = record {
  nodup = insert-NodupKeys svc b services v.nodup;
  buckets = λ j c p. elim (Bool-cases (text_eq svc j)) [
    | inl same ↦
        let e : b ≡ c = ground (arith, lookup-insert svc j b services) in subst IsBucket e i
    | inr differ ↦ v.buckets j c (ground (arith, lookup-insert svc j b services))
  ];
}

pub new_registry-IsValid : IsValid new_registry.services
unfolding new_registry Dict.lookup
new_registry-IsValid = record { nodup = tt; buckets = λ svc b p. cc }
