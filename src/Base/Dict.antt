-- ===== src/Base/Dict.antt =====
-- Go's `map[string]V`. The order of the entries stands for the order in which a `range` visits
-- them, which Go leaves open.
use mathlib.Core.Path.{◌≡◌, refl}
use mathlib.Core.Bool.{true, false}
use mathlib.Core.Option.{Option, none, some}
use mathlib.Core.List.{List, [], ◌∷◌}
use native.Mathlib.Omega.{arith}
use mathlib.Core.Logic.{inl, inr}
use infraforge.Base.Tests.{Bool-cases, if◌then◌else◌}
use infraforge.Base.Strings.{Text, text_eq, text_eq_iff, text_eq_refl}
use infraforge.Base.Lists.{contains, NodupTexts}

abbrev pub Dict {ℓ} : Type ℓ → Type ℓ
Dict V = List (Text × V)

module _ {ℓ} {V : Type ℓ} where
  -- `m[k]`, with `none` for a missing key
  unfoldable pub lookup : Text → Dict V → Option V
  lookup k [] = none
  lookup k ((j, v) ∷ m) = if text_eq j k then some v else lookup k m

  -- `m[k] = v`
  unfoldable pub insert : Text → V → Dict V → Dict V
  insert k v [] = (k, v) ∷ []
  insert k v ((j, w) ∷ m) = if text_eq j k then (j, v) ∷ m else (j, w) ∷ insert k v m

  -- `delete(m, k)`
  unfoldable pub erase : Text → Dict V → Dict V
  erase k [] = []
  erase k ((j, w) ∷ m) = if text_eq j k then m else (j, w) ∷ erase k m

  abbrev pub keys : Dict V → List Text
  keys [] = []
  keys ((k, _) ∷ m) = k ∷ keys m

  -- A map has each key once.
  abbrev pub NodupKeys : Dict V → Type 0
  NodupKeys m = NodupTexts (keys m)

  pub lookup-insert :
      (k j : Text) (v : V) (m : Dict V)
      → lookup j (insert k v m) ≡ (if text_eq k j then some v else lookup j m)
  unfolding lookup insert
  lookup-insert k j v [] = refl
  lookup-insert k j v ((i, w) ∷ m) =
      ground (arith, text_eq_iff k j, text_eq_iff i k, text_eq_iff i j, lookup-insert k j v m)

  pub lookup-insert_self : (k : Text) (v : V) (m : Dict V) → lookup k (insert k v m) ≡ some v
  lookup-insert_self k v m = rw (lookup-insert, text_eq_refl k)

  pub lookup-insert_same :
      (i k : Text) (v : V) (m : Dict V) → text_eq i k ≡ true → lookup k (insert i v m) ≡ some v
  lookup-insert_same i k v m same = ground (arith, lookup-insert i k v m, same)

  pub lookup-insert_other :
      (i k : Text) (v : V) (m : Dict V) → text_eq i k ≡ false → lookup k (insert i v m) ≡ lookup k m
  lookup-insert_other i k v m other = ground (arith, lookup-insert i k v m, other)

  pub contains-keys-insert :
      (k j : Text) (v : V) (m : Dict V)
      → contains (keys (insert k v m)) j ≡ (if text_eq k j then true else contains (keys m) j)
  unfolding insert
  contains-keys-insert k j v [] = ground arith
  contains-keys-insert k j v ((i, w) ∷ m) =
      ground
        (arith, text_eq_iff k j, text_eq_iff i k, text_eq_iff i j, contains-keys-insert k j v m)

  pub insert-NodupKeys : (k : Text) (v : V) (m : Dict V) → NodupKeys m → NodupKeys (insert k v m)
  unfolding insert
  insert-NodupKeys k v [] h = (refl, tt)
  insert-NodupKeys k v ((i, w) ∷ m) h = ground (
    arith,
    text_eq_iff i k,
    text_eq_iff k i,
    insert-NodupKeys k v m h.1,
    contains-keys-insert k i v m,
  )

  pub lookup-absent : (k : Text) (m : Dict V) → contains (keys m) k ≡ false → lookup k m ≡ none
  unfolding lookup
  lookup-absent k [] h = refl
  lookup-absent k ((i, w) ∷ m) h = ground (arith, lookup-absent k m)

  pub contains-keys_of_lookup :
      (k : Text) (m : Dict V) {v : V} → lookup k m ≡ some v → contains (keys m) k ≡ true
  unfolding lookup
  contains-keys_of_lookup k [] h = cc
  contains-keys_of_lookup k ((i, w) ∷ m) {v} h = ground (arith, contains-keys_of_lookup k m {v = v})

  pub lookup_of_contains-keys :
      (k : Text) (m : Dict V) → contains (keys m) k ≡ true → (v : V) × (lookup k m ≡ some v)
  unfolding lookup
  lookup_of_contains-keys k [] h = cc
  lookup_of_contains-keys k ((i, w) ∷ m) h = elim (Bool-cases (text_eq i k)) [
    | inl same ↦ (w, rw same)
    | inr differ ↦ rw differ (lookup_of_contains-keys k m (ground arith))
  ]

  pub lookup-erase :
      (k j : Text) (m : Dict V)
      → NodupKeys m
      → lookup j (erase k m) ≡ (if text_eq k j then none else lookup j m)
  unfolding lookup erase
  lookup-erase k j [] h = ground arith
  lookup-erase k j ((i, w) ∷ m) h = ground (
    arith,
    text_eq_iff k j,
    text_eq_iff i k,
    text_eq_iff i j,
    lookup-erase k j m h.1,
    lookup-absent j m,
  )

  pub contains-keys-erase :
      (k j : Text) (m : Dict V)
      → contains (keys m) j ≡ false
      → contains (keys (erase k m)) j ≡ false
  unfolding erase
  contains-keys-erase k j [] h = refl
  contains-keys-erase k j ((i, w) ∷ m) h = ground (arith, contains-keys-erase k j m)

  pub erase-NodupKeys : (k : Text) (m : Dict V) → NodupKeys m → NodupKeys (erase k m)
  unfolding erase
  erase-NodupKeys k [] h = tt
  erase-NodupKeys k ((i, w) ∷ m) h =
      ground (arith, erase-NodupKeys k m h.1, contains-keys-erase k i m)

  -- `len(m) == 0` exactly when no key is present.
  pub lookup-all_none : (m : Dict V) → ((k : Text) → lookup k m ≡ none) → m ≡ []
  unfolding lookup
  lookup-all_none [] h = refl
  lookup-all_none ((i, w) ∷ m) h = ground (arith, h i, text_eq_refl i)
