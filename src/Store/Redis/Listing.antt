-- ===== src/Store/Redis/Listing.antt =====
-- internal/store/redis.go: `List` while nobody changes the store.
use infraforge.Base.{
  ℕ, zero, suc, ◌≤◌, ◌≡◌, refl, ap, sym, true, Text, txt, List, [], ◌∷◌, ◌++◌, some, GoError,
  Result, ok, err, errors_is, redis_nil, arith,
}
use infraforge.Model.{Job}
use infraforge.Store.Redis.{Redis, Codec, job_key_prefix, read_keys, scan_from, list}

append_assoc {ℓ} : {A : Type ℓ} (a b c : List A) → (a ++ b) ++ c ≡ a ++ (b ++ c)
append_assoc [] b c = refl
append_assoc (x ∷ a) b c = ap (λ l. x ∷ l) (append_assoc a b c)

append_nil {ℓ} : {A : Type ℓ} (a : List A) → a ++ [] ≡ a
append_nil [] = refl
append_nil (x ∷ a) = ap (λ l. x ∷ l) (append_nil a)

-- In the world `w` reads change nothing: what `GET` answers for a key, and the page of a cursor.
pub record IsStill {W : Type 0} (r : Redis W) (w : W) : Type 0 where
  pub value : Text → Result Text
  pub page : ℕ → List Text × ℕ
  pub get_value : (k : Text) → r.get k w ≡ (value k, w)
  pub scan_page : (c : ℕ) → r.scan c (job_key_prefix ++ txt "*") 100 w ≡ (ok (page c), w)

module _ {W : Type 0} (r : Redis W) (codec : Codec) (w : W) (still : IsStill r w) where
  open still use {value, page, get_value, scan_page}

  -- The jobs under some keys, in order; keys that are gone are skipped.
  pub data Decodes : List Text → List Job → Type 0 where
    no_key : Decodes [] []
    job_at :
        {k b : Text} {j : Job} {ks : List Text} {js : List Job}
        → value k ≡ ok b
        → codec.unmarshal b ≡ ok j
        → Decodes ks js
        → Decodes (k ∷ ks) (j ∷ js)
    gone :
        {k : Text} {e : GoError} {ks : List Text} {js : List Job}
        → value k ≡ err e
        → errors_is e redis_nil ≡ true
        → Decodes ks js
        → Decodes (k ∷ ks) js

  -- The jobs of the pages from a cursor on, and the number of these pages.
  pub data Scanned : ℕ → List Job → ℕ → Type 0 where
    last : {c : ℕ} {js : List Job} → Decodes (page c).0 js → (page c).1 ≡ 0 → Scanned c js 1
    more :
        {c : ℕ} {js js' : List Job} {n m : ℕ}
        → Decodes (page c).0 js
        → (page c).1 ≡ suc n
        → Scanned (suc n) js' m
        → Scanned c (js ++ js') (suc m)

  read_keys-Decodes :
      (ks : List Text) (js acc : List Job)
      → Decodes ks js
      → read_keys r codec ks acc w ≡ (ok (acc ++ js), w)
  unfolding read_keys
  read_keys-Decodes ks js acc no_key = ap (λ l. (ok l, w)) (sym (append_nil acc))
  read_keys-Decodes (k ∷ ks) (j ∷ js) acc (job_at {b = b} v u rest) = ground (
    arith,
    get_value k,
    v,
    u,
    read_keys-Decodes ks js (acc ++ (j ∷ [])) rest,
    append_assoc acc (j ∷ []) js,
  )
  read_keys-Decodes (k ∷ ks) js acc (gone {e = e} v n rest) =
      ground (arith, get_value k, v, n, read_keys-Decodes ks js acc rest)

  scan_from-Scanned :
      (rounds c : ℕ) (js acc : List Job) (m : ℕ)
      → Scanned c js m
      → m ≤ rounds
      → scan_from r codec rounds c acc w ≡ some (ok (acc ++ js), w)
  unfolding scan_from
  scan_from-Scanned zero c js acc m (last d z) h = absurd (omega arith)
  scan_from-Scanned (suc rounds) c js acc m (last d z) h =
      ground (arith, scan_page c, read_keys-Decodes (page c).0 js acc d, z)
  scan_from-Scanned zero c js acc m (more d z rest) h = absurd (omega arith)
  scan_from-Scanned (suc rounds) c js acc m (more {js = js1} {js' = js2} {n = n} {m = m'} d z rest)
        h =
      ground (
        arith,
        scan_page c,
        read_keys-Decodes (page c).0 js1 acc d,
        z,
        scan_from-Scanned rounds (suc n) js2 (acc ++ js1) m' rest (omega arith),
        append_assoc acc js1 js2,
      )

  -- While nobody changes the store and every record decodes, `List` returns the jobs of all pages of
  -- the scan in their order, if it is given as many rounds as there are pages.
  pub list_complete :
      (rounds : ℕ) (js : List Job) (pages : ℕ)
      → Scanned 0 js pages
      → pages ≤ rounds
      → list r codec rounds w ≡ some (ok js, w)
  unfolding list
  list_complete rounds js pages s h = scan_from-Scanned rounds 0 js [] pages s h
