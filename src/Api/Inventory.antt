-- ===== src/Api/Inventory.antt =====
-- internal/api/api.go: the read-only handlers.
use mathlib.Core.List.{Perm}
use infraforge.Base.{
  ℕ, ◌≡◌, ◌≤◌, ◌⊎◌, inl, inr, refl, ap, ◌∙◌, true, ◌&&◌, not, Text, List, [], ◌∷◌, arith, ℤ, pos,
  negsuc, Option, none, some, Bool-cases, ltb, ok, text_eq, length, leb, sort_by, sort_by-IsSorted,
  sort_by-perm, IsSorted, atoi, ltb_ℤ, atoi-show_int, show_int,
}
use infraforge.Model.{Job}
use infraforge.Api.{
  jobs_body, Server, handle_list, handle_list_dead, limit_of, in_limits, older, write_json,
}
use infraforge.Api.Trace.{listed_dead, traced}

leb_total : (a b : ℕ) → (leb a b ≡ true) ⊎ (leb b a ≡ true)
leb_total a b = ground arith

leb_trans : (a b c : ℕ) → leb a b ≡ true → leb b c ≡ true → leb a c ≡ true
leb_trans a b c h k = ground arith

module _ {W : Type 0} (s : Server W) where
  -- `handleList` answers with the jobs of the store, each as often as the store lists it, sorted by
  -- their time of creation, the oldest first, and with their number.
  pub handle_list-IsSorted :
      (w : W) (jobs : List Job)
      → (s.store.list w).0 ≡ ok jobs
      → (shown : List Job) × ((handle_list s w).0 ≡ write_json 200 (jobs_body (length jobs) shown))
        × Perm shown jobs
        × IsSorted (older) shown
  unfolding handle_list
  handle_list-IsSorted w jobs h = (
    sort_by (older) jobs,
    ground arith,
    sort_by-perm (older) jobs,
    sort_by-IsSorted (older) (λ a b. leb_total a.created_at b.created_at)
        (λ a b c. leb_trans a.created_at b.created_at c.created_at) jobs,
  )

-- An int between 1 and 1000.
abbrev pub InLimits : ℤ → Type 0
InLimits n = (m : ℕ) × (n ≡ pos m) × (1 ≤ m) × (m ≤ 1000)

in_limits-InLimits : (o : Option ℤ) → InLimits (in_limits o)
unfolding ltb_ℤ
in_limits-InLimits none = (100, refl, omega arith, omega arith)
in_limits-InLimits (some (negsuc n)) = (100, refl, omega arith, omega arith)
in_limits-InLimits (some (pos n)) = elim (Bool-cases (ltb 0 n && not (ltb 1000 n))) [
  | inl within ↦ rw within (n, refl, ground arith, ground arith)
  | inr without ↦ rw without (100, refl, omega arith, omega arith)
]

limit_of-InLimits : (v : Text) → InLimits (limit_of v)
unfolding limit_of
limit_of-InLimits v = elim (Bool-cases (text_eq v [])) [
  | inl empty ↦ rw empty (100, refl, omega arith, omega arith)
  | inr given ↦ rw given (in_limits-InLimits (atoi v))
]

in_limits_within : (m : ℕ) → 1 ≤ m → m ≤ 1000 → in_limits (some (pos m)) ≡ pos m
unfolding ltb_ℤ
in_limits_within m h k = ground arith

not_empty : (v : Text) (m : ℕ) → text_eq v [] ≡ true → atoi v ≡ some (pos m) → ⊥
unfolding atoi text_eq
not_empty [] m e h = cc
not_empty (c ∷ v) m e h = cc

limit_of-show_int : (m : ℕ) → 1 ≤ m → m ≤ 1000 → limit_of (show_int (pos m)) ≡ pos m
unfolding limit_of
limit_of-show_int m h k = elim (Bool-cases (text_eq (show_int (pos m)) [])) [
  | inl empty ↦ absurd (not_empty (show_int (pos m)) m empty (atoi-show_int (pos m) (omega arith)))
  | inr given ↦
      rw given (ap in_limits (atoi-show_int (pos m) (omega arith)) ∙ in_limits_within m h k)
]

module _ {W : Type 0} (s : Server W) where
  -- `handleListDead` asks the queue once, for a number of entries between 1 and 1000; where the
  -- query's limit is such a number in decimal, it asks for that many.
  pub handle_list_dead_limit :
      (v : Text) (w : W)
      → let t = (handle_list_dead (traced s) v (w, [])).1.1 in
        ((n : ℤ) × (t ≡ listed_dead n ∷ []) × InLimits n)
        × ((m : ℕ) → v ≡ show_int (pos m) → 1 ≤ m → m ≤ 1000 → t ≡ listed_dead (pos m) ∷ [])
  unfolding handle_list_dead
  handle_list_dead_limit v w = (
    (limit_of v, ground arith, limit_of-InLimits v),
    λ m e h k. ground (arith, limit_of-show_int m h k),
  )
