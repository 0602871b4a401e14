-- ===== src/Base/Lists.antt =====
-- Lists measured by native numbers, and predicates on lists by recursion.
use Prim.Native.Nat.{ℕ, suc, ◌+◌}
use mathlib.Core.Path.{◌≡◌, refl, sym, subst}
use mathlib.Core.Logic.{◌⊎◌, inl, inr}
use mathlib.Core.Bool.{Bool, false, ◌||◌}
use mathlib.Core.List.{List, [], ◌∷◌, ◌++◌}
use native.Mathlib.Omega.{arith}
use infraforge.Base.Tests.{if◌then◌else◌}
use infraforge.Base.Strings.{Text, text_eq}

module _ {ℓ} {A : Type ℓ} where
  abbrev pub length : List A → ℕ
  length [] = 0
  length (x ∷ xs) = suc (length xs)

  -- How many elements pass a test.
  abbrev pub count_if : (A → Bool) → List A → ℕ
  count_if p [] = 0
  count_if p (x ∷ xs) = (if p x then 1 else 0) + count_if p xs

  abbrev pub All {κ} : (A → Type κ) → List A → Type κ
  All P [] = Unit
  All P (x ∷ xs) = P x × All P xs

  pub count_if-append :
      (p : A → Bool) (xs ys : List A) → count_if p (xs ++ ys) ≡ count_if p xs + count_if p ys
  count_if-append p [] ys = omega arith
  count_if-append p (x ∷ xs) ys = omega (arith, count_if-append p xs ys)

  pub All-append {κ} : (P : A → Type κ) (xs ys : List A) → All P xs → All P ys → All P (xs ++ ys)
  All-append P [] ys hx hy = hy
  All-append P (x ∷ xs) ys hx hy = (hx.0, All-append P xs ys hx.1 hy)

module _ {A : Type 0} where
  -- One of the list's elements.
  abbrev pub Among : List A → A → Type 0
  Among [] x = ⊥
  Among (y ∷ ys) x = (x ≡ y) ⊎ Among ys x

  pub All-Among {κ} : (P : A → Type κ) (xs : List A) → ((x : A) → Among xs x → P x) → All P xs
  All-Among P [] f = tt
  All-Among P (y ∷ xs) f = (f y (inl refl), All-Among P xs (λ x h. f x (inr h)))

  pub Among-All {κ} : (P : A → Type κ) (xs : List A) → All P xs → (x : A) → Among xs x → P x
  Among-All P [] h x a = absurd a
  Among-All P (y ∷ xs) h x (inl e) = subst P (sym e) h.0
  Among-All P (y ∷ xs) h x (inr a) = Among-All P xs h.1 x a

-- `t` occurs in the list.
abbrev pub contains : List Text → Text → Bool
contains [] t = false
contains (s ∷ ss) t = text_eq s t || contains ss t

abbrev pub NodupTexts : List Text → Type 0
NodupTexts [] = Unit
NodupTexts (s ∷ ss) = (contains ss s ≡ false) × NodupTexts ss
