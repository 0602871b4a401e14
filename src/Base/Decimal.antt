-- ===== src/Base/Decimal.antt =====
-- `%d` of an int: decimal digits, with a sign in front of a negative one.
use Prim.Native.Nat.{ℕ, zero, suc, ◌+◌, ◌-◌, ◌*◌, ◌/◌, ◌%◌, ◌<◌}
use mathlib.Core.Path.{◌≡◌, refl, ap, sym, ◌∙◌}
use mathlib.Core.Bool.{Bool, false, ◌||◌}
use mathlib.Core.Logic.{◌≢◌, inl, inr}
use mathlib.Core.List.{[], ◌∷◌, ◌++◌}
use native.Mathlib.Omega.{arith}
use infraforge.Base.Tests.{◌==◌, ltb, if◌then◌else◌, Bool-cases}
use infraforge.Base.Strings.{Text}
use infraforge.Base.Int.{ℤ, pos, negsuc}

-- One more than the number is enough fuel, as it falls with each division.
unfoldable pub show_fuel : ℕ → ℕ → Text
show_fuel zero n = []
show_fuel (suc f) n =
    let more = show_fuel f (n / 10) ++ (48 + n % 10) ∷ [] in
    if ltb n 10 then (48 + n) ∷ [] else more

unfoldable pub show_nat : ℕ → Text
unfolding show_fuel
show_nat n = show_fuel (suc n) n

unfoldable pub show_int : ℤ → Text
unfolding show_nat
show_int (pos n) = show_nat n
show_int (negsuc n) = b'-' ∷ show_nat (n + 1)

-- The number that a row of digits stands for, after the digits read so far.
abbrev pub value_onto : ℕ → Text → ℕ
value_onto acc [] = acc
value_onto acc (d ∷ ds) = value_onto (acc * 10 + (d - 48)) ds

value_onto-snoc :
    (acc : ℕ) (ds : Text) (d : ℕ)
    → value_onto acc (ds ++ d ∷ []) ≡ value_onto acc ds * 10 + (d - 48)
value_onto-snoc acc [] d = refl
value_onto-snoc acc (e ∷ ds) d = value_onto-snoc (acc * 10 + (e - 48)) ds d

value-show_fuel : (f n : ℕ) → n < f → value_onto 0 (show_fuel f n) ≡ n
unfolding show_fuel
value-show_fuel zero n h = elim h [ ]
value-show_fuel (suc f) n h = elim (Bool-cases (ltb n 10)) [
  | inl e ↦ rw e (omega arith)
  | inr e ↦ rw e (rw value_onto-snoc (omega (arith, value-show_fuel f (n / 10) (ground arith))))
]

-- Reading the digits back gives the number.
pub value-show_nat : (n : ℕ) → value_onto 0 (show_nat n) ≡ n
unfolding show_nat
value-show_nat n = value-show_fuel (suc n) n (omega arith)

pub show_nat-injective : (m n : ℕ) → show_nat m ≡ show_nat n → m ≡ n
show_nat-injective m n e = sym (value-show_nat m) ∙ ap (value_onto 0) e ∙ value-show_nat n

-- The character occurs in the text.
abbrev pub has_char : ℕ → Text → Bool
has_char c [] = false
has_char c (d ∷ s) = d == c || has_char c s

has_char-snoc : (c d : ℕ) (s : Text) → has_char c (s ++ d ∷ []) ≡ (has_char c s || d == c)
has_char-snoc c d [] = ground arith
has_char-snoc c d (e ∷ s) = ground (arith, has_char-snoc c d s)

-- The digits are between `0` and `9`.
no_char-show_fuel : (c f n : ℕ) → 57 < c → has_char c (show_fuel f n) ≡ false
unfolding show_fuel
no_char-show_fuel c zero n h = refl
no_char-show_fuel c (suc f) n h = elim (Bool-cases (ltb n 10)) [
  | inl e ↦ rw e (ground arith)
  | inr e ↦ rw e (rw has_char-snoc (rw (no_char-show_fuel c f (n / 10) h) (ground arith)))
]

no_sign-show_fuel : (f n : ℕ) → has_char b'-' (show_fuel f n) ≡ false
unfolding show_fuel
no_sign-show_fuel zero n = refl
no_sign-show_fuel (suc f) n = elim (Bool-cases (ltb n 10)) [
  | inl e ↦ rw e (ground arith)
  | inr e ↦ rw e (rw has_char-snoc (rw (no_sign-show_fuel f (n / 10)) (ground arith)))
]

pub no_colon-show_int : (a : ℤ) → has_char b':' (show_int a) ≡ false
unfolding show_int
no_colon-show_int (pos n) = no_char-show_fuel b':' (suc n) n (omega arith)
no_colon-show_int (negsuc n) = no_char-show_fuel b':' (suc (n + 1)) (n + 1) (omega arith)

no_sign-show_nat : (n : ℕ) (s : Text) → show_nat n ≢ b'-' ∷ s
unfolding show_nat
no_sign-show_nat n s e = cc (no_sign-show_fuel (suc n) n)

pub show_int-injective : (a b : ℤ) → show_int a ≡ show_int b → a ≡ b
unfolding show_int
show_int-injective (pos m) (pos n) e = ap pos (show_nat-injective m n e)
show_int-injective (pos m) (negsuc n) e = absurd (no_sign-show_nat m (show_nat (n + 1)) e)
show_int-injective (negsuc m) (pos n) e = absurd (no_sign-show_nat n (show_nat (m + 1)) (sym e))
show_int-injective (negsuc m) (negsuc n) e = ground (arith, show_nat-injective (m + 1) (n + 1))
