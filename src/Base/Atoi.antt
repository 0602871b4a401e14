-- ===== src/Base/Atoi.antt =====
-- `strconv.Atoi` on 64 bits, and `hex.EncodeToString`.
use Prim.Native.Nat.{ℕ, zero, suc, ◌+◌, ◌/◌, ◌%◌, ◌≤◌}
use mathlib.Core.Path.{◌≡◌, refl, ap, ◌∙◌}
use mathlib.Core.Logic.{◌≢◌, inl, inr}
use mathlib.Core.Bool.{Bool, true, ◌&&◌}
use mathlib.Core.Option.{Option, none, some}
use mathlib.Core.List.{List, [], ◌∷◌, ◌++◌}
use native.Mathlib.Omega.{arith}
use infraforge.Base.Tests.{◌==◌, ltb, leb, if◌then◌else◌, Bool-cases}
use infraforge.Base.Strings.{Text}
use infraforge.Base.Int.{ℤ, pos, negsuc, max_int, InInt}
use infraforge.Base.Decimal.{value_onto, show_fuel, show_nat, show_int, value-show_nat}

abbrev pub is_digit : ℕ → Bool
is_digit c = leb b'0' c && leb c b'9'

abbrev pub all_digits : Text → Bool
all_digits [] = true
all_digits (c ∷ s) = is_digit c && all_digits s

-- A row of digits, at least one, up to a bound.
unfoldable pub digits_up_to : ℕ → Text → Option ℕ
digits_up_to bound [] = none
digits_up_to bound (c ∷ s) =
    let n = value_onto 0 (c ∷ s) in if all_digits (c ∷ s) && leb n bound then some n else none

negated : Option ℕ → Option ℤ
negated none = none
negated (some zero) = some (pos 0)
negated (some (suc n)) = some (negsuc n)

positive : Option ℕ → Option ℤ
positive none = none
positive (some n) = some (pos n)

-- `none` is an error: no digits, another character, or out of the range of an int.
unfoldable pub atoi : Text → Option ℤ
unfolding digits_up_to negated positive
atoi [] = none
atoi (c ∷ s) =
    if c == b'-'
    then negated (digits_up_to (max_int + 1) s)
    else if c == b'+'
    then positive (digits_up_to max_int s)
    else positive (digits_up_to max_int (c ∷ s))

all_digits-snoc : (s : Text) (c : ℕ) → all_digits (s ++ c ∷ []) ≡ (all_digits s && is_digit c)
all_digits-snoc [] c = ground arith
all_digits-snoc (d ∷ s) c = ground (arith, all_digits-snoc s c)

all_digits-show_fuel : (f n : ℕ) → all_digits (show_fuel f n) ≡ true
unfolding show_fuel
all_digits-show_fuel zero n = refl
all_digits-show_fuel (suc f) n = elim (Bool-cases (ltb n 10)) [
  | inl e ↦ rw e (ground arith)
  | inr e ↦ rw e (rw all_digits-snoc (rw (all_digits-show_fuel f (n / 10)) (ground arith)))
]

pub all_digits-show_nat : (n : ℕ) → all_digits (show_nat n) ≡ true
unfolding show_nat
all_digits-show_nat n = all_digits-show_fuel (suc n) n

snoc-ne-nil : (s : Text) (c : ℕ) → s ++ c ∷ [] ≢ []
snoc-ne-nil [] c = λ e. cc
snoc-ne-nil (d ∷ s) c = λ e. cc

show_nat-ne-nil : (n : ℕ) → show_nat n ≢ []
unfolding show_nat show_fuel
show_nat-ne-nil n = elim (Bool-cases (ltb n 10)) [
  | inl e ↦ rw e (λ p. cc)
  | inr e ↦ rw e (snoc-ne-nil (show_fuel n (n / 10)) (48 + n % 10))
]

digits_up_to-digits :
    (bound : ℕ) (s : Text)
    → s ≢ []
    → all_digits s ≡ true
    → value_onto 0 s ≤ bound
    → digits_up_to bound s ≡ some (value_onto 0 s)
unfolding digits_up_to
digits_up_to-digits bound [] ne d h = absurd (ne refl)
digits_up_to-digits bound (c ∷ s) ne d h = ground arith

digits_up_to-show_nat : (bound n : ℕ) → n ≤ bound → digits_up_to bound (show_nat n) ≡ some n
digits_up_to-show_nat bound n h =
    digits_up_to-digits bound (show_nat n) (show_nat-ne-nil n) (all_digits-show_nat n)
      (omega (arith, value-show_nat n))
    ∙ ap some (value-show_nat n)

no_sign_first :
    (s : Text) → s ≢ [] → all_digits s ≡ true → atoi s ≡ positive (digits_up_to max_int s)
unfolding atoi
no_sign_first [] ne d = absurd (ne refl)
no_sign_first (c ∷ s) ne d = ground arith

signed : (s : Text) → atoi (b'-' ∷ s) ≡ negated (digits_up_to (max_int + 1) s)
unfolding atoi
signed s = refl

negated_suc : (n : ℕ) → negated (some (n + 1)) ≡ some (negsuc n)
unfolding negated
negated_suc n = ground arith

-- What `%d` prints of an int, `Atoi` reads back.
pub atoi-show_int : (a : ℤ) → InInt a → atoi (show_int a) ≡ some a
unfolding show_int positive
atoi-show_int (pos n) h =
    no_sign_first (show_nat n) (show_nat-ne-nil n) (all_digits-show_nat n)
    ∙ ap positive (digits_up_to-show_nat max_int n h)
atoi-show_int (negsuc n) h =
    signed (show_nat (n + 1))
    ∙ ap negated (digits_up_to-show_nat (max_int + 1) (n + 1) (omega arith))
    ∙ negated_suc n

-- Two hexadecimal digits, in lower case.
hex_digit : ℕ → ℕ
hex_digit n = if ltb n 10 then 48 + n else 87 + n

-- `hex.EncodeToString`
unfoldable pub hex_encode : List ℕ → Text
unfolding hex_digit
hex_encode [] = []
hex_encode (b ∷ bs) = hex_digit (b / 16) ∷ hex_digit (b % 16) ∷ hex_encode bs
