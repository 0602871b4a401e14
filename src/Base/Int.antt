-- ===== src/Base/Int.antt =====
-- Go's `int`, 64 bits wide, as an integer with its wrap-around written out.
use Prim.Native.Nat.{ℕ, zero, suc, ◌+◌, ◌-◌, ◌^◌, ◌≤◌}
use mathlib.Core.Path.{◌≡◌, refl}
use mathlib.Core.Logic.{◌↔◌}
use mathlib.Core.Bool.{Bool, true, false}
use native.Mathlib.Omega.{arith}
use infraforge.Base.Tests.{◌==◌, ltb, if◌then◌else◌}

-- `negsuc n` is -(n + 1).
pub data ℤ : Type 0 where
  pos : ℕ → ℤ
  negsuc : ℕ → ℤ

abbrev pub max_int : ℕ
max_int = 2 ^ 63 - 1

unfoldable pub ltb_ℤ : ℤ → ℤ → Bool
ltb_ℤ (pos a) (pos b) = ltb a b
ltb_ℤ (pos a) (negsuc b) = false
ltb_ℤ (negsuc a) (pos b) = true
ltb_ℤ (negsuc a) (negsuc b) = ltb b a

unfoldable pub int_eq : ℤ → ℤ → Bool
int_eq (pos a) (pos b) = a == b
int_eq (pos a) (negsuc b) = false
int_eq (negsuc a) (pos b) = false
int_eq (negsuc a) (negsuc b) = a == b

pub int_eq_iff : (a b : ℤ) → (int_eq a b ≡ true) ↔ (a ≡ b)
unfolding int_eq
int_eq_iff (pos a) (pos b) = ground arith
int_eq_iff (pos a) (negsuc b) = ground arith
int_eq_iff (negsuc a) (pos b) = ground arith
int_eq_iff (negsuc a) (negsuc b) = ground arith

-- `n++`: the largest int is followed by the smallest.
unfoldable pub incr : ℤ → ℤ
incr (pos n) = if n == max_int then negsuc max_int else pos (n + 1)
incr (negsuc zero) = pos 0
incr (negsuc (suc n)) = negsuc n

-- `n - 1`: the smallest int is preceded by the largest.
unfoldable pub decr : ℤ → ℤ
decr (pos zero) = negsuc 0
decr (pos (suc n)) = pos n
decr (negsuc n) = if n == max_int then pos max_int else negsuc (suc n)

-- The values of a 64-bit int.
abbrev pub InInt : ℤ → Type 0
InInt (pos n) = n ≤ max_int
InInt (negsuc n) = n ≤ max_int

pub incr-InInt : (a : ℤ) → InInt a → InInt (incr a)
unfolding incr
incr-InInt (pos n) h = ground arith
incr-InInt (negsuc zero) h = omega arith
incr-InInt (negsuc (suc n)) h = omega arith

pub decr-incr : (a : ℤ) → InInt a → decr (incr a) ≡ a
unfolding incr decr
decr-incr (pos n) h = ground arith
decr-incr (negsuc zero) h = refl
decr-incr (negsuc (suc n)) h = ground arith
