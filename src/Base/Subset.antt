-- ===== src/Base/Subset.antt =====
-- Lists of texts without repetitions, as finite sets: inclusion and length.
use Prim.Native.Nat.{suc, ◌≤◌}
use mathlib.Core.Path.{◌≡◌, refl}
use mathlib.Core.Logic.{inl, inr}
use mathlib.Core.Bool.{Bool, true, false}
use mathlib.Core.List.{List, [], ◌∷◌}
use native.Mathlib.Omega.{arith}
use infraforge.Base.Tests.{if◌then◌else◌, Bool-cases}
use infraforge.Base.Strings.{Text, text_eq, text_eq_iff}
use infraforge.Base.Lists.{length, contains, NodupTexts}

remove : Text → List Text → List Text
remove x [] = []
remove x (y ∷ ys) = if text_eq y x then ys else y ∷ remove x ys

contains-remove_ne :
    (x k : Text) (ys : List Text) → text_eq x k ≡ false → contains (remove x ys) k ≡ contains ys k
unfolding remove
contains-remove_ne x k [] h = refl
contains-remove_ne x k (y ∷ ys) h =
    ground (arith, text_eq_iff y x, text_eq_iff y k, text_eq_iff x k, contains-remove_ne x k ys h)

length-remove :
    (x : Text) (ys : List Text) → contains ys x ≡ true → length ys ≡ suc (length (remove x ys))
unfolding remove
length-remove x [] h = cc
length-remove x (y ∷ ys) h = ground (arith, length-remove x ys)

-- The members of one list are members of the other.
abbrev pub Includes : List Text → List Text → Type 0
Includes xs ys = (k : Text) → contains xs k ≡ true → contains ys k ≡ true

Includes-remove :
    (x : Text) (xs ys : List Text)
    → NodupTexts (x ∷ xs)
    → Includes (x ∷ xs) ys
    → Includes xs (remove x ys)
Includes-remove x xs ys n inc k h =
    ground (arith, contains-remove_ne x k ys, inc k, text_eq_iff x k)

pub Includes-length : (xs ys : List Text) → NodupTexts xs → Includes xs ys → length xs ≤ length ys
Includes-length [] ys n inc = omega arith
Includes-length (x ∷ xs) ys n inc =
    let here : contains ys x ≡ true = inc x (ground (arith, text_eq_iff x x)) in
    omega (
      arith,
      length-remove x ys here,
      Includes-length xs (remove x ys) n.1 (Includes-remove x xs ys n inc),
    )

-- A list without repetitions that is as long as one that includes it has all of its members.
pub Includes-of_length :
    (xs ys : List Text) → NodupTexts xs → Includes xs ys → length ys ≤ length xs → Includes ys xs
Includes-of_length [] [] n inc h k m = m
Includes-of_length [] (y ∷ ys) n inc h k m = absurd (omega arith)
Includes-of_length (x ∷ xs) ys n inc h k m =
    let here : contains ys x ≡ true = inc x (ground (arith, text_eq_iff x x)) in
    let shorter : length (remove x ys) ≤ length xs = omega (arith, length-remove x ys here) in
    elim (Bool-cases (text_eq x k)) [
      | inl same ↦ rw same refl
      | inr differ ↦ rw differ (
          Includes-of_length xs (remove x ys) n.1 (Includes-remove x xs ys n inc) shorter k
            (rw (contains-remove_ne x k ys differ) m))
    ]

-- Two tests that imply each other are equal.
pub Bool-ext : (a b : Bool) → (a ≡ true → b ≡ true) → (b ≡ true → a ≡ true) → a ≡ b
Bool-ext true true f g = refl
Bool-ext true false f g = cc (f refl)
Bool-ext false true f g = cc (g refl)
Bool-ext false false f g = refl
