-- ===== src/Base/Search.antt =====
-- Go's `strings` package, as far as the code uses it.
use Prim.Native.Nat.{ℕ, ◌+◌}
use mathlib.Core.Path.{◌≡◌, refl, ap}
use mathlib.Core.Logic.{◌↔◌, inl, inr}
use mathlib.Core.Bool.{Bool, true, false, ◌&&◌, ◌||◌}
use mathlib.Core.List.{[], ◌∷◌, ◌++◌}
use native.Mathlib.Omega.{arith}
use infraforge.Base.Tests.{◌==◌, leb, if◌then◌else◌, Bool-cases}
use infraforge.Base.Strings.{Text}

-- Of the letters outside ASCII only those count that become ASCII letters: the Kelvin sign and the
-- dotted capital I. The code looks at ASCII characters of the result only.
abbrev pub lower : ℕ → ℕ
lower c =
    if leb b'A' c && leb c b'Z'
    then c + 32
    else (if c == 8490 then b'k' else (if c == 304 then b'i' else c))

-- `strings.ToLower`
unfoldable pub to_lower : Text → Text
to_lower [] = []
to_lower (c ∷ s) = lower c ∷ to_lower s

-- `strings.HasPrefix(s, p)`
unfoldable pub has_prefix : Text → Text → Bool
has_prefix s [] = true
has_prefix [] (d ∷ p) = false
has_prefix (c ∷ s) (d ∷ p) = c == d && has_prefix s p

-- `strings.TrimPrefix(s, p)`, where `p` is a prefix
unfoldable pub drop_prefix : Text → Text → Text
drop_prefix s [] = s
drop_prefix [] (d ∷ p) = []
drop_prefix (c ∷ s) (d ∷ p) = drop_prefix s p

-- `strings.Contains(s, p)`
unfoldable pub has_substring : Text → Text → Bool
unfolding has_prefix
has_substring [] p = has_prefix [] p
has_substring (c ∷ s) p = has_prefix (c ∷ s) p || has_substring s p

-- `p` stands somewhere in `s`.
pub record Occurs (p s : Text) : Type 0 where
  pub before : Text
  pub after : Text
  pub split : s ≡ before ++ (p ++ after)

pub has_prefix_iff : (s p : Text) → (has_prefix s p ≡ true) ↔ ((after : Text) × (s ≡ p ++ after))
unfolding has_prefix
has_prefix_iff s [] = (λ h. (s, refl), λ h. refl)
has_prefix_iff [] (d ∷ p) = (λ h. cc, λ (after, e). cc)
has_prefix_iff (c ∷ s) (d ∷ p) = (
  λ h. let (after, e) = (has_prefix_iff s p).0 (ground arith) in (after, ground (arith, e)),
  λ (after, e). ground (arith, (has_prefix_iff s p).1 (after, ground (arith, e))),
)

has_substring_found : (s p : Text) → has_substring s p ≡ true → Occurs p s
unfolding has_substring
has_substring_found [] p h =
    let (after, e) = (has_prefix_iff [] p).0 h in record { before = []; after = after; split = e }
has_substring_found (c ∷ s) p h = elim (Bool-cases (has_prefix (c ∷ s) p)) [
  | inl at ↦
      let (after, e) = (has_prefix_iff (c ∷ s) p).0 at in
      record { before = []; after = after; split = e }
  | inr later ↦
      let o = has_substring_found s p (ground arith) in
      record { before = c ∷ o.before; after = o.after; split = ap (λ l. c ∷ l) o.split }
]

has_substring_complete :
    (before s p after : Text) → s ≡ before ++ (p ++ after) → has_substring s p ≡ true
unfolding has_substring
has_substring_complete [] [] p after e = (has_prefix_iff [] p).1 (after, e)
has_substring_complete [] (c ∷ s) p after e =
    ground (arith, (has_prefix_iff (c ∷ s) p).1 (after, e))
has_substring_complete (b ∷ before) [] p after e = cc
has_substring_complete (b ∷ before) (c ∷ s) p after e =
    ground (arith, has_substring_complete before s p after (ground (arith, e)))

-- `strings.Contains` finds exactly what occurs.
pub has_substring_iff : (s p : Text) → (has_substring s p ≡ true) ↔ Occurs p s
has_substring_iff s p =
    (has_substring_found s p, λ o. has_substring_complete o.before s p o.after o.split)
