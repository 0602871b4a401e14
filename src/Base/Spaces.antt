-- ===== src/Base/Spaces.antt =====
-- `strings.TrimSpace` and `strings.Fields`.
use Prim.Native.Nat.{ℕ}
use mathlib.Core.Path.{◌≡◌, refl, ap, ◌∙◌}
use mathlib.Core.Logic.{◌≢◌}
use mathlib.Core.Bool.{Bool, false, ◌&&◌, ◌||◌}
use mathlib.Core.List.{List, [], ◌∷◌, ◌++◌}
use infraforge.Base.Tests.{◌==◌, leb, if◌then◌else◌}
use infraforge.Base.Strings.{Text}
use infraforge.Base.Lists.{All}

-- `unicode.IsSpace`
abbrev pub is_space : ℕ → Bool
is_space c =
    leb 9 c && leb c 13
    || (c == 32
        || (c == 133
            || (c == 160
                || (c == 5760
                    || (leb 8192 c && leb c 8202
                        || (c == 8232
                            || (c == 8233 || (c == 8239 || (c == 8287 || c == 12288)))))))))

unfoldable pub trim_left : Text → Text
trim_left [] = []
trim_left (c ∷ s) = let rest = trim_left s in if is_space c then rest else c ∷ s

abbrev pub reversed_onto : Text → Text → Text
reversed_onto acc [] = acc
reversed_onto acc (c ∷ s) = reversed_onto (c ∷ acc) s

unfoldable pub trim_space : Text → Text
unfolding trim_left
trim_space s = reversed_onto [] (trim_left (reversed_onto [] (trim_left s)))

-- The word read so far, before the words that follow it.
abbrev pub close_word : Text → List Text → List Text
close_word [] ws = ws
close_word (c ∷ w) ws = (c ∷ w) ∷ ws

abbrev pub fields_onto : Text → Text → List Text
fields_onto word [] = close_word word []
fields_onto word (c ∷ s) =
    let inside = fields_onto (word ++ (c ∷ [])) s in
    let after = fields_onto [] s in if is_space c then close_word word after else inside

unfoldable pub fields : Text → List Text
fields s = fields_onto [] s

-- One word to a line.
abbrev pub lines_of : List Text → Text
lines_of [] = []
lines_of (w ∷ ws) = w ++ (b'\n' ∷ lines_of ws)

abbrev pub IsWord : Text → Type 0
IsWord w = (w ≢ []) × All (λ c. is_space c ≡ false) w

close_word-nonempty : (w : Text) (ws : List Text) → w ≢ [] → close_word w ws ≡ w ∷ ws
close_word-nonempty [] ws ne = absurd (ne refl)
close_word-nonempty (c ∷ w) ws ne = refl

append_assoc : (a : Text) (c : ℕ) (s : Text) → (a ++ (c ∷ [])) ++ s ≡ a ++ c ∷ s
append_assoc [] c s = refl
append_assoc (d ∷ a) c s = ap (λ l. d ∷ l) (append_assoc a c s)

append_nil : (a : Text) → a ++ [] ≡ a
append_nil [] = refl
append_nil (d ∷ a) = ap (λ l. d ∷ l) (append_nil a)

fields_onto-word :
    (pre w : Text) (s : Text)
    → All (λ c. is_space c ≡ false) w
    → fields_onto pre (w ++ (b'\n' ∷ s)) ≡ close_word (pre ++ w) (fields_onto [] s)
fields_onto-word pre [] s h = rw (append_nil pre) refl
fields_onto-word pre (c ∷ w) s h = rw h.0 (
    fields_onto-word (pre ++ (c ∷ [])) w s h.1
    ∙ ap (λ p. close_word p (fields_onto [] s)) (append_assoc pre c w))

-- Words on lines of their own are read back.
pub fields-lines_of : (ws : List Text) → All IsWord ws → fields (lines_of ws) ≡ ws
unfolding fields
fields-lines_of [] h = refl
fields-lines_of (w ∷ ws) h =
    fields_onto-word [] w (lines_of ws) h.0.1
    ∙ close_word-nonempty w (fields_onto [] (lines_of ws)) h.0.0
    ∙ ap (λ l. w ∷ l) (fields-lines_of ws h.1)
