-- ===== src/Provisioner/Naming.antt =====
-- internal/provisioner/docker.go: the names and the credentials of a job's resources.
use infraforge.Base.{
  ℕ, ◌+◌, ◌≤◌, ◌≡◌, refl, ap, sym, ◌∙◌, Bool, true, ◌&&◌, ◌||◌, Text, txt, List, [], ◌∷◌, ◌++◌,
  arith, if◌then◌else◌, ◌==◌, leb, length, All, to_lower, hex_encode, Bool-cases, inl, inr,
}
use infraforge.Model.{Job}

unfoldable pub postgres_name : Job → Text
unfolding txt
postgres_name j = txt "infraforge-pg-" ++ j.id

unfoldable pub http_name : Job → Text
unfolding txt
http_name j = txt "infraforge-svc-" ++ j.id

-- `a`–`z`, `0`–`9` and the underscore
abbrev pub is_identifier_char : ℕ → Bool
is_identifier_char r = leb b'a' r && leb r b'z' || (leb b'0' r && leb r b'9' || r == b'_')

-- What the `switch` writes for one character.
abbrev pub kept : ℕ → Text
kept r = if is_identifier_char r then r ∷ [] else (if r == b'-' || r == b' ' then b'_' ∷ [] else [])

-- The loop of `sanitize`, which has written `b`.
unfoldable pub sanitize_onto : Text → Text → Text
sanitize_onto b [] = b
sanitize_onto b (r ∷ rs) =
    let b' = b ++ kept r in
    let rest = sanitize_onto b' rs in if leb 32 (length b') then b' else rest

unfoldable pub sanitize : Text → Text
unfolding sanitize_onto txt
sanitize s = let b = sanitize_onto [] (to_lower s) in if length b == 0 then txt "app" else b

pub record Creds : Type 0 where
  pub user : Text
  pub pass : Text
  pub db : Text

module _ {W : Type 0} (random : ℕ → W → List ℕ × W) where
  unfoldable pub rand_hex : ℕ → W → Text × W
  rand_hex n w = let (b, w) = random n w in (hex_encode b, w)

  unfoldable pub new_creds : Job → W → Creds × W
  unfolding rand_hex sanitize txt
  new_creds j w =
      let (user, w) = rand_hex 8 w in
      let (pass, w) = rand_hex 16 w in
      (
        record { user = txt "u_" ++ user; pass = pass; db = txt "app_" ++ sanitize j.service_name },
        w,
      )

-- A text that Postgres takes as an identifier, up to 32 characters long.
abbrev pub IsIdentifier : Text → Type 0
IsIdentifier s = All (λ c. is_identifier_char c ≡ true) s × (1 ≤ length s) × (length s ≤ 32)

abbrev Clean : Text → Type 0
Clean s = All (λ c. is_identifier_char c ≡ true) s

length-append : (a b : Text) → length (a ++ b) ≡ length a + length b
length-append [] b = omega arith
length-append (x ∷ a) b = omega (arith, length-append a b)

to_lower-Clean : (s : Text) → Clean s → to_lower s ≡ s
unfolding to_lower
to_lower-Clean [] h = refl
to_lower-Clean (c ∷ s) h = ground (arith, to_lower-Clean s h.1)

append-cons : (b : Text) (c : ℕ) (s : Text) → b ++ c ∷ s ≡ (b ++ c ∷ []) ++ s
append-cons [] c s = refl
append-cons (d ∷ b) c s = ap (λ l. d ∷ l) (append-cons b c s)

append-nil : (b : Text) → b ≡ b ++ []
append-nil [] = refl
append-nil (d ∷ b) = ap (λ l. d ∷ l) (append-nil b)

no_rest : (rs : Text) → length rs ≤ 0 → rs ≡ []
no_rest [] h = refl
no_rest (r ∷ rs) h = absurd (omega arith)

sanitize_onto-append :
    (b s : Text) → Clean s → length b + length s ≤ 32 → sanitize_onto b s ≡ b ++ s
unfolding sanitize_onto
sanitize_onto-append b [] h room = append-nil b
sanitize_onto-append b (r ∷ rs) h room =
    let own : kept r ≡ r ∷ [] = ground (arith, h.0) in
    let longer = length-append b (r ∷ []) in
    rw own (elim (Bool-cases (leb 32 (length (b ++ r ∷ [])))) [
      | inl full ↦ rw full (ap (λ l. b ++ r ∷ l) (sym (no_rest rs (ground (arith, longer)))))
      | inr more ↦ rw more (
          sanitize_onto-append (b ++ r ∷ []) rs h.1 (omega (arith, longer))
          ∙ sym (append-cons b r rs))
    ])

-- A name that is such an identifier already is left as it is.
pub sanitize_identifier : (s : Text) → IsIdentifier s → sanitize s ≡ s
unfolding sanitize
sanitize_identifier s (clean, some_left, short) =
    let same = to_lower-Clean s clean in
    let whole = sanitize_onto-append [] s clean (omega arith) in rw same (rw whole (ground arith))
