-- ===== src/Provisioner/Classify.antt =====
-- internal/provisioner/provisioner.go: `Classify`, which decides what a worker retries.
use infraforge.Base.{
  ◌≡◌, refl, ◌↔◌, Bool, true, false, ◌||◌, Text, txt, List, [], ◌∷◌, ◌++◌, arith, Option, none,
  some, GoError, err_transient, errors_is, if◌then◌else◌, to_lower, has_substring,
  has_substring_iff, Occurs, Bool-cases, inl, inr, ◌⊎◌,
}

unfoldable pub transient_patterns : List Text
unfolding txt
transient_patterns =
    txt "cannot connect to the docker daemon"
    ∷ txt "context deadline exceeded"
    ∷ txt "i/o timeout"
    ∷ txt "connection refused"
    ∷ txt "network is unreachable"
    ∷ txt "no such host"
    ∷ txt "temporary failure in name resolution"
    ∷ txt "docker daemon"
    ∷ []

-- One of the patterns is contained in `s`: the loop of `Classify`.
unfoldable pub matches_any : Text → List Text → Bool
matches_any s [] = false
matches_any s (p ∷ ps) = has_substring s p || matches_any s ps

-- `nil` is `none`. The wrapped error has the sentinel alone in its chain, as its cause is printed.
unfoldable pub classify : Option GoError → Option GoError
unfolding matches_any txt
classify none = none
classify (some e) =
    if matches_any (to_lower e.message) transient_patterns
    then some
        (record { message = txt "transient error: " ++ e.message; chain = err_transient ∷ [] })
    else some e

-- Some text of the list stands in `s`.
pub data OneOccurs (s : Text) : List Text → Type 0 where
  this : {p : Text} {ps : List Text} → Occurs p s → OneOccurs s (p ∷ ps)
  other : {p : Text} {ps : List Text} → OneOccurs s ps → OneOccurs s (p ∷ ps)

matches_any_found : (s : Text) (ps : List Text) → matches_any s ps ≡ true → OneOccurs s ps
unfolding matches_any
matches_any_found s [] h = cc
matches_any_found s (p ∷ ps) h = elim (Bool-cases (has_substring s p)) [
  | inl found ↦ this ((has_substring_iff s p).0 found)
  | inr absent ↦ other (matches_any_found s ps (ground arith))
]

matches_any_complete : (s : Text) (ps : List Text) → OneOccurs s ps → matches_any s ps ≡ true
unfolding matches_any
matches_any_complete s [] o = elim o [ ]
matches_any_complete s (p ∷ ps) (this o) = ground (arith, (has_substring_iff s p).1 o)
matches_any_complete s (p ∷ ps) (other o) = ground (arith, matches_any_complete s ps o)

-- What `Classify` makes of an error is transient exactly if the error was, or its text, in lower
-- case, contains one of the patterns; and its text still ends with the text of the error.
pub classify_transient_iff :
    (e : GoError)
    → (d : GoError) × (classify (some e) ≡ some d)
      × ((errors_is d err_transient ≡ true) ↔ (
          (errors_is e err_transient ≡ true) ⊎ OneOccurs (to_lower e.message) transient_patterns))
      × ((before : Text) × (d.message ≡ before ++ e.message))
unfolding classify errors_is
classify_transient_iff e = elim (Bool-cases (matches_any (to_lower e.message) transient_patterns)) [
  | inl hit ↦ (
    record { message = txt "transient error: " ++ e.message; chain = err_transient ∷ [] },
    rw hit refl,
    (λ h. inr (matches_any_found (to_lower e.message) transient_patterns hit), λ h. refl),
    (txt "transient error: ", refl),
  )
  | inr miss ↦ (
    e,
    rw miss refl,
    (
      inl,
      λ h. elim h [
        | inl was ↦ was
        | inr one ↦
            absurd
              (ground (arith, matches_any_complete (to_lower e.message) transient_patterns one))
      ],
    ),
    ([], refl),
  )
]

-- An error that names a known transient cause is transient once it was classified.
pub classify_marked :
    (e : GoError)
    → (d : GoError) × (classify (some e) ≡ some d)
      × (OneOccurs (to_lower d.message) transient_patterns → errors_is d err_transient ≡ true)
unfolding classify errors_is
classify_marked e = elim (Bool-cases (matches_any (to_lower e.message) transient_patterns)) [
  | inl hit ↦ (
    record { message = txt "transient error: " ++ e.message; chain = err_transient ∷ [] },
    rw hit refl,
    λ h. refl,
  )
  | inr miss ↦ (
    e,
    rw miss refl,
    λ one.
        absurd
          (ground (arith, miss, matches_any_complete (to_lower e.message) transient_patterns one)),
  )
]
