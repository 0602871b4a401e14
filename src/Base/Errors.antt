-- ===== src/Base/Errors.antt =====
-- Go's errors: a message, and the sentinels that `errors.Is` finds in the chain that `%w` builds.
-- A call that returns a value and an error is a `Result`; one that returns an error alone is an
-- `Option`, with `none` for `nil`.
use mathlib.Core.Path.{◌≡◌, refl}
use mathlib.Core.Bool.{Bool, true, false, ◌||◌}
use mathlib.Core.Logic.{◌⊎◌, inl, inr}
use mathlib.Core.List.{List, [], ◌∷◌, ◌++◌}
use infraforge.Base.Strings.{Text}

pub data Sentinel : Type 0 where
  err_not_found : Sentinel
  err_transient : Sentinel
  redis_nil : Sentinel

abbrev pub same_sentinel : Sentinel → Sentinel → Bool
same_sentinel err_not_found err_not_found = true
same_sentinel err_transient err_transient = true
same_sentinel redis_nil redis_nil = true
same_sentinel _ _ = false

pub record GoError : Type 0 where
  pub message : Text
  pub chain : List Sentinel

abbrev chain_has : List Sentinel → Sentinel → Bool
chain_has [] s = false
chain_has (c ∷ cs) s = same_sentinel c s || chain_has cs s

-- `errors.Is(err, sentinel)`
unfoldable pub errors_is : GoError → Sentinel → Bool
errors_is e s = chain_has e.chain s

-- `errors.New(text)`, `fmt.Errorf(…)` without `%w`
abbrev pub new_error : Text → GoError
new_error t = record { message = t; chain = [] }

-- `fmt.Errorf("prefix%wsuffix", err)`
abbrev pub wrap : Text → GoError → Text → GoError
wrap before e after = record { message = before ++ (e.message ++ after); chain = e.chain }

pub data Result {ℓ} (A : Type ℓ) : Type ℓ where
  ok : A → Result A
  err : GoError → Result A

pub errors_is-wrap :
    (before after : Text) (e : GoError) (s : Sentinel)
    → errors_is (wrap before e after) s ≡ errors_is e s
unfolding errors_is
errors_is-wrap before after e s = refl

pub Result-cases {ℓ} :
    {A : Type ℓ} (r : Result A) → ((e : GoError) × (r ≡ err e)) ⊎ ((a : A) × (r ≡ ok a))
Result-cases (err e) = inl (e, refl)
Result-cases (ok a) = inr (a, refl)
