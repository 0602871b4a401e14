-- ===== src/Store.antt =====
-- internal/store/store.go: the `Store` interface, over a world `W` that its calls may change.
pub mod Mem
pub mod Redis
use infraforge.Base.{Text, Option, none, ◌≡◌, ◌≢◌, List, Result, GoError, ok}
use infraforge.Model.{Job}

pub record Store (W : Type 0) : Type 0 where
  pub put : Job → W → Option GoError × W
  pub get : Text → W → Result Job × W
  pub list : W → Result (List Job) × W

-- What a client relies on: a write that reports no error is what the next read returns, no other
-- job is touched by it, and a read changes no later read.
pub record IsLawful {W : Type 0} (s : Store W) : Type 0 where
  pub get-put : (j : Job) (w : W) → (s.put j w).0 ≡ none → (s.get j.id (s.put j w).1).0 ≡ ok j
  pub get-put_ne :
      (j : Job) (k : Text) (w : W) → j.id ≢ k → (s.get k (s.put j w).1).0 ≡ (s.get k w).0
  pub get-get : (i k : Text) (w : W) → (s.get k (s.get i w).1).0 ≡ (s.get k w).0
