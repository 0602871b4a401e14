-- ===== src/Base/Noted.antt =====
-- A world with a list of what has been called in it, to state in which order calls are made.
use mathlib.Core.List.{List, [], ◌∷◌, ◌++◌}

-- The newest call stands last.
abbrev pub Traced : Type 0 → Type 0 → Type 0
Traced E W = W × List E

-- The call `f`, written down as the event that its reply gives.
abbrev pub noted : {E W A : Type 0} → (W → A × W) → (A → E) → Traced E W → A × Traced E W
noted f event (w, t) = let (a, w') = f w in (a, (w', t ++ (event a ∷ [])))

-- A call that is not written down.
abbrev pub silent : {E W A : Type 0} → (W → A × W) → Traced E W → A × Traced E W
silent f (w, t) = let (a, w') = f w in (a, (w', t))
