-- ===== src/Base/Dying.antt =====
-- A process that stops for good after some number of calls, wherever that leaves the world.
use Prim.Native.Nat.{ℕ, zero, suc}
use mathlib.Core.Path.{◌≡◌, refl}

-- The world, and how many calls are left.
abbrev pub Mortal : Type 0 → Type 0
Mortal W = W × ℕ

-- The call `f`; once the process is dead it changes nothing any more.
abbrev pub until : {W A : Type 0} → (W → A × W) → Mortal W → A × Mortal W
until f (w, zero) = ((f w).0, (w, zero))
until f (w, suc n) = let (a, w') = f w in (a, (w', n))

pub until-result : {W A : Type 0} (f : W → A × W) (p : Mortal W) → (until f p).0 ≡ (f p.0).0
until-result f (w, zero) = refl
until-result f (w, suc n) = refl

module _ {W : Type 0} (Inv : W → Type 0) where
  -- The invariant holds, and `A` too as long as the process lives.
  abbrev pub Safe : (W → Type 0) → Mortal W → Type 0
  Safe A (w, zero) = Inv w
  Safe A (w, suc n) = Inv w × A w

  pub Safe-Inv : (A : W → Type 0) (p : Mortal W) → Safe A p → Inv p.0
  Safe-Inv A (w, zero) h = h
  Safe-Inv A (w, suc n) h = h.0

  pub Safe-weaken : (A B : W → Type 0) (p : Mortal W) → ((w : W) → A w → B w) → Safe A p → Safe B p
  Safe-weaken A B (w, zero) f h = h
  Safe-weaken A B (w, suc n) f h = (h.0, f w h.1)

  pub Safe-start : (A : W → Type 0) (w : W) (n : ℕ) → Inv w → A w → Safe A (w, n)
  Safe-start A w zero i a = i
  Safe-start A w (suc n) i a = (i, a)

  -- The rule for one call.
  pub Safe-until :
      {X : Type 0} (A : W → Type 0) (B : X → W → Type 0) (f : W → X × W) (p : Mortal W)
      → ((w : W) → Inv w → A w → Inv (f w).1 × B (f w).0 (f w).1)
      → Safe A p
      → Safe (B (until f p).0) (until f p).1
  Safe-until A B f (w, zero) rule h = h
  Safe-until A B f (w, suc n) rule h =
      let (i, b) = rule w h.0 h.1 in Safe-start (B (f w).0) (f w).1 n i b
