-- ===== src/Threads/Invariant.antt =====
-- internal/worker/worker.go, internal/api/api.go: what every state keeps, what a process can rely on,
-- and what the other processes leave to it.
use infraforge.Base.{
  ok, ℕ, ◌≡◌, ◌≢◌, ◌⊎◌, inl, inr, ◌∙◌, arith, true, false, Text, ◌++◌, Among, some, Result,
  contains,
}
use infraforge.Model.{Job, Status, pending}
use infraforge.Queue.{Message}
use infraforge.Worker.Crash.{IsWaiting, IsQuiet, view, NoOrphan, Duty}
use infraforge.Worker.Crash.Rules.{quiet_keeps}
use infraforge.Worker.Protocol.{allowed}
use infraforge.System.Always.{IsSoundSystem}
use infraforge.Calls.{Call, Reply, Services}
use infraforge.Threads.{Mind, learn, concerns, Ledger, torn_by, note, waits_in, IsApartFrom, State}
use infraforge.Threads.Discipline.{is_open, IsReply, Obeys}

pub waits_in-IsWaiting : (g : Ledger) → IsWaiting (waits_in g)
waits_in-IsWaiting g = record {
  at_ready = λ id. ground arith;
  at_failed = λ id. ground arith;
  at_deleting = λ id. ground arith;
  at_deleted = λ id. ground arith;
}

pub waits_in-closed :
    (g : Ledger) (id : Text) (s : Status) → is_open s ≡ false → waits_in g id s ≡ false
waits_in-closed g id s h = ground (arith, h)

pub waits_in-torn :
    (g : Ledger) (id : Text) (s : Status) → contains g.torn id ≡ true → waits_in g id s ≡ false
waits_in-torn g id s h = ground (arith, h)

pub waits_in-unsent :
    (g : Ledger) (id : Text) → contains g.sent id ≡ false → waits_in g id pending ≡ false
waits_in-unsent g id h = ground (arith, h)

pub torn-grows :
    (g : Ledger) (s : Status) (j id : Text)
    → contains g.torn id ≡ true
    → contains (torn_by s j ++ g.torn) id ≡ true
torn-grows g s j id h = ground (arith, h)

pub waits-shrinks :
    (g : Ledger) (s t : Status) (j id : Text)
    → waits_in (record g { torn = torn_by s j ++ g.torn }) id t ≡ true
    → waits_in g id t ≡ true
waits-shrinks g s t j id h = ground (arith, h)

pub allowed_refl : (t : Status) → allowed t t ≡ true
allowed_refl t = ground arith

module _ {W : Type 0} (s : Services W) (Held : Message → W → Type 0)
    (sound : IsSoundSystem s.k s.random_bytes s.context Held) where
  abbrev pub duty : Ledger → Duty W
  duty g = record {
    k = s.k;
    Held = Held;
    sound = sound.worker;
    waits = waits_in g;
    waiting = waits_in-IsWaiting g;
  }

  abbrev pub IsKept : Ledger → W → Type 0
  IsKept g w = NoOrphan s.k Held (waits_in g) w

  -- What the process has learnt still holds, for jobs that are not torn down.
  pub record Fits (m : Mind) (g : Ledger) (w : W) : Type 0 where
    pub held : (n : Message) → Among m.hand n → Held n w
    pub knows :
        (id : Text) (r : Result Job)
        → m.known ≡ some (id, r)
        → Among (concerns m) id
        → (contains g.torn id ≡ true) ⊎ (view s.k Held id w ≡ r)
    pub unsent :
        (id : Text) → Among m.drawn id → (contains g.torn id ≡ true) ⊎ (contains g.sent id ≡ false)

  -- A call of another process leaves the messages and the jobs of the mind alone.
  pub record Spares (m : Mind) (g : Ledger) (w : W) (g' : Ledger) (w' : W) : Type 0 where
    pub held : (n : Message) → Among m.hand n → Held n w → Held n w'
    pub records :
        (id : Text)
        → Among (concerns m) id
        → (contains g'.torn id ≡ true) ⊎ (view s.k Held id w' ≡ view s.k Held id w)
    pub torn : (id : Text) → contains g.torn id ≡ true → contains g'.torn id ≡ true
    pub sent :
        (id : Text)
        → Among m.drawn id
        → contains g.sent id ≡ false
        → (contains g'.torn id ≡ true) ⊎ (contains g'.sent id ≡ false)

  -- The record of a job whose message is sent is there, and its status has changed as a worker may
  -- change it, unless the deletion of the job has begun.
  abbrev pub Follows : Ledger → W → Ledger → W → Type 0
  Follows g w g' w' =
      (id : Text) (i : Job)
      → contains g.sent id ≡ true
      → view s.k Held id w ≡ ok i
      → (contains g'.torn id ≡ true)
        ⊎ ((j : Job) × (view s.k Held id w' ≡ ok j) × (allowed i.status j.status ≡ true))

  -- No record changes.
  pub same-Follows :
      (g : Ledger) (w : W) (g' : Ledger) (w' : W)
      → ((id : Text) → view s.k Held id w' ≡ view s.k Held id w)
      → Follows g w g' w'
  same-Follows g w g' w' same id i sent h = inr (i, same id ∙ h, allowed_refl i.status)

  -- What a call of the process with that mind does.
  pub record IsSafeCall (m : Mind) (c : Call) (r : Reply c) (g : Ledger) (w w' : W) : Type 0 where
    pub kept : IsKept (note c r g) w'
    pub fits : Fits (learn c r m) (note c r g) w'
    pub spares : (t : Mind) → IsApartFrom g m t → Spares t g w (note c r g) w'
    pub follows : Follows g w (note c r g) w'
    pub reply : IsReply c r

  pub record IsOrderly (a : State W) : Type 0 where
    pub kept : IsKept a.ledger a.world
    pub fits : (i : ℕ) → Fits (a.threads i).mind a.ledger a.world
    pub obeys : (i : ℕ) → Obeys (a.threads i).mind (a.threads i).rest
    pub apart : (i j : ℕ) → i ≢ j → IsApartFrom a.ledger (a.threads i).mind (a.threads j).mind

  -- What a process has learnt survives the calls of the others.
  pub Spares-Fits :
      (m : Mind) (g g' : Ledger) (w w' : W) → Spares m g w g' w' → Fits m g w → Fits m g' w'
  Spares-Fits m g g' w w' sp f = record {
    held = λ n a. sp.held n a (f.held n a);
    knows = λ id r e a. elim (sp.records id a) [
      | inl torn ↦ inl torn
      | inr same ↦ elim (f.knows id r e a) [
        | inl torn ↦ inl (sp.torn id torn)
        | inr now ↦ inr (same ∙ now)
      ]
    ];
    unsent = λ id a. elim (f.unsent id a) [
      | inl torn ↦ inl (sp.torn id torn)
      | inr new ↦ sp.sent id a new
    ];
  }

  -- Fewer jobs wait.
  pub IsKept-weaken :
      (g g' : Ledger) (w : W)
      → ((id : Text) (t : Status) → waits_in g' id t ≡ true → waits_in g id t ≡ true)
      → IsKept g w
      → IsKept g' w
  IsKept-weaken g g' w less v = record {
    own = v.own;
    covered = λ id j h n. v.covered id j h (less id j.status n);
  }

  module _ (g : Ledger) (w : W) {X : Type 0} (f : W → X × W) (q : IsQuiet s.k Held f) where
    pub quiet-IsKept : IsKept g w → IsKept g (f w).1
    quiet-IsKept v = quiet_keeps (duty g) f w q v

    pub quiet-Spares : (m : Mind) → Spares m g w g (f w).1
    quiet-Spares m = record {
      held = λ n a h. (q w).messages n h;
      records = λ id a. inr ((q w).records id);
      torn = λ id h. h;
      sent = λ id a h. inr h;
    }

    pub quiet-Fits : (m : Mind) → Fits m g w → Fits m g (f w).1
    quiet-Fits m h = Spares-Fits m g g w (f w).1 (quiet-Spares m) h
