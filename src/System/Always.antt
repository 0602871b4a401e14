-- ===== src/System/Always.antt =====
-- internal/api/api.go, internal/worker/worker.go: what holds in every state that the system comes to.
use infraforge.Base.{
  ℕ, zero, suc, ◌≡◌, subst, Bool, true, false, Bool-cases, inl, inr, List, [], ◌∷◌, ◌++◌, Text, All,
  Safe-Inv, Safe-start, Mortal, Safe, text_eq, text_eq_iff, arith,
}
use infraforge.Model.{Status, pending, provisioning, ready, failed, deleting, deleted}
use infraforge.Queue.{Message}
use infraforge.Api.{serve}
use infraforge.Worker.{Worker}
use infraforge.Worker.Loop.{Context, run_loop, reclaim_rounds}
use infraforge.Worker.Crash.{mortal, Covers, IsQuiet, IsSound, NoOrphan}
use infraforge.Worker.Crash.Batches.{mortal_context, IsQuietContext}
use infraforge.Worker.Crash.Loops.{run_loop_keeps, reclaim_rounds_keeps}
use infraforge.System.{
  Setup, State, worker_of, mortal_broker, created_by, heard, waits_for, Step, serves, consumes,
  reclaims, Reach, here, then,
}
use infraforge.System.Accepting.{duty_of}
use infraforge.System.Serving.{serve-Answered}

-- Another name and other limits change nothing of what the worker relies on.
sound_of :
    {W : Type 0} (k : Worker W) (Held : Message → W → Type 0) (s : Setup)
    → IsSound k Held
    → IsSound (worker_of k s) Held
sound_of k Held s sound = record {
  lawful = sound.lawful;
  put_ok = sound.put_ok;
  group = sound.group;
  Held-put = sound.Held-put;
  get_quiet = sound.get_quiet;
  list_quiet = sound.list_quiet;
  now_quiet = sound.now_quiet;
  provision_quiet = sound.provision_quiet;
  deprovision_quiet = sound.deprovision_quiet;
  register_quiet = sound.register_quiet;
  unregister_quiet = sound.unregister_quiet;
  get-enqueue = sound.get-enqueue;
  get-dequeue = sound.get-dequeue;
  get-reclaim = sound.get-reclaim;
  get-ack = sound.get-ack;
  get-dead_letter = sound.get-dead_letter;
  get-list_dead = sound.get-list_dead;
}

waits_for_less :
    (s : Status) (accepted : List Text) (x id : Text)
    → text_eq x id ≡ false
    → waits_for (x ∷ accepted) id s ≡ true
    → waits_for accepted id s ≡ true
waits_for_less pending accepted x id other h = ground (arith, other, h)
waits_for_less provisioning accepted x id other h = h
waits_for_less ready accepted x id other h = h
waits_for_less failed accepted x id other h = h
waits_for_less deleting accepted x id other h = h
waits_for_less deleted accepted x id other h = h

module _ {W : Type 0} (k : Worker W) (Held : Message → W → Type 0) where
  -- One more job that has been accepted, with its message.
  one_more :
      (x : Text) (accepted : List Text) (w : W)
      → Covers k Held x w
      → NoOrphan k Held (waits_for accepted) w
      → NoOrphan k Held (waits_for (x ∷ accepted)) w
  one_more x accepted w c v = record {
    own = v.own;
    covered = λ id j h n. elim (Bool-cases (text_eq x id)) [
      | inl same ↦ subst (λ i. Covers k Held i w) ((text_eq_iff x id).0 same) c
      | inr other ↦ v.covered id j h (waits_for_less j.status accepted x id other n)
    ];
  }

  some_more :
      (new accepted : List Text) (w : W)
      → All (λ id. Covers k Held id w) new
      → NoOrphan k Held (waits_for accepted) w
      → NoOrphan k Held (waits_for (new ++ accepted)) w
  some_more [] accepted w c v = v
  some_more (x ∷ new) accepted w c v =
      one_more x (new ++ accepted) w c.0 (some_more new accepted w c.1 v)

  -- The clients hear of the acceptance if the broker lives.
  told :
      (new accepted : List Text) (p : Mortal W)
      → Safe (NoOrphan k Held (waits_for accepted)) (λ w. All (λ id. Covers k Held id w) new) p
      → NoOrphan k Held (waits_for (heard p.1 new accepted)) p.0
  told new accepted (w, zero) h = h
  told new accepted (w, suc n) h = some_more new accepted w h.1 h.0

module _ {W : Type 0} (k : Worker W) (random : ℕ → W → List ℕ × W) (context : Text → Context W)
    (Held : Message → W → Type 0) where
  -- What the system relies on.
  pub record IsSoundSystem : Type 0 where
    pub worker : IsSound k Held
    pub random_quiet : (n : ℕ) → IsQuiet k Held (random n)
    pub context_quiet : (name : Text) → IsQuietContext k Held (context name)

  -- Each record is filed under its job's id, and every job that is provisioning, or that is pending
  -- and was accepted, has a provision message that is held.
  abbrev pub Kept : State W → Type 0
  Kept a = NoOrphan k Held (waits_for a.accepted) a.world

  of_worker :
      (s : Setup) (waits : Text → Status → Bool) (w : W)
      → NoOrphan k Held waits w
      → NoOrphan (worker_of k s) Held waits w
  of_worker s waits w v = record { own = v.own; covered = v.covered }

  to_worker :
      (s : Setup) (waits : Text → Status → Bool) (w : W)
      → NoOrphan (worker_of k s) Held waits w
      → NoOrphan k Held waits w
  to_worker s waits w v = record { own = v.own; covered = v.covered }

  module _ (sound : IsSoundSystem) where
    -- A worker that starts with nothing in hand, and what it leaves.
    by_worker :
        (s : Setup) (a : State W) (n : ℕ) (run : Mortal W → Mortal W)
        → ((p : Mortal W)
            → Safe (NoOrphan (worker_of k s) Held (waits_for a.accepted)) (λ w. Unit) p
            → Safe (NoOrphan (worker_of k s) Held (waits_for a.accepted)) (λ w. Unit) (run p))
        → Kept a
        → Kept (record a { world = (run (a.world, n)).0 })
    by_worker s a n run keeps v =
        let waits = waits_for a.accepted in
        let inv = NoOrphan (worker_of k s) Held waits in
        to_worker s waits (run (a.world, n)).0 (
          Safe-Inv inv (λ w. Unit) (run (a.world, n))
            (keeps (a.world, n)
              (Safe-start inv (λ w. Unit) a.world n (of_worker s waits a.world v) tt)))

    context_of : (s : Setup) → IsQuietContext (worker_of k s) Held (context s.name)
    context_of s = record {
      ended_quiet = (sound.context_quiet s.name).ended_quiet;
      sleep_quiet = (sound.context_quiet s.name).sleep_quiet;
    }

    step-Kept : (a b : State W) → Step k random context a b → Kept a → Kept b
    step-Kept a _ (serves r n fresh) v =
        let (x, p) = serve (mortal_broker k random) r (a.world, n) in
        told k Held (created_by r x) a.accepted p (
          serve-Answered k Held sound.worker random sound.random_quiet a.accepted r a.world n fresh
            v)
    step-Kept a _ (consumes s rounds n) v =
        by_worker s a n
          (λ p. (run_loop (mortal_context (context s.name)) (mortal (worker_of k s)) rounds p).1)
          (λ p h.
            run_loop_keeps
              (duty_of (worker_of k s) Held (sound_of k Held s sound.worker) a.accepted)
              (context s.name) (context_of s) rounds p h)
          v
    step-Kept a _ (reclaims s wakes n) v =
        by_worker s a n
          (λ p.
            (reclaim_rounds (mortal_context (context s.name)) (mortal (worker_of k s)) wakes p).1)
          (λ p h.
            reclaim_rounds_keeps
              (duty_of (worker_of k s) Held (sound_of k Held s sound.worker) a.accepted)
              (context s.name) (context_of s) wakes p h)
          v

    -- If requests and rounds of the workers' loops come one after another, and the broker and each
    -- worker may die after any of its calls, then the following stays true once it is true: each
    -- record is filed under its job's id, and every job that is provisioning, or that is pending and
    -- whose acceptance was answered, has a provision message that is not acked. Here the store keeps
    -- what it is given and no write fails, the queue holds a message from its enqueueing to its ack,
    -- the broker draws no id that it has given out, and the other services, the clock and the contexts
    -- touch neither jobs nor messages.
    pub Reach-Kept : (a b : State W) → Reach k random context a b → Kept a → Kept b
    Reach-Kept a _ here v = v
    Reach-Kept a b (then {b = c} before step) v = step-Kept c b step (Reach-Kept a c before v)
