-- ===== src/Worker/Crash/Loops.antt =====
-- internal/worker/worker.go: the loops, cut off after any call, orphan no job.
use infraforge.Base.{
  ℕ, zero, suc, ◌≡◌, ◌⊎◌, refl, sym, ◌∙◌, List, [], ◌∷◌, pos, Option, none, some, Result, ok, err,
  Mortal, until, until-result, Safe-until, Safe-weaken, Bool-cases, inl, inr,
}
use infraforge.Queue.{Message}
use infraforge.Worker.{handle}
use infraforge.Worker.Loop.{
  Context, Flow, goes_on, stops, Signal, ticked, done, turn, received, tick, run_loop,
  reclaim_rounds,
}
use infraforge.Worker.Crash.{Duty, mortal, NoOrphan}
use infraforge.Worker.Crash.Rules.{Alive, calm, quiet_keeps}
use infraforge.Worker.Crash.Batches.{
  mortal_context, IsQuietContext, Batch, reclaim_quiet, dequeue_quiet, handled, handle_all_keeps,
  unless_ended_keeps,
}

Flow-cases : (f : Flow) → (f ≡ stops) ⊎ (f ≡ goes_on)
Flow-cases stops = inl refl
Flow-cases goes_on = inr refl

module _ {W : Type 0} (d : Duty W) (c : Context W) (quiet : IsQuietContext d.k d.Held c) where
  open d use {k, Held, sound, waits, waiting}

  -- A tick of the reclaim loop.
  pub tick_keeps :
      (p : Mortal W)
      → Alive d (λ w. Unit) p
      → Alive d (λ w. Unit) (tick (mortal_context c) (mortal k) p).1
  unfolding tick
  tick_keeps p h = split (until reclaim p).0 refl
    where
      reclaim : W → Result (List Message) × W
      reclaim = k.queue.reclaim k.name k.reclaim_min_idle (pos 16)

      Taken : Result (List Message) → W → Type 0
      Taken r w = (ms : List Message) → r ≡ ok ms → Batch Held ms w

      taken : Alive d (Taken (until reclaim p).0) (until reclaim p).1
      taken =
          Safe-until (NoOrphan k Held waits) (λ w. Unit) Taken reclaim p
            (λ w i _. (
              quiet_keeps d reclaim w (reclaim_quiet d c quiet k.name k.reclaim_min_idle (pos 16))
                  i,
              λ ms e. (sound.group.reclaimed k.name k.reclaim_min_idle (pos 16) w ms e).1,
            ))
            h

      split :
          (r : Result (List Message))
          → (until reclaim p).0 ≡ r
          → Alive d (λ w. Unit) (tick (mortal_context c) (mortal k) p).1
      split (err e) eq =
          rw (eq, tick)
            (unless_ended_keeps d c quiet (λ q. q) (until reclaim p).1 (λ q a. a)
              (Safe-weaken (NoOrphan k Held waits) (Taken (until reclaim p).0) (λ w. Unit)
                (until reclaim p).1 (λ w t. tt) taken))
      split (ok ms) eq =
          rw (eq, tick)
            (handle_all_keeps d c quiet ms (until reclaim p).1
              (sound.group.reclaimed k.name k.reclaim_min_idle (pos 16) p.0 ms
                (sym (until-result reclaim p) ∙ eq)).0
              (Safe-weaken (NoOrphan k Held waits) (Taken (until reclaim p).0) (Batch Held ms)
                (until reclaim p).1 (λ w t. t ms eq) taken))

  pub reclaim_rounds_keeps :
      (wakes : List Signal) (p : Mortal W)
      → Alive d (λ w. Unit) p
      → Alive d (λ w. Unit) (reclaim_rounds (mortal_context c) (mortal k) wakes p).1
  unfolding reclaim_rounds
  reclaim_rounds_keeps [] p h = h
  reclaim_rounds_keeps (done ∷ wakes) p h = h
  reclaim_rounds_keeps (ticked ∷ wakes) p h =
      let next = tick (mortal_context c) (mortal k) p in
      elim (Flow-cases next.0) [
        | inl over ↦ rw (over, reclaim_rounds) (tick_keeps p h)
        | inr on ↦ rw (on, reclaim_rounds) (reclaim_rounds_keeps wakes next.1 (tick_keeps p h))
      ]

  -- A round of the consuming loop.
  pub turn_keeps :
      (p : Mortal W)
      → Alive d (λ w. Unit) p
      → Alive d (λ w. Unit) (turn (mortal_context c) (mortal k) p).1
  unfolding turn
  turn_keeps p h = elim (Bool-cases (until c.ended p).0) [
    | inl over ↦ rw over h'
    | inr on ↦ rw on (split (until dequeue p').0 refl)
  ]
    where
      dequeue : W → Result (Option Message) × W
      dequeue = k.queue.dequeue k.name k.block_timeout

      p' : Mortal W
      p' = (until c.ended p).1

      h' : Alive d (λ w. Unit) p'
      h' = calm d (λ w. Unit) c.ended p (λ w a. tt) quiet.ended_quiet h

      Got : Result (Option Message) → W → Type 0
      Got r w = (m : Message) → r ≡ ok (some m) → Held m w

      got : Alive d (Got (until dequeue p').0) (until dequeue p').1
      got =
          Safe-until (NoOrphan k Held waits) (λ w. Unit) Got dequeue p'
            (λ w i _. (
              quiet_keeps d dequeue w (dequeue_quiet d c quiet k.name k.block_timeout) i,
              λ m e. sound.group.dequeued k.name k.block_timeout w m e,
            ))
            h'

      forgotten : Alive d (λ w. Unit) (until dequeue p').1
      forgotten =
          Safe-weaken (NoOrphan k Held waits) (Got (until dequeue p').0) (λ w. Unit)
            (until dequeue p').1 (λ w t. tt) got

      split :
          (r : Result (Option Message))
          → (until dequeue p').0 ≡ r
          → Alive d
              (λ w. Unit)
              (received (mortal_context c) (mortal k) (until dequeue p').0 (until dequeue p').1).1
      split (err e) eq = rw eq (
          unless_ended_keeps d c quiet (λ q. (mortal_context c).sleep 1000000000 q)
            (until dequeue p').1
            (λ q a.
              calm d (λ w. Unit) (λ w. (tt {0}, c.sleep 1000000000 w)) q (λ w _. tt)
                (quiet.sleep_quiet 1000000000) a)
            forgotten)
      split (ok none) eq = rw eq forgotten
      split (ok (some m)) eq = rw eq (
          Safe-weaken (NoOrphan k Held waits) (Batch Held []) (λ w. Unit)
            (handle (mortal k) m (until dequeue p').1) (λ w b. tt)
            (handled d c quiet m [] (until dequeue p').1 tt (
              Safe-weaken (NoOrphan k Held waits) (Got (until dequeue p').0) (Batch Held (m ∷ []))
                (until dequeue p').1 (λ w t. (t m eq, tt)) got)))

  pub run_loop_keeps :
      (rounds : ℕ) (p : Mortal W)
      → Alive d (λ w. Unit) p
      → Alive d (λ w. Unit) (run_loop (mortal_context c) (mortal k) rounds p).1
  unfolding run_loop
  run_loop_keeps zero p h = h
  run_loop_keeps (suc rounds) p h =
      let next = turn (mortal_context c) (mortal k) p in
      elim (Flow-cases next.0) [
        | inl over ↦ rw (over, run_loop) (turn_keeps p h)
        | inr on ↦ rw (on, run_loop) (run_loop_keeps rounds next.1 (turn_keeps p h))
      ]
