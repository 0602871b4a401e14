-- ===== src/Worker/Crash/Batches.antt =====
-- internal/worker/worker.go: the handling of the messages that one call hands over.
use infraforge.Base.{
  ℕ, ◌≢◌, List, [], ◌∷◌, ℤ, All, Mortal, until, Safe-weaken, Among, All-Among, Among-All, Text,
  Bool-cases, inl, inr,
}
use infraforge.Queue.{Message}
use infraforge.Queue.Group.{IsApart}
use infraforge.Worker.{Worker, handle}
use infraforge.Worker.Loop.{Context, unless_ended, handle_all}
use infraforge.Worker.Crash.{Duty, mortal, IsQuiet, NoOrphan}
use infraforge.Worker.Crash.Rules.{Alive, calm}
use infraforge.Worker.Crash.Stages.{With, InHand}
use infraforge.Worker.Crash.Handling.{handle-Keeps}

-- The context of a worker that may die.
abbrev pub mortal_context : {W : Type 0} → Context W → Context (Mortal W)
mortal_context c = record {
  ended = until c.ended;
  sleep = λ n p. (until (λ w. (tt, c.sleep n w)) p).1;
}

-- The context and the pauses touch nothing that is shared.
pub record IsQuietContext {W : Type 0} (k : Worker W) (Held : Message → W → Type 0) (c : Context W)
    : Type 0 where
  pub ended_quiet : IsQuiet k Held c.ended
  pub sleep_quiet : (n : ℕ) → IsQuiet k Held (λ w. (tt {0}, c.sleep n w))

-- The messages are held.
abbrev pub Batch : {W : Type 0} → (Message → W → Type 0) → List Message → W → Type 0
Batch Held ms w = All (λ m. Held m w) ms

module _ {W : Type 0} (d : Duty W) (c : Context W) (quiet : IsQuietContext d.k d.Held c) where
  open d use {k, Held, sound, waits, waiting}

  pub Batch-quiet :
      {X : Type 0} (f : W → X × W) (w : W) (ms : List Message)
      → IsQuiet k Held f
      → Batch Held ms w
      → Batch Held ms (f w).1
  Batch-quiet f w [] q h = tt
  Batch-quiet f w (m ∷ ms) q h = ((q w).messages m h.0, Batch-quiet f w ms q h.1)

  pub reclaim_quiet : (s : Text) (i n : ℤ) → IsQuiet k Held (k.queue.reclaim s i n)
  reclaim_quiet s i n w = record {
    records = λ id. sound.get-reclaim id s i n w;
    messages = λ m h. sound.group.Held-reclaim m s i n w h;
  }

  pub dequeue_quiet : (s : Text) (b : ℤ) → IsQuiet k Held (k.queue.dequeue s b)
  dequeue_quiet s b w = record {
    records = λ id. sound.get-dequeue id s b w;
    messages = λ m h. sound.group.Held-dequeue m s b w h;
  }

  -- The handling of a message, with others to be handled later.
  pub handled :
      (m : Message) (ms : List Message) (p : Mortal W)
      → All (λ n. n.id ≢ m.id) ms
      → Alive d (Batch Held (m ∷ ms)) p
      → Alive d (Batch Held ms) (handle (mortal k) m p)
  handled m ms p apart h =
      Safe-weaken (NoOrphan k Held waits) (With d (Among ms) (λ w. Unit)) (Batch Held ms)
        (handle (mortal k) m p) (λ w (_, later). All-Among (λ n. Held n w) ms later)
        (handle-Keeps
          (record {
            d = d;
            Later = Among ms;
            msg = m;
            apart = Among-All (λ n. n.id ≢ m.id) ms apart;
          })
          p
          (Safe-weaken (NoOrphan k Held waits) (Batch Held (m ∷ ms))
            (With d (Among ms) (InHand d (Among ms) m)) p
            (λ w (held, rest). (held, Among-All (λ n. Held n w) ms rest)) h))

  pub handle_all_keeps :
      (ms : List Message) (p : Mortal W)
      → IsApart ms
      → Alive d (Batch Held ms) p
      → Alive d (λ w. Unit) (handle_all (mortal_context c) (mortal k) ms p).1
  unfolding handle_all
  handle_all_keeps [] p apart h = h
  handle_all_keeps (m ∷ ms) p apart h =
      let p' = (until c.ended p).1 in
      let h' =
        calm d (Batch Held (m ∷ ms)) c.ended p
          (λ w b. Batch-quiet c.ended w (m ∷ ms) quiet.ended_quiet b) quiet.ended_quiet h in
      elim (Bool-cases (until c.ended p).0) [
        | inl over ↦ rw over (
            Safe-weaken (NoOrphan k Held waits) (Batch Held (m ∷ ms)) (λ w. Unit) p' (λ w b. tt) h')
        | inr on ↦
            rw on
              (handle_all_keeps ms (handle (mortal k) m p') apart.1 (handled m ms p' apart.0 h'))
      ]

  -- A failed call, and what the loop does then.
  pub unless_ended_keeps :
      (rest : Mortal W → Mortal W) (p : Mortal W)
      → ((q : Mortal W) → Alive d (λ w. Unit) q → Alive d (λ w. Unit) (rest q))
      → Alive d (λ w. Unit) p
      → Alive d (λ w. Unit) (unless_ended (mortal_context c) (mortal k) rest p).1
  unless_ended_keeps rest p keeps h =
      let h' = calm d (λ w. Unit) c.ended p (λ w a. tt) quiet.ended_quiet h in
      elim (Bool-cases (until c.ended p).0) [
        | inl over ↦ rw over h'
        | inr on ↦ rw on (keeps (until c.ended p).1 h')
      ]
