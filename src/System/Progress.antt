-- ===== src/System/Progress.antt =====
-- internal/api/api.go, internal/worker/worker.go: an accepted job is brought to an end.
use infraforge.Base.{ℕ, ◌+◌, ◌≤◌, ◌<◌, ◌≡◌, ◌∙◌, ap, sym, true, List, Text, pos, ok, max_int}
use infraforge.Model.{Job}
use infraforge.Queue.{Message}
use infraforge.Worker.{Worker}
use infraforge.Worker.Loop.{Context}
use infraforge.Worker.Protocol.{is_ack}
use infraforge.Worker.Sole.{IsSole}
use infraforge.Worker.Poison.{total, poison_message_acked}
use infraforge.Worker.Crash.{view, IsSound}
use infraforge.System.{State, Reach, waits_for}
use infraforge.System.Always.{IsSoundSystem, Kept, Reach-Kept}

-- Between the calls of one worker nobody writes jobs.
pub sound-IsSole :
    {W : Type 0} (k : Worker W) (Held : Message → W → Type 0) → IsSound k Held → IsSole k
sound-IsSole k Held sound = record {
  lawful = sound.lawful;
  put_ok = sound.put_ok;
  get-now = λ id w. (sound.now_quiet w).records id;
  get-ack = sound.get-ack;
  get-dead_letter = sound.get-dead_letter;
  get-provision = λ id j w. (sound.provision_quiet j w).records id;
  get-deprovision = λ id j w. (sound.deprovision_quiet j w).records id;
  get-register = λ id s h p w. (sound.register_quiet s h p w).records id;
  get-unregister = λ id s h p w. (sound.unregister_quiet s h p w).records id;
}

module _ {W : Type 0} (k : Worker W) (random : ℕ → W → List ℕ × W) (context : Text → Context W)
    (Held : Message → W → Type 0) (sound : IsSoundSystem k random context Held) where
  -- From a state in which each record is filed under its job's id and every job that waits has a
  -- message that is held, whatever requests were served since and whichever processes died: a job that
  -- is provisioning, or that is pending and was accepted, has a message for it that is not acked yet,
  -- and that is acked in one of its deliveries, if it is delivered more often than the cap leaves
  -- attempts, nobody else writes jobs in between, and the count of attempts does not overflow. Here
  -- too the store keeps what it is given and no write fails, the queue holds a message until its ack,
  -- the broker draws no id again, and the other services touch neither jobs nor messages.
  pub waiting_job_acked :
      (a b : State W) (id : Text) (j : Job) (m n rounds : ℕ)
      → Kept k random context Held a
      → Reach k random context a b
      → (k.store.get id b.world).0 ≡ ok j
      → waits_for b.accepted id j.status ≡ true
      → k.max_attempts ≡ pos m
      → j.attempts ≡ pos n
      → n + rounds ≤ max_int
      → n ≤ m
      → m < n + rounds
      → (msg : Message) × Held msg b.world
        × (msg.job_id ≡ id)
        × (1 ≤ total k msg is_ack rounds b.world)
  waiting_job_acked a b id j m n rounds kept reach found waits cap spent room below enough =
      let v = Reach-Kept k random context Held sound a b reach kept in
      let (msg, held, for_it, up) = v.covered id j found waits in
      (
        msg,
        held,
        for_it,
        poison_message_acked k msg (sound-IsSole k Held sound.worker) up m cap rounds n j b.world
            (ap (λ i. view k Held i b.world) for_it ∙ found) (v.own id j found ∙ sym for_it) spent
            room below enough,
      )
