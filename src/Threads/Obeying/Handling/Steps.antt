-- ===== src/Threads/Obeying/Handling/Steps.antt =====
-- internal/worker/worker.go: the writes and the acks of a worker.
use infraforge.Base.{ℤ, ◌≡◌, ◌≢◌, true, sym, ap, ◌∙◌, subst, false, Text, Among, none, some, ok}
use infraforge.Model.{Job, Status}
use infraforge.Queue.{Message}
use infraforge.Worker.Crash.{IsProvision}
use infraforge.Worker.Protocol.{allowed}
use infraforge.Calls.{put, ack, Code}
use infraforge.Calls.Handling.{acking, burying}
use infraforge.Threads.{Mind, concerns, learn}
use infraforge.Threads.Minds.{concerned, without-Among}
use infraforge.Threads.Discipline.{Writes, closes, works, is_open, Acks, Obeys}

-- What follows the handling of a message obeys, as long as the other messages are still at hand.
abbrev pub ObeysAfter : {A : Type 0} → Mind → Message → Code A → Type 0
ObeysAfter m msg rest =
    (m' : Mind) → ((n : Message) → n.id ≢ msg.id → Among m.hand n → Among m'.hand n) → Obeys m' rest

-- The record that the process knows is of the job of the message.
abbrev pub Knows : Mind → Message → Job → Type 0
Knows m msg job = (m.known ≡ some (msg.job_id, ok job)) × (job.id ≡ msg.job_id)

module _ {A : Type 0} (msg : Message) (rest : Code A) where
  -- The record that the process knows is of the job of the message, and of that status.
  abbrev pub Read : Mind → Status → Job → Type 0
  Read m t job =
      (i : Job) × (m.known ≡ some (msg.job_id, ok i)) × (i.status ≡ t) × (job.id ≡ msg.job_id)

  abbrev pub Follows : Mind → Type 0
  Follows m = ObeysAfter m msg rest

  pub acking-Obeys : (m : Mind) → Acks m msg → Follows m → Obeys m (acking msg rest)
  unfolding acking
  acking-Obeys m acks after =
      (acks, λ r _. after (learn (ack msg) r m) (λ n other a. without-Among msg m.hand n other a))

  pub burying-Obeys :
      (m : Mind) (detail : Text) (n : ℤ)
      → Acks m msg
      → Follows m
      → Obeys m (burying msg detail n rest)
  unfolding burying acking
  burying-Obeys m detail n acks after = (
    acks,
    λ r _.
        (tt, λ r' _. after (learn (ack msg) r m) (λ n other a. without-Among msg m.hand n other a)),
  )

  -- The mind after a record is written.
  abbrev pub wrote : Mind → Job → Mind
  wrote m job = learn (put job) none m

  -- A record that is done with is written, and the message may go.
  pub closed-Acks :
      (m : Mind) (job : Job)
      → Among m.hand msg
      → job.id ≡ msg.job_id
      → is_open job.status ≡ false
      → Acks (wrote m job) msg
  closed-Acks m job here own done = record {
    at_hand = here;
    closed = λ prov. (ok job, ap (λ i. some (i, ok job)) own, done);
  }

  pub closes_own :
      (m : Mind) (t : Status) (job : Job)
      → Among m.hand msg
      → Read m t job
      → is_open job.status ≡ false
      → allowed t job.status ≡ true
      → Writes m job
  closes_own m t job here (i, known, is, own) done fine =
      closes (subst (Among (concerns m)) (sym own) (concerned m msg here)) done
        (i, known ∙ ap (λ x. some (x, ok i)) (sym own), ap (λ x. allowed x job.status) is ∙ fine)

  pub works_own :
      (m : Mind) (t : Status) (job : Job)
      → Among m.hand msg
      → Read m t job
      → IsProvision msg
      → allowed t job.status ≡ true
      → Writes m job
  works_own m t job here (i, known, is, own) prov fine =
      works msg here (sym own) prov
        (i, known ∙ ap (λ x. some (x, ok i)) (sym own), ap (λ x. allowed x job.status) is ∙ fine)

  pub known-Acks :
      (m : Mind) (job : Job)
      → Among m.hand msg
      → Knows m msg job
      → is_open job.status ≡ false
      → Acks m msg
  known-Acks m job here knows done = record {
    at_hand = here;
    closed = λ prov. (ok job, knows.0, done);
  }

  -- A message that is no provision may go at any time.
  pub other-Acks : (m : Mind) → Among m.hand msg → (IsProvision msg → ⊥) → Acks m msg
  other-Acks m here other = record { at_hand = here; closed = λ prov. absurd (other prov) }
