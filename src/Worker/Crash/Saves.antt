-- ===== src/Worker/Crash/Saves.antt =====
-- internal/worker/worker.go: the writes and the acks of a worker that may die.
use infraforge.Base.{◌≡◌, sym, ap, ◌∙◌, false, Text, ℤ, Mortal, until}
use infraforge.Model.{Job}
use infraforge.Worker.{save}
use infraforge.Worker.Crash.{mortal, IsProvision, IsQuiet}
use infraforge.Worker.Crash.Rules.{ok-injective}
use infraforge.Worker.Crash.Stages.{
  Task, Lives, Lives-weaken, Lives-quiet, dead_letter_quiet, InHand, At, Settled, InHand-IsStable,
  At-IsStable, Nothing-IsStable, Lives-put_working, Lives-put-Settled, Lives-put_same, Lives-ack,
}

module _ {W : Type 0} (t : Task W) where
  open t use {d, Later, msg, apart}
  open d use {k, Held, sound, waits, waiting}

  abbrev pub Keeps : Mortal W → Type 0
  Keeps p = Lives d Later (λ w. Unit) p

  abbrev pub Hand : Mortal W → Type 0
  Hand = Lives d Later (InHand d Later msg)

  abbrev pub Done : Mortal W → Type 0
  Done = Lives d Later (Settled d Later msg)

  abbrev pub Has : Job → Mortal W → Type 0
  Has job = Lives d Later (At d Later msg job)

  pub Hand-quiet :
      {X : Type 0} (f : W → X × W) (p : Mortal W) → IsQuiet k Held f → Hand p → Hand (until f p).1
  Hand-quiet f p q h =
      Lives-quiet d Later (InHand d Later msg) f p (InHand-IsStable d Later msg) q h

  pub Has-quiet :
      {X : Type 0} (job : Job) (f : W → X × W) (p : Mortal W)
      → IsQuiet k Held f
      → Has job p
      → Has job (until f p).1
  Has-quiet job f p q h =
      Lives-quiet d Later (At d Later msg job) f p (At-IsStable d Later msg job) q h

  pub Has-Hand : (job : Job) (p : Mortal W) → Has job p → Hand p
  Has-Hand job p h = Lives-weaken d Later (At d Later msg job) (InHand d Later msg) p (λ w a. a.0) h

  pub acked-Keeps : (p : Mortal W) → Done p → Keeps (until (k.queue.ack msg) p).1
  acked-Keeps p h = Lives-ack d Later msg p apart h

  pub buried-Keeps :
      (detail : Text) (n : ℤ) (p : Mortal W)
      → Done p
      → Keeps (until (k.queue.dead_letter msg detail n) (until (k.queue.ack msg) p).1).1
  buried-Keeps detail n p h =
      let acked = (until (k.queue.ack msg) p).1 in
      let letter = k.queue.dead_letter msg detail n in
      Lives-quiet d Later (λ w. Unit) letter acked (Nothing-IsStable d Later msg)
        (dead_letter_quiet d Later msg detail n) (Lives-ack d Later msg p apart h)

  pub save_working :
      (job : Job) (p : Mortal W)
      → job.id ≡ msg.job_id
      → IsProvision msg
      → Hand p
      → Hand (save (mortal k) job p).1
  unfolding save
  save_working job p own prov h =
      Lives-put_working d Later msg (record job { updated_at = (until k.now p).0 })
        (until k.now p).1 own prov (Hand-quiet k.now p sound.now_quiet h)

  pub save_settled :
      (job : Job) (p : Mortal W)
      → job.id ≡ msg.job_id
      → waits msg.job_id job.status ≡ false
      → Hand p
      → Done (save (mortal k) job p).1
  unfolding save
  save_settled job p own done h =
      Lives-put-Settled d Later msg (record job { updated_at = (until k.now p).0 })
        (until k.now p).1 own done (Hand-quiet k.now p sound.now_quiet h)

  pub save_same :
      (j job : Job) (p : Mortal W)
      → j.id ≡ msg.job_id
      → j.status ≡ job.status
      → (IsProvision msg → ⊥)
      → Has job p
      → Done (save (mortal k) j p).1
  unfolding save
  save_same j job p own same other h =
      Lives-put_same d Later msg (record j { updated_at = (until k.now p).0 }) job (until k.now p).1
        own same other (Has-quiet job k.now p sound.now_quiet h)

  -- The job's record says that it does not wait.
  pub Has-Done :
      (job : Job) (p : Mortal W) → waits msg.job_id job.status ≡ false → Has job p → Done p
  Has-Done job p idle h =
      Lives-weaken d Later (At d Later msg job) (Settled d Later msg) p
        (λ w (held, v). (
          held,
          λ prov j v'.
              ap (λ (x : Job). waits msg.job_id x.status) (ok-injective j job (sym v' ∙ v)) ∙ idle,
        ))
        h
