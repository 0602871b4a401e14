-- ===== src/Worker/Crash/Provisioning.antt =====
-- internal/worker/worker.go: `provision`, cut off after any call, orphans no job.
use infraforge.Base.{
  ◌≡◌, ◌∙◌, refl, ap, some, Result, ok, err, GoError, Mortal, until, incr, decr, Bool-cases, inl,
  inr, errors_is, err_transient, ltb_ℤ, [],
}
use infraforge.Model.{Job, Status, pending, provisioning, ready, failed, deleting, deleted}
use infraforge.Provisioner.{Resources}
use infraforge.Worker.{
  save, abandon, provision_failed, provisioned, attempt, start, provision_by, abandoned_detail,
  transient_detail,
}
use infraforge.Worker.Crash.{mortal, IsProvision}
use infraforge.Worker.Crash.Stages.{
  Task, Lives-weaken, Lives-quiet, InHand, Settled, Settled-IsStable,
}
use infraforge.Worker.Crash.Saves.{
  Keeps, Hand, Has, Hand-quiet, Has-Hand, acked-Keeps, buried-Keeps, save_working, save_settled,
  Has-Done,
}

module _ {W : Type 0} (t : Task W) where
  open t use {d, Later, msg, apart}
  open d use {k, Held, sound, waits, waiting}

  abandon-Keeps :
      (job : Job) (p : Mortal W)
      → job.id ≡ msg.job_id
      → Hand t p
      → Keeps t (abandon (mortal k) msg job p)
  unfolding abandon
  abandon-Keeps job p own h =
      let detail = abandoned_detail (decr job.attempts) in
      let job' = record job { status = failed; detail = detail } in
      buried-Keeps t detail (decr job.attempts) (save (mortal k) job' p).1
        (save_settled t job' p own (waiting.at_failed msg.job_id) h)

  provision_failed-Keeps :
      (job : Job) (e : GoError) (p : Mortal W)
      → job.id ≡ msg.job_id
      → IsProvision msg
      → Hand t p
      → Keeps t (provision_failed (mortal k) msg job e p)
  unfolding provision_failed
  provision_failed-Keeps job e p own prov h =
      let again = record job { detail = transient_detail e } in
      let lost = record job { status = failed; detail = e.message } in
      elim (Bool-cases (errors_is e err_transient)) [
        | inl transient ↦ rw transient (
            Lives-weaken d Later (InHand d Later msg) (λ w. Unit) (save (mortal k) again p).1
              (λ w a. tt) (save_working t again p own prov h))
        | inr permanent ↦ rw permanent (
            buried-Keeps t lost.detail lost.attempts (save (mortal k) lost p).1
              (save_settled t lost p own (waiting.at_failed msg.job_id) h))
      ]

  provisioned-Keeps :
      (job : Job) (res : Resources) (p : Mortal W)
      → job.id ≡ msg.job_id
      → Hand t p
      → Keeps t (provisioned (mortal k) msg job res p)
  unfolding provisioned
  provisioned-Keeps job res p own h =
      let made = record job {
        status = ready;
        connection = some res.connection;
        http = some res.http;
        detail = [];
      } in
      let saved = (save (mortal k) made p).1 in
      let call = k.xds.register job.service_name res.http.host res.http.port in
      acked-Keeps t (until call saved).1 (
        Lives-quiet d Later (Settled d Later msg) call saved (Settled-IsStable d Later msg)
          (sound.register_quiet job.service_name res.http.host res.http.port)
          (save_settled t made p own (waiting.at_ready msg.job_id) h))

  attempt-Keeps :
      (job : Job) (p : Mortal W)
      → job.id ≡ msg.job_id
      → IsProvision msg
      → Hand t p
      → Keeps t (attempt (mortal k) msg job p)
  unfolding attempt save
  attempt-Keeps job p own prov h = split (until (k.provisioner.provision job') p').0 refl
    where
      marked : Job
      marked = record job { status = provisioning; detail = [] }

      job' : Job
      job' = record marked { updated_at = (until k.now p).0 }

      p' : Mortal W
      p' = (save (mortal k) marked p).1

      made_hand : Hand t (until (k.provisioner.provision job') p').1
      made_hand =
          Hand-quiet t (k.provisioner.provision job') p' (sound.provision_quiet job')
            (save_working t marked p own prov h)

      split :
          (r : Result Resources)
          → (until (k.provisioner.provision job') p').0 ≡ r
          → Keeps t (attempt (mortal k) msg job p)
      split (err e) eq = rw (eq, attempt) (provision_failed-Keeps job' e _ own prov made_hand)
      split (ok res) eq = rw (eq, attempt) (provisioned-Keeps job' res _ own made_hand)

  start-Keeps :
      (job : Job) (p : Mortal W)
      → job.id ≡ msg.job_id
      → IsProvision msg
      → Hand t p
      → Keeps t (start (mortal k) msg job p)
  unfolding start
  start-Keeps job p own prov h =
      let job' = record job { attempts = incr job.attempts } in
      elim (Bool-cases (ltb_ℤ k.max_attempts job'.attempts)) [
        | inl over ↦ rw over (abandon-Keeps job' p own h)
        | inr under ↦ rw under (attempt-Keeps job' p own prov h)
      ]

  pub provision_by-Keeps :
      (s : Status) (job : Job) (p : Mortal W)
      → job.status ≡ s
      → job.id ≡ msg.job_id
      → IsProvision msg
      → Has t job p
      → Keeps t (provision_by (mortal k) s msg job p)
  unfolding provision_by
  provision_by-Keeps ready job p e own prov h =
      acked-Keeps t p (Has-Done t job p (ap (waits msg.job_id) e ∙ waiting.at_ready msg.job_id) h)
  provision_by-Keeps deleting job p e own prov h =
      acked-Keeps t p
        (Has-Done t job p (ap (waits msg.job_id) e ∙ waiting.at_deleting msg.job_id) h)
  provision_by-Keeps deleted job p e own prov h =
      acked-Keeps t p (Has-Done t job p (ap (waits msg.job_id) e ∙ waiting.at_deleted msg.job_id) h)
  provision_by-Keeps pending job p e own prov h = start-Keeps job p own prov (Has-Hand t job p h)
  provision_by-Keeps provisioning job p e own prov h =
      start-Keeps job p own prov (Has-Hand t job p h)
  provision_by-Keeps failed job p e own prov h = start-Keeps job p own prov (Has-Hand t job p h)
