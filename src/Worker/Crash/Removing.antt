-- ===== src/Worker/Crash/Removing.antt =====
-- internal/worker/worker.go: `deprovision`, cut off after any call, orphans no job.
use infraforge.Base.{◌≡◌, ◌∙◌, refl, ap, Option, none, some, GoError, Mortal, until, []}
use infraforge.Model.{
  Job, Status, pending, provisioning, ready, failed, deleting, deleted, HttpEndpoint,
}
use infraforge.Worker.{save, unregister_job, teardown, deprovision_by, teardown_detail}
use infraforge.Worker.Crash.{mortal, IsProvision}
use infraforge.Worker.Crash.Stages.{Task}
use infraforge.Worker.Crash.Saves.{
  Keeps, Has, Has-quiet, Has-Hand, acked-Keeps, save_settled, save_same, Has-Done,
}

module _ {W : Type 0} (t : Task W) where
  open t use {d, Later, msg, apart}
  open d use {k, Held, sound, waits, waiting}

  unregister-Has :
      (job : Job) (h : Option HttpEndpoint) (p : Mortal W)
      → Has t job p
      → Has t job (unregister_job (mortal k) job h p)
  unfolding unregister_job
  unregister-Has job none p has = has
  unregister-Has job (some h) p has =
      Has-quiet t job (k.xds.unregister job.service_name h.host h.port) p
        (sound.unregister_quiet job.service_name h.host h.port) has

  teardown-Keeps :
      (job : Job) (p : Mortal W)
      → job.id ≡ msg.job_id
      → (IsProvision msg → ⊥)
      → Has t job p
      → Keeps t (teardown (mortal k) msg job p)
  unfolding teardown
  teardown-Keeps job p own other h = split (until (k.provisioner.deprovision job) p').0 refl
    where
      p' : Mortal W
      p' = unregister_job (mortal k) job job.http p

      torn : Mortal W
      torn = (until (k.provisioner.deprovision job) p').1

      torn_has : Has t job torn
      torn_has =
          Has-quiet t job (k.provisioner.deprovision job) p' (sound.deprovision_quiet job)
            (unregister-Has job job.http p h)

      lost : GoError → Job
      lost e = record job { detail = teardown_detail e }

      gone : Job
      gone = record job { status = deleted; detail = []; connection = none; http = none }

      split :
          (r : Option GoError)
          → (until (k.provisioner.deprovision job) p').0 ≡ r
          → Keeps t (teardown (mortal k) msg job p)
      split (some e) eq =
          rw (eq, teardown)
            (acked-Keeps t (save (mortal k) (lost e) torn).1
              (save_same t (lost e) job torn own refl other torn_has))
      split none eq =
          rw (eq, teardown)
            (acked-Keeps t (save (mortal k) gone torn).1 (
              save_settled t gone torn own (waiting.at_deleted msg.job_id)
                (Has-Hand t job torn torn_has)))

  pub deprovision_by-Keeps :
      (s : Status) (job : Job) (p : Mortal W)
      → job.status ≡ s
      → job.id ≡ msg.job_id
      → (IsProvision msg → ⊥)
      → Has t job p
      → Keeps t (deprovision_by (mortal k) s msg job p)
  unfolding deprovision_by
  deprovision_by-Keeps deleted job p e own other h =
      acked-Keeps t p (Has-Done t job p (ap (waits msg.job_id) e ∙ waiting.at_deleted msg.job_id) h)
  deprovision_by-Keeps pending job p e own other h = teardown-Keeps job p own other h
  deprovision_by-Keeps provisioning job p e own other h = teardown-Keeps job p own other h
  deprovision_by-Keeps ready job p e own other h = teardown-Keeps job p own other h
  deprovision_by-Keeps failed job p e own other h = teardown-Keeps job p own other h
  deprovision_by-Keeps deleting job p e own other h = teardown-Keeps job p own other h
