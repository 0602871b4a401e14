-- ===== src/Calls/Agreement.antt =====
-- internal/worker/worker.go: the tree of calls does what the code does, when nothing else runs.
pub mod Loops
pub mod Requests
pub mod Processes
use infraforge.Base.{
  ◌≡◌, refl, arith, ℤ, Text, Option, none, some, GoError, Result, ok, err, Bool-cases, inl, inr,
  errors_is, err_transient, ltb_ℤ, incr, text_eq,
}
use infraforge.Model.{
  Job, HttpEndpoint, Status, pending, provisioning, ready, failed, deleting, deleted,
}
use infraforge.Queue.{Message}
use infraforge.Provisioner.{Resources}
use infraforge.Worker.{
  Worker, save, abandon, provision_failed, provisioned, attempt, start, provision_by,
  unregister_job, teardown, deprovision_by, dispatch, handle,
}
use infraforge.Worker.Loop.{Context}
use infraforge.Calls.{Services, Code, perform}
use infraforge.Calls.Handling.{
  saving, acking, burying, abandoning, failing, succeeding, attempting, starting, provisioning_by,
  unregistering, tearing_down, deprovisioning_by, dispatching, handling,
}

module _ {W A : Type 0} (s : Services W) (rest : Code A) where
  abandoning-perform :
      (msg : Message) (job : Job) (w : W)
      → perform s (abandoning msg job rest) w ≡ perform s rest (abandon s.k msg job w)
  unfolding abandoning abandon
  abandoning-perform msg job w = refl

  failing-perform :
      (msg : Message) (job : Job) (e : GoError) (w : W)
      → perform s (failing msg job e rest) w ≡ perform s rest (provision_failed s.k msg job e w)
  unfolding failing provision_failed
  failing-perform msg job e w = ground arith

  attempting-perform :
      (msg : Message) (job : Job) (w : W)
      → perform s (attempting msg job rest) w ≡ perform s rest (attempt s.k msg job w)
  unfolding attempting attempt succeeding provisioned
  attempting-perform msg job w = ground (arith, failing-perform msg)

  tearing_down-perform :
      (msg : Message) (job : Job) (w : W)
      → perform s (tearing_down msg job rest) w ≡ perform s rest (teardown s.k msg job w)
  unfolding tearing_down teardown
  tearing_down-perform msg job w = ground arith

  starting-perform :
      (msg : Message) (job : Job) (w : W)
      → perform s (starting s.k.max_attempts msg job rest) w ≡ perform s rest (start s.k msg job w)
  unfolding starting start
  starting-perform msg job w = ground (arith, abandoning-perform msg, attempting-perform msg)

  provisioning_by-perform :
      (t : Status) (msg : Message) (job : Job) (w : W)
      → perform s (provisioning_by t s.k.max_attempts msg job rest) w
        ≡ perform s rest (provision_by s.k t msg job w)
  unfolding provisioning_by provision_by
  provisioning_by-perform t msg job w = ground (arith, starting-perform msg)

  deprovisioning_by-perform :
      (t : Status) (msg : Message) (job : Job) (w : W)
      → perform s (deprovisioning_by t msg job rest) w
        ≡ perform s rest (deprovision_by s.k t msg job w)
  unfolding deprovisioning_by deprovision_by
  deprovisioning_by-perform t msg job w = ground (arith, tearing_down-perform msg)

  dispatching-perform :
      (msg : Message) (job : Job) (w : W)
      → perform s (dispatching s.k.max_attempts msg job rest) w
        ≡ perform s rest (dispatch s.k msg job w)
  unfolding dispatching dispatch
  dispatching-perform msg job w = ground (
    arith,
    provisioning_by-perform job.status msg job w,
    deprovisioning_by-perform job.status msg job w,
  )

  -- The calls of a handling, one after another and with what follows, do what `handle` does.
  pub handling-perform :
      (msg : Message) (w : W)
      → perform s (handling s.k.max_attempts msg rest) w ≡ perform s rest (handle s.k msg w)
  unfolding handling handle
  handling-perform msg w = ground (arith, dispatching-perform msg)
