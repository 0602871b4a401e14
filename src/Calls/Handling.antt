-- ===== src/Calls/Handling.antt =====
-- internal/worker/worker.go: `handle` and what it calls, as the tree of its calls. `max` is the
-- worker's `MaxAttempts`, and `rest` what the worker does next.
use infraforge.Base.{
  Text, [], ℤ, Option, none, some, GoError, ok, err, errors_is, err_transient, if◌then◌else◌, ltb_ℤ,
  incr, decr, text_eq,
}
use infraforge.Model.{
  Job, HttpEndpoint, Status, pending, provisioning, ready, failed, deleting, deleted,
}
use infraforge.Queue.{Message, action_deprovision}
use infraforge.Provisioner.{Resources}
use infraforge.Worker.{abandoned_detail, transient_detail, teardown_detail}
use infraforge.Calls.{
  put, get, ack, dead_letter, provision, deprovision, register, unregister, read_clock, Code, call,
}

module _ {A : Type 0} where
  unfoldable pub saving : Job → (Job → Code A) → Code A
  saving job rest =
      call read_clock
        (λ t. let job' = record job { updated_at = t } in call (put job') (λ _. rest job'))

  unfoldable pub acking : Message → Code A → Code A
  acking msg rest = call (ack msg) (λ _. rest)

  unfoldable pub burying : Message → Text → ℤ → Code A → Code A
  unfolding acking
  burying msg detail n rest = acking msg (call (dead_letter msg detail n) (λ _. rest))

  -- The poison-message guard's branch.
  unfoldable pub abandoning : Message → Job → Code A → Code A
  unfolding saving burying abandoned_detail
  abandoning msg job rest =
      let detail = abandoned_detail (decr job.attempts) in
      saving (record job { status = failed; detail = detail })
        (λ job'. burying msg detail (decr job'.attempts) rest)

  unfoldable pub failing : Message → Job → GoError → Code A → Code A
  unfolding saving burying transient_detail
  failing msg job e rest =
      if errors_is e err_transient
      then saving (record job { detail = transient_detail e }) (λ _. rest)
      else saving (record job { status = failed; detail = e.message })
          (λ job'. burying msg job'.detail job'.attempts rest)

  unfoldable pub succeeding : Message → Job → Resources → Code A → Code A
  unfolding saving acking
  succeeding msg job res rest =
      saving
        (record job {
          status = ready;
          connection = some res.connection;
          http = some res.http;
          detail = [];
        })
        (λ job'.
          call (register job'.service_name res.http.host res.http.port) (λ _. acking msg rest))

  unfoldable pub attempting : Message → Job → Code A → Code A
  unfolding saving failing succeeding
  attempting msg job rest =
      saving (record job { status = provisioning; detail = [] })
        (λ job'.
          call (provision job') (λ r. elim r [
            | err e ↦ failing msg job' e rest
            | ok res ↦ succeeding msg job' res rest
          ]))

  unfoldable pub starting : ℤ → Message → Job → Code A → Code A
  unfolding abandoning attempting
  starting max msg job rest =
      let job' = record job { attempts = incr job.attempts } in
      if ltb_ℤ max job'.attempts then abandoning msg job' rest else attempting msg job' rest

  -- `provision`
  unfoldable pub provisioning_by : Status → ℤ → Message → Job → Code A → Code A
  unfolding acking starting
  provisioning_by ready max msg job rest = acking msg rest
  provisioning_by deleting max msg job rest = acking msg rest
  provisioning_by deleted max msg job rest = acking msg rest
  provisioning_by pending max msg job rest = starting max msg job rest
  provisioning_by provisioning max msg job rest = starting max msg job rest
  provisioning_by failed max msg job rest = starting max msg job rest

  unfoldable pub unregistering : Job → Option HttpEndpoint → Code A → Code A
  unregistering job none rest = rest
  unregistering job (some h) rest = call (unregister job.service_name h.host h.port) (λ _. rest)

  unfoldable pub tearing_down : Message → Job → Code A → Code A
  unfolding saving acking unregistering teardown_detail
  tearing_down msg job rest = unregistering job job.http (
      call (deprovision job) (λ failure. elim failure [
        | some e ↦ saving (record job { detail = teardown_detail e }) (λ _. acking msg rest)
        | none ↦
            saving (record job { status = deleted; detail = []; connection = none; http = none })
              (λ _. acking msg rest)
      ]))

  -- `deprovision`
  unfoldable pub deprovisioning_by : Status → Message → Job → Code A → Code A
  unfolding acking tearing_down
  deprovisioning_by deleted msg job rest = acking msg rest
  deprovisioning_by _ msg job rest = tearing_down msg job rest

  unfoldable pub dispatching : ℤ → Message → Job → Code A → Code A
  unfolding provisioning_by deprovisioning_by
  dispatching max msg job rest =
      if text_eq msg.action action_deprovision
      then deprovisioning_by job.status msg job rest
      else provisioning_by job.status max msg job rest

  unfoldable pub handling : ℤ → Message → Code A → Code A
  unfolding acking dispatching
  handling max msg rest =
      call (get msg.job_id)
        (λ found. elim found [ err e ↦ acking msg rest | ok job ↦ dispatching max msg job rest ])
