-- ===== src/Worker/Late.antt =====
-- internal/worker/worker.go: a worker that goes on with a record which it has read before another
-- worker was done with the message.
use infraforge.Base.{
  ◌≡◌, refl, arith, true, false, [], ok, err, GoError, errors_is, err_transient, incr, ltb_ℤ,
  text_eq,
}
use infraforge.Model.{Job, Status, pending, provisioning, ready, failed, deleting, deleted}
use infraforge.Queue.{Message, action_deprovision}
use infraforge.Worker.{
  Worker, save, provision_failed, attempt, start, provision_by, dispatch, transient_detail,
}
use infraforge.Worker.Race.{needs_work, IsBeside}

-- The job waits for a worker, with one more attempt.
abbrev pub Reopened : {W : Type 0} → Worker W → Job → W → Type 0
Reopened k job w =
    (j : Job) × ((k.store.get job.id w).0 ≡ ok j)
    × (j.status ≡ provisioning)
    × (j.attempts ≡ incr job.attempts)
    × (j.http ≡ job.http)

module _ {W : Type 0} (k : Worker W) (beside : IsBeside k) (e : GoError)
    (transient : errors_is e err_transient ≡ true)
    (fails : (j : Job) (w : W) → (k.provisioner.provision j w).0 ≡ err e) where
  attempt-Reopened :
      (msg : Message) (job : Job) (w : W)
      → Reopened k job (attempt k msg (record job { attempts = incr job.attempts }) w)
  unfolding attempt save provision_failed
  attempt-Reopened msg job w =
      let (t, w') = k.now w in
      let job' = record job {
        status = provisioning;
        detail = [];
        attempts = incr job.attempts;
        updated_at = t;
      } in
      let w'' = (k.provisioner.provision job' (k.store.put job' w').1).1 in
      let (t', w''') = k.now w'' in
      let again = record job' { detail = transient_detail e; updated_at = t' } in
      rw (fails job' (k.store.put job' w').1, attempt)
        (rw (transient, provision_failed)
          (again, beside.lawful.get-put again w''' (beside.put_ok again w'''), refl, refl, refl))

  -- A worker that has read a pending or provisioning job, with a provision message and an attempt
  -- left, and whose provisioner then fails with a transient error, leaves the job as provisioning
  -- with one more attempt than it has read, and with the endpoint that it has read. That is so
  -- whatever the store holds for the job when the worker goes on, or comes to hold during the
  -- provisioner's call: also if another worker, which took the message over in between, has written
  -- that the job is ready and has acked the message. The store keeps what is written to it, no write
  -- fails, and the queue and the control plane do not touch it.
  pub late_failure_reopens :
      (msg : Message) (job : Job) (w : W)
      → text_eq msg.action action_deprovision ≡ false
      → needs_work job.status ≡ true
      → ltb_ℤ k.max_attempts (incr job.attempts) ≡ false
      → Reopened k job (dispatch k msg job w)
  unfolding dispatch provision_by start
  late_failure_reopens msg job w up waits few = by_status job.status refl
    where
      by_status : (s : Status) → job.status ≡ s → Reopened k job (dispatch k msg job w)
      by_status pending is =
          rw (up, dispatch) (rw (is, provision_by) (rw (few, start) (attempt-Reopened msg job w)))
      by_status provisioning is =
          rw (up, dispatch) (rw (is, provision_by) (rw (few, start) (attempt-Reopened msg job w)))
      by_status ready is = absurd (ground (arith, waits, is))
      by_status failed is = absurd (ground (arith, waits, is))
      by_status deleting is = absurd (ground (arith, waits, is))
      by_status deleted is = absurd (ground (arith, waits, is))
