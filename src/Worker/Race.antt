-- ===== src/Worker/Race.antt =====
-- internal/worker/worker.go: what becomes of a record that others write during a provisioning.
use infraforge.Base.{
  Bool, ℕ, ℤ, ◌≡◌, refl, ◌∙◌, true, false, Text, [], none, some, ok, arith, ltb_ℤ, incr, text_eq,
}
use infraforge.Model.{Job, Status, pending, provisioning, ready, failed, deleting, deleted}
use infraforge.Store.{IsLawful}
use infraforge.Queue.{Message, action_deprovision}
use infraforge.Provisioner.{Resources}
use infraforge.Worker.{Worker, save, provisioned, attempt, start, provision_by, dispatch, handle}

-- The job waits for a worker.
abbrev pub needs_work : Status → Bool
needs_work pending = true
needs_work provisioning = true
needs_work _ = false

-- A lawful store whose writes succeed, beside a queue and a control plane that do not touch it. The
-- provisioner's calls may change it, since other processes run meanwhile.
pub record IsBeside {W : Type 0} (k : Worker W) : Type 0 where
  pub lawful : IsLawful k.store
  pub put_ok : (j : Job) (w : W) → (k.store.put j w).0 ≡ none
  pub get-ack :
      (id : Text) (m : Message) (w : W)
      → (k.store.get id (k.queue.ack m w).1).0 ≡ (k.store.get id w).0
  pub get-register :
      (id s h : Text) (p : ℤ) (w : W)
      → (k.store.get id (k.xds.register s h p w).1).0 ≡ (k.store.get id w).0

module _ {W : Type 0} (k : Worker W) (beside : IsBeside k) where
  abbrev made : Job → Resources → ℕ → Job
  made job res t = record job {
    status = ready;
    connection = some res.connection;
    http = some res.http;
    detail = [];
    updated_at = t;
  }

  abbrev pub Ready : Job → Resources → W → Type 0
  Ready job res w =
      (j : Job) × ((k.store.get job.id w).0 ≡ ok j)
      × (j.status ≡ ready)
      × (j.http ≡ some res.http)
      × (j.connection ≡ some res.connection)

  provisioned-Ready :
      (msg : Message) (job : Job) (res : Resources) (w : W)
      → Ready job res (provisioned k msg job res w)
  unfolding provisioned save
  provisioned-Ready msg job res w =
      let (t, w') = k.now w in
      let j = made job res t in
      (
        j,
        beside.get-ack job.id msg _
            ∙ beside.get-register job.id _ _ _ _
            ∙ beside.lawful.get-put j w' (beside.put_ok j w'),
        refl,
        refl,
        refl,
      )

  module _ (res : Resources)
      (provides : (j : Job) (w : W) → (k.provisioner.provision j w).0 ≡ ok res) where
    attempt-Ready : (msg : Message) (job : Job) (w : W) → Ready job res (attempt k msg job w)
    unfolding attempt save
    attempt-Ready msg job w =
        let (t, w') = k.now w in
        let job' = record job { status = provisioning; detail = []; updated_at = t } in
        rw (provides job' (k.store.put job' w').1, attempt) (provisioned-Ready msg job' res _)

    start-Ready :
        (msg : Message) (job : Job) (w : W)
        → ltb_ℤ k.max_attempts (incr job.attempts) ≡ false
        → Ready job res (start k msg job w)
    unfolding start
    start-Ready msg job w few =
        rw few (attempt-Ready msg (record job { attempts = incr job.attempts }) w)

    provision_by-Ready :
        (s : Status) (msg : Message) (job : Job) (w : W)
        → needs_work s ≡ true
        → ltb_ℤ k.max_attempts (incr job.attempts) ≡ false
        → Ready job res (provision_by k s msg job w)
    unfolding provision_by
    provision_by-Ready pending msg job w h few = start-Ready msg job w few
    provision_by-Ready provisioning msg job w h few = start-Ready msg job w few
    provision_by-Ready ready msg job w h few = absurd (ground (arith, h))
    provision_by-Ready failed msg job w h few = absurd (ground (arith, h))
    provision_by-Ready deleting msg job w h few = absurd (ground (arith, h))
    provision_by-Ready deleted msg job w h few = absurd (ground (arith, h))

    -- A job that waits is ready, with its endpoint and its connection, after a provision message whose
    -- provisioning succeeds within the attempts, whatever its record has become during the
    -- provisioner's call, `deleting` and `deleted` included: the worker writes the record that it read
    -- before the call. The store keeps what is written to it, no write fails, and the queue and the
    -- control plane do not touch it.
    pub handle-Ready :
        (msg : Message) (job : Job) (w : W)
        → (k.store.get msg.job_id w).0 ≡ ok job
        → job.id ≡ msg.job_id
        → text_eq msg.action action_deprovision ≡ false
        → needs_work job.status ≡ true
        → ltb_ℤ k.max_attempts (incr job.attempts) ≡ false
        → Ready job res (handle k msg w)
    unfolding handle dispatch
    handle-Ready msg job w found own up waits few =
        rw (found, handle) (rw up (provision_by-Ready job.status msg job _ waits few))
