-- ===== src/Worker/Sole.antt =====
-- internal/worker/worker.go: what the handling of a message leaves in the store, where nobody else
-- writes jobs meanwhile.
use infraforge.Base.{
  ◌≡◌, refl, ap, sym, ◌∙◌, false, Text, [], ℤ, none, some, GoError, Result, ok, err, arith,
  errors_is, err_transient, text_eq, incr, ltb_ℤ, inl, inr, Bool-cases,
}
use infraforge.Model.{Job, Status, pending, provisioning, ready, failed, deleting, deleted}
use infraforge.Store.{IsLawful}
use infraforge.Queue.{Message, action_deprovision}
use infraforge.Provisioner.{Resources}
use infraforge.Worker.{
  Worker, save, abandon, provision_failed, provisioned, attempt, start, provision_by, handle,
}

-- The worker's store keeps what is written, no write fails, and no other call of the worker, and
-- nobody else, changes a job record.
pub record IsSole {W : Type 0} (k : Worker W) : Type 0 where
  pub lawful : IsLawful k.store
  pub put_ok : (j : Job) (w : W) → (k.store.put j w).0 ≡ none
  pub get-now : (id : Text) (w : W) → (k.store.get id (k.now w).1).0 ≡ (k.store.get id w).0
  pub get-ack :
      (id : Text) (m : Message) (w : W)
      → (k.store.get id (k.queue.ack m w).1).0 ≡ (k.store.get id w).0
  pub get-dead_letter :
      (id : Text) (m : Message) (d : Text) (n : ℤ) (w : W)
      → (k.store.get id (k.queue.dead_letter m d n w).1).0 ≡ (k.store.get id w).0
  pub get-provision :
      (id : Text) (j : Job) (w : W)
      → (k.store.get id (k.provisioner.provision j w).1).0 ≡ (k.store.get id w).0
  pub get-deprovision :
      (id : Text) (j : Job) (w : W)
      → (k.store.get id (k.provisioner.deprovision j w).1).0 ≡ (k.store.get id w).0
  pub get-register :
      (id s h : Text) (p : ℤ) (w : W)
      → (k.store.get id (k.xds.register s h p w).1).0 ≡ (k.store.get id w).0
  pub get-unregister :
      (id s h : Text) (p : ℤ) (w : W)
      → (k.store.get id (k.xds.unregister s h p w).1).0 ≡ (k.store.get id w).0

-- The attempts of a job after a provision message: counted up unless the job is settled.
abbrev pub counted : Status → ℤ → ℤ
counted ready n = n
counted deleting n = n
counted deleted n = n
counted _ n = incr n

module _ {W : Type 0} (k : Worker W) (sole : IsSole k) where
  open sole use {
    lawful, put_ok, get-now, get-ack, get-dead_letter, get-provision, get-deprovision, get-register,
    get-unregister,
  }

  abbrev pub view : Text → W → Result Job
  view id w = (k.store.get id w).0

  view-save : (job : Job) (w : W) → view job.id (save k job w).1 ≡ ok (save k job w).0
  unfolding save
  view-save job w =
      let job' = record job { updated_at = (k.now w).0 } in
      lawful.get-put job' (k.now w).1 (put_ok job' (k.now w).1)

  -- The record of the job afterwards, which has the id and the attempts that it had.
  abbrev pub Kept : Job → W → Type 0
  Kept job w = (j : Job) × (view job.id w ≡ ok j) × (j.id ≡ job.id) × (j.attempts ≡ job.attempts)

  pub abandon-Kept : (msg : Message) (job : Job) (w : W) → Kept job (abandon k msg job w)
  unfolding abandon
  abandon-Kept msg job w = (
    _,
    get-dead_letter job.id msg _ _ _
        ∙ get-ack job.id msg _
        ∙ view-save (record job { status = failed; detail = _ }) w,
    refl,
    refl,
  )

  provision_failed-Kept :
      (msg : Message) (job : Job) (e : GoError) (w : W) → Kept job (provision_failed k msg job e w)
  unfolding provision_failed
  provision_failed-Kept msg job e w = elim (Bool-cases (errors_is e err_transient)) [
    | inl again ↦ rw again (_, view-save (record job { detail = _ }) w, refl, refl)
    | inr never ↦ rw never (
      _,
      get-dead_letter job.id msg _ _ _
          ∙ get-ack job.id msg _
          ∙ view-save (record job { status = failed; detail = _ }) w,
      refl,
      refl,
    )
  ]

  abbrev made : Job → Resources → Job
  made job res = record job {
    status = ready;
    connection = some res.connection;
    http = some res.http;
    detail = [];
  }

  view-provisioned :
      (msg : Message) (job : Job) (res : Resources) (w : W)
      → view job.id (provisioned k msg job res w) ≡ ok (save k (made job res) w).0
  unfolding provisioned
  view-provisioned msg job res w =
      get-ack job.id msg _ ∙ get-register job.id _ _ _ _ ∙ view-save (made job res) w

  attempt-Kept : (msg : Message) (job : Job) (w : W) → Kept job (attempt k msg job w)
  unfolding attempt
  attempt-Kept msg job w = split (k.provisioner.provision job' w').0 refl
    where
      marked : Job × W
      marked = save k (record job { status = provisioning; detail = [] }) w

      job' : Job
      job' = marked.0

      w' : W
      w' = marked.1

      split :
          (r : Result Resources)
          → (k.provisioner.provision job' w').0 ≡ r
          → Kept job (attempt k msg job w)
      split (err e) h = rw (h, attempt) (provision_failed-Kept msg job' e _)
      split (ok res) h = rw (h, attempt) (_, view-provisioned msg job' res _, refl, refl)

  start-Kept :
      (msg : Message) (job : Job) (w : W)
      → Kept (record job { attempts = incr job.attempts }) (start k msg job w)
  unfolding start
  start-Kept msg job w =
      let job' = record job { attempts = incr job.attempts } in
      elim (Bool-cases (ltb_ℤ k.max_attempts job'.attempts)) [
        | inl over ↦ rw over (abandon-Kept msg job' w)
        | inr under ↦ rw under (attempt-Kept msg job' w)
      ]

  -- The record of the job after a provision message.
  abbrev pub Counted : Job → W → Type 0
  Counted job w =
      (j : Job) × (view job.id w ≡ ok j)
      × (j.id ≡ job.id)
      × (j.attempts ≡ counted job.status job.attempts)

  provision_by-Counted :
      (s : Status) (msg : Message) (job : Job) (w : W)
      → job.status ≡ s
      → view job.id w ≡ ok job
      → Counted job (provision_by k s msg job w)
  unfolding provision_by
  provision_by-Counted ready msg job w e v = (job, get-ack job.id msg w ∙ v, refl, rw e)
  provision_by-Counted deleting msg job w e v = (job, get-ack job.id msg w ∙ v, refl, rw e)
  provision_by-Counted deleted msg job w e v = (job, get-ack job.id msg w ∙ v, refl, rw e)
  provision_by-Counted pending msg job w e v =
      let (j, p, q, r) = start-Kept msg job w in
      (j, p, q, r ∙ sym (ap (λ s. counted s job.attempts) e))
  provision_by-Counted provisioning msg job w e v =
      let (j, p, q, r) = start-Kept msg job w in
      (j, p, q, r ∙ sym (ap (λ s. counted s job.attempts) e))
  provision_by-Counted failed msg job w e v =
      let (j, p, q, r) = start-Kept msg job w in
      (j, p, q, r ∙ sym (ap (λ s. counted s job.attempts) e))

  handle_found :
      (msg : Message) (job : Job) (w : W)
      → view msg.job_id w ≡ ok job
      → text_eq msg.action action_deprovision ≡ false
      → handle k msg w ≡ provision_by k job.status msg job (k.store.get msg.job_id w).1
  unfolding handle
  handle_found msg job w v a = ground arith

  -- Handling a provision message leaves a record of the job in the store, with its attempts counted
  -- up unless the job is settled.
  pub handle-Counted :
      (msg : Message) (job : Job) (w : W)
      → view msg.job_id w ≡ ok job
      → job.id ≡ msg.job_id
      → text_eq msg.action action_deprovision ≡ false
      → (j : Job) × (view msg.job_id (handle k msg w) ≡ ok j)
        × (j.id ≡ msg.job_id)
        × (j.attempts ≡ counted job.status job.attempts)
  handle-Counted msg job w v own a =
      let w' = (k.store.get msg.job_id w).1 in
      let still : view job.id w' ≡ ok job =
        ap (λ i. view i w') own ∙ lawful.get-get msg.job_id msg.job_id w ∙ v in
      let (j, p, q, r) = provision_by-Counted job.status msg job w' refl still in
      (
        j,
        ap (view msg.job_id) (handle_found msg job w v a)
            ∙ ap (λ i. view i (provision_by k job.status msg job w')) (sym own)
            ∙ p,
        q ∙ own,
        r,
      )
