-- ===== src/Worker/Protocol.antt =====
-- internal/worker/worker.go: in which order the handling of a message makes its calls, whatever the
-- store, the queue, the provisioner and the xDS client answer.
use infraforge.Base.{
  ◌+◌, ◌||◌, ◌≡◌, ◌⊎◌, Bool, true, false, List, [], ◌∷◌, none, some, ok, err, arith, errors_is,
  err_transient, count_if, All, text_eq,
}
use infraforge.Model.{
  Job, Status, pending, provisioning, ready, failed, deleting, deleted, same_status,
}
use infraforge.Queue.{Message, action_deprovision}
use infraforge.Worker.{Worker, handle}
use infraforge.Worker.Trace.{
  Event, got, put, acked, dead, provision_call, deprovision_call, register_call, unregister_call,
  trace,
}

abbrev pub is_ack : Event → Bool
is_ack (acked m) = true
is_ack _ = false

abbrev pub is_transient : Event → Bool
is_transient (provision_call j (err e)) = errors_is e err_transient
is_transient _ = false

abbrev pub is_dead : Event → Bool
is_dead (dead m d n) = true
is_dead _ = false

-- Once the message is acked only the dead-letter record is written.
abbrev pub IsSettled : List Event → Type 0
IsSettled [] = Unit
IsSettled (acked m ∷ t) = All (λ e. is_dead e ≡ true) t
IsSettled (_ ∷ t) = IsSettled t

-- Every `put` writes the job that was read, which keeps its id, its service, its resource and its
-- time of creation.
abbrev pub SameJob : Job → Event → Type 0
SameJob job (put j r) =
    (j.id ≡ job.id)
    × (j.service_name ≡ job.service_name)
    × (j.resource ≡ job.resource)
    × (j.created_at ≡ job.created_at)
SameJob job _ = Unit

-- Acks and dead letters are about the message in hand.
abbrev pub SameMessage : Message → Event → Type 0
SameMessage msg (acked m) = m ≡ msg
SameMessage msg (dead m d n) = m ≡ msg
SameMessage msg _ = Unit

-- The status changes that the worker makes.
abbrev pub allowed : Status → Status → Bool
allowed pending provisioning = true
allowed pending failed = true
allowed pending deleted = true
allowed provisioning provisioning = true
allowed provisioning ready = true
allowed provisioning failed = true
allowed provisioning deleted = true
allowed failed provisioning = true
allowed failed deleted = true
allowed ready deleted = true
allowed deleting deleted = true
allowed a b = same_status a b

-- The job starts with the first status, and every `put` makes an allowed change.
abbrev pub Follows : Status → List Event → Type 0
Follows s [] = Unit
Follows s (put j r ∷ t) = (allowed s j.status ≡ true) × Follows j.status t
Follows s (_ ∷ t) = Follows s t

module _ {W : Type 0} (k : Worker W) (msg : Message) (w : W) where
  -- A message is acked exactly once, unless the provisioner has failed with a transient error; then
  -- it is not acked at all.
  pub handle_acks : count_if is_ack (trace k msg w) + count_if is_transient (trace k msg w) ≡ 1
  unfolding handle
  handle_acks = ground arith

  -- State is written before the message is acked: after the ack there is no call but a
  -- dead-letter record.
  pub handle-IsSettled : IsSettled (trace k msg w)
  unfolding handle
  handle-IsSettled = ground arith

  -- Every ack and every dead letter is about the message that is handled.
  pub handle-SameMessage : All (SameMessage msg) (trace k msg w)
  unfolding handle
  handle-SameMessage = ground arith

  -- Whatever is written is the job that the message names, as it was read: its id, its service, its
  -- resource and its time of creation do not change.
  pub handle-SameJob :
      (job : Job) → (k.store.get msg.job_id w).0 ≡ ok job → All (SameJob job) (trace k msg w)
  unfolding handle
  handle-SameJob job h = ground arith

  -- From the status that was read, each write makes one of the changes in `allowed`, or none: a
  -- deleted job is never revived, and a job becomes ready only from being provisioned.
  pub handle-Follows :
      (job : Job) → (k.store.get msg.job_id w).0 ≡ ok job → Follows job.status (trace k msg w)
  unfolding handle
  handle-Follows job h = ground arith

-- Which call may directly follow which. After a removal that succeeded nothing but the write of the
-- job as deleted may come, and nothing else writes a job as deleted, except that a failed removal
-- leaves the status as it is.
abbrev pub MayFollow : Event → Event → Type 0
MayFollow (deprovision_call i none) (put j r) =
    (j.status ≡ deleted) × (j.connection ≡ none) × (j.http ≡ none)
MayFollow (deprovision_call i none) _ = ⊥
MayFollow (deprovision_call i (some e)) (put j r) = j.status ≡ i.status
MayFollow (provision_call i (ok res)) (put j r) =
    (j.status ≡ ready) × (j.connection ≡ some res.connection) × (j.http ≡ some res.http)
MayFollow (provision_call i (ok res)) _ = ⊥
MayFollow _ (put j r) = same_status j.status deleted || same_status j.status ready ≡ false
MayFollow (put j r) (provision_call i x) = (i ≡ j) × (j.status ≡ provisioning)
MayFollow _ (provision_call i x) = ⊥
MayFollow (put j r) (register_call s h p) =
    (j.status ≡ ready) × (j.service_name ≡ s) × (j.http ≡ some (record { host = h; port = p }))
MayFollow _ (register_call s h p) = ⊥
MayFollow (got i (ok j)) (unregister_call s h p) =
    (j.service_name ≡ s) × (j.http ≡ some (record { host = h; port = p }))
MayFollow _ (unregister_call s h p) = ⊥
MayFollow (put j r) (deprovision_call i x) = ⊥
MayFollow (put j r) (dead m d n) = ⊥
MayFollow (got i (ok j)) (deprovision_call i' x) = (i' ≡ j) × (j.http ≡ none)
MayFollow _ _ = Unit

-- The handling does not end with a call whose outcome is still to be written.
abbrev pub MayEnd : Event → Type 0
MayEnd (deprovision_call i x) = ⊥
MayEnd (provision_call i x) = ⊥
MayEnd _ = Unit

abbrev pub WellOrdered : Event → List Event → Type 0
WellOrdered prev [] = MayEnd prev
WellOrdered prev (e ∷ t) = MayFollow prev e × WellOrdered e t

abbrev pub HeadOrdered : List Event → Type 0
HeadOrdered [] = ⊥
HeadOrdered (e ∷ t) = WellOrdered e t

abbrev pub is_provision_call : Event → Bool
is_provision_call (provision_call j r) = true
is_provision_call _ = false

abbrev pub gives_up : Event → Bool
gives_up (put j r) = same_status j.status failed
gives_up _ = false

abbrev pub is_put : Event → Bool
is_put (put j r) = true
is_put _ = false

module _ {W : Type 0} (k : Worker W) (msg : Message) (w : W) where
  -- For a provision message whose job is found, as many dead letters are written as there are writes
  -- of the job as failed.
  pub handle_dead :
      (job : Job)
      → (k.store.get msg.job_id w).0 ≡ ok job
      → text_eq msg.action action_deprovision ≡ false
      → count_if is_dead (trace k msg w) ≡ count_if gives_up (trace k msg w)
  unfolding handle
  handle_dead job h a = ground arith

  -- A provision message for a job that is ready, being deleted or deleted is acked, and apart from
  -- the read no other call is made.
  pub handle_settled_job :
      (job : Job)
      → (k.store.get msg.job_id w).0 ≡ ok job
      → text_eq msg.action action_deprovision ≡ false
      → (job.status ≡ ready) ⊎ (job.status ≡ deleting) ⊎ (job.status ≡ deleted)
      → trace k msg w ≡ got msg.job_id (ok job) ∷ acked msg ∷ []
  unfolding handle
  handle_settled_job job h a s = ground arith
