-- ===== src/Api/Provision.antt =====
-- internal/api/api.go: what `handleProvision` and `handleDeprovision` promise, whatever the store
-- and the queue answer.
use infraforge.Base.{
  ◌≡◌, ◌≢◌, ◌⊎◌, refl, ap, sym, ◌∙◌, Bool, true, false, ◌||◌, Text, txt, List, [], ◌∷◌, ◌++◌, arith,
  Option, none, some, GoError, ok, err, errors_is, err_not_found, if◌then◌else◌, text_eq,
  text_eq_iff, text_eq_refl,
}
use infraforge.Model.{Job, ProvisionRequest, pending, failed, deleting, deleted, resource_postgres}
use infraforge.Store.{IsLawful}
use infraforge.Queue.{Action, action_provision, action_deprovision}
use infraforge.Api.{
  job_body, Response, Server, handle_provision, handle_deprovision, begin_teardown,
}
use infraforge.Api.Trace.{Event, got, put, enqueued, traced}

-- The answers that go with the calls of `handleProvision`.
abbrev pub Promised : Response → List Event → Type 0
Promised r [] = r.code ≡ 400
Promised r (put j (some e) ∷ []) = (r.code ≡ 500) × (j.status ≡ pending)
Promised r (put j none ∷ enqueued i a none ∷ []) =
    (r.code ≡ 202)
    × (r.body ≡ job_body j)
    × (r.location ≡ some (txt "/v1/provision/" ++ j.id))
    × (j.status ≡ pending)
    × (i ≡ j.id)
    × (a ≡ action_provision)
Promised r (put j none ∷ enqueued i a (some e) ∷ put j' x ∷ []) =
    (r.code ≡ 500) × (j'.status ≡ failed) × (j'.id ≡ j.id) × (i ≡ j.id) × (a ≡ action_provision)
Promised r _ = ⊥

-- The request asks for something that the broker provisions.
abbrev pub acceptable : Option ProvisionRequest → Bool
acceptable none = false
acceptable (some req) =
    if text_eq req.service_name []
    then false
    else (text_eq req.resource [] || text_eq req.resource resource_postgres)

-- The answers that go with the calls of `handleDeprovision`.
abbrev pub Torn : Text → Response → List Event → Type 0
Torn id r (got i (err e) ∷ []) =
    (i ≡ id) × (r.code ≡ (if errors_is e err_not_found then 404 else 500))
Torn id r (got i (ok j) ∷ []) =
    (i ≡ id)
    × (r.body ≡ job_body j)
    × ((j.status ≡ deleted) × (r.code ≡ 200) ⊎ (j.status ≡ deleting) × (r.code ≡ 202))
Torn id r (got i (ok j) ∷ put j' (some e) ∷ []) =
    (i ≡ id) × (r.code ≡ 500) × (j'.status ≡ deleting) × (j'.id ≡ j.id)
Torn id r (got i (ok j) ∷ put j' none ∷ enqueued i' a x ∷ []) =
    (i ≡ id)
    × (j.status ≢ deleted)
    × (j.status ≢ deleting)
    × (j'.status ≡ deleting)
    × (j'.id ≡ j.id)
    × (i' ≡ j.id)
    × (a ≡ action_deprovision)
    × (r.code ≡ (elim x [ none ↦ 202 | some e ↦ 500 ]))
Torn id r _ = ⊥

module _ {W : Type 0} (s : Server W) where
  -- `handleProvision` answers 202 only after it has written the job as pending and then enqueued
  -- its id, both without an error, and with that job; it answers 400 without any call, and 500
  -- after a failed write, or after a failed enqueueing, and then it has written the job as failed.
  pub handle_provision-Promised :
      (body : Option ProvisionRequest) (w : W)
      → let (r, (w', t)) = handle_provision (traced s) body (w, []) in Promised r t
  unfolding handle_provision
  handle_provision-Promised none w = ground arith
  handle_provision-Promised (some req) w = ground arith

  -- `handleProvision` makes no call, and answers 400, exactly when the request is no JSON of the
  -- shape, has no service name, or names a resource other than Postgres.
  pub handle_provision_rejects_iff :
      (body : Option ProvisionRequest) (w : W)
      → let (r, (w', t)) = handle_provision (traced s) body (w, []) in
        (acceptable body ≡ false → (t ≡ []) × (r.code ≡ 400)) × (acceptable body ≡ true → t ≢ [])
  unfolding handle_provision
  handle_provision_rejects_iff none w = (ground arith, ground arith)
  handle_provision_rejects_iff (some req) w = (
    ground (arith, text_eq_refl resource_postgres),
    ground (arith, text_eq_refl resource_postgres, text_eq_iff req.resource resource_postgres),
  )

  -- `handleDeprovision` reads the job, and answers 404 or 500 if that fails; it answers a job that
  -- is deleted or being deleted without another call; any other job it writes as deleting and then
  -- enqueues for removal, and it answers 202 exactly if both succeed.
  pub handle_deprovision-Torn :
      (id : Text) (w : W)
      → let (r, (w', t)) = handle_deprovision (traced s) id (w, []) in Torn id r t
  unfolding handle_deprovision
  handle_deprovision-Torn id w = ground arith

-- What the theorem below relies on of a server's world: a lawful store whose writes succeed, and
-- which neither the clock nor the queue changes, and a queue that refuses the message.
pub record QueueDown {W : Type 0} (s : Server W) : Type 0 where
  pub lawful : IsLawful s.store
  pub put_ok : (j : Job) (w : W) → (s.store.put j w).0 ≡ none
  pub get-enqueue :
      (id i : Text) (a : Action) (w : W)
      → (s.store.get id (s.queue.enqueue i a w).1).0 ≡ (s.store.get id w).0
  pub refusal : GoError
  pub refuses : (i : Text) (a : Action) (w : W) → (s.queue.enqueue i a w).0 ≡ some refusal

module _ {W : Type 0} (s : Server W) (down : QueueDown s) where
  -- The record that `begin_teardown` leaves.
  begin_teardown_stranded :
      (job : Job) (w : W)
      → (j : Job) × ((s.store.get job.id (begin_teardown s job w).1).0 ≡ ok j)
        × (j.status ≡ deleting)
        × (j.id ≡ job.id)
        × ((begin_teardown s job w).0.code ≡ 500)
  unfolding begin_teardown
  begin_teardown_stranded job w =
      let t = s.now w in
      let j : Job = record job { status = deleting; detail = []; updated_at = t.0 } in
      let kept = down.lawful.get-put j t.1 (down.put_ok j t.1) in
      let same = down.get-enqueue job.id job.id action_deprovision (s.store.put j t.1).1 in
      let refused = down.refuses job.id action_deprovision (s.store.put j t.1).1 in
      (
        j,
        ground (arith, down.put_ok j t.1, refused, same, kept),
        refl,
        refl,
        ground (arith, down.put_ok j t.1, refused),
      )

  handle_deprovision_found :
      (id : Text) (w : W) (job : Job)
      → (s.store.get id w).0 ≡ ok job
      → job.status ≢ deleted
      → job.status ≢ deleting
      → handle_deprovision s id w ≡ begin_teardown s job (s.store.get id w).1
  unfolding handle_deprovision
  handle_deprovision_found id w job h a b = ground arith

  handle_deprovision_deleting :
      (id : Text) (w : W) (job : Job)
      → (s.store.get id w).0 ≡ ok job
      → job.status ≡ deleting
      → let (r, (w', t)) = handle_deprovision (traced s) id (w, []) in
        (t ≡ got id (ok job) ∷ []) × (r.code ≡ 202)
  unfolding handle_deprovision
  handle_deprovision_deleting id w job h d = ground arith

  -- Where every enqueueing fails, no write does, and the store keeps what it is given, a DELETE of a
  -- job that is neither deleting nor deleted answers 500 and leaves the job as deleting; the next
  -- DELETE of that job answers 202 all the same, and the read of the job is the only call that it
  -- makes: it enqueues nothing.
  pub failed_enqueue_strands :
      (id : Text) (w : W) (job : Job)
      → (s.store.get id w).0 ≡ ok job
      → job.id ≡ id
      → job.status ≢ deleted
      → job.status ≢ deleting
      → let (r, w') = handle_deprovision s id w in
        (r.code ≡ 500)
        × ((j : Job) × (j.status ≡ deleting)
            × (let (r', (w'', t)) = handle_deprovision (traced s) id (w', []) in
                (t ≡ got id (ok j) ∷ []) × (r'.code ≡ 202)))
  failed_enqueue_strands id w job h own a b =
      let w1 = (s.store.get id w).1 in
      let step = handle_deprovision_found id w job h a b in
      let (j, held, marked, same, code) = begin_teardown_stranded job w1 in
      let held' : (s.store.get id (handle_deprovision s id w).1).0 ≡ ok j =
        ap (λ i. (s.store.get i (handle_deprovision s id w).1).0) (sym own)
        ∙ ap (λ (p : Response × W). (s.store.get job.id p.1).0) step
        ∙ held in
      (
        ap (λ (p : Response × W). p.0.code) step ∙ code,
        (j, marked, handle_deprovision_deleting id (handle_deprovision s id w).1 j held' marked),
      )
