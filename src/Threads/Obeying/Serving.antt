-- ===== src/Threads/Obeying/Serving.antt =====
-- internal/api/api.go: the requests make permitted calls.
use infraforge.Base.{
  ℕ, ◌≡◌, ap, refl, arith, false, Text, txt, text_eq, List, [], Option, none, some, GoError, Result,
  ok, err, inl, Bool-cases, inr, Among, ◌++◌, length, sort_by,
}
use infraforge.Model.{
  Job, ProvisionRequest, Status, pending, provisioning, ready, failed, deleting, deleted,
  resource_postgres,
}
use infraforge.Queue.{action_provision, action_deprovision, DeadEntry}
use infraforge.Api.{
  Response, or_postgres, read_failed, write_error, write_json, job_body, jobs_body, dead_body,
  older, Request, get_healthz, get_list, post_provision, get_status, delete_provision, get_dead,
}
use infraforge.Worker.Protocol.{allowed}
use infraforge.Calls.{put, enqueue, read_clock, done, call}
use infraforge.Calls.Serving.{
  serving, handing_over, recording, creating, validating, beginning_teardown, deleting_by,
}
use infraforge.Threads.{Mind, learn}
use infraforge.Threads.Minds.{jobs_of, Among-right}
use infraforge.Threads.Discipline.{closes, tears, records, Obeys}

-- Whatever is answered, nothing is left to be done.
answers-Obeys :
    {X : Type 0} (m : Mind) (r : Result X) (bad : GoError → Response) (good : X → Response)
    → Obeys m (elim r [ err e ↦ done (bad e) | ok x ↦ done (good x) ])
answers-Obeys m (err e) bad good = tt
answers-Obeys m (ok x) bad good = tt

handing_over-Obeys :
    (m : Mind) (job : Job)
    → Among m.drawn job.id
    → m.known ≡ some (job.id, ok job)
    → job.status ≡ pending
    → Obeys m (handing_over job)
unfolding handing_over
handing_over-Obeys m job mine known new = (λ _. mine, λ failure _. by_reply failure)
  where
    by_reply :
        (failure : Option GoError)
        → Obeys (learn (enqueue job.id action_provision) failure m) (elim failure [
          | some e ↦ call read_clock (λ t.
              call
                (put (record job {
                  status = failed;
                  detail = txt "could not enqueue provisioning job";
                  updated_at = t;
                }))
                (λ _. done (write_error 500 (txt "could not enqueue job"))))
          | none ↦ done (record (write_json 202 (job_body job)) {
            location = some (txt "/v1/provision/" ++ job.id);
          })
        ])
    by_reply (some e) = (
      tt,
      λ t _. (
        closes (Among-right (jobs_of m.hand) m.drawn job.id mine) refl
            (job, known, ap (λ x. allowed x failed) new),
        λ r _. tt,
      ),
    )
    by_reply none = tt

recording-Obeys :
    (m : Mind) (job : Job) → Among m.drawn job.id → job.status ≡ pending → Obeys m (recording job)
unfolding recording
recording-Obeys m job mine new = (records mine new, λ failure _. by_reply failure)
  where
    by_reply :
        (failure : Option GoError)
        → Obeys (learn (put job) failure m) (elim failure [
          | some e ↦ done (write_error 500 (txt "could not record job"))
          | none ↦ handing_over job
        ])
    by_reply (some e) = tt
    by_reply none = handing_over-Obeys (learn (put job) none m) job mine refl new

validating-Obeys : (m : Mind) (req : ProvisionRequest) → Obeys m (validating req)
unfolding validating creating
validating-Obeys m req = elim (Bool-cases (text_eq req.service_name [])) [
  | inl missing ↦ rw missing tt
  | inr given ↦ rw given (elim (Bool-cases (text_eq (or_postgres req.resource) resource_postgres)) [
    | inl known ↦ rw known (tt, λ now _. (tt, λ b _. recording-Obeys _ _ (inl refl) refl))
    | inr unknown ↦ rw unknown tt
  ])
]

other_action : text_eq action_deprovision action_provision ≡ false
unfolding text_eq action_deprovision action_provision
other_action = refl

beginning_teardown-Obeys : (m : Mind) (job : Job) → Obeys m (beginning_teardown job)
unfolding beginning_teardown
beginning_teardown-Obeys m job = (tt, λ t _. (tears refl, λ failure _. by_reply t failure))
  where
    begun : ℕ → Job
    begun t = record job { status = deleting; detail = []; updated_at = t }

    by_failure :
        (m : Mind) (t : ℕ) (failure : Option GoError)
        → Obeys m (elim failure [
          | some e ↦ done (write_error 500 (txt "could not enqueue deprovision"))
          | none ↦ done (write_json 202 (job_body (begun t)))
        ])
    by_failure m t (some e) = tt
    by_failure m t none = tt

    by_reply :
        (t : ℕ) (failure : Option GoError)
        → Obeys (learn (put (begun t)) failure m) (elim failure [
          | some e ↦ done (write_error 500 (txt "could not record job"))
          | none ↦ call (enqueue job.id action_deprovision) (λ failure. elim failure [
            | some e ↦ done (write_error 500 (txt "could not enqueue deprovision"))
            | none ↦ done (write_json 202 (job_body (begun t)))
          ])
        ])
    by_reply t (some e) = tt
    by_reply t none =
        (λ same. absurd (ground (arith, other_action, same)), λ failure _. by_failure _ t failure)

deleting_by-Obeys : (m : Mind) (t : Status) (job : Job) → Obeys m (deleting_by t job)
unfolding deleting_by
deleting_by-Obeys m deleted job = tt
deleting_by-Obeys m deleting job = tt
deleting_by-Obeys m pending job = beginning_teardown-Obeys m job
deleting_by-Obeys m provisioning job = beginning_teardown-Obeys m job
deleting_by-Obeys m ready job = beginning_teardown-Obeys m job
deleting_by-Obeys m failed job = beginning_teardown-Obeys m job

found-Obeys :
    (m : Mind) (id : Text) (found : Result Job)
    → Obeys m (elim found [ err e ↦ done (read_failed id e) | ok job ↦ deleting_by job.status job ])
found-Obeys m id (err e) = tt
found-Obeys m id (ok job) = deleting_by-Obeys m job.status job

pub serving-Obeys : (r : Request) (m : Mind) → Obeys m (serving r)
unfolding serving
serving-Obeys get_healthz m = tt
serving-Obeys get_list m = (
  tt,
  λ listed _.
      answers-Obeys m listed (λ e. write_error 500 (txt "could not list jobs"))
        (λ jobs. write_json 200 (jobs_body (length jobs) (sort_by older jobs))),
)
serving-Obeys (post_provision none) m = tt
serving-Obeys (post_provision (some req)) m = validating-Obeys m req
serving-Obeys (get_status id) m =
    (tt, λ found _. answers-Obeys _ found (read_failed id) (λ job. write_json 200 (job_body job)))
serving-Obeys (delete_provision id) m = (tt, λ found _. found-Obeys _ id found)
serving-Obeys (get_dead limit) m = (
  tt,
  λ listed _.
      answers-Obeys m listed (λ e. write_error 500 (txt "could not list dead-letter"))
        (λ (entries : List DeadEntry). write_json 200 (dead_body (length entries) entries)),
)
