-- ===== src/Threads/Records/Serving.antt =====
-- internal/api/api.go: the records that the requests write.
use infraforge.Base.{
  ℕ, ◌≡◌, ◌≢◌, refl, arith, Bool-cases, inl, inr, Text, txt, [], List, ◌++◌, Option, none, some,
  Result, ok, err, GoError, text_eq, text_eq_iff, length, sort_by,
}
use infraforge.Model.{
  Job, ProvisionRequest, Status, pending, provisioning, ready, failed, deleting, deleted,
  resource_postgres,
}
use infraforge.Queue.{action_deprovision, DeadEntry}
use infraforge.Api.{
  Response, or_postgres, read_failed, write_error, write_json, job_body, jobs_body, dead_body,
  older, Request, get_healthz, get_list, post_provision, get_status, delete_provision, get_dead,
}
use infraforge.Calls.{get, put, enqueue, read_clock, call, done}
use infraforge.Calls.Serving.{
  serving, handing_over, recording, creating, validating, beginning_teardown, deleting_by,
}
use infraforge.Threads.Records.{IsGenuine, IsWellFormed, IsWellRead, WritesWell}
use infraforge.Threads.Records.Handling.{free-IsWellFormed}

answers-WritesWell :
    {X : Type 0} (r : Result X) (bad : GoError → Response) (good : X → Response)
    → WritesWell (elim r [ err e ↦ done (bad e) | ok x ↦ done (good x) ])
answers-WritesWell (err e) bad good = tt
answers-WritesWell (ok x) bad good = tt

handing_over-WritesWell : (job : Job) → IsGenuine job → WritesWell (handing_over job)
unfolding handing_over
handing_over-WritesWell job genuine = (tt, λ failure _. by_reply failure)
  where
    by_reply :
        (failure : Option GoError)
        → WritesWell (elim failure [
          | some e ↦ call read_clock (λ t.
              call
                (put (record job {
                  status = failed;
                  detail = txt "could not enqueue provisioning job";
                  updated_at = t;
                }))
                (λ _. done (write_error 500 (txt "could not enqueue job"))))
          | none ↦ done (record (write_json 202 (job_body job)) {
            location = some (txt "/v1/provision/" ++ job.id);
          })
        ])
    by_reply (some e) = (tt, λ t _. (free-IsWellFormed _ refl genuine, λ _ _. tt))
    by_reply none = tt

-- A new job.
recording-WritesWell : (job : Job) → IsWellFormed job → WritesWell (recording job)
unfolding recording
recording-WritesWell job well = (well, λ failure _. by_reply failure)
  where
    by_reply :
        (failure : Option GoError)
        → WritesWell (elim failure [
          | some e ↦ done (write_error 500 (txt "could not record job"))
          | none ↦ handing_over job
        ])
    by_reply (some e) = tt
    by_reply none = handing_over-WritesWell job well.genuine

creating-WritesWell :
    (name resource : Text)
    → name ≢ []
    → resource ≡ resource_postgres
    → WritesWell (creating name resource)
unfolding creating
creating-WritesWell name resource named known = (
  tt,
  λ now _. (
    tt,
    λ b _. recording-WritesWell _ (record {
      genuine = (named, known);
      reachable = λ e. absurd (ground (arith, e));
      removed = λ e. absurd (ground (arith, e));
      new = λ e. (refl, refl, refl);
    }),
  ),
)

validating-WritesWell : (req : ProvisionRequest) → WritesWell (validating req)
unfolding validating
validating-WritesWell req = elim (Bool-cases (text_eq req.service_name [])) [
  | inl missing ↦ rw missing tt
  | inr given ↦ rw given (elim (Bool-cases (text_eq (or_postgres req.resource) resource_postgres)) [
    | inl known ↦ rw known (
        creating-WritesWell req.service_name (or_postgres req.resource)
          (ground (arith, given, text_eq_iff req.service_name []))
          ((text_eq_iff (or_postgres req.resource) resource_postgres).0 known))
    | inr unknown ↦ rw unknown tt
  ])
]

beginning_teardown-WritesWell : (job : Job) → IsGenuine job → WritesWell (beginning_teardown job)
unfolding beginning_teardown
beginning_teardown-WritesWell job genuine =
    (tt, λ t _. (free-IsWellFormed _ refl genuine, λ failure _. by_reply t failure))
  where
    begun : ℕ → Job
    begun t = record job { status = deleting; detail = []; updated_at = t }

    by_failure :
        (t : ℕ) (failure : Option GoError)
        → WritesWell (elim failure [
          | some e ↦ done (write_error 500 (txt "could not enqueue deprovision"))
          | none ↦ done (write_json 202 (job_body (begun t)))
        ])
    by_failure t (some e) = tt
    by_failure t none = tt

    by_reply :
        (t : ℕ) (failure : Option GoError)
        → WritesWell (elim failure [
          | some e ↦ done (write_error 500 (txt "could not record job"))
          | none ↦ call (enqueue job.id action_deprovision) (λ failure. elim failure [
            | some e ↦ done (write_error 500 (txt "could not enqueue deprovision"))
            | none ↦ done (write_json 202 (job_body (begun t)))
          ])
        ])
    by_reply t (some e) = tt
    by_reply t none = (tt, λ failure _. by_failure t failure)

deleting_by-WritesWell : (t : Status) (job : Job) → IsGenuine job → WritesWell (deleting_by t job)
unfolding deleting_by
deleting_by-WritesWell deleted job genuine = tt
deleting_by-WritesWell deleting job genuine = tt
deleting_by-WritesWell pending job genuine = beginning_teardown-WritesWell job genuine
deleting_by-WritesWell provisioning job genuine = beginning_teardown-WritesWell job genuine
deleting_by-WritesWell ready job genuine = beginning_teardown-WritesWell job genuine
deleting_by-WritesWell failed job genuine = beginning_teardown-WritesWell job genuine

found-WritesWell :
    (id : Text) (found : Result Job)
    → IsWellRead (get id) found
    → WritesWell
        (elim found [ err e ↦ done (read_failed id e) | ok job ↦ deleting_by job.status job ])
found-WritesWell id (err e) well = tt
found-WritesWell id (ok job) well = deleting_by-WritesWell job.status job well.genuine

pub serving-WritesWell : (r : Request) → WritesWell (serving r)
unfolding serving
serving-WritesWell get_healthz = tt
serving-WritesWell get_list = (
  tt,
  λ listed _.
      answers-WritesWell listed (λ e. write_error 500 (txt "could not list jobs"))
        (λ jobs. write_json 200 (jobs_body (length jobs) (sort_by older jobs))),
)
serving-WritesWell (post_provision none) = tt
serving-WritesWell (post_provision (some req)) = validating-WritesWell req
serving-WritesWell (get_status id) = (
  tt,
  λ found _. answers-WritesWell found (read_failed id) (λ job. write_json 200 (job_body job)),
)
serving-WritesWell (delete_provision id) = (tt, λ found well. found-WritesWell id found well)
serving-WritesWell (get_dead limit) = (
  tt,
  λ listed _.
      answers-WritesWell listed (λ e. write_error 500 (txt "could not list dead-letter"))
        (λ (entries : List DeadEntry). write_json 200 (dead_body (length entries) entries)),
)
