-- ===== src/Calls/Serving.antt =====
-- internal/api/api.go: the handlers of the requests, as the tree of their calls.
use infraforge.Base.{
  Text, txt, [], ◌++◌, pos, none, some, ok, err, if◌then◌else◌, text_eq, length, hex_encode,
  sort_by,
}
use infraforge.Model.{
  Job, ProvisionRequest, Status, pending, failed, deleting, deleted, resource_postgres,
}
use infraforge.Queue.{action_provision, action_deprovision}
use infraforge.Api.{
  Response, job_body, jobs_body, dead_body, write_json, write_error, handle_health, or_postgres,
  read_failed, older, limit_of, Request, get_healthz, get_list, post_provision, get_status,
  delete_provision, get_dead,
}
use infraforge.Calls.{put, get, list, enqueue, list_dead, read_clock, random, Code, done, call}

-- From the enqueueing on.
unfoldable pub handing_over : Job → Code Response
unfolding write_json write_error txt
handing_over job = call (enqueue job.id action_provision) (λ failure. elim failure [
  | some e ↦ call read_clock (λ t.
      call
        (put (record job {
          status = failed;
          detail = txt "could not enqueue provisioning job";
          updated_at = t;
        }))
        (λ _. done (write_error 500 (txt "could not enqueue job"))))
  | none ↦
      done (record (write_json 202 (job_body job)) {
        location = some (txt "/v1/provision/" ++ job.id);
      })
])

unfoldable pub recording : Job → Code Response
unfolding handing_over write_error txt
recording job = call (put job) (λ failure. elim failure [
  | some e ↦ done (write_error 500 (txt "could not record job"))
  | none ↦ handing_over job
])

unfoldable pub creating : Text → Text → Code Response
unfolding recording
creating service_name resource = call read_clock (λ now. call (random 8) (λ b. recording (record {
  id = hex_encode b;
  service_name = service_name;
  resource = resource;
  status = pending;
  detail = [];
  attempts = pos 0;
  connection = none;
  http = none;
  created_at = now;
  updated_at = now;
})))

unfoldable pub validating : ProvisionRequest → Code Response
unfolding creating write_error txt
validating req =
    if text_eq req.service_name []
    then done (write_error 400 (txt "service_name is required"))
    else let resource = or_postgres req.resource in
      if text_eq resource resource_postgres
      then creating req.service_name resource
      else done (write_error 400 (txt "unsupported resource: " ++ resource))

unfoldable pub beginning_teardown : Job → Code Response
unfolding write_json write_error txt
beginning_teardown job = call read_clock (λ t.
    let job' = record job { status = deleting; detail = []; updated_at = t } in
    call (put job') (λ failure. elim failure [
      | some e ↦ done (write_error 500 (txt "could not record job"))
      | none ↦ call (enqueue job'.id action_deprovision) (λ failure. elim failure [
        | some e ↦ done (write_error 500 (txt "could not enqueue deprovision"))
        | none ↦ done (write_json 202 (job_body job'))
      ])
    ]))

unfoldable pub deleting_by : Status → Job → Code Response
unfolding beginning_teardown write_json
deleting_by deleted job = done (write_json 200 (job_body job))
deleting_by deleting job = done (write_json 202 (job_body job))
deleting_by _ job = beginning_teardown job

-- The routes of `Routes`.
unfoldable pub serving : Request → Code Response
unfolding validating deleting_by read_failed limit_of write_json write_error handle_health txt
serving get_healthz = done handle_health
serving get_list = call list (λ listed. elim listed [
  | err e ↦ done (write_error 500 (txt "could not list jobs"))
  | ok jobs ↦ done (write_json 200 (jobs_body (length jobs) (sort_by older jobs)))
])
serving (post_provision none) = done (write_error 400 (txt "invalid JSON body"))
serving (post_provision (some req)) = validating req
serving (get_status id) = call (get id) (λ found. elim found [
  | err e ↦ done (read_failed id e)
  | ok job ↦ done (write_json 200 (job_body job))
])
serving (delete_provision id) =
    call (get id) (λ found. elim found [
      | err e ↦ done (read_failed id e)
      | ok job ↦ deleting_by job.status job
    ])
serving (get_dead limit) = call (list_dead (limit_of limit)) (λ listed. elim listed [
  | err e ↦ done (write_error 500 (txt "could not list dead-letter"))
  | ok entries ↦ done (write_json 200 (dead_body (length entries) entries))
])
