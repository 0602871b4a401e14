-- ===== src/Calls/Agreement/Requests.antt =====
-- internal/api/api.go: the requests as trees of calls, and as they are written.
use infraforge.Base.{
  ◌≡◌, refl, txt, length, sort_by, arith, Text, none, some, GoError, Result, ok, err,
}
use infraforge.Model.{Job, ProvisionRequest, Status}
use infraforge.Api.{
  Response, write_json, write_error, read_failed, jobs_body, job_body, dead_body, older, limit_of,
  Server, Request, serve, get_healthz, get_list, post_provision, get_status, delete_provision,
  get_dead, handle_provision, handle_list, handle_list_dead, handle_status, handle_deprovision,
  validate, create, hand_over, new_id, begin_teardown, teardown_by,
}
use infraforge.System.{broker}
use infraforge.Calls.{Services, done, perform}
use infraforge.Calls.Serving.{
  serving, handing_over, recording, creating, validating, beginning_teardown, deleting_by,
}

module _ {W : Type 0} (s : Services W) where
  abbrev server : Server W
  server = broker s.k s.random_bytes

  handing_over-perform :
      (job : Job) (w : W) → perform s (handing_over job) w ≡ hand_over server job w
  unfolding handing_over hand_over
  handing_over-perform job w = ground arith

  creating-perform : (n r : Text) (w : W) → perform s (creating n r) w ≡ create server n r w
  unfolding creating create recording new_id
  creating-perform n r w = grind (arith, handing_over-perform)

  validating-perform :
      (req : ProvisionRequest) (w : W) → perform s (validating req) w ≡ validate server req w
  unfolding validating validate
  validating-perform req w = grind (arith, creating-perform)

  beginning_teardown-perform :
      (job : Job) (w : W) → perform s (beginning_teardown job) w ≡ begin_teardown server job w
  unfolding beginning_teardown begin_teardown
  beginning_teardown-perform job w = ground arith

  deleting_by-perform :
      (t : Status) (job : Job) (w : W)
      → perform s (deleting_by t job) w ≡ teardown_by server t job w
  unfolding deleting_by teardown_by
  deleting_by-perform t job w = grind (arith, beginning_teardown-perform)

  -- Code that answers by the result of a read.
  settled :
      {X : Type 0} (r : Result X) (bad : GoError → Response) (good : X → Response) (w : W)
      → perform s (elim r [ err e ↦ done (bad e) | ok x ↦ done (good x) ]) w
        ≡ elim r [ err e ↦ (bad e, w) | ok x ↦ (good x, w) ]
  settled (err e) bad good w = refl
  settled (ok x) bad good w = refl

  pub serving-perform : (r : Request) (w : W) → perform s (serving r) w ≡ serve server r w
  unfolding serving serve handle_provision handle_list handle_list_dead handle_status
      handle_deprovision
  serving-perform get_healthz w = refl
  serving-perform get_list w =
      settled (s.k.store.list w).0 (λ e. write_error 500 (txt "could not list jobs"))
        (λ jobs. write_json 200 (jobs_body (length jobs) (sort_by older jobs))) (s.k.store.list w).1
  serving-perform (post_provision none) w = refl
  serving-perform (post_provision (some req)) w = validating-perform req w
  serving-perform (get_status id) w =
      settled (s.k.store.get id w).0 (read_failed id) (λ job. write_json 200 (job_body job))
        (s.k.store.get id w).1
  serving-perform (delete_provision id) w = grind (arith, deleting_by-perform)
  serving-perform (get_dead limit) w =
      let (listed, w') = s.k.queue.list_dead (limit_of limit) w in
      settled listed (λ e. write_error 500 (txt "could not list dead-letter"))
        (λ entries. write_json 200 (dead_body (length entries) entries)) w'
