-- ===== src/Api.antt =====
-- internal/api/api.go: the broker's HTTP handlers, over a world `W`. A request comes with its body
-- decoded (`none` if it is no JSON of the shape) and its path and query taken apart; log lines are
-- left out.
pub mod Trace
pub mod Provision
pub mod Inventory
mod Tests
use infraforge.Base.{
  ℕ, Bool, true, false, ◌&&◌, Text, txt, List, [], ◌∷◌, ◌++◌, ℤ, pos, Option, none, some, GoError,
  Result, ok, err, errors_is, err_not_found, if◌then◌else◌, text_eq, length, leb, ltb_ℤ, atoi,
  hex_encode, sort_by, not, ◌||◌, ◌==◌, count_if,
}
use infraforge.Model.{
  Job, ProvisionRequest, Status, pending, provisioning, ready, failed, deleting, deleted,
  resource_postgres,
}
use infraforge.Store.{Store}
use infraforge.Queue.{Queue, DeadEntry, action_provision, action_deprovision}

-- What a response's body encodes.
pub data Body : Type 0 where
  health : Body
  error_body : Text → Body
  job_body : Job → Body
  jobs_body : ℕ → List Job → Body
  dead_body : ℕ → List DeadEntry → Body

pub record Response : Type 0 where
  pub code : ℕ
  pub location : Option Text
  pub body : Body

-- `Server`, with the clock and the random bytes that it reads.
pub record Server (W : Type 0) : Type 0 where
  pub store : Store W
  pub queue : Queue W
  pub now : W → ℕ × W
  pub random : ℕ → W → List ℕ × W

unfoldable pub write_json : ℕ → Body → Response
write_json code body = record { code = code; location = none; body = body }

unfoldable pub write_error : ℕ → Text → Response
unfolding write_json
write_error code message = write_json code (error_body message)

unfoldable pub handle_health : Response
unfolding write_json
handle_health = write_json 200 health

abbrev pub or_postgres : Text → Text
or_postgres r = if text_eq r [] then resource_postgres else r

-- The answer to a failed read.
unfoldable pub read_failed : Text → GoError → Response
unfolding write_error txt
read_failed id e =
    if errors_is e err_not_found
    then write_error 404 (txt "no job with id " ++ id)
    else write_error 500 (txt "could not read job")

abbrev pub older : Job → Job → Bool
older a b = leb a.created_at b.created_at

abbrev pub in_limits : Option ℤ → ℤ
in_limits none = pos 100
in_limits (some n) = if ltb_ℤ (pos 0) n && not (ltb_ℤ (pos 1000) n) then n else pos 100

-- The query's `limit`, the empty text if there is none.
unfoldable pub limit_of : Text → ℤ
limit_of v = if text_eq v [] then pos 100 else in_limits (atoi v)

module _ {W : Type 0} (s : Server W) where
  unfoldable pub new_id : W → Text × W
  new_id w = let (b, w) = s.random 8 w in (hex_encode b, w)

  -- From the enqueueing on; `job` is in the store.
  unfoldable pub hand_over : Job → W → Response × W
  unfolding write_json write_error txt
  hand_over job w =
      let (failure, w) = s.queue.enqueue job.id action_provision w in
      elim failure [
        | some e ↦
            let (t, w) = s.now w in
            let job' = record job {
              status = failed;
              detail = txt "could not enqueue provisioning job";
              updated_at = t;
            } in
            let (_, w) = s.store.put job' w in (write_error 500 (txt "could not enqueue job"), w)
        | none ↦ (
          record (write_json 202 (job_body job)) {
            location = some (txt "/v1/provision/" ++ job.id);
          },
          w,
        )
      ]

  -- A valid request.
  unfoldable pub create : Text → Text → W → Response × W
  unfolding new_id hand_over write_error txt
  create service_name resource w =
      let (now, w) = s.now w in
      let (id, w) = new_id w in
      let job : Job = record {
        id = id;
        service_name = service_name;
        resource = resource;
        status = pending;
        detail = [];
        attempts = pos 0;
        connection = none;
        http = none;
        created_at = now;
        updated_at = now;
      } in
      let (failure, w) = s.store.put job w in
      elim failure [
        | some e ↦ (write_error 500 (txt "could not record job"), w)
        | none ↦ hand_over job w
      ]

  unfoldable pub validate : ProvisionRequest → W → Response × W
  unfolding create write_error txt
  validate req w =
      if text_eq req.service_name []
      then (write_error 400 (txt "service_name is required"), w)
      else let resource = or_postgres req.resource in
        if text_eq resource resource_postgres
        then create req.service_name resource w
        else (write_error 400 (txt "unsupported resource: " ++ resource), w)

  unfoldable pub handle_provision : Option ProvisionRequest → W → Response × W
  unfolding validate write_error txt
  handle_provision none w = (write_error 400 (txt "invalid JSON body"), w)
  handle_provision (some req) w = validate req w

  unfoldable pub handle_status : Text → W → Response × W
  unfolding read_failed write_json
  handle_status id w =
      let (found, w) = s.store.get id w in
      elim found [ err e ↦ (read_failed id e, w) | ok job ↦ (write_json 200 (job_body job), w) ]

  unfoldable pub handle_list : W → Response × W
  unfolding write_json write_error txt
  handle_list w =
      let (listed, w) = s.store.list w in
      elim listed [
        | err e ↦ (write_error 500 (txt "could not list jobs"), w)
        | ok jobs ↦ (write_json 200 (jobs_body (length jobs) (sort_by older jobs)), w)
      ]

  unfoldable pub begin_teardown : Job → W → Response × W
  unfolding write_json write_error txt
  begin_teardown job w =
      let (t, w) = s.now w in
      let job' = record job { status = deleting; detail = []; updated_at = t } in
      let (failure, w) = s.store.put job' w in
      elim failure [
        | some e ↦ (write_error 500 (txt "could not record job"), w)
        | none ↦
            let (failure, w) = s.queue.enqueue job'.id action_deprovision w in
            elim failure [
              | some e ↦ (write_error 500 (txt "could not enqueue deprovision"), w)
              | none ↦ (write_json 202 (job_body job'), w)
            ]
      ]

  -- The `switch` on the status.
  unfoldable pub teardown_by : Status → Job → W → Response × W
  unfolding begin_teardown write_json
  teardown_by deleted job w = (write_json 200 (job_body job), w)
  teardown_by deleting job w = (write_json 202 (job_body job), w)
  teardown_by _ job w = begin_teardown job w

  unfoldable pub handle_deprovision : Text → W → Response × W
  unfolding read_failed teardown_by
  handle_deprovision id w =
      let (found, w) = s.store.get id w in
      elim found [ err e ↦ (read_failed id e, w) | ok job ↦ teardown_by job.status job w ]

  unfoldable pub handle_list_dead : Text → W → Response × W
  unfolding limit_of write_json write_error txt
  handle_list_dead v w =
      let (listed, w) = s.queue.list_dead (limit_of v) w in
      elim listed [
        | err e ↦ (write_error 500 (txt "could not list dead-letter"), w)
        | ok entries ↦ (write_json 200 (dead_body (length entries) entries), w)
      ]

-- The routes of `Routes`, with what each takes from the request.
pub data Request : Type 0 where
  get_healthz : Request
  get_list : Request
  post_provision : Option ProvisionRequest → Request
  get_status : Text → Request
  delete_provision : Text → Request
  get_dead : Text → Request

-- What stands in the text after a prefix.
abbrev pub after_prefix : Text → Text → Option Text
after_prefix [] s = some s
after_prefix (c ∷ p) [] = none
after_prefix (c ∷ p) (d ∷ s) = let rest = after_prefix p s in if c == d then rest else none

-- `{id}` stands for one segment of the path, which is not empty.
abbrev pub status_of : Option Text → Option Request
status_of none = none
status_of (some id) =
    if text_eq id [] || not (count_if (λ c. c == b'/') id == 0) then none else some (get_status id)

-- The request that the mux makes of a GET by its path, without a query.
unfoldable pub get_route : Text → Option Request
unfolding txt
get_route path =
    if text_eq path (txt "/healthz")
    then some get_healthz
    else (if text_eq path (txt "/v1/provision")
        then some get_list
        else (if text_eq path (txt "/v1/dead")
            then some (get_dead [])
            else status_of (after_prefix (txt "/v1/provision/") path)))

unfoldable pub serve : {W : Type 0} → Server W → Request → W → Response × W
serve s get_healthz w = (handle_health, w)
serve s get_list w = handle_list s w
serve s (post_provision body) w = handle_provision s body w
serve s (get_status id) w = handle_status s id w
serve s (delete_provision id) w = handle_deprovision s id w
serve s (get_dead limit) w = handle_list_dead s limit w
