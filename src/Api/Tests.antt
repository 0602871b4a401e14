-- ===== src/Api/Tests.antt =====
-- internal/api: the handlers in a world kept in memory.
use infraforge.Base.{
  ℕ, ◌≡◌, refl, Text, txt, [], ◌∷◌, pos, Option, none, some, GoError, ok, text_eq, new_error,
}
use infraforge.Base.Dict
use infraforge.Model.{Job, ProvisionRequest, ready, deleting}
use infraforge.Store.Mem
use infraforge.Store.Mem.{MemStore, memory_store, memory_store-IsLawful}
use infraforge.Queue.{Queue}
use infraforge.Api.{Server, handle_provision, handle_deprovision}
use infraforge.Api.Trace.{got, traced}
use infraforge.Api.Provision.{
  Promised, Torn, QueueDown, handle_provision-Promised, handle_deprovision-Torn,
  failed_enqueue_strands,
}

abbrev queue_with : Option GoError → Queue MemStore
queue_with e = record {
  enqueue = λ id a w. (e, w);
  dequeue = λ c b w. (ok none, w);
  reclaim = λ c i n w. (ok [], w);
  ack = λ m w. (none, w);
  dead_letter = λ m d n w. (none, w);
  list_dead = λ n w. (ok [], w);
}

abbrev server_with : Option GoError → Server MemStore
server_with e = record {
  store = memory_store;
  queue = queue_with e;
  now = λ w. (5, w);
  random = λ n w. (1 ∷ 2 ∷ 3 ∷ 4 ∷ 5 ∷ 6 ∷ 7 ∷ 8 ∷ [], w);
}

abbrev server : Server MemStore
server = server_with none

abbrev refused : GoError
refused = new_error (txt "redis: connection refused")

abbrev broken : Server MemStore
broken = server_with (some refused)

broken-QueueDown : QueueDown broken
unfolding Mem.put
broken-QueueDown = record {
  lawful = memory_store-IsLawful;
  put_ok = λ j w. refl;
  get-enqueue = λ id i a w. refl;
  refusal = refused;
  refuses = λ i a w. refl;
}

abbrev empty : MemStore
empty = record { jobs = [] }

abbrev job_named : Text → ℕ → Job
job_named id t = record {
  id = id;
  service_name = txt "checkout";
  resource = txt "postgres";
  status = ready;
  detail = [];
  attempts = pos 1;
  connection = none;
  http = none;
  created_at = t;
  updated_at = t;
}

abbrev first : Job
first = job_named (txt "a") 1

abbrev second : Job
second = job_named (txt "b") 2

abbrev holding : MemStore
holding = record { jobs = (txt "b", second) ∷ (txt "a", first) ∷ [] }

abbrev request : ProvisionRequest
request = record { service_name = txt "checkout"; resource = [] }

handle_provision-Promised_example :
    let (r, (w', t)) = handle_provision (traced server) (some request) (empty, []) in Promised r t
handle_provision-Promised_example = handle_provision-Promised server (some request) empty

handle_deprovision-Torn_example :
    let (r, (w', t)) = handle_deprovision (traced server) (txt "a") (holding, []) in
    Torn (txt "a") r t
handle_deprovision-Torn_example = handle_deprovision-Torn server (txt "a") holding

found_first : (memory_store.get (txt "a") holding).0 ≡ ok first
unfolding Mem.get Dict.lookup txt text_eq
found_first = refl

failed_enqueue_strands_example :
    let (r, w') = handle_deprovision broken (txt "a") holding in
    (r.code ≡ 500)
    × ((j : Job) × (j.status ≡ deleting)
        × (let (r', (w'', t)) = handle_deprovision (traced broken) (txt "a") (w', []) in
            (t ≡ got (txt "a") (ok j) ∷ []) × (r'.code ≡ 202)))
failed_enqueue_strands_example =
    failed_enqueue_strands broken broken-QueueDown (txt "a") holding first found_first refl
      (λ e. cc) (λ e. cc)
