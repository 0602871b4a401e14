-- ===== src/Threads/Records/Tests.antt =====
-- internal/worker/worker.go: two workers with one message, which the second one takes over while the
-- first one is still about to handle it.
use infraforge.Base.{
  ltb_ℤ, incr, ℕ, ◌≡◌, ◌∙◌, refl, sort_by, arith, inl, Text, txt, [], ◌∷◌, List, Option, none, some,
  Result, ok, err, err_transient, errors_is, pos, text_eq, hex_encode,
}
use infraforge.Base.Dict
use infraforge.Base.Dict.{Dict}
use infraforge.Model.{Job, Status, provisioning, ready, resource_postgres}
use infraforge.Api.{older, or_postgres, write_json, write_error}
use infraforge.Queue.{action_provision, action_deprovision}
use infraforge.Queue.Redis
use infraforge.Queue.Redis.{stream_key}
use infraforge.Provisioner.{Resources}
use infraforge.Store.Mem
use infraforge.Store.Mem.{new_mem}
use infraforge.Worker.{transient_detail}
use infraforge.Worker.Loop.{ticked}
use infraforge.System.Always.{IsSoundSystem}
use infraforge.System.Memory
use infraforge.System.Memory.{
  World, worker, worker-IsSound, system-IsSound, Held, random, context, setup, request,
}
use infraforge.Calls.{Services}
use infraforge.Calls.Handling.{
  handling, dispatching, provisioning_by, starting, attempting, saving, failing, succeeding, acking,
}
use infraforge.Calls.Looping.{consuming, reclaiming, handling_all}
use infraforge.Calls.Serving.{serving, validating, creating, recording, handing_over}
use infraforge.Threads.{
  serves, consumes, reclaims, idle, State, begun, moved, anyone, Reach, here, then, begins, calls,
}
use infraforge.Xds.Envoy.{Snapshot, SnapshotCache}
use infraforge.Xds.Registry.{
  Endpoint, new_registry, Plane, build_locked, bucket, replace_all, push_snapshot,
}
use infraforge.Xds.Registry.View.{registered, new_registry-IsValid}
use infraforge.Xds.Reconciler.{JobLister, replaced, build_desired}
use infraforge.System.{broker}
use infraforge.Xds.Reconciler.Desired.{DistinctEndpoints}
use infraforge.BrokerClient.Inventory.{IsHost, list_shown}
use infraforge.Xds.Reconciler.Shown.{IsCache, Shows}
use infraforge.Xds.Reconciler.Converges.{reconcile-plane}
use infraforge.Threads.Records.Routed.{IsRouted, ready_jobs-IsRouted, reconciled, client}
use infraforge.Threads.Records.Always.{IsWellKept, Reach-IsWellKept}

abbrev granted : Resources
granted = record {
  connection = record {
    host = txt "127.0.0.1";
    port = pos 5432;
    username = txt "u";
    password = txt "p";
    database = txt "d";
  };
  http = record { host = txt "127.0.0.1"; port = pos 8080 };
}

-- The first message is still there.
abbrev first_entry : List (Option (Dict Text)) → Result Resources
first_entry (some e ∷ es) = ok granted
first_entry _ = err (record { message = txt "i/o timeout"; chain = err_transient ∷ [] })

abbrev services : Services World
services = record {
  k = record worker {
    provisioner = record {
      provision = λ j w. (first_entry w.1.entries, w);
      deprovision = λ j w. (none, w);
    };
  };
  random_bytes = random;
  context = context;
}

abbrev start : State World
start = record {
  world = Memory.start.world;
  ledger = record { sent = []; torn = [] };
  threads = λ i. idle;
}

-- The processes of the list make a call each, in its order.
abbrev moves : List ℕ → State World → State World
moves [] a = a
moves (i ∷ is) a = moves is (moved services i a)

moves-Reach :
    (is : List ℕ) (a b : State World)
    → Reach services (anyone services) a b
    → Reach services (anyone services) a (moves is b)
moves-Reach [] a b r = r
moves-Reach (i ∷ is) a b r = moves-Reach is a (moved services i b) (then r (calls i tt))

-- A broker with a request, and two workers.
abbrev begun_all : State World
begun_all =
    begun services 2 (reclaims (setup (txt "w-2")) (ticked ∷ []))
      (begun services 1 (consumes (setup (txt "w-1")) 1) (begun services 0 (serves request) start))

-- The request is served, and the first worker takes the message and reads the record; the second one
-- takes the message over and handles it.
abbrev overtaken : List ℕ
overtaken = 0 ∷ 0 ∷ 0 ∷ 0 ∷ 1 ∷ 1 ∷ 1 ∷ 2 ∷ 2 ∷ 2 ∷ 2 ∷ 2 ∷ 2 ∷ 2 ∷ 2 ∷ 2 ∷ 2 ∷ []

-- The first one goes on.
abbrev belated : List ℕ
belated = 1 ∷ 1 ∷ 1 ∷ 1 ∷ 1 ∷ []

abbrev settled : State World
settled = moves overtaken begun_all

abbrev late : State World
late = moves belated settled

abbrev statuses : List (Text × Job) → List Status
statuses [] = []
statuses ((id, j) ∷ js) = j.status ∷ statuses js

begun_history : Reach services (anyone services) start begun_all
begun_history =
    then (then (then here (begins 0 (serves request))) (begins 1 (consumes (setup (txt "w-1")) 1)))
      (begins 2 (reclaims (setup (txt "w-2")) (ticked ∷ [])))

late_history : Reach services (anyone services) start late
late_history =
    moves-Reach belated start settled (moves-Reach overtaken start begun_all begun_history)

-- The job is ready, and its message acked.
settled_ready : (statuses settled.world.0.jobs ≡ ready ∷ []) × (settled.world.1.entries ≡ none ∷ [])
unfolding consuming reclaiming handling_all handling dispatching provisioning_by starting attempting
    saving failing succeeding acking serving validating creating recording handing_over write_json
    write_error txt Mem.put Mem.get new_mem Redis.enqueue Redis.dequeue Redis.reclaim Redis.ack
    text_eq hex_encode stream_key resource_postgres action_provision or_postgres Dict.lookup
    Dict.insert action_deprovision ltb_ℤ incr transient_detail
settled_ready = (refl, refl)

-- It waits for a worker again, with no message.
late_provisioning :
    (statuses late.world.0.jobs ≡ provisioning ∷ []) × (late.world.1.entries ≡ none ∷ [])
unfolding consuming reclaiming handling_all handling dispatching provisioning_by starting attempting
    saving failing succeeding acking serving validating creating recording handing_over write_json
    write_error txt Mem.put Mem.get new_mem Redis.enqueue Redis.dequeue Redis.reclaim Redis.ack
    text_eq hex_encode stream_key resource_postgres action_provision or_postgres Dict.lookup
    Dict.insert action_deprovision ltb_ℤ incr transient_detail errors_is
late_provisioning = (refl, refl)

services-IsSound : IsSoundSystem services.k services.random_bytes services.context Held
services-IsSound = record {
  worker = record {
    lawful = worker-IsSound.lawful;
    put_ok = worker-IsSound.put_ok;
    group = worker-IsSound.group;
    Held-put = worker-IsSound.Held-put;
    get_quiet = worker-IsSound.get_quiet;
    list_quiet = worker-IsSound.list_quiet;
    now_quiet = worker-IsSound.now_quiet;
    provision_quiet = λ j w. record { records = λ id. refl; messages = λ m h. h };
    deprovision_quiet = worker-IsSound.deprovision_quiet;
    register_quiet = worker-IsSound.register_quiet;
    unregister_quiet = worker-IsSound.unregister_quiet;
    get-enqueue = worker-IsSound.get-enqueue;
    get-dequeue = worker-IsSound.get-dequeue;
    get-reclaim = worker-IsSound.get-reclaim;
    get-ack = worker-IsSound.get-ack;
    get-dead_letter = worker-IsSound.get-dead_letter;
    get-list_dead = worker-IsSound.get-list_dead;
  };
  random_quiet = system-IsSound.random_quiet;
  context_quiet = λ name. record {
    ended_quiet = (system-IsSound.context_quiet name).ended_quiet;
    sleep_quiet = (system-IsSound.context_quiet name).sleep_quiet;
  };
}

start-IsWellKept : IsWellKept services Held services-IsSound start.world
unfolding Mem.get new_mem Dict.lookup
start-IsWellKept = record { formed = λ id j h. absurd (ground (arith, h)) }

Reach-IsWellKept_example : IsWellKept services Held services-IsSound late.world
Reach-IsWellKept_example =
    Reach-IsWellKept services Held services-IsSound start late late_history (λ i. refl)
      start-IsWellKept

-- The one job of the store, once it is ready.
abbrev the_job : Job
the_job = record {
  id = hex_encode (0 ∷ 2 ∷ 3 ∷ 4 ∷ 5 ∷ 6 ∷ 7 ∷ 8 ∷ []);
  service_name = txt "checkout";
  resource = resource_postgres;
  status = ready;
  detail = [];
  attempts = pos 1;
  connection = some granted.connection;
  http = some granted.http;
  created_at = 5;
  updated_at = 5;
}

the_job_stored : (services.k.store.get the_job.id settled.world).0 ≡ ok the_job
unfolding consuming reclaiming handling_all handling dispatching provisioning_by starting attempting
    saving failing succeeding acking serving validating creating recording handing_over write_json
    write_error txt Mem.put Mem.get new_mem Redis.enqueue Redis.dequeue Redis.reclaim Redis.ack
    text_eq hex_encode stream_key resource_postgres action_provision or_postgres Dict.lookup
    Dict.insert action_deprovision ltb_ℤ incr transient_detail
the_job_stored = refl

settled_history : Reach services (anyone services) start settled
settled_history = moves-Reach overtaken start begun_all begun_history

one-Distinct : (j : Job) → DistinctEndpoints (j ∷ [])
one-Distinct j svc e = ground arith

the_job_listed : (services.k.store.list settled.world).0 ≡ ok (the_job ∷ [])
unfolding consuming reclaiming handling_all handling dispatching provisioning_by starting attempting
    saving failing succeeding acking serving validating creating recording handing_over write_json
    write_error txt Mem.put Mem.get Mem.list new_mem Redis.enqueue Redis.dequeue Redis.reclaim
    Redis.ack text_eq hex_encode stream_key resource_postgres action_provision or_postgres
    Dict.lookup Dict.insert action_deprovision ltb_ℤ incr transient_detail
the_job_listed = refl

abbrev cache : SnapshotCache (Option Snapshot)
cache = record { consistent = λ snap. none; set_snapshot = λ node snap c. (none, some snap) }

abbrev current : Option Snapshot → Option Snapshot
current c = c

cache-IsCache : IsCache cache current
cache-IsCache = record { kept = λ snap c fine. refl }

abbrev status_text : ℕ → Text
status_text n = txt "status"

broker-IsHost : IsHost (txt "broker:8080")
unfolding txt
broker-IsHost = grind arith

-- The control plane when it has started.
abbrev plane : Plane cache
plane = (new_registry, some (build_locked 7 new_registry).0)

plane-Shows : Shows cache current plane
unfolding new_registry registered bucket Dict.lookup
plane-Shows = ((build_locked 7 new_registry).0, refl, λ svc e h. ground (arith, h))

abbrev xds : JobLister World
xds =
    client services Held services-IsSound cache current cache-IsCache status_text
      (txt "broker:8080") broker-IsHost

cache_takes :
    (p : Plane cache) (desired : Dict (List Endpoint))
    → replaced xds cache (replace_all cache 9 desired p).0 ≡ none
unfolding replace_all push_snapshot replaced
cache_takes p desired = ground arith

reconciled_fine :
    (reconciled services Held services-IsSound cache current cache-IsCache status_text
      (txt "broker:8080")
      broker-IsHost
      9
      plane
      settled).0
    ≡ none
reconciled_fine =
    (reconcile-plane xds cache 9 (record { plane = plane; world = settled.world })
      (sort_by older (the_job ∷ []))
      (list_shown (broker services.k services.random_bytes) status_text (txt "broker:8080")
        settled.world (the_job ∷ []) broker-IsHost the_job_listed)).1
    ∙ cache_takes plane (build_desired (sort_by older (the_job ∷ [])))

ready_jobs-IsRouted_example :
    IsRouted services Held services-IsSound cache current cache-IsCache status_text
      (txt "broker:8080")
      broker-IsHost
      the_job
      (reconciled services Held services-IsSound cache current cache-IsCache status_text
        (txt "broker:8080")
        broker-IsHost
        9
        plane
        settled).1.plane
ready_jobs-IsRouted_example =
    ready_jobs-IsRouted services Held services-IsSound cache current cache-IsCache status_text
      (txt "broker:8080") broker-IsHost start settled 9 plane (the_job ∷ []) the_job settled_history
      (λ i. refl) start-IsWellKept the_job_listed (the_job_stored, tt) new_registry-IsValid
      plane-Shows (one-Distinct the_job) (inl refl) refl reconciled_fine
