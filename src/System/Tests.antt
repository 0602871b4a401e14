-- ===== src/System/Tests.antt =====
-- cmd/broker/main.go, cmd/worker/main.go: a broker and two workers in memory.
use infraforge.Base.{
  text_eq, hex_encode, contains, ◌≡◌, refl, arith, false, Text, txt, [], ◌∷◌, pos, none, true, ok,
  ◌≤◌,
}
use infraforge.Base.Dict
use infraforge.Model.{Job, pending, resource_postgres}
use infraforge.Api.{
  or_postgres, new_id, serve, handle_provision, validate, create, hand_over, write_json,
  write_error,
}
use infraforge.Store.Mem
use infraforge.Store.Mem.{MemStore, memory_store, memory_store-IsLawful, new_mem}
use infraforge.Queue.{Message, action_provision}
use infraforge.Queue.Redis
use infraforge.Queue.Redis.{redis_queue, stream_key}
use infraforge.Worker.Loop.{ticked, run_loop, reclaim_rounds}
use infraforge.Worker.Crash.{mortal}
use infraforge.Worker.Crash.Batches.{mortal_context}
use infraforge.System.{
  State, served, broker, worker_of, left_by, Reach, here, then, serves, consumes, reclaims,
  waits_for,
}
use infraforge.System.Memory.{
  World, store, worker, Held, random, context, system-IsSound, start, start-Kept, setup, request,
}
use infraforge.Worker.Protocol.{is_ack}
use infraforge.Worker.Poison.{total}
use infraforge.System.Progress.{waiting_job_acked}
use infraforge.System.Always.{Kept, Reach-Kept}

-- A job is accepted; the broker takes another request and dies before its message is sent; a worker
-- takes the message of the first, marks the job and dies; another worker takes the message over.
abbrev accepted : State World
accepted = served worker random context start request 100

abbrev orphaned : State World
orphaned = served worker random context accepted request 3

abbrev marked : State World
marked = record orphaned {
  world = left_by (
      run_loop (mortal_context (context (txt "w-1")))
        (mortal (worker_of worker (setup (txt "w-1")))) 1 (orphaned.world, 5));
}

abbrev taken_over : State World
taken_over = record marked {
  world = left_by (
      reclaim_rounds (mortal_context (context (txt "w-2")))
        (mortal (worker_of worker (setup (txt "w-2")))) (ticked ∷ []) (marked.world, 100));
}

drawn_anew :
    contains accepted.accepted (new_id (broker worker random) (worker.now accepted.world).1).0
    ≡ false
unfolding serve handle_provision validate create new_id hand_over write_json write_error txt Mem.put
    new_mem Redis.enqueue text_eq hex_encode stream_key resource_postgres action_provision
drawn_anew = refl

history : Reach worker random context start taken_over
history =
    then
      (then (then (then here (serves request 100 refl)) (serves request 3 drawn_anew))
        (consumes (setup (txt "w-1")) 1 5))
      (reclaims (setup (txt "w-2")) (ticked ∷ []) 100)

Reach-Kept_example : Kept worker random context Held taken_over
Reach-Kept_example =
    Reach-Kept worker random context Held system-IsSound start taken_over history start-Kept

abbrev first_id : Text
first_id = (new_id (broker worker random) (worker.now start.world).1).0

-- The accepted job, before a worker has it.
abbrev first_job : Job
first_job = record {
  id = first_id;
  service_name = txt "checkout";
  resource = resource_postgres;
  status = pending;
  detail = [];
  attempts = pos 0;
  connection = none;
  http = none;
  created_at = 5;
  updated_at = 5;
}

first_found : (store.get first_id accepted.world).0 ≡ ok first_job
unfolding serve handle_provision validate create new_id hand_over write_json write_error txt Mem.put
    new_mem Redis.enqueue text_eq hex_encode stream_key resource_postgres action_provision
    or_postgres Mem.get Dict.lookup Dict.insert
first_found = refl

first_waits : waits_for accepted.accepted first_id pending ≡ true
unfolding serve handle_provision validate create new_id hand_over write_json write_error txt Mem.put
    new_mem Redis.enqueue text_eq hex_encode stream_key resource_postgres action_provision
first_waits = refl

waiting_job_acked_example :
    (msg : Message) × Held msg accepted.world
    × (msg.job_id ≡ first_id)
    × (1 ≤ total worker msg is_ack 4 accepted.world)
waiting_job_acked_example =
    waiting_job_acked worker random context Held system-IsSound start accepted first_id first_job 3
      0 4 start-Kept (then here (serves request 100 refl)) first_found first_waits refl refl
      (omega arith) (omega arith) (omega arith)
