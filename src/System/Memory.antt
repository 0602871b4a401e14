-- ===== src/System/Memory.antt =====
-- cmd/broker/main.go, cmd/worker/main.go: a store and a queue in memory, with which a broker and its workers
-- run.
use infraforge.Base.{
  length, ℕ, ◌≡◌, refl, arith, false, Text, txt, List, [], ◌∷◌, pos, none, some, err, err_transient,
}
use infraforge.Base.Dict
use infraforge.Api.{Request, post_provision}
use infraforge.Store.{Store}
use infraforge.Store.Mem
use infraforge.Store.Mem.{MemStore, memory_store, memory_store-IsLawful, new_mem}
use infraforge.Queue.{Message}
use infraforge.Queue.Redis
use infraforge.Queue.Redis.{redis_queue, stream_key}
use infraforge.Queue.Redis.Laws.{HeldIn}
use infraforge.Queue.Redis.Group.{redis_queue-IsGroup}
use infraforge.Queue.Redis.Memory.{Log, streams, Pending, streams-IsStreams}
use infraforge.XdsClient.{noop}
use infraforge.Worker.{Worker}
use infraforge.Worker.Loop.{Context}
use infraforge.Worker.Crash.{IsQuiet, IsSound}
use infraforge.System.{State, Setup}
use infraforge.System.Always.{IsSoundSystem, Kept}

abbrev pub World : Type 0
World = MemStore × Log

-- `MemStore` beside the stream.
abbrev pub store : Store World
store = record {
  put = λ j (m, l). let (e, m') = memory_store.put j m in (e, (m', l));
  get = λ id (m, l). let (r, m') = memory_store.get id m in (r, (m', l));
  list = λ (m, l). let (r, m') = memory_store.list m in (r, (m', l));
}

abbrev pub worker : Worker World
worker = record {
  name = txt "w-1";
  store = store;
  queue = redis_queue streams;
  provisioner = record {
    provision =
        λ j w. (err (record { message = txt "i/o timeout"; chain = err_transient ∷ [] }), w);
    deprovision = λ j w. (none, w);
  };
  xds = noop;
  block_timeout = pos 1;
  reclaim_every = pos 1;
  reclaim_min_idle = pos 1;
  max_attempts = pos 3;
  now = λ w. (5, w);
}

abbrev pub Held : Message → World → Type 0
Held = HeldIn streams Pending

quiet : {A : Type 0} (f : World → A × World) → ((w : World) → (f w).1 ≡ w) → IsQuiet worker Held f
quiet f same w = record { records = λ id. rw (same w) refl; messages = λ m h. rw (same w) h }

pub worker-IsSound : IsSound worker Held
unfolding Mem.put Mem.get Mem.list Redis.enqueue Redis.dequeue Redis.reclaim Redis.ack
    Redis.dead_letter Redis.list_dead
worker-IsSound = record {
  lawful = record {
    get-put = λ j w h. memory_store-IsLawful.get-put j w.0 refl;
    get-put_ne = λ j k w h. memory_store-IsLawful.get-put_ne j k w.0 h;
    get-get = λ i k w. refl;
  };
  put_ok = λ j w. refl;
  group = redis_queue-IsGroup streams Pending streams-IsStreams;
  Held-put = λ m j w h. h;
  get_quiet = λ id. quiet (store.get id) (λ w. refl);
  list_quiet = quiet store.list (λ w. refl);
  now_quiet = quiet worker.now (λ w. refl);
  provision_quiet = λ j. quiet (worker.provisioner.provision j) (λ w. refl);
  deprovision_quiet = λ j. quiet (worker.provisioner.deprovision j) (λ w. refl);
  register_quiet = λ s h p. quiet (worker.xds.register s h p) (λ w. refl);
  unregister_quiet = λ s h p. quiet (worker.xds.unregister s h p) (λ w. refl);
  get-enqueue = λ id i a w. refl;
  get-dequeue = λ id c b w. refl;
  get-reclaim = λ id c i n w. refl;
  get-ack = λ id m w. refl;
  get-dead_letter = λ id m d n w. refl;
  get-list_dead = λ id n w. refl;
}

abbrev pub random : ℕ → World → List ℕ × World
random n w = (length w.1.entries ∷ 2 ∷ 3 ∷ 4 ∷ 5 ∷ 6 ∷ 7 ∷ 8 ∷ [], w)

-- A context that does not end.
abbrev pub context : Text → Context World
context name = record { ended = λ w. (false, w); sleep = λ n w. w }

pub system-IsSound : IsSoundSystem worker random context Held
system-IsSound = record {
  worker = worker-IsSound;
  random_quiet = λ n. quiet (random n) (λ w. refl);
  context_quiet = λ name. record {
    ended_quiet = quiet (λ w. (false, w)) (λ w. refl);
    sleep_quiet = λ n. quiet (λ w. (tt, w)) (λ w. refl);
  };
}

abbrev pub start : State World
start = record { world = (new_mem, record { entries = []; delivered = 0 }); accepted = [] }

pub start-Kept : Kept worker random context Held start
unfolding Mem.get new_mem Dict.lookup
start-Kept = record {
  own = λ id j h. absurd (ground (arith, h));
  covered = λ id j h n. absurd (ground (arith, h));
}

abbrev pub setup : Text → Setup
setup name = record {
  name = name;
  block_timeout = pos 1;
  reclaim_min_idle = pos 1;
  max_attempts = pos 3;
}

abbrev pub request : Request
request = post_provision (some (record { service_name = txt "checkout"; resource = [] }))
