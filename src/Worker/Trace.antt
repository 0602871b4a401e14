-- ===== src/Worker/Trace.antt =====
-- internal/worker/worker.go: the calls that the handling of a message makes, in their order, with
-- what they returned. Every interface of a worker is wrapped so that its calls are written down.
use infraforge.Base.{◌≡◌, Text, List, [], ℤ, Option, GoError, Result, Traced, noted, silent, arith}
use infraforge.Model.{Job}
use infraforge.Queue.{Message}
use infraforge.Provisioner.{Resources}
use infraforge.Worker.{Worker, handle}

pub data Event : Type 0 where
  got : Text → Result Job → Event
  put : Job → Option GoError → Event
  acked : Message → Event
  dead : Message → Text → ℤ → Event
  provision_call : Job → Result Resources → Event
  deprovision_call : Job → Option GoError → Event
  register_call : Text → Text → ℤ → Event
  unregister_call : Text → Text → ℤ → Event

-- The worker with its calls written down.
abbrev pub traced : {W : Type 0} → Worker W → Worker (Traced Event W)
traced k = record {
  name = k.name;
  store = record {
    put = λ j. noted (k.store.put j) (put j);
    get = λ id. noted (k.store.get id) (got id);
    list = silent k.store.list;
  };
  queue = record {
    enqueue = λ id a. silent (k.queue.enqueue id a);
    dequeue = λ c b. silent (k.queue.dequeue c b);
    reclaim = λ c i n. silent (k.queue.reclaim c i n);
    ack = λ m. noted (k.queue.ack m) (λ _. acked m);
    dead_letter = λ m d n. noted (k.queue.dead_letter m d n) (λ _. dead m d n);
    list_dead = λ n. silent (k.queue.list_dead n);
  };
  provisioner = record {
    provision = λ j. noted (k.provisioner.provision j) (provision_call j);
    deprovision = λ j. noted (k.provisioner.deprovision j) (deprovision_call j);
  };
  xds = record {
    register = λ s h p. noted (k.xds.register s h p) (λ _. register_call s h p);
    unregister = λ s h p. noted (k.xds.unregister s h p) (λ _. unregister_call s h p);
  };
  block_timeout = k.block_timeout;
  reclaim_every = k.reclaim_every;
  reclaim_min_idle = k.reclaim_min_idle;
  max_attempts = k.max_attempts;
  now = silent k.now;
}

module _ {W : Type 0} (k : Worker W) (msg : Message) (w : W) where
  -- The calls that `handle` makes.
  abbrev pub trace : List Event
  trace = (handle (traced k) msg (w, [])).1

  -- Writing the calls down changes nothing else.
  pub handle-traced : (handle (traced k) msg (w, [])).0 ≡ handle k msg w
  unfolding handle
  handle-traced = ground arith
