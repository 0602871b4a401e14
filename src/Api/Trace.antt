-- ===== src/Api/Trace.antt =====
-- internal/api/api.go: the calls of the store and the queue that a handler makes, in their order.
use infraforge.Base.{Text, List, ℤ, Option, GoError, Result, Traced, noted, silent}
use infraforge.Model.{Job}
use infraforge.Queue.{Action}
use infraforge.Api.{Server}

pub data Event : Type 0 where
  got : Text → Result Job → Event
  put : Job → Option GoError → Event
  listed : Result (List Job) → Event
  enqueued : Text → Action → Option GoError → Event
  listed_dead : ℤ → Event

-- The server with its calls written down.
abbrev pub traced : {W : Type 0} → Server W → Server (Traced Event W)
traced s = record {
  store = record {
    put = λ j. noted (s.store.put j) (put j);
    get = λ id. noted (s.store.get id) (got id);
    list = noted s.store.list listed;
  };
  queue = record {
    enqueue = λ id a. noted (s.queue.enqueue id a) (enqueued id a);
    dequeue = λ c b. silent (s.queue.dequeue c b);
    reclaim = λ c i n. silent (s.queue.reclaim c i n);
    ack = λ m. silent (s.queue.ack m);
    dead_letter = λ m d n. silent (s.queue.dead_letter m d n);
    list_dead = λ n. noted (s.queue.list_dead n) (λ _. listed_dead n);
  };
  now = silent s.now;
  random = λ n. silent (s.random n);
}
