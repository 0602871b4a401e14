-- ===== src/Calls.antt =====
-- internal/store/store.go, internal/queue/queue.go, internal/provisioner/provisioner.go,
-- internal/worker/worker.go, internal/api/api.go: the calls through which a process of the system acts
-- on what is shared, and code as the tree of the calls that it makes, for what each may return.
pub mod Handling
pub mod Looping
pub mod Serving
pub mod Agreement
use infraforge.Base.{ℕ, Bool, Text, List, ℤ, Option, GoError, Result}
use infraforge.Model.{Job}
use infraforge.Queue.{Message, Action, DeadEntry}
use infraforge.Provisioner.{Resources}
use infraforge.Worker.{Worker}
use infraforge.Worker.Loop.{Context}

pub data Call : Type 0 where
  put : Job → Call
  get : Text → Call
  list : Call
  enqueue : Text → Action → Call
  dequeue : Text → ℤ → Call
  reclaim : Text → ℤ → ℤ → Call
  ack : Message → Call
  dead_letter : Message → Text → ℤ → Call
  list_dead : ℤ → Call
  provision : Job → Call
  deprovision : Job → Call
  register : Text → Text → ℤ → Call
  unregister : Text → Text → ℤ → Call
  read_clock : Call
  -- as many random bytes
  random : ℕ → Call
  -- `ctx.Err() != nil`, and `sleep`, of the worker of that name
  ended : Text → Call
  sleep : Text → ℕ → Call

abbrev pub Reply : Call → Type 0
Reply (put _) = Option GoError
Reply (get _) = Result Job
Reply list = Result (List Job)
Reply (enqueue _ _) = Option GoError
Reply (dequeue _ _) = Result (Option Message)
Reply (reclaim _ _ _) = Result (List Message)
Reply (ack _) = Option GoError
Reply (dead_letter _ _ _) = Option GoError
Reply (list_dead _) = Result (List DeadEntry)
Reply (provision _) = Result Resources
Reply (deprovision _) = Option GoError
Reply (register _ _ _) = Option GoError
Reply (unregister _ _ _) = Option GoError
Reply read_clock = ℕ
Reply (random _) = List ℕ
Reply (ended _) = Bool
Reply (sleep _ _) = Unit

-- What the processes share: the store, the queue and the other services, the random bytes, and the
-- context of each worker.
pub record Services (W : Type 0) : Type 0 where
  pub k : Worker W
  pub random_bytes : ℕ → W → List ℕ × W
  pub context : Text → Context W

abbrev pub answer : {W : Type 0} → Services W → (c : Call) → W → Reply c × W
answer s (put j) w = s.k.store.put j w
answer s (get id) w = s.k.store.get id w
answer s list w = s.k.store.list w
answer s (enqueue id a) w = s.k.queue.enqueue id a w
answer s (dequeue c b) w = s.k.queue.dequeue c b w
answer s (reclaim c i n) w = s.k.queue.reclaim c i n w
answer s (ack m) w = s.k.queue.ack m w
answer s (dead_letter m d n) w = s.k.queue.dead_letter m d n w
answer s (list_dead n) w = s.k.queue.list_dead n w
answer s (provision j) w = s.k.provisioner.provision j w
answer s (deprovision j) w = s.k.provisioner.deprovision j w
answer s (register n h p) w = s.k.xds.register n h p w
answer s (unregister n h p) w = s.k.xds.unregister n h p w
answer s read_clock w = s.k.now w
answer s (random n) w = s.random_bytes n w
answer s (ended name) w = (s.context name).ended w
answer s (sleep name n) w = (tt, (s.context name).sleep n w)

-- Code that ends in an `A`: it is done, or makes a call and goes on by the reply.
pub data Code (A : Type 0) : Type 0 where
  done : A → Code A
  call : (c : Call) → (Reply c → Code A) → Code A

-- The code with no other process beside it.
abbrev pub perform : {W A : Type 0} → Services W → Code A → W → A × W
perform s (done a) w = (a, w)
perform s (call c rest) w = let (r, w) = answer s c w in perform s (rest r) w
