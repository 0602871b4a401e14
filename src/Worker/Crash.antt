-- ===== src/Worker/Crash.antt =====
-- internal/worker/worker.go: a worker that may die after any call, and what the rest of the system
-- can rely on.
pub mod Rules
pub mod Stages
pub mod Saves
pub mod Provisioning
pub mod Removing
pub mod Handling
pub mod Batches
pub mod Loops
use infraforge.Base.{
  ℕ, ◌≡◌, ◌≢◌, Bool, true, false, Text, ℤ, Option, none, some, Result, ok, err, GoError, Mortal,
  until, text_eq,
}
use infraforge.Model.{Job, Status, pending, provisioning, ready, failed, deleting, deleted}
use infraforge.Store.{IsLawful}
use infraforge.Queue.{Message, action_deprovision}
use infraforge.Queue.Group.{IsGroup}
use infraforge.Worker.{Worker}

-- The worker with its calls counted down.
abbrev pub mortal : {W : Type 0} → Worker W → Worker (Mortal W)
mortal k = record {
  name = k.name;
  store = record {
    put = λ j. until (k.store.put j);
    get = λ id. until (k.store.get id);
    list = until k.store.list;
  };
  queue = record {
    enqueue = λ id a. until (k.queue.enqueue id a);
    dequeue = λ c b. until (k.queue.dequeue c b);
    reclaim = λ c i n. until (k.queue.reclaim c i n);
    ack = λ m. until (k.queue.ack m);
    dead_letter = λ m d n. until (k.queue.dead_letter m d n);
    list_dead = λ n. until (k.queue.list_dead n);
  };
  provisioner = record {
    provision = λ j. until (k.provisioner.provision j);
    deprovision = λ j. until (k.provisioner.deprovision j);
  };
  xds = record {
    register = λ s h p. until (k.xds.register s h p);
    unregister = λ s h p. until (k.xds.unregister s h p);
  };
  block_timeout = k.block_timeout;
  reclaim_every = k.reclaim_every;
  reclaim_min_idle = k.reclaim_min_idle;
  max_attempts = k.max_attempts;
  now = until k.now;
}

-- The worker handles the message as a provision.
abbrev pub IsProvision : Message → Type 0
IsProvision m = text_eq m.action action_deprovision ≡ false

-- A job of that id and status waits for a worker; one that is done with does not.
pub record IsWaiting (waits : Text → Status → Bool) : Type 0 where
  pub at_ready : (id : Text) → waits id ready ≡ false
  pub at_failed : (id : Text) → waits id failed ≡ false
  pub at_deleting : (id : Text) → waits id deleting ≡ false
  pub at_deleted : (id : Text) → waits id deleted ≡ false

module _ {W : Type 0} (k : Worker W) (Held : Message → W → Type 0) where
  abbrev pub view : Text → W → Result Job
  view id w = (k.store.get id w).0

  -- The call changes no job record and lets go of no message.
  abbrev pub IsQuiet : {A : Type 0} → (W → A × W) → Type 0
  IsQuiet f = (w : W) → record {
    records : (id : Text) → view id (f w).1 ≡ view id w;
    messages : (m : Message) → Held m w → Held m (f w).1;
  }

  -- A store that keeps what it is given, a stream with a group, and other services that do not touch
  -- them.
  pub record IsSound : Type 0 where
    pub lawful : IsLawful k.store
    pub put_ok : (j : Job) (w : W) → (k.store.put j w).0 ≡ none
    pub group : IsGroup k.queue Held
    pub Held-put : (m : Message) (j : Job) (w : W) → Held m w → Held m (k.store.put j w).1
    pub get_quiet : (id : Text) → IsQuiet (k.store.get id)
    pub list_quiet : IsQuiet k.store.list
    pub now_quiet : IsQuiet k.now
    pub provision_quiet : (j : Job) → IsQuiet (k.provisioner.provision j)
    pub deprovision_quiet : (j : Job) → IsQuiet (k.provisioner.deprovision j)
    pub register_quiet : (s h : Text) (p : ℤ) → IsQuiet (k.xds.register s h p)
    pub unregister_quiet : (s h : Text) (p : ℤ) → IsQuiet (k.xds.unregister s h p)
    pub get-enqueue :
        (id i : Text) (a : Text) (w : W) → view id (k.queue.enqueue i a w).1 ≡ view id w
    pub get-dequeue : (id c : Text) (b : ℤ) (w : W) → view id (k.queue.dequeue c b w).1 ≡ view id w
    pub get-reclaim :
        (id c : Text) (i n : ℤ) (w : W) → view id (k.queue.reclaim c i n w).1 ≡ view id w
    pub get-ack : (id : Text) (m : Message) (w : W) → view id (k.queue.ack m w).1 ≡ view id w
    pub get-dead_letter :
        (id : Text) (m : Message) (d : Text) (n : ℤ) (w : W)
        → view id (k.queue.dead_letter m d n w).1 ≡ view id w
    pub get-list_dead : (id : Text) (n : ℤ) (w : W) → view id (k.queue.list_dead n w).1 ≡ view id w

  -- A message for the job, to be handled as a provision.
  abbrev pub Covers : Text → W → Type 0
  Covers id w = (m : Message) × Held m w × (m.job_id ≡ id) × IsProvision m

  -- Records are filed under their own ids, and every job that waits for a worker has a message.
  pub record NoOrphan (waits : Text → Status → Bool) (w : W) : Type 0 where
    pub own : (id : Text) (j : Job) → view id w ≡ ok j → j.id ≡ id
    pub covered : (id : Text) (j : Job) → view id w ≡ ok j → waits id j.status ≡ true → Covers id w

-- A worker, the messages that are held, and which jobs wait.
pub record Duty (W : Type 0) : Type 1 where
  pub k : Worker W
  pub Held : Message → W → Type 0
  pub sound : IsSound k Held
  pub waits : Text → Status → Bool
  pub waiting : IsWaiting waits
