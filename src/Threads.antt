-- ===== src/Threads.antt =====
-- cmd/broker/main.go, cmd/worker/main.go: any number of requests and workers at once, whose calls
-- interleave. Beside the world, a state says what the calls so far were about, which only the proofs
-- use.
pub mod Minds
pub mod Discipline
pub mod Obeying
pub mod Invariant
pub mod Effects
pub mod Apart
pub mod Always
pub mod Transitions
pub mod Records
mod Tests
use infraforge.Base.{
  ℕ, zero, suc, ◌≡◌, ◌≢◌, Bool, true, false, Text, List, [], ◌∷◌, ◌++◌, map, Among, Option, none,
  some, Result, ok, err, if◌then◌else◌, text_eq, contains, hex_encode,
}
use infraforge.Model.{Job, Status, pending, provisioning, ready, failed, deleting, deleted}
use infraforge.Queue.{Message, action_provision}
use infraforge.Api.{Request}
use infraforge.Worker.Loop.{Signal}
use infraforge.System.{Setup, waits_for}
use infraforge.Calls
use infraforge.Calls.{
  Call, put, get, enqueue, dequeue, reclaim, ack, random, Reply, Services, answer, Code, done, call,
}
use infraforge.Calls.Looping.{consuming, reclaiming}
use infraforge.Calls.Serving.{serving}

-- What a process has learnt: the messages that it was handed and has not acked, the id that it has
-- drawn for a job whose message is not sent, and the record that it has read or written last.
pub record Mind : Type 0 where
  pub hand : List Message
  pub drawn : List Text
  pub known : Option (Text × Result Job)

abbrev pub blank : Mind
blank = record { hand = []; drawn = []; known = none }

abbrev pub without : Message → List Message → List Message
without m [] = []
without m (n ∷ ns) = if text_eq n.id m.id then without m ns else n ∷ without m ns

-- A call about messages or ids starts afresh, and a message that is asked for anew is let go of.
abbrev pub learn : (c : Call) → Reply c → Mind → Mind
learn (get id) r m = record m { known = some (id, r) }
learn (put j) r m = record m { known = some (j.id, ok j) }
learn (ack msg) r m = record m { hand = without msg m.hand }
learn (dequeue _ _) (ok (some msg)) m = record m { hand = msg ∷ []; known = none }
learn (reclaim _ _ _) (ok msgs) m = record m { hand = msgs; known = none }
learn (random _) bytes m = record m { drawn = hex_encode bytes ∷ []; known = none }
learn (enqueue _ a) none m = if text_eq a action_provision then record m { drawn = [] } else m
learn _ _ m = m

-- The jobs that the process is about.
abbrev pub concerns : Mind → List Text
concerns m = map (λ (n : Message). n.job_id) m.hand ++ m.drawn

-- The ids of the jobs whose provision message is sent, and of those whose deletion has begun.
pub record Ledger : Type 0 where
  pub sent : List Text
  pub torn : List Text

abbrev pub torn_by : Status → Text → List Text
torn_by deleting id = id ∷ []
torn_by _ id = []

abbrev pub note : (c : Call) → Reply c → Ledger → Ledger
note (put j) r g = record g { torn = torn_by j.status j.id ++ g.torn }
note (enqueue id a) none g =
    if text_eq a action_provision then record g { sent = id ∷ g.sent } else g
note _ _ g = g

-- A job that waits for a worker, unless its deletion has begun.
abbrev pub waits_in : Ledger → Text → Status → Bool
waits_in g id s = if contains g.torn id then false else waits_for g.sent id s

-- Two processes with different messages, about different jobs but for those that are torn down.
pub record IsApartFrom (g : Ledger) (a b : Mind) : Type 0 where
  pub messages : (m n : Message) → Among a.hand m → Among b.hand n → m.id ≢ n.id
  pub jobs : (id : Text) → Among (concerns a) id → Among (concerns b) id → contains g.torn id ≡ true

-- The calls that hand over messages, or draw an id, put the process apart from the other one.
abbrev pub IsPutApart : (c : Call) → Reply c → Mind → Mind → Ledger → Type 0
IsPutApart (dequeue t b) r m n g = IsApartFrom g (learn (dequeue t b) r m) n
IsPutApart (reclaim t d i) r m n g = IsApartFrom g (learn (reclaim t d i) r m) n
IsPutApart (random i) r m n g = IsApartFrom g (learn (random i) r m) n
IsPutApart _ r m n g = Unit

-- An id that is drawn has not been given out.
abbrev pub IsNew : Ledger → (c : Call) → Reply c → Type 0
IsNew g (random n) bytes = contains g.sent (hex_encode bytes) ≡ false
IsNew g _ r = Unit

-- A request that a broker serves, or a worker's loop, for some rounds.
pub data Process : Type 0 where
  serves : Request → Process
  consumes : Setup → ℕ → Process
  reclaims : Setup → List Signal → Process

abbrev pub ignoring : {A : Type 0} → Code A → Code Unit
ignoring (done a) = done tt
ignoring (call c rest) = call c (λ r. ignoring (rest r))

abbrev pub code_of : Process → Code Unit
code_of (serves r) = ignoring (serving r)
code_of (consumes s rounds) = ignoring (consuming s rounds)
code_of (reclaims s wakes) = ignoring (reclaiming s wakes)

pub record Thread : Type 0 where
  pub mind : Mind
  pub rest : Code Unit

abbrev pub idle : Thread
idle = record { mind = blank; rest = done tt }

-- The family with `t` as the one of number `i`.
abbrev pub updated : (ℕ → Thread) → ℕ → Thread → ℕ → Thread
updated ts zero t zero = t
updated ts zero t (suc j) = ts (suc j)
updated ts (suc i) t zero = ts zero
updated ts (suc i) t (suc j) = updated (λ n. ts (suc n)) i t j

pub record State (W : Type 0) : Type 0 where
  pub world : W
  pub ledger : Ledger
  pub threads : ℕ → Thread

module _ {W : Type 0} (s : Services W) where
  -- A process starts in the place of another one, which has ended or has died.
  abbrev pub begun : ℕ → Process → State W → State W
  begun i p a = record a {
    threads = updated a.threads i (record { mind = blank; rest = code_of p });
  }

  abbrev pub answered : ℕ → (c : Call) → (Reply c → Code Unit) → State W → State W
  answered i c rest a =
      let (r, w) = answer s c a.world in
      let mind = learn c r (a.threads i).mind in
      record {
        world = w;
        ledger = note c r a.ledger;
        threads = updated a.threads i (record { mind = mind; rest = rest r });
      }

  abbrev pub advanced : ℕ → Code Unit → State W → State W
  advanced i (done u) a = a
  advanced i (call c rest) a = answered i c rest a

  -- The next call of the process `i`.
  abbrev pub moved : ℕ → State W → State W
  moved i a = advanced i (a.threads i).rest a

  abbrev pub IsExclusiveCall : ℕ → (c : Call) → Reply c → State W → Type 0
  IsExclusiveCall i c r a =
      ((j : ℕ) → i ≢ j → IsPutApart c r (a.threads i).mind (a.threads j).mind a.ledger)
      × IsNew a.ledger c r

  abbrev pub IsExclusiveNext : ℕ → Code Unit → State W → Type 0
  IsExclusiveNext i (done u) a = Unit
  IsExclusiveNext i (call c rest) a = IsExclusiveCall i c (answer s c a.world).0 a

  -- The next call of the process `i` hands over no message that another process has, or about a job
  -- that another one is about, and draws no id that was sent.
  abbrev pub IsExclusive : ℕ → State W → Type 0
  IsExclusive i a = IsExclusiveNext i (a.threads i).rest a

  -- Whether the process `i` may go on.
  abbrev pub Scheduler : Type 1
  Scheduler = ℕ → State W → Type 0

  -- Any process that may.
  abbrev pub anyone : Scheduler
  anyone i a = Unit

  pub data Step (may : Scheduler) (a : State W) : State W → Type 0 where
    begins : (i : ℕ) (p : Process) → Step may a (begun i p a)
    calls : (i : ℕ) → may i a → Step may a (moved i a)

  pub data Reach (may : Scheduler) (a : State W) : State W → Type 0 where
    here : Reach may a a
    then : {b c : State W} → Reach may a b → Step may b c → Reach may a c
