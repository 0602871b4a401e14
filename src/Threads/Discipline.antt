-- ===== src/Threads/Discipline.antt =====
-- internal/worker/worker.go, internal/api/api.go: which calls a process may make, by what it has
-- learnt, so that other processes need not know what it does.
use infraforge.Base.{◌≡◌, Bool, true, false, Among, some, Result, ok, err, text_eq}
use infraforge.Model.{Job, Status, pending, provisioning, deleting}
use infraforge.Queue.{Message, action_provision}
use infraforge.Queue.Group.{IsApart}
use infraforge.Worker.Crash.{IsProvision}
use infraforge.Worker.Protocol.{allowed}
use infraforge.Calls.{Call, put, get, enqueue, reclaim, ack, Reply, Code, done, call}
use infraforge.Threads.{Mind, concerns, learn}

-- A job in that status is to be handled by a worker.
abbrev pub is_open : Status → Bool
is_open pending = true
is_open provisioning = true
is_open _ = false

-- The record that the process knows changes as the worker's status changes are allowed to.
abbrev pub Changes : Mind → Job → Type 0
Changes m j = (i : Job) × (m.known ≡ some (j.id, ok i)) × (allowed i.status j.status ≡ true)

-- The records that a process may write.
pub data Writes (m : Mind) (j : Job) : Type 0 where
  -- a job whose deletion begins
  tears : j.status ≡ deleting → Writes m j
  -- a job that is done with
  closes : Among (concerns m) j.id → is_open j.status ≡ false → Changes m j → Writes m j
  -- a job whose provision message is at hand
  works :
      (n : Message) → Among m.hand n → n.job_id ≡ j.id → IsProvision n → Changes m j → Writes m j
  -- a job of a new id
  records : Among m.drawn j.id → j.status ≡ pending → Writes m j
  -- the record that is there, with its status
  rewrites :
      Among (concerns m) j.id
      → (i : Job) → m.known ≡ some (j.id, ok i)
      → i.status ≡ j.status
      → Writes m j

abbrev pub IsClosed : Result Job → Type 0
IsClosed (err e) = Unit
IsClosed (ok j) = is_open j.status ≡ false

-- A provision message may be acked if its job is known to be done with.
pub record Acks (m : Mind) (msg : Message) : Type 0 where
  pub at_hand : Among m.hand msg
  pub closed : IsProvision msg → (r : Result Job) × (m.known ≡ some (msg.job_id, r)) × IsClosed r

abbrev pub Permits : Mind → Call → Type 0
Permits m (put j) = Writes m j
Permits m (ack msg) = Acks m msg
Permits m (enqueue id a) = text_eq a action_provision ≡ true → Among m.drawn id
Permits m _ = Unit

-- What a store and a queue reply.
abbrev pub IsReply : (c : Call) → Reply c → Type 0
IsReply (get id) (ok j) = j.id ≡ id
IsReply (reclaim _ _ _) (ok msgs) = IsApart msgs
IsReply _ r = Unit

-- Every call that the code makes is permitted, whatever the replies are.
abbrev pub Obeys : {A : Type 0} → Mind → Code A → Type 0
Obeys m (done a) = Unit
Obeys m (call c rest) = Permits m c × ((r : Reply c) → IsReply c r → Obeys (learn c r m) (rest r))
