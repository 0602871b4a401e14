-- ===== src/Threads/Transitions.antt =====
-- internal/worker/worker.go, internal/api/api.go: how the status of a job changes while calls
-- interleave.
use infraforge.Base.{ℕ, ◌≡◌, ◌⊎◌, refl, true, ok, Text, contains}
use infraforge.Queue.{Message}
use infraforge.Model.{Job}
use infraforge.Worker.Crash.{view}
use infraforge.Worker.Protocol.{allowed}
use infraforge.System.Always.{IsSoundSystem}
use infraforge.Calls.{Services, answer, Code, done, call}
use infraforge.Threads.{State, advanced, IsExclusiveNext, IsExclusive, Step, begins, calls, Reach}
use infraforge.Threads.Discipline.{Obeys}
use infraforge.Threads.Invariant.{Follows, same-Follows, IsKept, IsOrderly}
use infraforge.Threads.Effects.Answering.{answer-IsSafeCall}
use infraforge.Threads.Always.{IsAtRest, Reach-IsOrderly, rest-IsOrderly}

module _ {W : Type 0} (s : Services W) (Held : Message → W → Type 0)
    (sound : IsSoundSystem s.k s.random_bytes s.context Held) where
  advanced-Follows :
      (a : State W) (i : ℕ) (p : Code Unit)
      → IsOrderly s Held sound a
      → Obeys (a.threads i).mind p
      → IsExclusiveNext s i p a
      → Follows s Held sound a.ledger a.world (advanced s i p a).ledger (advanced s i p a).world
  advanced-Follows a i (done u) o obeys exclusive =
      same-Follows s Held sound a.ledger a.world a.ledger a.world (λ id. refl)
  advanced-Follows a i (call c rest) o obeys (_, new) =
      (answer-IsSafeCall s Held sound (a.threads i).mind a.ledger a.world o.kept (o.fits i) c
        (answer s c a.world).0 obeys.0 new refl).follows

  step-Follows :
      (a b : State W)
      → Step s (IsExclusive s) a b
      → IsOrderly s Held sound a
      → Follows s Held sound a.ledger a.world b.ledger b.world
  step-Follows a _ (begins i p) o =
      same-Follows s Held sound a.ledger a.world a.ledger a.world (λ id. refl)
  step-Follows a _ (calls i exclusive) o =
      advanced-Follows a i (a.threads i).rest o (o.obeys i) exclusive

  -- While the calls of requests and of workers' loops interleave, a call keeps the record of a job
  -- whose provision message is sent, and leaves its status or changes it as `allowed` says, until the
  -- deletion of the job has begun: a ready job stays ready or becomes deleted, a deleted one stays
  -- deleted, and a job becomes ready only from provisioning. At first no process runs, records are
  -- filed under their jobs' ids, and every job that waits has a message; no call hands over a message
  -- that another process has at hand, or one about a job that another process is about, unless that
  -- job's deletion has begun; and an id that is drawn was not given out, and no other process is about
  -- it. The store keeps what it is given and no write fails, the queue holds a message from its
  -- enqueueing to its ack, and the other services, the clock and the contexts touch neither jobs nor
  -- messages.
  pub step-IsAllowed :
      (a b c : State W) (id : Text) (i : Job)
      → Reach s (IsExclusive s) a b
      → IsAtRest s Held sound a
      → IsKept s Held sound a.ledger a.world
      → Step s (IsExclusive s) b c
      → contains b.ledger.sent id ≡ true
      → view s.k Held id b.world ≡ ok i
      → (contains c.ledger.torn id ≡ true)
        ⊎ ((j : Job) × (view s.k Held id c.world ≡ ok j) × (allowed i.status j.status ≡ true))
  step-IsAllowed a b c id i r rest v step sent found =
      step-Follows b c step
        (Reach-IsOrderly s Held sound a b r (rest-IsOrderly s Held sound a rest v)) id i sent found
