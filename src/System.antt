-- ===== src/System.antt =====
-- cmd/broker/main.go, cmd/worker/main.go: a broker and its workers, which share the store and the
-- queue. Each process may die after any of its calls, and another one goes on from there.
pub mod Accepting
pub mod Serving
pub mod Always
pub mod Progress
pub mod Memory
mod Tests
use infraforge.Base.{
  ℕ, zero, suc, Bool, true, false, List, [], ◌∷◌, ◌++◌, Text, ℤ, until, Mortal, contains,
  if◌then◌else◌, ◌==◌, ◌≡◌,
}
use infraforge.Model.{Status, pending, provisioning}
use infraforge.Api.{Request, post_provision, Response, Body, job_body, Server, new_id, serve}
use infraforge.Worker.{Worker}
use infraforge.Worker.Loop.{Context, Signal, run_loop, reclaim_rounds}
use infraforge.Worker.Crash.{mortal}
use infraforge.Worker.Crash.Batches.{mortal_context}

-- What differs from one worker to another.
pub record Setup : Type 0 where
  pub name : Text
  pub block_timeout : ℤ
  pub reclaim_min_idle : ℤ
  pub max_attempts : ℤ

-- The world after some calls, of a process that stops there.
abbrev pub left_by : {W A : Type 0} → A × (W × ℕ) → W
left_by (a, (w, n)) = w

-- The broker's server, on the store and the queue of the workers.
abbrev pub broker : {W : Type 0} → Worker W → (ℕ → W → List ℕ × W) → Server W
broker k random = record { store = k.store; queue = k.queue; now = k.now; random = random }

-- A broker that may die.
abbrev pub mortal_broker : {W : Type 0} → Worker W → (ℕ → W → List ℕ × W) → Server (Mortal W)
mortal_broker k random = broker (mortal k) (λ n. until (random n))

abbrev pub worker_of : {W : Type 0} → Worker W → Setup → Worker W
worker_of k s = record k {
  name = s.name;
  block_timeout = s.block_timeout;
  reclaim_min_idle = s.reclaim_min_idle;
  max_attempts = s.max_attempts;
}

-- The job that a response says is accepted.
abbrev pub created_in : ℕ → Body → List Text
created_in code (job_body job) = if code == 202 then job.id ∷ [] else []
created_in code _ = []

abbrev pub created_by : Request → Response → List Text
created_by (post_provision req) r = created_in r.code r.body
created_by _ r = []

-- What the clients have been told, if the broker lived to answer.
abbrev pub heard : ℕ → List Text → List Text → List Text
heard zero new old = old
heard (suc n) new old = new ++ old

-- A job that waits for a worker, of those that a client has been told is accepted, or that a worker
-- has begun with.
abbrev pub waits_for : List Text → Text → Status → Bool
waits_for accepted id provisioning = true
waits_for accepted id pending = contains accepted id
waits_for accepted id _ = false

-- The world, and the ids of the jobs whose acceptance was answered.
pub record State (W : Type 0) : Type 0 where
  pub world : W
  pub accepted : List Text

module _ {W : Type 0} (k : Worker W) (random : ℕ → W → List ℕ × W)
    (context : Text → Context W) where
  -- A request, with a broker that lives for at most `n` calls.
  abbrev pub served : State W → Request → ℕ → State W
  served a r n =
      let (x, (w, left)) = serve (mortal_broker k random) r (a.world, n) in
      record { world = w; accepted = heard left (created_by r x) a.accepted }

  -- A step of the system: a request is served, where the broker draws no id that it has given out, or
  -- a worker goes some rounds of one of its loops, for at most `n` calls.
  pub data Step (a : State W) : State W → Type 0 where
    serves :
        (r : Request) (n : ℕ)
        → contains a.accepted (new_id (broker k random) (k.now a.world).1).0 ≡ false
        → Step a (served a r n)
    consumes :
        (s : Setup) (rounds n : ℕ)
        → Step a (record a {
          world = left_by (
              run_loop
                (mortal_context (context s.name))
                (mortal (worker_of k s))
                rounds
                (a.world, n));
        })
    reclaims :
        (s : Setup) (wakes : List Signal) (n : ℕ)
        → Step a (record a {
          world = left_by (
              reclaim_rounds
                (mortal_context (context s.name))
                (mortal (worker_of k s))
                wakes
                (a.world, n));
        })

  -- What the system can come to from `a`.
  pub data Reach (a : State W) : State W → Type 0 where
    here : Reach a a
    then : {b c : State W} → Reach a b → Step b c → Reach a c
