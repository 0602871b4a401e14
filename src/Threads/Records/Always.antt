-- ===== src/Threads/Records/Always.antt =====
-- internal/worker/worker.go, internal/api/api.go: the records in the store, whatever the processes do.
use infraforge.Base.{ℕ, ◌≡◌, inl, inr, refl, ◌∙◌, sym, subst, Text, [], ok, err}
use infraforge.Model.{Job}
use infraforge.Queue.{Message}
use infraforge.Worker.Crash.{IsQuiet, view}
use infraforge.Worker.Crash.Rules.{written}
use infraforge.System.Always.{IsSoundSystem}
use infraforge.Calls.{
  Call, put, get, list, enqueue, dequeue, reclaim, ack, dead_letter, list_dead, provision,
  deprovision, register, unregister, read_clock, random, ended, sleep, Reply, Services, answer,
  Code, done, call,
}
use infraforge.Threads.{
  Process, serves, consumes, reclaims, ignoring, code_of, Thread, State, begun, advanced, Scheduler,
  anyone, Step, begins, calls, Reach, here, then,
}
use infraforge.Threads.Invariant.{duty}
use infraforge.Threads.Always.{at_updated, IsAtRest}
use infraforge.Threads.Records.{IsWellFormed, IsWellWritten, IsWellRead, WritesWell}
use infraforge.Threads.Records.Looping.{consuming-WritesWell, reclaiming-WritesWell}
use infraforge.Threads.Records.Serving.{serving-WritesWell}

ignoring-WritesWell : {A : Type 0} (p : Code A) → WritesWell p → WritesWell (ignoring p)
ignoring-WritesWell (Code.done a) h = tt
ignoring-WritesWell (call c rest) h = (h.0, λ r well. ignoring-WritesWell (rest r) (h.1 r well))

code_of-WritesWell : (p : Process) → WritesWell (code_of p)
code_of-WritesWell (serves r) = ignoring-WritesWell _ (serving-WritesWell r)
code_of-WritesWell (consumes s rounds) = ignoring-WritesWell _ (consuming-WritesWell s rounds)
code_of-WritesWell (reclaims s wakes) = ignoring-WritesWell _ (reclaiming-WritesWell s wakes)

module _ {W : Type 0} (s : Services W) (Held : Message → W → Type 0)
    (sound : IsSoundSystem s.k s.random_bytes s.context Held) where
  open sound use {worker}

  -- Every record in the store is well-formed.
  pub record IsWellKept (w : W) : Type 0 where
    pub formed : (id : Text) (j : Job) → view s.k Held id w ≡ ok j → IsWellFormed j

  unchanged :
      (w w' : W)
      → ((id : Text) → view s.k Held id w' ≡ view s.k Held id w)
      → IsWellKept w
      → IsWellKept w'
  unchanged w w' same v = record { formed = λ id j h. v.formed id j (sym (same id) ∙ h) }

  quiet :
      {X : Type 0} (f : W → X × W) (w : W) → IsQuiet s.k Held f → IsWellKept w → IsWellKept (f w).1
  quiet f w q v = unchanged w (f w).1 (q w).records v

  answer-IsWellKept :
      (c : Call) (w : W) → IsWellWritten c → IsWellKept w → IsWellKept (answer s c w).1
  answer-IsWellKept (put j) w well v = record {
    formed = λ id i h.
        elim (written (duty s Held sound (record { sent = []; torn = [] })) j w id i h) [
          | inl (same, _) ↦ subst IsWellFormed (sym same) well
          | inr (_, before) ↦ v.formed id i before
        ];
  }
  answer-IsWellKept (get id) w well v = quiet (s.k.store.get id) w (worker.get_quiet id) v
  answer-IsWellKept list w well v = quiet s.k.store.list w worker.list_quiet v
  answer-IsWellKept (enqueue i a) w well v = unchanged w _ (λ id. worker.get-enqueue id i a w) v
  answer-IsWellKept (dequeue t b) w well v = unchanged w _ (λ id. worker.get-dequeue id t b w) v
  answer-IsWellKept (reclaim t i n) w well v = unchanged w _ (λ id. worker.get-reclaim id t i n w) v
  answer-IsWellKept (ack m) w well v = unchanged w _ (λ id. worker.get-ack id m w) v
  answer-IsWellKept (dead_letter m d n) w well v =
      unchanged w _ (λ id. worker.get-dead_letter id m d n w) v
  answer-IsWellKept (list_dead n) w well v = unchanged w _ (λ id. worker.get-list_dead id n w) v
  answer-IsWellKept (provision j) w well v =
      quiet (s.k.provisioner.provision j) w (worker.provision_quiet j) v
  answer-IsWellKept (deprovision j) w well v =
      quiet (s.k.provisioner.deprovision j) w (worker.deprovision_quiet j) v
  answer-IsWellKept (register n h p) w well v =
      quiet (s.k.xds.register n h p) w (worker.register_quiet n h p) v
  answer-IsWellKept (unregister n h p) w well v =
      quiet (s.k.xds.unregister n h p) w (worker.unregister_quiet n h p) v
  answer-IsWellKept read_clock w well v = quiet s.k.now w worker.now_quiet v
  answer-IsWellKept (random n) w well v = quiet (s.random_bytes n) w (sound.random_quiet n) v
  answer-IsWellKept (ended t) w well v =
      quiet (s.context t).ended w (sound.context_quiet t).ended_quiet v
  answer-IsWellKept (sleep t n) w well v =
      quiet (answer s (sleep t n)) w ((sound.context_quiet t).sleep_quiet n) v

  well_read :
      (c : Call) (r : Reply c) (w : W) → (answer s c w).0 ≡ r → IsWellKept w → IsWellRead c r
  well_read (get id) (ok j) w is v = v.formed id j is
  well_read (get id) (err e) w is v = tt
  well_read _ r w is v = tt

  -- The records are well-formed, and what is left to be done writes such records.
  record IsTidy (a : State W) : Type 0 where
    kept : IsWellKept a.world
    writes : (i : ℕ) → WritesWell (a.threads i).rest

  begun-IsTidy : (a : State W) (i : ℕ) (p : Process) → IsTidy a → IsTidy (begun s i p a)
  begun-IsTidy a i p v = record {
    kept = v.kept;
    writes = λ j.
        at_updated (λ (t : Thread). WritesWell t.rest) a.threads i _ j (λ _. code_of-WritesWell p)
          (λ _. v.writes j);
  }

  advanced-IsTidy :
      (a : State W) (i : ℕ) (p : Code Unit) → WritesWell p → IsTidy a → IsTidy (advanced s i p a)
  advanced-IsTidy a i (done u) well v = v
  advanced-IsTidy a i (call c rest) well v = record {
    kept = answer-IsWellKept c a.world well.0 v.kept;
    writes = λ j.
        at_updated (λ (t : Thread). WritesWell t.rest) a.threads i _ j
          (λ _.
            well.1 (answer s c a.world).0 (well_read c (answer s c a.world).0 a.world refl v.kept))
          (λ _. v.writes j);
  }

  step-IsTidy : (may : Scheduler s) (a b : State W) → Step s may a b → IsTidy a → IsTidy b
  step-IsTidy may a _ (begins i p) v = begun-IsTidy a i p v
  step-IsTidy may a _ (calls i _) v = advanced-IsTidy a i (a.threads i).rest (v.writes i) v

  Reach-IsTidy : (may : Scheduler s) (a b : State W) → Reach s may a b → IsTidy a → IsTidy b
  Reach-IsTidy may a _ here v = v
  Reach-IsTidy may a b (then {b = c} before step) v =
      step-IsTidy may c b step (Reach-IsTidy may a c before v)

  -- However the calls of requests and workers interleave, whichever of them die, and even if several
  -- workers have one message at hand: if at first no process runs and every record in the store is
  -- well-formed, then every record always is. It has a service's name and a resource that can be
  -- provisioned; it has a connection and an HTTP endpoint if it is ready, neither if it is deleted,
  -- and neither and no attempts if it is pending. Here the store keeps what it is given and no write
  -- fails, and the other services touch no job.
  pub Reach-IsWellKept :
      (a b : State W)
      → Reach s (anyone s) a b
      → IsAtRest s Held sound a
      → IsWellKept a.world
      → IsWellKept b.world
  Reach-IsWellKept a b r rest v =
      (Reach-IsTidy (anyone s) a b r (record {
        kept = v;
        writes = λ i. subst (λ (t : Thread). WritesWell t.rest) (sym (rest i)) tt;
      })).kept
