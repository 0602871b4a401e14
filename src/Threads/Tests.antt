-- ===== src/Threads/Tests.antt =====
-- cmd/broker/main.go, cmd/worker/main.go: requests and a worker in memory, whose calls interleave.
use infraforge.Base.{
  contains, ◌⊎◌, none, ok, pos, true, ltb_ℤ, incr, ℕ, zero, suc, ◌≡◌, ◌≢◌, refl, sym, subst, ◌∙◌,
  arith, inl, inr, false, Text, txt, [], ◌∷◌, Among, text_eq, text_eq_iff, hex_encode,
}
use infraforge.Base.Dict
use infraforge.Model.{Job, pending, resource_postgres}
use infraforge.Api.{or_postgres, write_json, write_error}
use infraforge.Queue.{action_provision, action_deprovision}
use infraforge.Queue.Redis
use infraforge.Queue.Redis.{stream_key}
use infraforge.Store.Mem
use infraforge.Store.Mem.{new_mem}
use infraforge.System.Memory.{World, worker, Held, random, context, system-IsSound, setup, request}
use infraforge.System.Memory
use infraforge.Calls.{Services}
use infraforge.Calls.Handling.{handling, dispatching, provisioning_by, starting, attempting, saving}
use infraforge.Calls.Looping.{consuming}
use infraforge.Calls.Serving.{serving, validating, creating, recording, handing_over}
use infraforge.Threads.{
  Mind, blank, Ledger, IsApartFrom, code_of, serves, consumes, idle, State, begun, moved,
  IsExclusive, Step, Reach, here, then, begins, calls,
}
use infraforge.Threads.Discipline.{Obeys}
use infraforge.Threads.Obeying.Processes.{code_of-Obeys}
use infraforge.Threads.Invariant.{IsKept}
use infraforge.Worker.Protocol.{allowed}
use infraforge.Threads.Always.{Reach-IsKept}
use infraforge.Threads.Transitions.{step-IsAllowed}

abbrev services : Services World
services = record { k = worker; random_bytes = random; context = context }

abbrev start : State World
start = record {
  world = Memory.start.world;
  ledger = record { sent = []; torn = [] };
  threads = λ i. idle;
}

-- A request is served while a worker begins, up to the sending of the message.
abbrev asked : State World
asked = begun services 1 (consumes (setup (txt "w-1")) 1) (begun services 0 (serves request) start)

abbrev started : State World
started = moved services 1 (moved services 0 asked)

abbrev sent : State World
sent = moved services 0 (moved services 0 (moved services 0 started))

-- The worker has the message, and another request is served in between.
abbrev taken : State World
taken = moved services 1 sent

abbrev asked_again : State World
asked_again = moved services 1 (moved services 0 (begun services 0 (serves request) taken))

abbrev recorded : State World
recorded = moved services 0 (moved services 1 (moved services 0 asked_again))

abbrev marked : State World
marked = moved services 1 recorded

-- The process `i` has nothing new in common with the others, after its next call.
abbrev GoesAlone : ℕ → State World → Type 0
GoesAlone i a =
    (j : ℕ) → i ≢ j → IsApartFrom a.ledger ((moved services i a).threads i).mind (a.threads j).mind

alone : (g : Ledger) (m n : Mind) → n.hand ≡ [] → n.drawn ≡ [] → IsApartFrom g m n
alone g m n nothing unborn = record {
  messages = λ x y a b. absurd (subst (λ l. Among l y) nothing b);
  jobs = λ id a b. absurd (ground (arith, nothing, unborn, b));
}

distinct : (x y : Text) → text_eq x y ≡ false → x ≢ y
distinct x y other same = ground (arith, other, same, text_eq_iff x y)

first_draw : GoesAlone 0 started
unfolding consuming handling dispatching provisioning_by starting attempting saving serving
    validating creating recording handing_over write_json write_error txt Mem.put Mem.get new_mem
    Redis.enqueue Redis.dequeue text_eq hex_encode stream_key resource_postgres action_provision
    or_postgres Dict.lookup Dict.insert
first_draw zero other = absurd (other refl)
first_draw (suc zero) other = alone _ _ _ refl refl
first_draw (suc (suc j)) other = alone _ _ _ refl refl

delivery : GoesAlone 1 sent
unfolding consuming handling dispatching provisioning_by starting attempting saving serving
    validating creating recording handing_over write_json write_error txt Mem.put Mem.get new_mem
    Redis.enqueue Redis.dequeue text_eq hex_encode stream_key resource_postgres action_provision
    or_postgres Dict.lookup Dict.insert
delivery zero other = alone _ _ _ refl refl
delivery (suc zero) other = absurd (other refl)
delivery (suc (suc j)) other = alone _ _ _ refl refl

-- The broker draws another id than that of the job which the worker is about.
second_draw : GoesAlone 0 asked_again
unfolding consuming handling dispatching provisioning_by starting attempting saving serving
    validating creating recording handing_over write_json write_error txt Mem.put Mem.get new_mem
    Redis.enqueue Redis.dequeue text_eq hex_encode stream_key resource_postgres action_provision
    or_postgres Dict.lookup Dict.insert
second_draw zero other = absurd (other refl)
second_draw (suc zero) other = record {
  messages = λ m n a b. absurd a;
  jobs = λ id a b. elim a [
    | inl mine ↦ elim b [
      | inl its ↦ absurd (distinct _ _ refl (sym mine ∙ its))
      | inr none_left ↦ absurd none_left
    ]
    | inr none_left ↦ absurd none_left
  ];
}
second_draw (suc (suc j)) other = alone _ _ _ refl refl

early_history : Reach services (IsExclusive services) start recorded
unfolding consuming handling dispatching provisioning_by starting attempting saving serving
    validating creating recording handing_over write_json write_error txt Mem.put Mem.get new_mem
    Redis.enqueue Redis.dequeue text_eq hex_encode stream_key resource_postgres action_provision
    or_postgres Dict.lookup Dict.insert action_deprovision ltb_ℤ incr
early_history =
    then
      (then
        (then
          (then
            (then
              (then
                (then
                  (then
                    (then
                      (then
                        (then
                          (then
                            (then (then here (begins 0 (serves request)))
                              (begins 1 (consumes (setup (txt "w-1")) 1)))
                            (calls 0 ((λ j _. tt), tt)))
                          (calls 1 ((λ j _. tt), tt)))
                        (calls 0 (first_draw, refl)))
                      (calls 0 ((λ j _. tt), tt)))
                    (calls 0 ((λ j _. tt), tt)))
                  (calls 1 (delivery, tt)))
                (begins 0 (serves request)))
              (calls 0 ((λ j _. tt), tt)))
            (calls 1 ((λ j _. tt), tt)))
          (calls 0 (second_draw, refl)))
        (calls 1 ((λ j _. tt), tt)))
      (calls 0 ((λ j _. tt), tt))

-- The worker marks the job.
marking : Step services (IsExclusive services) recorded marked
unfolding consuming handling dispatching provisioning_by starting attempting saving serving
    validating creating recording handing_over write_json write_error txt Mem.put Mem.get new_mem
    Redis.enqueue Redis.dequeue text_eq hex_encode stream_key resource_postgres action_provision
    or_postgres Dict.lookup Dict.insert action_deprovision ltb_ℤ incr
marking = calls 1 ((λ j _. tt), tt)

history : Reach services (IsExclusive services) start marked
history = then early_history marking

start-IsKept : IsKept services Held system-IsSound start.ledger start.world
unfolding Mem.get new_mem Dict.lookup
start-IsKept = record {
  own = λ id j h. absurd (ground (arith, h));
  covered = λ id j h n. absurd (ground (arith, h));
}

Reach-IsKept_example : IsKept services Held system-IsSound marked.ledger marked.world
Reach-IsKept_example =
    Reach-IsKept services Held system-IsSound start marked history (λ i. refl) start-IsKept

code_of-Obeys_example : Obeys blank (code_of (consumes (setup (txt "w-1")) 2))
code_of-Obeys_example = code_of-Obeys (consumes (setup (txt "w-1")) 2) blank

abbrev first_job : Job
first_job = record {
  id = hex_encode (0 ∷ 2 ∷ 3 ∷ 4 ∷ 5 ∷ 6 ∷ 7 ∷ 8 ∷ []);
  service_name = txt "checkout";
  resource = resource_postgres;
  status = pending;
  detail = [];
  attempts = pos 0;
  connection = none;
  http = none;
  created_at = 5;
  updated_at = 5;
}

first_found : (worker.store.get first_job.id recorded.world).0 ≡ ok first_job
unfolding consuming handling dispatching provisioning_by starting attempting saving serving
    validating creating recording handing_over write_json write_error txt Mem.put Mem.get new_mem
    Redis.enqueue Redis.dequeue text_eq hex_encode stream_key resource_postgres action_provision
    or_postgres Dict.lookup Dict.insert action_deprovision ltb_ℤ incr
first_found = refl

first_sent : contains recorded.ledger.sent first_job.id ≡ true
unfolding consuming handling dispatching provisioning_by starting attempting saving serving
    validating creating recording handing_over write_json write_error txt Mem.put Mem.get new_mem
    Redis.enqueue Redis.dequeue text_eq hex_encode stream_key resource_postgres action_provision
    or_postgres Dict.lookup Dict.insert action_deprovision ltb_ℤ incr
first_sent = refl

step-IsAllowed_example :
    (contains marked.ledger.torn first_job.id ≡ true)
    ⊎ ((j : Job) × ((worker.store.get first_job.id marked.world).0 ≡ ok j)
        × (allowed pending j.status ≡ true))
step-IsAllowed_example =
    step-IsAllowed services Held system-IsSound start recorded marked first_job.id first_job
      early_history (λ i. refl) start-IsKept marking first_sent first_found
