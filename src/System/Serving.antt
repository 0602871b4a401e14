-- ===== src/System/Serving.antt =====
-- internal/api/api.go: each request that a broker serves that may die.
use infraforge.Base.{
  ℕ, ℤ, ◌≡◌, refl, subst, ◌∙◌, false, Text, List, [], Option, none, some, GoError, Result, ok, err,
  All, arith, Mortal, until, until-result, Safe-start, contains,
}
use infraforge.Model.{Job, Status, pending, provisioning, ready, failed, deleting, deleted}
use infraforge.Queue.{Message, action_deprovision}
use infraforge.Api.{
  Request, get_healthz, get_list, post_provision, get_status, delete_provision, get_dead, Response,
  serve, handle_status, handle_list, handle_list_dead, handle_deprovision, begin_teardown,
  teardown_by, limit_of, new_id,
}
use infraforge.Worker.{Worker}
use infraforge.Worker.Crash.{IsQuiet, IsSound, Covers, NoOrphan}
use infraforge.System.{broker, mortal_broker, created_by, waits_for}
use infraforge.System.Accepting.{Lively, hush, put_idle, enqueue_quiet, handle_provision-Told}

module _ {W : Type 0} (k : Worker W) (Held : Message → W → Type 0) (sound : IsSound k Held)
    (random : ℕ → W → List ℕ × W) (random_quiet : (n : ℕ) → IsQuiet k Held (random n))
    (accepted : List Text) where
  abbrev Keeps : Mortal W → Type 0
  Keeps p = Lively k Held sound random random_quiet accepted (λ w. Unit) p

  calm :
      {X : Type 0} (f : W → X × W) (p : Mortal W) → IsQuiet k Held f → Keeps p → Keeps (until f p).1
  calm f p q h = hush k Held sound random random_quiet accepted f p q h

  begin_teardown-Keeps :
      (job : Job) (p : Mortal W) → Keeps p → Keeps (begin_teardown (mortal_broker k random) job p).1
  unfolding begin_teardown
  begin_teardown-Keeps job p h = split (until enqueue marked).0 refl
    where
      read : Mortal W
      read = (until k.now p).1

      job' : Job
      job' = record job { status = deleting; detail = []; updated_at = (until k.now p).0 }

      marked : Mortal W
      marked = (until (k.store.put job') read).1

      enqueue : W → Option GoError × W
      enqueue = k.queue.enqueue job.id action_deprovision

      sent : Keeps (until enqueue marked).1
      sent =
          calm enqueue marked
            (enqueue_quiet k Held sound random random_quiet accepted job.id action_deprovision)
            (put_idle k Held sound random random_quiet accepted job' read refl
              (calm k.now p sound.now_quiet h))

      split :
          (r : Option GoError)
          → (until enqueue marked).0 ≡ r
          → Keeps (begin_teardown (mortal_broker k random) job p).1
      split none e =
          rw (until-result (k.store.put job') read ∙ sound.put_ok job' read.0, begin_teardown)
            (rw e sent)
      split (some x) e =
          rw (until-result (k.store.put job') read ∙ sound.put_ok job' read.0, begin_teardown)
            (rw e sent)

  teardown_by-Keeps :
      (s : Status) (job : Job) (p : Mortal W)
      → Keeps p
      → Keeps (teardown_by (mortal_broker k random) s job p).1
  unfolding teardown_by
  teardown_by-Keeps deleted job p h = h
  teardown_by-Keeps deleting job p h = h
  teardown_by-Keeps pending job p h = begin_teardown-Keeps job p h
  teardown_by-Keeps provisioning job p h = begin_teardown-Keeps job p h
  teardown_by-Keeps ready job p h = begin_teardown-Keeps job p h
  teardown_by-Keeps failed job p h = begin_teardown-Keeps job p h

  handle_deprovision-Keeps :
      (id : Text) (p : Mortal W)
      → Keeps p
      → Keeps (handle_deprovision (mortal_broker k random) id p).1
  unfolding handle_deprovision
  handle_deprovision-Keeps id p h = split (until (k.store.get id) p).0 refl
    where
      read : Keeps (until (k.store.get id) p).1
      read = calm (k.store.get id) p (sound.get_quiet id) h

      split :
          (r : Result Job)
          → (until (k.store.get id) p).0 ≡ r
          → Keeps (handle_deprovision (mortal_broker k random) id p).1
      split (err e) eq = rw (eq, handle_deprovision) read
      split (ok job) eq =
          rw (eq, handle_deprovision)
            (teardown_by-Keeps job.status job (until (k.store.get id) p).1 read)

  list_dead_quiet : (n : ℤ) → IsQuiet k Held (k.queue.list_dead n)
  list_dead_quiet n w = record {
    records = λ id. sound.get-list_dead id n w;
    messages = λ m h. sound.group.Held-list_dead m n w h;
  }

  status_world :
      (id : Text) (p : Mortal W)
      → (until (k.store.get id) p).1 ≡ (handle_status (mortal_broker k random) id p).1
  unfolding handle_status
  status_world id p = ground arith

  list_world :
      (p : Mortal W) → (until k.store.list p).1 ≡ (handle_list (mortal_broker k random) p).1
  unfolding handle_list
  list_world p = ground arith

  dead_world :
      (limit : Text) (p : Mortal W)
      → (until (k.queue.list_dead (limit_of limit)) p).1
        ≡ (handle_list_dead (mortal_broker k random) limit p).1
  unfolding handle_list_dead
  dead_world limit p = ground arith

  -- The jobs that the answer says are accepted have their messages.
  abbrev pub Answered : Request → Response → W → Type 0
  Answered r x w = All (λ id. Covers k Held id w) (created_by r x)

  pub serve-Answered :
      (r : Request) (w : W) (n : ℕ)
      → contains accepted (new_id (broker k random) (k.now w).1).0 ≡ false
      → NoOrphan k Held (waits_for accepted) w
      → let (x, p) = serve (mortal_broker k random) r (w, n) in
        Lively k Held sound random random_quiet accepted (Answered r x) p
  unfolding serve
  serve-Answered r w n fresh v = by_request r
    where
      start : Keeps (w, n)
      start = Safe-start (NoOrphan k Held (waits_for accepted)) (λ w. Unit) w n v tt

      by_request :
          (r : Request)
          → let (x, p) = serve (mortal_broker k random) r (w, n) in
            Lively k Held sound random random_quiet accepted (Answered r x) p
      by_request get_healthz = start
      by_request get_list =
          subst Keeps (list_world (w, n)) (calm k.store.list (w, n) sound.list_quiet start)
      by_request (post_provision body) =
          handle_provision-Told k Held sound random random_quiet accepted body w n fresh v
      by_request (get_status id) =
          subst Keeps (status_world id (w, n))
            (calm (k.store.get id) (w, n) (sound.get_quiet id) start)
      by_request (delete_provision id) = handle_deprovision-Keeps id (w, n) start
      by_request (get_dead limit) = subst Keeps (dead_world limit (w, n)) (
          calm (k.queue.list_dead (limit_of limit)) (w, n) (list_dead_quiet (limit_of limit)) start)
