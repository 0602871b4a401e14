-- ===== src/System/Accepting.antt =====
-- internal/api/api.go: the acceptance of a job by a broker that may die.
use infraforge.Base.{
  ℕ, pos, ◌≡◌, ◌≢◌, refl, ap, ◌∙◌, false, Text, txt, List, [], Option, none, some, GoError, All,
  arith, Mortal, until, until-result, Safe-until, Safe-weaken, Safe-start, hex_encode, contains,
  text_eq, Bool-cases, inl, inr,
}
use infraforge.Model.{Job, ProvisionRequest, pending, failed, resource_postgres}
use infraforge.Queue.{Message, Action, action_provision, action_deprovision}
use infraforge.Api.{
  Response, hand_over, create, validate, handle_provision, new_id, write_json, write_error,
  or_postgres,
}
use infraforge.Worker.{Worker}
use infraforge.Worker.Crash.{Duty, IsProvision, IsWaiting, IsQuiet, IsSound, Covers, NoOrphan}
use infraforge.Worker.Crash.Rules.{Alive, calm, quiet_keeps, put_keeps}
use infraforge.System.{broker, mortal_broker, created_in, waits_for}

pub waits_for-IsWaiting : (accepted : List Text) → IsWaiting (waits_for accepted)
waits_for-IsWaiting accepted = record {
  at_ready = λ id. refl;
  at_failed = λ id. refl;
  at_deleting = λ id. refl;
  at_deleted = λ id. refl;
}

-- What a worker does for the jobs that were accepted.
abbrev pub duty_of :
    {W : Type 0} (k : Worker W) (Held : Message → W → Type 0) → IsSound k Held → List Text → Duty W
duty_of k Held sound accepted = record {
  k = k;
  Held = Held;
  sound = sound;
  waits = waits_for accepted;
  waiting = waits_for-IsWaiting accepted;
}

pub action_provision-IsProvision : (m : Message) → m.action ≡ action_provision → IsProvision m
unfolding action_provision action_deprovision text_eq
action_provision-IsProvision m e = rw e refl

pub action_some : action_provision ≢ []
unfolding action_provision
action_some e = ground (arith, e)

module _ {W : Type 0} (k : Worker W) (Held : Message → W → Type 0) (sound : IsSound k Held)
    (random : ℕ → W → List ℕ × W) (random_quiet : (n : ℕ) → IsQuiet k Held (random n))
    (accepted : List Text) where
  abbrev pub Lively : (W → Type 0) → Mortal W → Type 0
  Lively = Alive (duty_of k Held sound accepted)

  -- The jobs that the response says are accepted have their messages.
  abbrev pub Told : Response → W → Type 0
  Told x w = All (λ id. Covers k Held id w) (created_in x.code x.body)

  pub enqueue_quiet : (id : Text) (a : Action) → IsQuiet k Held (k.queue.enqueue id a)
  enqueue_quiet id a w = record {
    records = λ x. sound.get-enqueue x id a w;
    messages = λ m h. sound.group.Held-enqueue m id a w h;
  }

  pub hush :
      {X : Type 0} (f : W → X × W) (p : Mortal W)
      → IsQuiet k Held f
      → Lively (λ w. Unit) p
      → Lively (λ w. Unit) (until f p).1
  hush f p q h = calm (duty_of k Held sound accepted) (λ w. Unit) f p (λ w a. tt) q h

  -- A job that does not wait is written.
  pub put_idle :
      (j : Job) (p : Mortal W)
      → waits_for accepted j.id j.status ≡ false
      → Lively (λ w. Unit) p
      → Lively (λ w. Unit) (until (k.store.put j) p).1
  put_idle j p idle h =
      Safe-until (NoOrphan k Held (waits_for accepted)) (λ w. Unit) (λ _ w. Unit) (k.store.put j) p
        (λ w i _. (
          put_keeps (duty_of k Held sound accepted) j w (λ n. absurd (ground (arith, n, idle))) i,
          tt,
        ))
        h

  hand_over-Told :
      (job : Job) (p : Mortal W)
      → Lively (λ w. Unit) p
      → let (x, p') = hand_over (mortal_broker k random) job p in Lively (Told x) p'
  unfolding hand_over write_json write_error
  hand_over-Told job p h = split (until enqueue p).0 refl
    where
      enqueue : W → Option GoError × W
      enqueue = k.queue.enqueue job.id action_provision

      Sent : Option GoError → W → Type 0
      Sent r w = r ≡ none → Covers k Held job.id w

      sent : Lively (Sent (until enqueue p).0) (until enqueue p).1
      sent =
          Safe-until (NoOrphan k Held (waits_for accepted)) (λ w. Unit) Sent enqueue p
            (λ w i _. (
              quiet_keeps (duty_of k Held sound accepted) enqueue w
                  (enqueue_quiet job.id action_provision) i,
              λ fine.
                  let (m, held, for_it, act) =
                    sound.group.enqueued job.id action_provision w action_some fine in
                  (m, held, for_it, action_provision-IsProvision m act),
            ))
            h

      split :
          (r : Option GoError)
          → (until enqueue p).0 ≡ r
          → let (x, p') = hand_over (mortal_broker k random) job p in Lively (Told x) p'
      split none e =
          rw (e, hand_over)
            (Safe-weaken (NoOrphan k Held (waits_for accepted)) (Sent (until enqueue p).0)
              (λ w. Covers k Held job.id w × Unit {0}) (until enqueue p).1 (λ w s. (s e, tt)) sent)
      split (some x) e =
          rw (e, hand_over)
            (put_idle
              (record job {
                status = failed;
                detail = txt "could not enqueue provisioning job";
                updated_at = (until k.now (until enqueue p).1).0;
              })
              (until k.now (until enqueue p).1).1 refl
              (hush k.now (until enqueue p).1 sound.now_quiet (
                Safe-weaken (NoOrphan k Held (waits_for accepted)) (Sent (until enqueue p).0)
                  (λ w. Unit) (until enqueue p).1 (λ w s. tt) sent)))

  create-Told :
      (service resource : Text) (w : W) (n : ℕ)
      → contains accepted (new_id (broker k random) (k.now w).1).0 ≡ false
      → NoOrphan k Held (waits_for accepted) w
      → let (x, p) = create (mortal_broker k random) service resource (w, n) in Lively (Told x) p
  unfolding create new_id
  create-Told service resource w n fresh v =
      rw (until-result (k.store.put job) drawn ∙ sound.put_ok job drawn.0, create)
        (hand_over-Told job (until (k.store.put job) drawn).1 written)
    where
      read : Mortal W
      read = (until k.now (w, n)).1

      drawn : Mortal W
      drawn = (until (random 8) read).1

      job : Job
      job = record {
        id = hex_encode (until (random 8) read).0;
        service_name = service;
        resource = resource;
        status = pending;
        detail = [];
        attempts = pos 0;
        connection = none;
        http = none;
        created_at = (until k.now (w, n)).0;
        updated_at = (until k.now (w, n)).0;
      }

      at_read : Lively (λ u. u ≡ (k.now w).1) read
      at_read =
          Safe-until (NoOrphan k Held (waits_for accepted)) (λ u. u ≡ w) (λ _ u. u ≡ (k.now w).1)
            k.now (w, n)
            (λ u i e. (
              quiet_keeps (duty_of k Held sound accepted) k.now u sound.now_quiet i,
              ap (λ x. (k.now x).1) e,
            ))
            (Safe-start (NoOrphan k Held (waits_for accepted)) (λ u. u ≡ w) w n v refl)

      at_drawn :
          Lively (λ u. contains accepted (hex_encode (until (random 8) read).0) ≡ false) drawn
      at_drawn =
          Safe-until (NoOrphan k Held (waits_for accepted)) (λ u. u ≡ (k.now w).1)
            (λ ids u. contains accepted (hex_encode ids) ≡ false) (random 8) read
            (λ u i e. (
              quiet_keeps (duty_of k Held sound accepted) (random 8) u (random_quiet 8) i,
              ap (λ x. contains accepted (hex_encode (random 8 x).0)) e ∙ fresh,
            ))
            at_read

      written : Lively (λ u. Unit) (until (k.store.put job) drawn).1
      written =
          Safe-until (NoOrphan k Held (waits_for accepted))
            (λ u. contains accepted (hex_encode (until (random 8) read).0) ≡ false) (λ _ u. Unit)
            (k.store.put job) drawn
            (λ u i a. (
              put_keeps (duty_of k Held sound accepted) job u (λ h. absurd (ground (arith, h, a)))
                  i,
              tt,
            ))
            at_drawn

  pub handle_provision-Told :
      (req : Option ProvisionRequest) (w : W) (n : ℕ)
      → contains accepted (new_id (broker k random) (k.now w).1).0 ≡ false
      → NoOrphan k Held (waits_for accepted) w
      → let (x, p) = handle_provision (mortal_broker k random) req (w, n) in Lively (Told x) p
  unfolding handle_provision validate write_json write_error
  handle_provision-Told none w n fresh v =
      Safe-start (NoOrphan k Held (waits_for accepted)) (λ w. Unit) w n v tt
  handle_provision-Told (some req) w n fresh v = elim (Bool-cases (text_eq req.service_name [])) [
    | inl nameless ↦
        rw nameless (Safe-start (NoOrphan k Held (waits_for accepted)) (λ w. Unit) w n v tt)
    | inr named ↦ elim (Bool-cases (text_eq (or_postgres req.resource) resource_postgres)) [
      | inl known ↦
          rw named (rw known (create-Told req.service_name (or_postgres req.resource) w n fresh v))
      | inr other ↦
          rw named
            (rw other (Safe-start (NoOrphan k Held (waits_for accepted)) (λ w. Unit) w n v tt))
    ]
  ]
