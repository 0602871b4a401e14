-- ===== src/Threads/Effects/Acking.antt =====
-- internal/queue/queue.go: the acks of messages.
use infraforge.Base.{◌≡◌, inl, inr, ◌∙◌, sym, ap, false, Option, GoError, Result, ok, err}
use infraforge.Model.{Job}
use infraforge.Queue.{Message}
use infraforge.Worker.Crash.{IsProvision, view}
use infraforge.Worker.Crash.Rules.{ack_keeps, ok-injective}
use infraforge.System.Always.{IsSoundSystem}
use infraforge.Calls.{ack, Services}
use infraforge.Threads.{Mind, Ledger, waits_in}
use infraforge.Threads.Minds.{concerned, Among-without, concerns-without}
use infraforge.Threads.Discipline.{is_open, IsClosed, Acks}
use infraforge.Threads.Invariant.{
  waits_in-closed, waits_in-torn, duty, same-Follows, IsKept, Fits, IsSafeCall,
}

closed-status : (r : Result Job) (j : Job) → IsClosed r → r ≡ ok j → is_open j.status ≡ false
closed-status (err e) j done same = absurd cc
closed-status (ok i) j done same =
    ap (λ (x : Job). is_open x.status) (sym (ok-injective i j same)) ∙ done

module _ {W : Type 0} (s : Services W) (Held : Message → W → Type 0)
    (sound : IsSoundSystem s.k s.random_bytes s.context Held) (m : Mind) (g : Ledger) (w : W)
    (v : IsKept s Held sound g w) (f : Fits s Held sound m g w) (msg : Message)
    (p : Acks m msg) where
  open sound use {worker}

  -- The job of a provision message that is acked does not wait.
  settled :
      IsProvision msg
      → (j : Job) → view s.k Held msg.job_id w ≡ ok j
      → waits_in g msg.job_id j.status ≡ false
  settled prov j found =
      let (r, known, done) = p.closed prov in
      elim (f.knows msg.job_id r known (concerned m msg p.at_hand)) [
        | inl torn ↦ waits_in-torn g msg.job_id j.status torn
        | inr now ↦ waits_in-closed g msg.job_id j.status (closed-status r j done (sym now ∙ found))
      ]

  pub ack-IsSafeCall :
      (r : Option GoError) → IsSafeCall s Held sound m (ack msg) r g w (s.k.queue.ack msg w).1
  ack-IsSafeCall r = record {
    kept = ack_keeps (duty s Held sound g) msg w (f.held msg p.at_hand) settled v;
    fits = record {
      held = λ n a.
          let (here, other) = Among-without msg m.hand n a in
          worker.group.Held-ack n msg w other (f.held n here);
      knows = λ id t e a. elim (f.knows id t e (concerns-without msg m.hand m.drawn id a)) [
        | inl torn ↦ inl torn
        | inr now ↦ inr (worker.get-ack id msg w ∙ now)
      ];
      unsent = f.unsent;
    };
    spares = λ t apart. record {
      held =
          λ n a h. worker.group.Held-ack n msg w (λ e. apart.messages msg n p.at_hand a (sym e)) h;
      records = λ id a. inr (worker.get-ack id msg w);
      torn = λ id h. h;
      sent = λ id a h. inr h;
    };
    follows = same-Follows s Held sound g w g _ (λ id. worker.get-ack id msg w);
    reply = tt;
  }
