-- ===== src/Worker/Poison.antt =====
-- internal/worker/worker.go: a message that is delivered again and again, as the reclaim loop does
-- with one that was not acked.
use mathlib.Core.Path.{ap₂}
use infraforge.Base.{
  ℕ, zero, suc, ◌+◌, ◌-◌, ◌≤◌, ◌<◌, ◌≡◌, ◌⊎◌, refl, ap, ◌∙◌, inl, inr, Bool, false, pos, ok, arith,
  if◌then◌else◌, text_eq, incr, ltb_ℤ, count_if, max_int,
}
use infraforge.Model.{Job, Status, pending, provisioning, ready, failed, deleting, deleted}
use infraforge.Queue.{Message, action_deprovision}
use infraforge.Worker.{Worker, handle}
use infraforge.Worker.Trace.{Event, trace}
use infraforge.Worker.Protocol.{is_ack, is_provision_call}
use infraforge.Worker.Sole.{IsSole, counted, handle-Counted}

-- The provision calls of one delivery, by the job's status and the guard.
abbrev attempted : Status → Bool → ℕ
attempted ready over = 0
attempted deleting over = 0
attempted deleted over = 0
attempted _ over = if over then 0 else 1

-- What a delivery with `calls` provision calls and `acks` acks does to a job with `n` attempts.
abbrev Spent : Status → ℕ → ℕ → ℕ → ℕ → Type 0
Spent s n m calls acks =
    (b : ℕ) × (counted s (pos n) ≡ pos b)
    × (n ≤ b)
    × (b ≤ n + 1)
    × (calls + (m - b) ≤ m - n)
    × ((1 ≤ acks) ⊎ ((b ≡ n + 1) × (b ≤ m)))

spent_lem :
    (s : Status) (n m calls acks : ℕ)
    → n < max_int
    → calls ≡ attempted s (ltb_ℤ (pos m) (incr (pos n)))
    → 1 ≤ acks + calls
    → Spent s n m calls acks
unfolding incr ltb_ℤ
spent_lem ready n m calls acks h c a =
    (n, refl, omega arith, omega arith, omega arith, inl (omega arith))
spent_lem deleting n m calls acks h c a =
    (n, refl, omega arith, omega arith, omega arith, inl (omega arith))
spent_lem deleted n m calls acks h c a =
    (n, refl, omega arith, omega arith, omega arith, inl (omega arith))
spent_lem pending n m calls acks h c a =
    (n + 1, ground arith, omega arith, omega arith, ground arith, ground arith)
spent_lem provisioning n m calls acks h c a =
    (n + 1, ground arith, omega arith, omega arith, ground arith, ground arith)
spent_lem failed n m calls acks h c a =
    (n + 1, ground arith, omega arith, omega arith, ground arith, ground arith)

module _ {W : Type 0} (k : Worker W) (msg : Message) where
  -- How often a call is made in `n` deliveries.
  abbrev pub total : (Event → Bool) → ℕ → W → ℕ
  total p zero w = 0
  total p (suc n) w = count_if p (trace k msg w) + total p n (handle k msg w)

  module _ (job : Job) (w : W) (found : (k.store.get msg.job_id w).0 ≡ ok job)
      (a : text_eq msg.action action_deprovision ≡ false) where
    provision_calls :
        count_if is_provision_call (trace k msg w)
        ≡ attempted job.status (ltb_ℤ k.max_attempts (incr job.attempts))
    unfolding handle
    provision_calls = ground arith

    ack_or_provision_call :
        1 ≤ count_if is_ack (trace k msg w) + count_if is_provision_call (trace k msg w)
    unfolding handle
    ack_or_provision_call = ground arith

    delivery_spends :
        (m n : ℕ)
        → k.max_attempts ≡ pos m
        → job.attempts ≡ pos n
        → n < max_int
        → Spent job.status n m
            (count_if is_provision_call (trace k msg w))
            (count_if is_ack (trace k msg w))
    delivery_spends m n cap spent room =
        spent_lem job.status n m _ _ room
          (provision_calls ∙ ap₂ (λ c d. attempted job.status (ltb_ℤ c (incr d))) cap spent)
          ack_or_provision_call

  module _ (sole : IsSole k) (a : text_eq msg.action action_deprovision ≡ false) (m : ℕ)
      (cap : k.max_attempts ≡ pos m) where
    -- However often a provision message is delivered, the provisioner is called at most as often as
    -- the cap leaves attempts, if no write of the store fails, what is written is kept, nothing else
    -- changes a job record, and the count of attempts does not overflow.
    pub provision_calls-le :
        (rounds n : ℕ) (job : Job) (w : W)
        → (k.store.get msg.job_id w).0 ≡ ok job
        → job.id ≡ msg.job_id
        → job.attempts ≡ pos n
        → n + rounds ≤ max_int
        → total is_provision_call rounds w ≤ m - n
    provision_calls-le zero n job w found own spent room = omega arith
    provision_calls-le (suc rounds) n job w found own spent room =
        let (b, count, low, high, less, ends) =
          delivery_spends job w found a m n cap spent (omega arith) in
        let (j, after, own', attempts) = handle-Counted k sole msg job w found own a in
        let b_attempts : j.attempts ≡ pos b = attempts ∙ ap (counted job.status) spent ∙ count in
        omega (
          arith,
          less,
          provision_calls-le rounds b j (handle k msg w) after own' b_attempts (omega arith),
        )

    -- A provision message that is delivered more often than the cap leaves attempts is acked in one
    -- of the deliveries, if no write of the store fails, what is written is kept, nothing else changes
    -- a job record, the count of attempts does not overflow, and it has not passed the cap before.
    pub poison_message_acked :
        (rounds n : ℕ) (job : Job) (w : W)
        → (k.store.get msg.job_id w).0 ≡ ok job
        → job.id ≡ msg.job_id
        → job.attempts ≡ pos n
        → n + rounds ≤ max_int
        → n ≤ m
        → m < n + rounds
        → 1 ≤ total is_ack rounds w
    poison_message_acked zero n job w found own spent room below enough = absurd (omega arith)
    poison_message_acked (suc rounds) n job w found own spent room below enough =
        let (b, count, low, high, less, ends) =
          delivery_spends job w found a m n cap spent (omega arith) in
        let (j, after, own', attempts) = handle-Counted k sole msg job w found own a in
        let b_attempts : j.attempts ≡ pos b = attempts ∙ ap (counted job.status) spent ∙ count in
        elim ends [
          | inl acked ↦ omega arith
          | inr (next, under) ↦ omega (
            arith,
            poison_message_acked rounds b j (handle k msg w) after own' b_attempts (omega arith)
                under (omega arith),
          )
        ]
