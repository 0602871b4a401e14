-- ===== src/Worker/Crash/Stages.antt =====
-- internal/worker/worker.go: what holds between the calls of a worker that may die.
use infraforge.Base.{
  ◌≡◌, ◌≢◌, sym, ap, ◌∙◌, false, Text, ℤ, ok, arith, subst, Mortal, until, Safe, Safe-until,
  Safe-weaken,
}
use infraforge.Model.{Job}
use infraforge.Queue.{Message}
use infraforge.Worker.Crash.{Duty, IsProvision, view, IsQuiet, Covers, NoOrphan}
use infraforge.Worker.Crash.Rules.{quiet_keeps, put_keeps, ack_keeps, ok-injective}

module _ {W : Type 0} (d : Duty W) (Later : Message → Type 0) where
  open d use {k, Held, sound, waits, waiting}

  -- The messages that are to be handled later are held.
  abbrev pub Rest : W → Type 0
  Rest w = (m : Message) → Later m → Held m w

  abbrev pub With : (W → Type 0) → W → Type 0
  With A w = A w × Rest w

  abbrev pub Lives : (W → Type 0) → Mortal W → Type 0
  Lives A p = Safe (NoOrphan k Held waits) (With A) p

  pub Lives-weaken :
      (A B : W → Type 0) (p : Mortal W) → ((w : W) → A w → B w) → Lives A p → Lives B p
  Lives-weaken A B p f h =
      Safe-weaken (NoOrphan k Held waits) (With A) (With B) p (λ w (a, later). (f w a, later)) h

  -- A property that a quiet call keeps.
  abbrev pub IsStable : (W → Type 0) → Type 1
  IsStable A = (X : Type 0) (f : W → X × W) (w : W) → IsQuiet k Held f → A w → A (f w).1

  pub Lives-quiet :
      {X : Type 0} (A : W → Type 0) (f : W → X × W) (p : Mortal W)
      → IsStable A
      → IsQuiet k Held f
      → Lives A p
      → Lives A (until f p).1
  Lives-quiet {X} A f p stable q h =
      Safe-until (NoOrphan k Held waits) (With A) (λ _. With A) f p
        (λ w i (a, later).
          (quiet_keeps d f w q i, (stable X f w q a, λ m l. (q w).messages m (later m l))))
        h

  pub dead_letter_quiet :
      (m : Message) (d : Text) (n : ℤ) → IsQuiet k Held (k.queue.dead_letter m d n)
  dead_letter_quiet m d n w = record {
    records = λ id. sound.get-dead_letter id m d n w;
    messages = λ m' h. sound.group.Held-dead_letter m' m d n w h;
  }

  Rest-put : (j : Job) (w : W) → Rest w → Rest (k.store.put j w).1
  Rest-put j w later m l = sound.Held-put m j w (later m l)

  module _ (msg : Message) where
    abbrev pub InHand : W → Type 0
    InHand w = Held msg w

    -- The message is in hand, and its job's record is `job`.
    abbrev pub At : Job → W → Type 0
    At job w = Held msg w × (view k Held msg.job_id w ≡ ok job)

    -- The message may be let go.
    abbrev pub Settled : W → Type 0
    Settled w =
        Held msg w
        × (IsProvision msg
            → (j : Job) → view k Held msg.job_id w ≡ ok j
            → waits msg.job_id j.status ≡ false)

    pub InHand-IsStable : IsStable InHand
    InHand-IsStable X f w q h = (q w).messages msg h

    pub At-IsStable : (job : Job) → IsStable (At job)
    At-IsStable job X f w q (h, v) = ((q w).messages msg h, (q w).records msg.job_id ∙ v)

    pub Settled-IsStable : IsStable Settled
    Settled-IsStable X f w q (h, s) =
        ((q w).messages msg h, λ prov j v. s prov j (sym ((q w).records msg.job_id) ∙ v))

    pub Nothing-IsStable : IsStable (λ w. Unit)
    Nothing-IsStable X f w q h = tt

    -- A job in work is written.
    pub Lives-put_working :
        (j : Job) (p : Mortal W)
        → j.id ≡ msg.job_id
        → IsProvision msg
        → Lives InHand p
        → Lives InHand (until (k.store.put j) p).1
    Lives-put_working j p own prov h =
        Safe-until (NoOrphan k Held waits) (With InHand) (λ _. With InHand) (k.store.put j) p
          (λ w i (held, later). (
            put_keeps d j w (λ _. (msg, held, sym own, prov)) i,
            (sound.Held-put msg j w held, Rest-put j w later),
          ))
          h

    -- A job that does not wait is written.
    pub Lives-put-Settled :
        (j : Job) (p : Mortal W)
        → j.id ≡ msg.job_id
        → waits msg.job_id j.status ≡ false
        → Lives InHand p
        → Lives Settled (until (k.store.put j) p).1
    Lives-put-Settled j p own done h =
        Safe-until (NoOrphan k Held waits) (With InHand) (λ _. With Settled) (k.store.put j) p
          (λ w i (held, later). (
            put_keeps d j w (λ n. absurd (ground (arith, n, done, ap (λ x. waits x j.status) own)))
                i,
            (
              (
                sound.Held-put msg j w held,
                λ prov i v.
                    let same = ok-injective i j (
                      sym v
                      ∙ ap (λ x. view k Held x (k.store.put j w).1) (sym own)
                      ∙ sound.lawful.get-put j w (sound.put_ok j w)) in
                    ap (λ (x : Job). waits msg.job_id x.status) same ∙ done,
              ),
              Rest-put j w later,
            ),
          ))
          h

    -- For a message that is no provision, its job is written with the status that it had.
    pub Lives-put_same :
        (j job : Job) (p : Mortal W)
        → j.id ≡ msg.job_id
        → j.status ≡ job.status
        → (IsProvision msg → ⊥)
        → Lives (At job) p
        → Lives Settled (until (k.store.put j) p).1
    Lives-put_same j job p own same other h =
        Safe-until (NoOrphan k Held waits) (With (At job)) (λ _. With Settled) (k.store.put j) p
          (λ w i ((held, v), later). (
            put_keeps d j w
                (λ n.
                  subst (λ x. Covers k Held x w) (sym own)
                    (i.covered msg.job_id job v (
                      ap (waits msg.job_id) (sym same) ∙ ap (λ x. waits x j.status) (sym own) ∙ n)))
                i,
            ((sound.Held-put msg j w held, λ prov. absurd (other prov)), Rest-put j w later),
          ))
          h

    pub Lives-ack :
        (p : Mortal W)
        → ((m : Message) → Later m → m.id ≢ msg.id)
        → Lives Settled p
        → Lives (λ w. Unit) (until (k.queue.ack msg) p).1
    Lives-ack p apart h =
        Safe-until (NoOrphan k Held waits) (With Settled) (λ _. With (λ w. Unit)) (k.queue.ack msg)
          p
          (λ w i ((held, s), later). (
            ack_keeps d msg w held s i,
            (tt, λ m l. sound.group.Held-ack m msg w (apart m l) (later m l)),
          ))
          h

-- The handling of a message, with others to be handled later.
pub record Task (W : Type 0) : Type 1 where
  pub d : Duty W
  pub Later : Message → Type 0
  pub msg : Message
  pub apart : (m : Message) → Later m → m.id ≢ msg.id
