-- ===== src/Worker/Crash/Rules.antt =====
-- internal/worker/worker.go: what one call keeps.
use infraforge.Base.{
  Mortal, until, Safe, Safe-until, ◌≡◌, ◌≢◌, ◌⊎◌, sym, ap, ◌∙◌, true, false, Text, Result, ok,
  text_eq, text_eq_iff, arith, subst, Bool-cases, inl, inr,
}
use infraforge.Model.{Job}
use infraforge.Queue.{Message}
use infraforge.Worker.Crash.{Duty, IsProvision, view, IsQuiet, Covers, NoOrphan}

pub ok-injective : (i j : Job) → ◌≡◌ {A = Result Job} (ok i) (ok j) → i ≡ j
ok-injective i j e = cc

module _ {W : Type 0} (d : Duty W) where
  open d use {k, Held, sound, waits, waiting}

  pub quiet_keeps :
      {A : Type 0} (f : W → A × W) (w : W)
      → IsQuiet k Held f
      → NoOrphan k Held waits w
      → NoOrphan k Held waits (f w).1
  quiet_keeps f w q v = record {
    own = λ id j h. v.own id j (sym ((q w).records id) ∙ h);
    covered = λ id j h n.
        let (m, held, for_it, prov) = v.covered id j (sym ((q w).records id) ∙ h) n in
        (m, (q w).messages m held, for_it, prov);
  }

  -- What a read finds after a write.
  pub written :
      (j : Job) (w : W) (id : Text) (i : Job)
      → view k Held id (k.store.put j w).1 ≡ ok i
      → ((i ≡ j) × (j.id ≡ id)) ⊎ ((j.id ≢ id) × (view k Held id w ≡ ok i))
  written j w id i h = elim (Bool-cases (text_eq j.id id)) [
    | inl same ↦
        let e : j.id ≡ id = (text_eq_iff j.id id).0 same in
        inl (
          ok-injective i j (
              sym h
              ∙ ap (λ x. view k Held x (k.store.put j w).1) (sym e)
              ∙ sound.lawful.get-put j w (sound.put_ok j w)),
          e,
        )
    | inr other ↦
        let apart : j.id ≢ id = ground (arith, other, text_eq_iff j.id id) in
        inr (apart, sym (sound.lawful.get-put_ne j id w apart) ∙ h)
  ]

  pub Covers-put :
      (j : Job) (w : W) (id : Text) → Covers k Held id w → Covers k Held id (k.store.put j w).1
  Covers-put j w id (m, held, for_it, prov) = (m, sound.Held-put m j w held, for_it, prov)

  -- A record of a job that waits may be written as long as it has a message.
  pub put_keeps :
      (j : Job) (w : W)
      → (waits j.id j.status ≡ true → Covers k Held j.id w)
      → NoOrphan k Held waits w
      → NoOrphan k Held waits (k.store.put j w).1
  put_keeps j w mine v = record {
    own = λ id i h. elim (written j w id i h) [
      | inl (same, e) ↦ ap (λ (x : Job). x.id) same ∙ e
      | inr (apart, before) ↦ v.own id i before
    ];
    covered = λ id i h n. Covers-put j w id (elim (written j w id i h) [
      | inl (same, e) ↦
          subst (λ x. Covers k Held x w) e
            (mine
              (ap (λ x. waits x j.status) e ∙ sym (ap (λ (x : Job). waits id x.status) same) ∙ n))
      | inr (apart, before) ↦ v.covered id i before n
    ]);
  }

  -- A message may be let go if it is no provision, or if its job does not wait.
  pub ack_keeps :
      (msg : Message) (w : W)
      → Held msg w
      → (IsProvision msg
          → (j : Job) → view k Held msg.job_id w ≡ ok j
          → waits msg.job_id j.status ≡ false)
      → NoOrphan k Held waits w
      → NoOrphan k Held waits (k.queue.ack msg w).1
  ack_keeps msg w held settled v = record {
    own = λ id j h. v.own id j (sym (sound.get-ack id msg w) ∙ h);
    covered = λ id j h n.
        let before = sym (sound.get-ack id msg w) ∙ h in
        let (m, held', for_it, prov) = v.covered id j before n in
        (
          m,
          sound.group.Held-ack m msg w
              (λ e.
                let same = sound.group.unique m msg w held' held e in
                let at : id ≡ msg.job_id = sym for_it ∙ ap (λ (x : Message). x.job_id) same in
                let done =
                  settled (subst IsProvision same prov) j
                    (ap (λ x. view k Held x w) (sym at) ∙ before) in
                cc)
              held',
          for_it,
          prov,
        );
  }

  -- Alive or dead, with `A` in the first case.
  abbrev pub Alive : (W → Type 0) → Mortal W → Type 0
  Alive A p = Safe (NoOrphan k Held waits) A p

  pub calm :
      {X : Type 0} (A : W → Type 0) (f : W → X × W) (p : Mortal W)
      → ((w : W) → A w → A (f w).1)
      → IsQuiet k Held f
      → Alive A p
      → Alive A (until f p).1
  calm A f p keeps q h =
      Safe-until (NoOrphan k Held waits) A (λ _. A) f p (λ w i a. (quiet_keeps f w q i, keeps w a))
        h
