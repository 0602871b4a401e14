-- ===== src/Threads/Effects/Writing.antt =====
-- internal/worker/worker.go, internal/api/api.go: the writes of job records.
use infraforge.Base.{
  ◌≡◌, ◌≢◌, ◌⊎◌, inl, inr, ◌∙◌, sym, ap, subst, arith, true, Bool-cases, Text, Among, Option, none,
  GoError, ok, text_eq, text_eq_iff, text_eq_refl, contains,
}
use infraforge.Model.{Job}
use infraforge.Queue.{Message}
use infraforge.Worker.Crash.{view, Covers}
use infraforge.Worker.Crash.Rules.{put_keeps, ok-injective}
use infraforge.Worker.Protocol.{allowed}
use infraforge.System.Always.{IsSoundSystem}
use infraforge.Calls.{put, Services}
use infraforge.Threads.{Mind, concerns, Ledger, note, waits_in, IsApartFrom}
use infraforge.Threads.Minds.{jobs_of, Among-right, concerned, some-injective}
use infraforge.Threads.Discipline.{Changes, Writes, tears, closes, works, records, rewrites}
use infraforge.Threads.Invariant.{
  Follows, allowed_refl, waits_in-closed, waits_in-torn, waits_in-unsent, torn-grows, waits-shrinks,
  duty, IsKept, Fits, IsSafeCall, IsKept-weaken,
}

module _ {W : Type 0} (s : Services W) (Held : Message → W → Type 0)
    (sound : IsSoundSystem s.k s.random_bytes s.context Held) (m : Mind) (g : Ledger) (w : W)
    (v : IsKept s Held sound g w) (f : Fits s Held sound m g w) (j : Job) (p : Writes m j) where
  open sound use {worker}

  abbrev after : W
  after = (s.k.store.put j w).1

  abbrev g' : Ledger
  g' = note (put j) none g

  -- A job that waits once it is written has its message.
  waits-Covers : Writes m j → waits_in g j.id j.status ≡ true → Covers s.k Held j.id w
  waits-Covers (tears e) n = absurd (ground (arith, e, n))
  waits-Covers (closes a done _) n =
      absurd (ground (arith, waits_in-closed g j.id j.status done, n))
  waits-Covers (works msg here for_it prov _) n = (msg, f.held msg here, for_it, prov)
  waits-Covers (records mine new) n = elim (f.unsent j.id mine) [
    | inl torn ↦ absurd (ground (arith, waits_in-torn g j.id j.status torn, n))
    | inr unsent ↦ absurd (ground (arith, new, waits_in-unsent g j.id unsent, n))
  ]
  waits-Covers (rewrites a i known same) n = elim (f.knows j.id (ok i) known a) [
    | inl torn ↦ absurd (ground (arith, waits_in-torn g j.id j.status torn, n))
    | inr now ↦ v.covered j.id i now (ap (waits_in g j.id) same ∙ n)
  ]

  -- A record that is written is the process's own, or of a job that is torn down.
  own_record : Writes m j → Among (concerns m) j.id ⊎ (contains g'.torn j.id ≡ true)
  own_record (tears e) = inr (ground (arith, e, text_eq_refl j.id))
  own_record (closes a done _) = inl a
  own_record (works msg here for_it prov _) =
      inl (subst (Among (concerns m)) for_it (concerned m msg here))
  own_record (records mine new) = inl (Among-right (jobs_of m.hand) m.drawn j.id mine)
  own_record (rewrites a i known same) = inl a

  other_records :
      (t : Mind)
      → IsApartFrom g m t
      → (id : Text) → Among (concerns t) id
      → (contains g'.torn id ≡ true) ⊎ (view s.k Held id after ≡ view s.k Held id w)
  other_records t apart id a = elim (Bool-cases (text_eq j.id id)) [
    | inl same ↦
        let e = (text_eq_iff j.id id).0 same in
        inl (elim (own_record p) [
          | inl mine ↦
              torn-grows g j.status j.id id (apart.jobs id (subst (Among (concerns m)) e mine) a)
          | inr torn ↦ subst (λ x. contains g'.torn x ≡ true) e torn
        ])
    | inr other ↦
        let differ : j.id ≢ id = ground (arith, other, text_eq_iff j.id id) in
        inr (worker.lawful.get-put_ne j id w differ)
  ]

  -- The written record, after the one that the process knew.
  changed :
      Among (concerns m) j.id
      → Changes m j
      → (i : Job) → view s.k Held j.id w ≡ ok i
      → (contains g'.torn j.id ≡ true) ⊎ (allowed i.status j.status ≡ true)
  changed a (before, known, fine) i h = elim (f.knows j.id (ok before) known a) [
    | inl torn ↦ inl (torn-grows g j.status j.id j.id torn)
    | inr now ↦
        inr
          (ap (λ (x : Job). allowed x.status j.status) (ok-injective i before (sym h ∙ now)) ∙ fine)
  ]

  own_change :
      Writes m j
      → (i : Job) → contains g.sent j.id ≡ true
      → view s.k Held j.id w ≡ ok i
      → (contains g'.torn j.id ≡ true) ⊎ (allowed i.status j.status ≡ true)
  own_change (tears e) i sent h = inl (ground (arith, e, text_eq_refl j.id))
  own_change (closes a done change) i sent h = changed a change i h
  own_change (works msg here for_it prov change) i sent h =
      changed (subst (Among (concerns m)) for_it (concerned m msg here)) change i h
  own_change (records mine new) i sent h = elim (f.unsent j.id mine) [
    | inl torn ↦ inl (torn-grows g j.status j.id j.id torn)
    | inr unsent ↦ absurd cc
  ]
  own_change (rewrites a before known same) i sent h =
      changed a (before, known, ap (allowed before.status) (sym same) ∙ allowed_refl before.status)
        i h

  put-Follows : Follows s Held sound g w g' after
  put-Follows id i sent h = elim (Bool-cases (text_eq j.id id)) [
    | inl same ↦
        let e : id ≡ j.id = sym ((text_eq_iff j.id id).0 same) in
        let found = worker.lawful.get-put j w (worker.put_ok j w) in
        elim (own_change p i (subst (λ x. contains g.sent x ≡ true) e sent)
          (subst (λ x. view s.k Held x w ≡ ok i) e h)) [
            | inl torn ↦ inl (subst (λ x. contains g'.torn x ≡ true) (sym e) torn)
            | inr fine ↦ inr (j, subst (λ x. view s.k Held x after ≡ ok j) (sym e) found, fine)
          ]
    | inr other ↦
        let differ : j.id ≢ id = ground (arith, other, text_eq_iff j.id id) in
        inr (i, worker.lawful.get-put_ne j id w differ ∙ h, allowed_refl i.status)
  ]

  pub put-IsSafeCall : (r : Option GoError) → IsSafeCall s Held sound m (put j) r g w after
  put-IsSafeCall r = record {
    kept =
        IsKept-weaken s Held sound g g' after (λ id t n. waits-shrinks g j.status t j.id id n)
          (put_keeps (duty s Held sound g) j w (waits-Covers p) v);
    fits = record {
      held = λ n a. worker.Held-put n j w (f.held n a);
      knows = λ id t e a.
          let (same, found) = some-injective j.id id (ok j) t e in
          inr (
            subst (λ x. view s.k Held x after ≡ t) same
              (worker.lawful.get-put j w (worker.put_ok j w) ∙ found));
      unsent = λ id a. elim (f.unsent id a) [
        | inl torn ↦ inl (torn-grows g j.status j.id id torn)
        | inr new ↦ inr new
      ];
    };
    spares = λ t apart. record {
      held = λ n a h. worker.Held-put n j w h;
      records = other_records t apart;
      torn = λ id h. torn-grows g j.status j.id id h;
      sent = λ id a h. inr h;
    };
    follows = put-Follows;
    reply = tt;
  }
