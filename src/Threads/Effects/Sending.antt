-- ===== src/Threads/Effects/Sending.antt =====
-- internal/api/api.go: the sending of messages.
use infraforge.Base.{
  ◌≡◌, inl, inr, refl, sym, subst, arith, true, false, Bool-cases, Text, text_eq, text_eq_iff,
  text_eq_refl, [], ◌∷◌, Among, Option, none, some, GoError, contains,
}
use infraforge.Model.{Status}
use infraforge.Queue.{Message, Action, action_provision}
use infraforge.Worker.Crash.{IsQuiet, view, Covers}
use infraforge.System.Accepting.{action_provision-IsProvision, action_some}
use infraforge.System.Always.{IsSoundSystem}
use infraforge.Calls.{enqueue, Services}
use infraforge.Threads.{Mind, concerns, learn, Ledger, note, waits_in, IsApartFrom}
use infraforge.Threads.Minds.{jobs_of, Among-left, Among-right, Among-either}
use infraforge.Threads.Invariant.{
  same-Follows, IsKept, Fits, Spares, IsSafeCall, quiet-IsKept, quiet-Spares, quiet-Fits,
}

module _ {W : Type 0} (s : Services W) (Held : Message → W → Type 0)
    (sound : IsSoundSystem s.k s.random_bytes s.context Held) where
  open sound use {worker}

  enqueue_quiet : (id : Text) (a : Action) → IsQuiet s.k Held (s.k.queue.enqueue id a)
  enqueue_quiet id a w = record {
    records = λ x. worker.get-enqueue x id a w;
    messages = λ m h. worker.group.Held-enqueue m id a w h;
  }

  module _ (m : Mind) (g : Ledger) (w : W) (v : IsKept s Held sound g w)
      (f : Fits s Held sound m g w) (id : Text) where
    -- One more message is sent.
    abbrev more : Ledger
    more = record g { sent = id ∷ g.sent }

    abbrev sends : Mind
    sends = record m { drawn = [] }

    waits-more :
        (x : Text) (t : Status)
        → text_eq id x ≡ false
        → waits_in more x t ≡ true
        → waits_in g x t ≡ true
    waits-more x t other h = ground (arith, other, h)

    contains-more :
        (x : Text)
        → text_eq id x ≡ false
        → contains g.sent x ≡ false
        → contains (id ∷ g.sent) x ≡ false
    contains-more x other h = ground (arith, other, h)

    fewer_concerns : (x : Text) → Among (concerns sends) x → Among (concerns m) x
    fewer_concerns x h = elim (Among-either (jobs_of m.hand) [] x h) [
      | inl job ↦ Among-left (jobs_of m.hand) m.drawn x job
      | inr new ↦ absurd new
    ]

    abbrev after : W
    after = (s.k.queue.enqueue id action_provision w).1

    sent-kept : Covers s.k Held id after → IsKept s Held sound more after
    sent-kept c =
        let before =
          quiet-IsKept s Held sound g w (s.k.queue.enqueue id action_provision)
            (enqueue_quiet id action_provision) v in
        record {
          own = before.own;
          covered = λ x j h n. elim (Bool-cases (text_eq id x)) [
            | inl same ↦ subst (λ i. Covers s.k Held i after) ((text_eq_iff id x).0 same) c
            | inr other ↦ before.covered x j h (waits-more x j.status other n)
          ];
        }

    sent-Fits : Fits s Held sound sends more after
    sent-Fits =
        let before =
          quiet-Fits s Held sound g w (s.k.queue.enqueue id action_provision)
            (enqueue_quiet id action_provision) m f in
        record {
          held = before.held;
          knows = λ x r e a. before.knows x r e (fewer_concerns x a);
          unsent = λ x a. absurd a;
        }

    sent-Spares :
        Among m.drawn id → (t : Mind) → IsApartFrom g m t → Spares s Held sound t g w more after
    sent-Spares mine t apart =
        let before =
          quiet-Spares s Held sound g w (s.k.queue.enqueue id action_provision)
            (enqueue_quiet id action_provision) t in
        record {
          held = before.held;
          records = before.records;
          torn = λ x h. h;
          sent = λ x a h. elim (Bool-cases (text_eq id x)) [
            | inl same ↦
                let e = (text_eq_iff id x).0 same in
                inl (
                  apart.jobs x
                    (subst (Among (concerns m)) e (Among-right (jobs_of m.hand) m.drawn id mine))
                    (Among-right (jobs_of t.hand) t.drawn x a))
            | inr other ↦ inr (contains-more x other h)
          ];
        }

    new-Covers : (s.k.queue.enqueue id action_provision w).0 ≡ none → Covers s.k Held id after
    new-Covers fine =
        let (n, held, for_it, act) = worker.group.enqueued id action_provision w action_some fine in
        (n, held, for_it, action_provision-IsProvision n act)

    -- What a call does, by what is noted and learnt of it.
    assembled :
        (a : Action) (r : Option GoError) (l : Ledger) (n : Mind) (w' : W)
        → note (enqueue id a) r g ≡ l
        → learn (enqueue id a) r m ≡ n
        → IsKept s Held sound l w'
        → Fits s Held sound n l w'
        → ((t : Mind) → IsApartFrom g m t → Spares s Held sound t g w l w')
        → ((x : Text) → view s.k Held x w' ≡ view s.k Held x w)
        → IsSafeCall s Held sound m (enqueue id a) r g w w'
    assembled a r l n w' noted learnt kept fits spares same = record {
      kept = subst (λ l. IsKept s Held sound l w') (sym noted) kept;
      fits =
          subst (λ l. Fits s Held sound (learn (enqueue id a) r m) l w') (sym noted)
            (subst (λ n. Fits s Held sound n l w') (sym learnt) fits);
      spares = λ t apart. subst (λ l. Spares s Held sound t g w l w') (sym noted) (spares t apart);
      follows = same-Follows s Held sound g w (note (enqueue id a) r g) w' same;
      reply = tt;
    }

    -- A message that is no provision, or that could not be sent.
    plain :
        (a : Action) (r : Option GoError)
        → note (enqueue id a) r g ≡ g
        → learn (enqueue id a) r m ≡ m
        → IsSafeCall s Held sound m (enqueue id a) r g w (s.k.queue.enqueue id a w).1
    plain a r noted learnt =
        let call = s.k.queue.enqueue id a in
        let quiet = enqueue_quiet id a in
        assembled a r g m (call w).1 noted learnt (quiet-IsKept s Held sound g w call quiet v)
          (quiet-Fits s Held sound g w call quiet m f)
          (λ t apart. quiet-Spares s Held sound g w call quiet t) (λ x. worker.get-enqueue x id a w)

    provision_sent :
        Among m.drawn id
        → (s.k.queue.enqueue id action_provision w).0 ≡ none
        → IsSafeCall s Held sound m (enqueue id action_provision) none g w after
    provision_sent mine fine =
        assembled action_provision none more sends after
          (ground (arith, text_eq_refl action_provision))
          (ground (arith, text_eq_refl action_provision)) (sent-kept (new-Covers fine)) sent-Fits
          (sent-Spares mine) (λ x. worker.get-enqueue x id action_provision w)

    pub enqueue-IsSafeCall :
        (a : Action) (r : Option GoError)
        → (text_eq a action_provision ≡ true → Among m.drawn id)
        → (s.k.queue.enqueue id a w).0 ≡ r
        → IsSafeCall s Held sound m (enqueue id a) r g w (s.k.queue.enqueue id a w).1
    enqueue-IsSafeCall a (some e) p is = plain a (some e) refl refl
    enqueue-IsSafeCall a none p is = elim (Bool-cases (text_eq a action_provision)) [
      | inl provision ↦
          let same = (text_eq_iff a action_provision).0 provision in
          subst
            (λ a. IsSafeCall s Held sound m (enqueue id a) none g w (s.k.queue.enqueue id a w).1)
            (sym same)
            (provision_sent (p provision)
              (subst (λ a. (s.k.queue.enqueue id a w).0 ≡ none) same is))
      | inr other ↦ plain a none (ground (arith, other)) (ground (arith, other))
    ]
