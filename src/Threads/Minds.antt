-- ===== src/Threads/Minds.antt =====
-- internal/worker/worker.go: which messages and jobs are left when a process acks one.
use infraforge.Base.{
  ◌≡◌, ◌≢◌, sym, ap, ◌∙◌, subst, arith, Text, List, [], ◌∷◌, map, ◌++◌, Among, text_eq, text_eq_iff,
  Option, some, Result, Bool-cases, inl, inr, true, false, ◌⊎◌,
}
use infraforge.Model.{Job}
use infraforge.Queue.{Message}
use infraforge.Threads.{Mind, concerns, without}

module _ {A : Type 0} where
  pub Among-left : (xs ys : List A) (x : A) → Among xs x → Among (xs ++ ys) x
  Among-left [] ys x h = absurd h
  Among-left (y ∷ xs) ys x (inl e) = inl e
  Among-left (y ∷ xs) ys x (inr h) = inr (Among-left xs ys x h)

  pub Among-right : (xs ys : List A) (x : A) → Among ys x → Among (xs ++ ys) x
  Among-right [] ys x h = h
  Among-right (y ∷ xs) ys x h = inr (Among-right xs ys x h)

  pub Among-either : (xs ys : List A) (x : A) → Among (xs ++ ys) x → Among xs x ⊎ Among ys x
  Among-either [] ys x h = inr h
  Among-either (y ∷ xs) ys x (inl e) = inl (inl e)
  Among-either (y ∷ xs) ys x (inr h) = elim (Among-either xs ys x h) [
    | inl l ↦ inl (inr l)
    | inr r ↦ inr r
  ]

abbrev pub jobs_of : List Message → List Text
jobs_of ms = map (λ (n : Message). n.job_id) ms

pub Among-jobs : (ms : List Message) (m : Message) → Among ms m → Among (jobs_of ms) m.job_id
Among-jobs [] m h = absurd h
Among-jobs (n ∷ ms) m (inl e) = inl (ap (λ (n : Message). n.job_id) e)
Among-jobs (n ∷ ms) m (inr h) = inr (Among-jobs ms m h)

-- A process is about the jobs of its messages.
pub concerned : (m : Mind) (msg : Message) → Among m.hand msg → Among (concerns m) msg.job_id
concerned m msg h = Among-left (jobs_of m.hand) m.drawn msg.job_id (Among-jobs m.hand msg h)

-- The known record is one thing.
pub some-injective :
    (i j : Text) (r t : Result Job)
    → ◌≡◌ {A = Option (Text × Result Job)} (some (i, r)) (some (j, t))
    → (i ≡ j) × (r ≡ t)
some-injective i j r t e = (cc, cc)

module _ (x : Message) where
  skips :
      (m : Message) (ms : List Message)
      → text_eq m.id x.id ≡ true
      → without x (m ∷ ms) ≡ without x ms
  skips m ms same = ground (arith, same)

  keeps :
      (m : Message) (ms : List Message)
      → text_eq m.id x.id ≡ false
      → without x (m ∷ ms) ≡ m ∷ without x ms
  keeps m ms other = ground (arith, other)

  pub Among-without :
      (ms : List Message) (n : Message) → Among (without x ms) n → Among ms n × (n.id ≢ x.id)
  Among-without [] n h = absurd h
  Among-without (m ∷ ms) n h = elim (Bool-cases (text_eq m.id x.id)) [
    | inl same ↦
        let (a, b) = Among-without ms n (subst (λ l. Among l n) (skips m ms same) h) in (inr a, b)
    | inr other ↦ elim (subst (λ l. Among l n) (keeps m ms other) h) [
      | inl e ↦ (
        inl e,
        λ same.
            let apart : m.id ≢ x.id = ground (arith, other, text_eq_iff m.id x.id) in
            apart (sym (ap (λ (y : Message). y.id) e) ∙ same),
      )
      | inr a ↦ let (b, c) = Among-without ms n a in (inr b, c)
    ]
  ]

  pub without-Among :
      (ms : List Message) (n : Message) → n.id ≢ x.id → Among ms n → Among (without x ms) n
  without-Among [] n h a = absurd a
  without-Among (m ∷ ms) n h a = elim (Bool-cases (text_eq m.id x.id)) [
    | inl same ↦
        subst (λ l. Among l n) (sym (skips m ms same))
          (elim a [
            | inl e ↦ absurd (h (ap (λ (y : Message). y.id) e ∙ (text_eq_iff m.id x.id).0 same))
            | inr b ↦ without-Among ms n h b
          ])
    | inr other ↦
        subst (λ l. Among l n) (sym (keeps m ms other))
          (elim a [ inl e ↦ inl e | inr b ↦ inr (without-Among ms n h b) ])
  ]

  jobs_of-without :
      (ms : List Message) (id : Text) → Among (jobs_of (without x ms)) id → Among (jobs_of ms) id
  jobs_of-without [] id h = absurd h
  jobs_of-without (m ∷ ms) id h = elim (Bool-cases (text_eq m.id x.id)) [
    | inl same ↦ inr (jobs_of-without ms id (subst (λ l. Among (jobs_of l) id) (skips m ms same) h))
    | inr other ↦ elim (subst (λ l. Among (jobs_of l) id) (keeps m ms other) h) [
      | inl e ↦ inl e
      | inr a ↦ inr (jobs_of-without ms id a)
    ]
  ]

  -- A process that lets go of a message is about no other jobs than before.
  pub concerns-without :
      (ms : List Message) (drawn : List Text) (id : Text)
      → Among (jobs_of (without x ms) ++ drawn) id
      → Among (jobs_of ms ++ drawn) id
  concerns-without ms drawn id h = elim (Among-either (jobs_of (without x ms)) drawn id h) [
    | inl job ↦ Among-left (jobs_of ms) drawn id (jobs_of-without ms id job)
    | inr new ↦ Among-right (jobs_of ms) drawn id new
  ]
