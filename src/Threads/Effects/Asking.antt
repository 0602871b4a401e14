-- ===== src/Threads/Effects/Asking.antt =====
-- internal/store/store.go, internal/queue/queue.go: the calls that change no record and let go of no
-- message.
use infraforge.Base.{
  ℕ, ◌≡◌, inl, inr, refl, ◌∙◌, sym, ap, subst, false, Text, ℤ, List, [], ◌∷◌, Among, Among-All,
  Option, none, some, Result, ok, err, contains, hex_encode,
}
use infraforge.Model.{Job}
use infraforge.Queue.{Message}
use infraforge.Worker.Crash.{IsQuiet, view}
use infraforge.System.Always.{IsSoundSystem}
use infraforge.Calls.{Call, Reply, get, dequeue, reclaim, random, Services, answer}
use infraforge.Threads.{Mind, learn, Ledger, note}
use infraforge.Threads.Minds.{some-injective}
use infraforge.Threads.Discipline.{IsReply}
use infraforge.Threads.Invariant.{
  same-Follows, IsKept, Fits, Spares, IsSafeCall, quiet-IsKept, quiet-Spares, quiet-Fits,
}

module _ {W : Type 0} (s : Services W) (Held : Message → W → Type 0)
    (sound : IsSoundSystem s.k s.random_bytes s.context Held) (m : Mind) (g : Ledger) (w : W)
    (v : IsKept s Held sound g w) (f : Fits s Held sound m g w) where
  open sound use {worker}

  quiet-IsSafeCall :
      (c : Call) (r : Reply c)
      → IsQuiet s.k Held (answer s c)
      → note c r g ≡ g
      → IsReply c r
      → Fits s Held sound (learn c r m) g (answer s c w).1
      → IsSafeCall s Held sound m c r g w (answer s c w).1
  quiet-IsSafeCall c r quiet noted reply fits = record {
    kept =
        subst (λ l. IsKept s Held sound l (answer s c w).1) (sym noted)
          (quiet-IsKept s Held sound g w (answer s c) quiet v);
    fits = subst (λ l. Fits s Held sound (learn c r m) l (answer s c w).1) (sym noted) fits;
    spares = λ t apart.
        subst (λ l. Spares s Held sound t g w l (answer s c w).1) (sym noted)
          (quiet-Spares s Held sound g w (answer s c) quiet t);
    follows = same-Follows s Held sound g w (note c r g) (answer s c w).1 (quiet w).records;
    reply = reply;
  }

  unlearnt : (c : Call) → IsQuiet s.k Held (answer s c) → Fits s Held sound m g (answer s c w).1
  unlearnt c quiet = quiet-Fits s Held sound g w (answer s c) quiet m f

  -- A call of which nothing is noted or learnt.
  pub plain-IsSafeCall :
      (c : Call) (r : Reply c)
      → IsQuiet s.k Held (answer s c)
      → note c r g ≡ g
      → learn c r m ≡ m
      → IsReply c r
      → IsSafeCall s Held sound m c r g w (answer s c w).1
  plain-IsSafeCall c r quiet noted learnt reply =
      quiet-IsSafeCall c r quiet noted reply
        (subst (λ n. Fits s Held sound n g (answer s c w).1) (sym learnt) (unlearnt c quiet))

  pub get-IsSafeCall :
      (id : Text) (r : Result Job)
      → (s.k.store.get id w).0 ≡ r
      → IsSafeCall s Held sound m (get id) r g w (s.k.store.get id w).1
  get-IsSafeCall id r is =
      let before = unlearnt (get id) (worker.get_quiet id) in
      quiet-IsSafeCall (get id) r (worker.get_quiet id) refl (own r is) (record {
        held = before.held;
        knows = λ x t e a.
            let (same, found) = some-injective id x r t e in
            inr (
              (worker.get_quiet id w).records x
              ∙ (subst (λ i. view s.k Held i w ≡ r) same is ∙ found));
        unsent = before.unsent;
      })
    where
      own : (r : Result Job) → (s.k.store.get id w).0 ≡ r → IsReply (get id) r
      own (err e) is = tt
      own (ok j) is = v.own id j is

  dequeue_quiet : (t : Text) (b : ℤ) → IsQuiet s.k Held (s.k.queue.dequeue t b)
  dequeue_quiet t b w = record {
    records = λ id. worker.get-dequeue id t b w;
    messages = λ m h. worker.group.Held-dequeue m t b w h;
  }

  reclaim_quiet : (t : Text) (i n : ℤ) → IsQuiet s.k Held (s.k.queue.reclaim t i n)
  reclaim_quiet t i n w = record {
    records = λ id. worker.get-reclaim id t i n w;
    messages = λ m h. worker.group.Held-reclaim m t i n w h;
  }

  -- Messages that are handed over, and nothing known about their jobs.
  handed :
      (msgs : List Message) (w' : W)
      → Fits s Held sound m g w'
      → ((n : Message) → Among msgs n → Held n w')
      → Fits s Held sound (record m { hand = msgs; known = none }) g w'
  handed msgs w' before held = record {
    held = held;
    knows = λ id t e a. absurd cc;
    unsent = before.unsent;
  }

  pub dequeue-IsSafeCall :
      (t : Text) (b : ℤ) (r : Result (Option Message))
      → (s.k.queue.dequeue t b w).0 ≡ r
      → IsSafeCall s Held sound m (dequeue t b) r g w (s.k.queue.dequeue t b w).1
  dequeue-IsSafeCall t b r is =
      quiet-IsSafeCall (dequeue t b) r (dequeue_quiet t b) refl (always r) (by_reply r is)
    where
      always : (r : Result (Option Message)) → IsReply (dequeue t b) r
      always r = tt

      before : Fits s Held sound m g (s.k.queue.dequeue t b w).1
      before = unlearnt (dequeue t b) (dequeue_quiet t b)

      by_reply :
          (r : Result (Option Message))
          → (s.k.queue.dequeue t b w).0 ≡ r
          → Fits s Held sound (learn (dequeue t b) r m) g (s.k.queue.dequeue t b w).1
      by_reply (err e) is = before
      by_reply (ok none) is = before
      by_reply (ok (some msg)) is = handed (msg ∷ []) _ before (λ n a. elim a [
        | inl e ↦
            subst (λ n. Held n (s.k.queue.dequeue t b w).1) (sym e)
              (worker.group.dequeued t b w msg is)
        | inr none_left ↦ absurd none_left
      ])

  pub reclaim-IsSafeCall :
      (t : Text) (i n : ℤ) (r : Result (List Message))
      → (s.k.queue.reclaim t i n w).0 ≡ r
      → IsSafeCall s Held sound m (reclaim t i n) r g w (s.k.queue.reclaim t i n w).1
  reclaim-IsSafeCall t i n r is =
      quiet-IsSafeCall (reclaim t i n) r (reclaim_quiet t i n) refl (apart r is) (by_reply r is)
    where
      before : Fits s Held sound m g (s.k.queue.reclaim t i n w).1
      before = unlearnt (reclaim t i n) (reclaim_quiet t i n)

      apart :
          (r : Result (List Message))
          → (s.k.queue.reclaim t i n w).0 ≡ r
          → IsReply (reclaim t i n) r
      apart (err e) is = tt
      apart (ok msgs) is = (worker.group.reclaimed t i n w msgs is).0

      by_reply :
          (r : Result (List Message))
          → (s.k.queue.reclaim t i n w).0 ≡ r
          → Fits s Held sound (learn (reclaim t i n) r m) g (s.k.queue.reclaim t i n w).1
      by_reply (err e) is = before
      by_reply (ok msgs) is = handed msgs _ before (λ x a.
          Among-All (λ x. Held x (s.k.queue.reclaim t i n w).1) msgs
            (worker.group.reclaimed t i n w msgs is).1 x a)

  pub random-IsSafeCall :
      (n : ℕ) (r : List ℕ)
      → contains g.sent (hex_encode r) ≡ false
      → IsSafeCall s Held sound m (random n) r g w (s.random_bytes n w).1
  random-IsSafeCall n r new =
      let before = unlearnt (random n) (sound.random_quiet n) in
      quiet-IsSafeCall (random n) r (sound.random_quiet n) refl tt (record {
        held = before.held;
        knows = λ id t e a. absurd cc;
        unsent = λ id a. elim a [
          | inl e ↦ inr (ap (contains g.sent) e ∙ new)
          | inr none_left ↦ absurd none_left
        ];
      })
