-- ===== src/Threads/Apart.antt =====
-- internal/worker/worker.go, internal/api/api.go: two processes stay apart when one makes a call.
use infraforge.Base.{
  ◌≡◌, inl, inr, sym, arith, true, Bool-cases, Text, text_eq, [], Among, Option, none, some, Result,
  ok, GoError, contains,
}
use infraforge.Model.{Job}
use infraforge.Queue.{Message, action_provision}
use infraforge.Calls.{Call, put, get, enqueue, dequeue, reclaim, ack, random, Reply}
use infraforge.Threads.{Mind, blank, learn, concerns, Ledger, note, IsApartFrom, IsPutApart}
use infraforge.Threads.Minds.{jobs_of, Among-left, Among-either, Among-without, concerns-without}
use infraforge.Threads.Invariant.{torn-grows}

-- The process is about nothing that it was not about before.
pub record IsLess (a b : Mind) : Type 0 where
  pub hand : (n : Message) → Among a.hand n → Among b.hand n
  pub jobs : (id : Text) → Among (concerns a) id → Among (concerns b) id

IsLess-refl : (m : Mind) → IsLess m m
IsLess-refl m = record { hand = λ n a. a; jobs = λ id a. a }

known-IsLess : (m : Mind) (k : Option (Text × Result Job)) → IsLess (record m { known = k }) m
known-IsLess m k = record { hand = λ n a. a; jobs = λ id a. a }

sent-IsLess : (m : Mind) → IsLess (record m { drawn = [] }) m
sent-IsLess m = record {
  hand = λ n a. a;
  jobs = λ id a. elim (Among-either (jobs_of m.hand) [] id a) [
    | inl job ↦ Among-left (jobs_of m.hand) m.drawn id job
    | inr new ↦ absurd new
  ];
}

enqueue-IsLess : (id a : Text) (r : Option GoError) (m : Mind) → IsLess (learn (enqueue id a) r m) m
enqueue-IsLess id a (some e) m = IsLess-refl m
enqueue-IsLess id a none m = elim (Bool-cases (text_eq a action_provision)) [
  | inl same ↦ rw (same, learn) (sent-IsLess m)
  | inr other ↦ rw (other, learn) (IsLess-refl m)
]

pub torn-note :
    (c : Call) (r : Reply c) (g : Ledger) (id : Text)
    → contains g.torn id ≡ true
    → contains (note c r g).torn id ≡ true
torn-note (put j) r g id h = torn-grows g j.status j.id id h
torn-note (enqueue i a) none g id h = ground (arith, h)
torn-note _ r g id h = h

module _ (g g' : Ledger)
    (grows : (id : Text) → contains g.torn id ≡ true → contains g'.torn id ≡ true) where
  pub IsApartFrom-less : (a a' b : Mind) → IsLess a' a → IsApartFrom g a b → IsApartFrom g' a' b
  IsApartFrom-less a a' b less apart = record {
    messages = λ m n am bn. apart.messages m n (less.hand m am) bn;
    jobs = λ id ai bi. grows id (apart.jobs id (less.jobs id ai) bi);
  }

pub IsApartFrom-grows :
    (g g' : Ledger)
    → ((id : Text) → contains g.torn id ≡ true → contains g'.torn id ≡ true)
    → (a b : Mind) → IsApartFrom g a b
    → IsApartFrom g' a b
IsApartFrom-grows g g' grows a b apart = IsApartFrom-less g g' grows a a b (IsLess-refl a) apart

pub IsApartFrom-sym : (g : Ledger) (a b : Mind) → IsApartFrom g a b → IsApartFrom g b a
IsApartFrom-sym g a b apart = record {
  messages = λ m n am bn e. apart.messages n m bn am (sym e);
  jobs = λ id ai bi. apart.jobs id bi ai;
}

pub blank-IsApartFrom : (g : Ledger) (b : Mind) → IsApartFrom g blank b
blank-IsApartFrom g b = record { messages = λ m n am bn. absurd am; jobs = λ id ai bi. absurd ai }

module _ (m n : Mind) (g : Ledger) (before : IsApartFrom g m n) where
  less-IsApartFrom :
      (c : Call) (r : Reply c) → IsLess (learn c r m) m → IsApartFrom (note c r g) (learn c r m) n
  less-IsApartFrom c r less =
      IsApartFrom-less g (note c r g) (torn-note c r g) m (learn c r m) n less before

  pub learn-IsApartFrom :
      (c : Call) (r : Reply c) → IsPutApart c r m n g → IsApartFrom (note c r g) (learn c r m) n
  learn-IsApartFrom (dequeue t b) r put_apart = put_apart
  learn-IsApartFrom (reclaim t d i) r put_apart = put_apart
  learn-IsApartFrom (random i) r put_apart = put_apart
  learn-IsApartFrom (put j) r h = less-IsApartFrom (put j) r (known-IsLess m (some (j.id, ok j)))
  learn-IsApartFrom (get id) r h = less-IsApartFrom (get id) r (known-IsLess m (some (id, r)))
  learn-IsApartFrom (enqueue id a) r h = less-IsApartFrom (enqueue id a) r (enqueue-IsLess id a r m)
  learn-IsApartFrom (ack msg) r h = less-IsApartFrom (ack msg) r (record {
    hand = λ x a. (Among-without msg m.hand x a).0;
    jobs = concerns-without msg m.hand m.drawn;
  })
  learn-IsApartFrom _ r h = before
