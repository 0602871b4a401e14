-- ===== src/Queue/Redis/Memory.antt =====
-- internal/queue/queue.go: a stream with its group, kept in memory beside another state, for the
-- theorems' concrete runs. An entry's id counts its place in the stream.
use infraforge.Base.{
  ℕ, zero, suc, All, ◌+◌, false, ◌≡◌, ◌≢◌, refl, sym, ap, ◌∙◌, subst, Text, List, [], ◌∷◌, ◌++◌,
  Option, none, some, Result, ok, arith, Bool-cases, inl, inr, text_eq, text_eq_iff, if◌then◌else◌,
  length,
}
use infraforge.Base.Dict.{Dict}
use infraforge.Queue.Redis.{Entry, Streams, stream_key}
use infraforge.Queue.Redis.Roundtrip.{stored}
use infraforge.Queue.Redis.Laws.{IsStreams, EntriesApart}

-- The entries that are not acknowledged, each in its place, and how many are delivered.
pub record Log : Type 0 where
  pub entries : List (Option (Dict Text))
  pub delivered : ℕ

abbrev pub mark : ℕ → Text
mark zero = []
mark (suc n) = b'x' ∷ mark n

abbrev slot : ℕ → List (Option (Dict Text)) → Option (Dict Text)
slot i [] = none
slot zero (x ∷ xs) = x
slot (suc i) (x ∷ xs) = slot i xs

abbrev clear : ℕ → List (Option (Dict Text)) → List (Option (Dict Text))
clear i [] = []
clear zero (x ∷ xs) = none ∷ xs
clear (suc i) (x ∷ xs) = x ∷ clear i xs

abbrev acknowledge : Text → List (Option (Dict Text)) → List (Option (Dict Text))
acknowledge id xs = if text_eq id (mark (length id)) then clear (length id) xs else xs

abbrev entry_at : ℕ → Option (Dict Text) → List Entry
entry_at i none = []
entry_at i (some v) = record { id = mark i; values = v } ∷ []

-- The first of the delivered entries, from the place `i` on.
abbrev first_pending : ℕ → ℕ → List (Option (Dict Text)) → List Entry
first_pending i zero xs = []
first_pending i (suc n) [] = []
first_pending i (suc n) (none ∷ xs) = first_pending (suc i) n xs
first_pending i (suc n) (some v ∷ xs) = record { id = mark i; values = v } ∷ []

abbrev pub streams : {S : Type 0} → Streams (S × Log)
streams = record {
  group_create = λ s g i w. (none, w);
  add = λ s n values (m, l). (
    none,
    (
      m,
      if text_eq s stream_key
          then record l { entries = l.entries ++ (some (stored values) ∷ []) }
          else l,
    ),
  );
  read_group = λ g c s from n b (m, l). (
    ok (entry_at l.delivered (slot l.delivered l.entries) ∷ []),
    (m, record l { delivered = suc l.delivered }),
  );
  auto_claim = λ s g c i from n (m, l). (ok (first_pending 0 l.delivered l.entries), (m, l));
  ack = λ s g id (m, l). (none, (m, record l { entries = acknowledge id l.entries }));
  range_n = λ s from to n w. (ok [], w);
  now = λ w. (7, w);
  format_time = λ t. t ∷ [];
  parse_time = λ s. elim s [ [] ↦ none | c ∷ _ ↦ some c ];
}

abbrev pub Pending : {S : Type 0} → Entry → S × Log → Type 0
Pending e (m, l) = (e.id ≡ mark (length e.id)) × (slot (length e.id) l.entries ≡ some e.values)

length-mark : (n : ℕ) → length (mark n) ≡ n
length-mark zero = refl
length-mark (suc n) = ap suc (length-mark n)

slot-append :
    (i : ℕ) (xs ys : List (Option (Dict Text))) (v : Dict Text)
    → slot i xs ≡ some v
    → slot i (xs ++ ys) ≡ some v
slot-append i [] ys v h = absurd (ground (arith, h))
slot-append zero (x ∷ xs) ys v h = h
slot-append (suc i) (x ∷ xs) ys v h = slot-append i xs ys v h

slot-last :
    (xs : List (Option (Dict Text))) (v : Dict Text)
    → slot (length xs) (xs ++ (some v ∷ [])) ≡ some v
slot-last [] v = refl
slot-last (x ∷ xs) v = slot-last xs v

slot-clear : (i k : ℕ) (xs : List (Option (Dict Text))) → i ≢ k → slot i (clear k xs) ≡ slot i xs
slot-clear i zero [] h = refl
slot-clear i (suc k) [] h = refl
slot-clear zero zero (x ∷ xs) h = absurd (h refl)
slot-clear zero (suc k) (x ∷ xs) h = refl
slot-clear (suc i) zero (x ∷ xs) h = refl
slot-clear (suc i) (suc k) (x ∷ xs) h = slot-clear i k xs (λ e. h (ap suc e))

slot-acknowledge :
    (e : Entry) (id : Text) (xs : List (Option (Dict Text)))
    → e.id ≡ mark (length e.id)
    → e.id ≢ id
    → slot (length e.id) (acknowledge id xs) ≡ slot (length e.id) xs
slot-acknowledge e id xs own apart = elim (Bool-cases (text_eq id (mark (length id)))) [
  | inl marked ↦
      let is = (text_eq_iff id (mark (length id))).0 marked in
      rw marked
        (slot-clear (length e.id) (length id) xs (λ same. apart (own ∙ ap mark same ∙ sym is)))
  | inr other ↦ rw other refl
]

Pending_at :
    {S : Type 0} (i : ℕ) (v : Dict Text) (w : S × Log)
    → slot i w.1.entries ≡ some v
    → Pending (record { id = mark i; values = v }) w
Pending_at i v w h = (
  ap mark (sym (length-mark i)),
  subst (λ n. slot n w.1.entries ≡ some v) (sym (length-mark i)) h,
)

entry_at-Pending :
    {S : Type 0} (i : ℕ) (x : Option (Dict Text)) (w : S × Log)
    → slot i w.1.entries ≡ x
    → All (λ e. Pending e w) (entry_at i x)
entry_at-Pending i none w h = tt
entry_at-Pending i (some v) w h = (Pending_at i v w h, tt)

-- The entries from the place `i` on are `xs`.
first_pending-Pending :
    {S : Type 0} (i n : ℕ) (xs : List (Option (Dict Text))) (w : S × Log)
    → ((k : ℕ) → slot (i + k) w.1.entries ≡ slot k xs)
    → All (λ e. Pending e w) (first_pending i n xs)
first_pending-Pending i zero xs w h = tt
first_pending-Pending i (suc n) [] w h = tt
first_pending-Pending i (suc n) (none ∷ xs) w h =
    first_pending-Pending (suc i) n xs w
      (λ k. ap (λ x. slot x w.1.entries) (omega arith) ∙ h (suc k))
first_pending-Pending i (suc n) (some v ∷ xs) w h =
    (Pending_at i v w (ap (λ x. slot x w.1.entries) (omega arith) ∙ h 0), tt)

first_pending-apart :
    (i n : ℕ) (xs : List (Option (Dict Text))) → EntriesApart (first_pending i n xs)
first_pending-apart i zero xs = tt
first_pending-apart i (suc n) [] = tt
first_pending-apart i (suc n) (none ∷ xs) = first_pending-apart (suc i) n xs
first_pending-apart i (suc n) (some v ∷ xs) = (tt, tt)

one_value : (u v : Dict Text) → ◌≡◌ {A = Option (Dict Text)} (some u) (some v) → u ≡ v
one_value u v e = cc

ok_streams :
    (xs ys : List (List Entry)) → ◌≡◌ {A = Result (List (List Entry))} (ok xs) (ok ys) → xs ≡ ys
ok_streams xs ys e = cc

ok_entries : (xs ys : List Entry) → ◌≡◌ {A = Result (List Entry)} (ok xs) (ok ys) → xs ≡ ys
ok_entries xs ys e = cc

same_entry : (e f : Entry) → e.id ≡ f.id → e.values ≡ f.values → e ≡ f
same_entry e f i v = cc

pub streams-IsStreams : {S : Type 0} → IsStreams (streams {S = S}) Pending
unfolding text_eq stream_key
streams-IsStreams {S} = record {
  unique = λ e f w (own, h) (own', h') same.
      same_entry e f same
        (one_value e.values f.values (sym h ∙ ap (λ x. slot (length x) w.1.entries) same ∙ h'));
  added = λ values w fine.
      let v = stored values in
      (
        record { id = mark (length w.1.entries); values = v },
        Pending_at (length w.1.entries) v ((streams {S = S}).add stream_key none values w).1
            (slot-last w.1.entries v),
        refl,
      );
  delivered = λ c b w ss fine.
      subst (All (All (λ e. Pending {S = S} e w)))
        (ok_streams (entry_at w.1.delivered (slot w.1.delivered w.1.entries) ∷ []) ss fine)
        (entry_at-Pending w.1.delivered (slot w.1.delivered w.1.entries) w refl, tt);
  claimed = λ c i n w es fine.
      subst (λ xs. EntriesApart xs × All (λ e. Pending {S = S} e w) xs)
        (ok_entries (first_pending 0 w.1.delivered w.1.entries) es fine)
        (
          first_pending-apart 0 w.1.delivered w.1.entries,
          first_pending-Pending 0 w.1.delivered w.1.entries w
              (λ k. ap (λ x. slot x w.1.entries) (omega arith)),
        );
  Pending-add = λ e values w (own, h).
      (own, slot-append (length e.id) w.1.entries (some (stored values) ∷ []) e.values h);
  Pending-add_other = λ e s n values w differ (own, h). (
    own,
    let dead : text_eq s stream_key ≡ false = ground (arith, differ, text_eq_iff s stream_key) in
        rw dead h,
  );
  Pending-read = λ e c b w h. h;
  Pending-claim = λ e c i n w h. h;
  Pending-ack = λ e id w apart (own, h). (own, slot-acknowledge e id w.1.entries own apart ∙ h);
  Pending-range = λ e s n w h. h;
  Pending-now = λ e w h. h;
}
