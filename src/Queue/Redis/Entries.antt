-- ===== src/Queue/Redis/Entries.antt =====
-- internal/queue/queue.go: the messages that the answers of Redis are read as.
use infraforge.Base.{
  pos, ltb_ℤ, ◌≡◌, ◌≢◌, refl, sym, ◌∙◌, txt, Text, List, [], ◌∷◌, ℤ, Option, none, some, GoError,
  Result, ok, err, All, arith, map, errors_is, redis_nil, text_eq, if◌then◌else◌,
}
use infraforge.Queue.{Message, Action, action_provision}
use infraforge.Queue.Group.{IsApart}
use infraforge.Queue.Redis.{
  Entry, Streams, stream_key, group, message_from, dequeue, reclaim, list_dead, first_message,
  dead_stream_key,
}
use infraforge.Queue.Redis.Laws.{EntriesApart, HeldIn}

module _ {W : Type 0} (r : Streams W) (Pending : Entry → W → Type 0) where
  -- An answer is looked at, and nothing else is called.
  pub dequeue_world :
      (c : Text) (b : ℤ) (w : W)
      → (r.read_group group c stream_key (txt ">") 1 b w).1 ≡ (dequeue r c b w).1
  unfolding dequeue
  dequeue_world c b w = ground arith

  pub reclaim_world :
      (c : Text) (i n : ℤ) (w : W)
      → (r.auto_claim stream_key group c i (txt "0-0") n w).1 ≡ (reclaim r c i n w).1
  unfolding reclaim
  reclaim_world c i n w = ground arith

  pub list_dead_world :
      (n : ℤ) (w : W)
      → (r.range_n dead_stream_key (txt "-") (txt "+") (if ltb_ℤ (pos 0) n then n else pos 100) w).1
        ≡ (list_dead r n w).1
  unfolding list_dead
  list_dead_world n w = ground arith

  pub message_from_id : (e : Entry) → (message_from e).id ≡ e.id
  unfolding message_from
  message_from_id e = refl

  pub some_message : (m n : Message) → ◌≡◌ {A = Option Message} (some m) (some n) → m ≡ n
  some_message m n e = cc

  pub some_answer :
      (x : Option Message) (m : Message)
      → ◌≡◌ {A = Result (Option Message)} (ok x) (ok (some m))
      → x ≡ some m
  some_answer x m e = cc

  pub same_answer :
      (xs ys : List Message) → ◌≡◌ {A = Result (List Message)} (ok xs) (ok ys) → xs ≡ ys
  same_answer xs ys e = cc

  pub named_action : (a : Action) → a ≢ [] → (if text_eq a [] then action_provision else a) ≡ a
  unfolding text_eq
  named_action [] h = absurd (h refl)
  named_action (c ∷ a) h = refl

  pub others_apart :
      (e : Entry) (entries : List Entry)
      → All (λ f. f.id ≢ e.id) entries
      → All (λ m. m.id ≢ (message_from e).id) (map message_from entries)
  others_apart e [] h = tt
  others_apart e (f ∷ entries) h =
      (λ same. h.0 (sym (message_from_id f) ∙ same ∙ message_from_id e), others_apart e entries h.1)

  pub IsApart-map :
      (entries : List Entry) → EntriesApart entries → IsApart (map message_from entries)
  IsApart-map [] h = tt
  IsApart-map (e ∷ entries) h = (others_apart e entries h.0, IsApart-map entries h.1)

  pub held_map :
      (entries : List Entry) (w : W)
      → All (λ e. Pending e w) entries
      → All (λ m. (HeldIn r Pending) m w) (map message_from entries)
  held_map [] w h = tt
  held_map (e ∷ entries) w h = ((e, h.0, refl), held_map entries w h.1)

  pub held_first :
      (streams : List (List Entry)) (w : W) (m : Message)
      → All (All (λ e. Pending e w)) streams
      → first_message r streams ≡ some m
      → (HeldIn r Pending) m w
  held_first [] w m h eq = absurd (ground (arith, eq))
  held_first ([] ∷ rest) w m h eq = absurd (ground (arith, eq))
  held_first ((e ∷ es) ∷ rest) w m h eq = (e, h.0.0, some_message (message_from e) m eq)

  pub no_message :
      (e : GoError) (m : Message)
      → ◌≡◌ {A = Result (Option Message)}
          (if errors_is e redis_nil then ok none else err e)
          (ok (some m))
      → ⊥
  no_message e m eq = ground (arith, eq)
