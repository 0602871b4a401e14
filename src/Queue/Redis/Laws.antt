-- ===== src/Queue/Redis/Laws.antt =====
-- internal/queue/queue.go: what `RedisQueue` relies on in Redis.
use infraforge.Base.{ℕ, ◌≡◌, ◌≢◌, txt, Text, List, [], ◌∷◌, ℤ, Option, none, ok, All}
use infraforge.Base.Dict.{Dict}
use infraforge.Queue.{Message}
use infraforge.Queue.Redis.{Arg, Entry, Streams, stream_key, group, message_from}
use infraforge.Queue.Redis.Roundtrip.{stored}

-- The entries have different ids.
abbrev pub EntriesApart : List Entry → Type 0
EntriesApart [] = Unit
EntriesApart (m ∷ ms) = All (λ n. n.id ≢ m.id) ms × EntriesApart ms

module _ {W : Type 0} (r : Streams W) (Pending : Entry → W → Type 0) where
  -- What Redis documents of a stream whose group exists: an entry is pending from its addition until
  -- it is acknowledged under its id.
  pub record IsStreams : Type 0 where
    pub unique : (e f : Entry) (w : W) → Pending e w → Pending f w → e.id ≡ f.id → e ≡ f
    pub added :
        (values : Dict Arg) (w : W)
        → (r.add stream_key none values w).0 ≡ none
        → (e : Entry) × Pending e (r.add stream_key none values w).1 × (e.values ≡ stored values)
    pub delivered :
        (c : Text) (b : ℤ) (w : W) (streams : List (List Entry))
        → (r.read_group group c stream_key (txt ">") 1 b w).0 ≡ ok streams
        → All (All (λ e. Pending e (r.read_group group c stream_key (txt ">") 1 b w).1)) streams
    pub claimed :
        (c : Text) (i n : ℤ) (w : W) (entries : List Entry)
        → (r.auto_claim stream_key group c i (txt "0-0") n w).0 ≡ ok entries
        → EntriesApart entries
          × All (λ e. Pending e (r.auto_claim stream_key group c i (txt "0-0") n w).1) entries
    -- Without a maximal length an addition evicts nothing, and it never touches another stream.
    pub Pending-add :
        (e : Entry) (values : Dict Arg) (w : W)
        → Pending e w
        → Pending e (r.add stream_key none values w).1
    pub Pending-add_other :
        (e : Entry) (s : Text) (n : Option ℕ) (values : Dict Arg) (w : W)
        → s ≢ stream_key
        → Pending e w
        → Pending e (r.add s n values w).1
    pub Pending-read :
        (e : Entry) (c : Text) (b : ℤ) (w : W)
        → Pending e w
        → Pending e (r.read_group group c stream_key (txt ">") 1 b w).1
    pub Pending-claim :
        (e : Entry) (c : Text) (i n : ℤ) (w : W)
        → Pending e w
        → Pending e (r.auto_claim stream_key group c i (txt "0-0") n w).1
    pub Pending-ack :
        (e : Entry) (id : Text) (w : W)
        → e.id ≢ id
        → Pending e w
        → Pending e (r.ack stream_key group id w).1
    pub Pending-range :
        (e : Entry) (s : Text) (n : ℤ) (w : W)
        → Pending e w
        → Pending e (r.range_n s (txt "-") (txt "+") n w).1
    pub Pending-now : (e : Entry) (w : W) → Pending e w → Pending e (r.now w).1

  -- A message is held while the entry that it was read from is pending.
  abbrev pub HeldIn : Message → W → Type 0
  HeldIn m w = (e : Entry) × Pending e w × (message_from e ≡ m)
