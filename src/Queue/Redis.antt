-- ===== src/Queue/Redis.antt =====
-- internal/queue/queue.go: `RedisQueue`, over the stream commands of the Redis client.
pub mod Roundtrip
pub mod Laws
pub mod Entries
pub mod Group
pub mod Memory
mod Tests
use infraforge.Base.{
  ℕ, Bool, true, false, Text, txt, List, [], ◌∷◌, ◌++◌, ℤ, pos, Option, none, some, GoError, Result,
  ok, err, errors_is, redis_nil, if◌then◌else◌, text_eq, ltb_ℤ, has_substring, atoi, is_space,
  is_digit, ◌==◌, ◌||◌, ◌&&◌, not, show_int, map,
}
use infraforge.Base.Dict
use infraforge.Base.Dict.{Dict}
use infraforge.Queue.{Action, action_provision, Message, DeadEntry, Queue}

-- A value of a stream entry, as it is handed to the client.
pub data Arg : Type 0 where
  text : Text → Arg
  int : ℤ → Arg

-- A stream entry, as the client returns it.
pub record Entry : Type 0 where
  pub id : Text
  pub values : Dict Text

-- The commands that the code uses; a stream and a group go by their names.
pub record Streams (W : Type 0) : Type 0 where
  pub group_create : Text → Text → Text → W → Option GoError × W
  -- the stream, an approximate maximal length, and the values
  pub add : Text → Option ℕ → Dict Arg → W → Option GoError × W
  -- the group, the consumer, the stream, the id to read after, the count and the time to block
  pub read_group : Text → Text → Text → Text → ℕ → ℤ → W → Result (List (List Entry)) × W
  -- the stream, the group, the consumer, the idle time, the start and the count
  pub auto_claim : Text → Text → Text → ℤ → Text → ℤ → W → Result (List Entry) × W
  pub ack : Text → Text → Text → W → Option GoError × W
  -- the stream, the first and the last id, and the count
  pub range_n : Text → Text → Text → ℤ → W → Result (List Entry) × W
  pub now : W → ℕ × W
  -- `Format` and `Parse` with `time.RFC3339Nano`
  pub format_time : ℕ → Text
  pub parse_time : Text → Option ℕ

unfoldable pub stream_key : Text
unfolding txt
stream_key = txt "infraforge:jobs"

unfoldable pub group : Text
unfolding txt
group = txt "provisioners"

unfoldable pub dead_stream_key : Text
unfolding txt
dead_stream_key = txt "infraforge:jobs:dead"

abbrev pub dead_stream_max_len : ℕ
dead_stream_max_len = 1000

-- `v, _ := m.Values[key].(string)`: the empty text if there is none
abbrev pub text_or_empty : Option Text → Text
text_or_empty none = []
text_or_empty (some v) = v

unfoldable pub field : Text → Entry → Text
field key m = text_or_empty (Dict.lookup key m.values)

unfoldable pub message_from : Entry → Message
unfolding field txt
message_from m =
    let action = field (txt "action") m in
    record {
      id = m.id;
      job_id = field (txt "job_id") m;
      action = if text_eq action [] then action_provision else action;
    }

-- `fmt.Sscanf(v, "%d", …)`: spaces but no new line, a sign, and the digits up to another character.
abbrev pub skip_spaces : Text → Text
skip_spaces [] = []
skip_spaces (c ∷ s) =
    let rest = skip_spaces s in if is_space c && not (c == b'\n') then rest else c ∷ s

abbrev pub take_digits : Text → Text
take_digits [] = []
take_digits (c ∷ s) = let rest = take_digits s in if is_digit c then c ∷ rest else []

abbrev pub number_at : Text → Text
number_at [] = []
number_at (c ∷ s) = if c == b'-' || c == b'+' then c ∷ take_digits s else take_digits (c ∷ s)

-- A failed scan leaves the zero.
unfoldable pub scan_int : Text → ℤ
scan_int v = elim (atoi (number_at (skip_spaces v))) [ none ↦ pos 0 | some n ↦ n ]

abbrev pub or_zero_time : Option ℕ → ℕ
or_zero_time none = 0
or_zero_time (some t) = t

abbrev pub zero_or {ℓ} : {A : Type ℓ} → A → (Text → A) → Option Text → A
zero_or z f none = z
zero_or z f (some v) = f v

module _ {W : Type 0} (r : Streams W) where
  -- The zero time stands for a timestamp that is missing or does not parse.
  unfoldable pub dead_entry_from : Entry → DeadEntry
  unfolding field scan_int txt
  dead_entry_from m = record {
    stream_id = m.id;
    job_id = field (txt "job_id") m;
    action = field (txt "action") m;
    detail = field (txt "detail") m;
    attempts = zero_or (pos 0) scan_int (Dict.lookup (txt "attempts") m.values);
    timestamp =
        zero_or 0 (λ v. or_zero_time (r.parse_time v)) (Dict.lookup (txt "timestamp") m.values);
  }

  unfoldable pub ensure_group : W → Option GoError × W
  unfolding has_substring txt
  ensure_group w =
      let (failure, w) = r.group_create stream_key group (txt "$") w in
      elim failure [
        | none ↦ (none, w)
        | some e ↦ (if has_substring e.message (txt "BUSYGROUP") then none else some e, w)
      ]

  abbrev pub enqueued_values : Text → Action → Dict Arg
  enqueued_values job_id action = (txt "job_id", text job_id) ∷ (txt "action", text action) ∷ []

  unfoldable pub enqueue : Text → Action → W → Option GoError × W
  unfolding txt
  enqueue job_id action w = r.add stream_key none (enqueued_values job_id action) w

  abbrev pub first_message : List (List Entry) → Option Message
  first_message [] = none
  first_message ([] ∷ rest) = none
  first_message ((m ∷ ms) ∷ rest) = some (message_from m)

  unfoldable pub dequeue : Text → ℤ → W → Result (Option Message) × W
  unfolding message_from txt
  dequeue consumer block w =
      let (res, w) = r.read_group group consumer stream_key (txt ">") 1 block w in
      elim res [
        | err e ↦ (if errors_is e redis_nil then ok none else err e, w)
        | ok streams ↦ (ok (first_message streams), w)
      ]

  unfoldable pub reclaim : Text → ℤ → ℤ → W → Result (List Message) × W
  unfolding message_from txt
  reclaim consumer min_idle count w =
      let (res, w) = r.auto_claim stream_key group consumer min_idle (txt "0-0") count w in
      elim res [ err e ↦ (err e, w) | ok entries ↦ (ok (map message_from entries), w) ]

  unfoldable pub ack : Message → W → Option GoError × W
  ack m w = r.ack stream_key group m.id w

  abbrev pub dead_values : Message → Text → ℤ → ℕ → Dict Arg
  dead_values m detail attempts t =
      (txt "job_id", text m.job_id)
      ∷ (txt "action", text m.action)
      ∷ (txt "detail", text detail)
      ∷ (txt "attempts", int attempts)
      ∷ (txt "timestamp", text (r.format_time t))
      ∷ []

  unfoldable pub dead_letter : Message → Text → ℤ → W → Option GoError × W
  unfolding txt
  dead_letter m detail attempts w =
      let (t, w) = r.now w in
      r.add dead_stream_key (some dead_stream_max_len) (dead_values m detail attempts t) w

  unfoldable pub list_dead : ℤ → W → Result (List DeadEntry) × W
  unfolding dead_entry_from txt
  list_dead limit w =
      let limit' = if ltb_ℤ (pos 0) limit then limit else pos 100 in
      let (res, w) = r.range_n dead_stream_key (txt "-") (txt "+") limit' w in
      elim res [
        | err e ↦ (if errors_is e redis_nil then ok [] else err e, w)
        | ok entries ↦ (ok (map dead_entry_from entries), w)
      ]

  -- `RedisQueue` as the interface.
  abbrev pub redis_queue : Queue W
  redis_queue = record {
    enqueue = enqueue;
    dequeue = dequeue;
    reclaim = reclaim;
    ack = ack;
    dead_letter = dead_letter;
    list_dead = list_dead;
  }
