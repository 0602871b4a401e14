-- ===== src/Queue/Redis/Tests.antt =====
-- internal/queue: concrete stream entries.
use infraforge.Base.{◌≡◌, refl, txt, [], ◌∷◌, pos, none, some, ok, arith}
use infraforge.Queue.{Message}
use infraforge.Queue.Redis.{Streams, dead_entry_from, dead_values, redis_queue}
use infraforge.Queue.Group.{IsGroup}
use infraforge.Queue.Redis.Laws.{HeldIn}
use infraforge.Queue.Redis.Group.{redis_queue-IsGroup}
use infraforge.Queue.Redis.Memory.{streams, Pending, streams-IsStreams}
use infraforge.Queue.Redis.Roundtrip.{stored, dead_entry_from-written}

-- Streams that keep nothing, and write a time as one character.
abbrev idle : Streams Unit
idle = record {
  group_create = λ s g i w. (none, w);
  add = λ s n v w. (none, w);
  read_group = λ g c s from n b w. (ok [], w);
  auto_claim = λ s g c i f n w. (ok [], w);
  ack = λ s g i w. (none, w);
  range_n = λ s from to n w. (ok [], w);
  now = λ w. (7, w);
  format_time = λ t. t ∷ [];
  parse_time = λ s. elim s [ [] ↦ none | c ∷ _ ↦ some c ];
}

abbrev msg : Message
msg = record { id = txt "1-0"; job_id = txt "j1"; action = txt "provision" }

dead_entry_from-written_example :
    dead_entry_from idle
      (record { id = txt "2-0"; values = stored (dead_values idle msg (txt "boom") (pos 3) 7) })
    ≡ record {
      stream_id = txt "2-0";
      job_id = txt "j1";
      action = txt "provision";
      detail = txt "boom";
      attempts = pos 3;
      timestamp = 7;
    }
dead_entry_from-written_example =
    dead_entry_from-written idle (txt "2-0") msg (txt "boom") (pos 3) 7 (omega arith) refl

redis_queue-IsGroup_example :
    IsGroup (redis_queue (streams {S = Unit})) (HeldIn (streams {S = Unit}) (Pending {S = Unit}))
redis_queue-IsGroup_example =
    redis_queue-IsGroup (streams {S = Unit}) (Pending {S = Unit}) streams-IsStreams
