-- ===== src/Queue/Group.antt =====
-- internal/queue/queue.go: what the comments on `Queue` promise, a stream with a consumer group. A
-- message is held from its enqueueing to its ack, wherever it is: waiting, or delivered.
use infraforge.Base.{◌≡◌, ◌≢◌, ℤ, Text, [], none, some, List, ◌∷◌, ok, All}
use infraforge.Queue.{Message, Action, Queue}

-- The messages have different ids.
abbrev pub IsApart : List Message → Type 0
IsApart [] = Unit
IsApart (m ∷ ms) = All (λ n. n.id ≢ m.id) ms × IsApart ms

pub record IsGroup {W : Type 0} (q : Queue W) (Held : Message → W → Type 0) : Type 0 where
  -- an id is given to one message
  pub unique : (m n : Message) (w : W) → Held m w → Held n w → m.id ≡ n.id → m ≡ n
  pub enqueued :
      (job_id : Text) (a : Action) (w : W)
      → a ≢ []
      → (q.enqueue job_id a w).0 ≡ none
      → (m : Message) × Held m (q.enqueue job_id a w).1 × (m.job_id ≡ job_id) × (m.action ≡ a)
  pub dequeued :
      (c : Text) (b : ℤ) (w : W) (m : Message)
      → (q.dequeue c b w).0 ≡ ok (some m)
      → Held m (q.dequeue c b w).1
  pub reclaimed :
      (c : Text) (i n : ℤ) (w : W) (ms : List Message)
      → (q.reclaim c i n w).0 ≡ ok ms
      → IsApart ms × All (λ m. Held m (q.reclaim c i n w).1) ms
  pub Held-enqueue :
      (m : Message) (job_id : Text) (a : Action) (w : W)
      → Held m w
      → Held m (q.enqueue job_id a w).1
  pub Held-dequeue :
      (m : Message) (c : Text) (b : ℤ) (w : W) → Held m w → Held m (q.dequeue c b w).1
  pub Held-reclaim :
      (m : Message) (c : Text) (i n : ℤ) (w : W) → Held m w → Held m (q.reclaim c i n w).1
  -- an ack lets go of its own message only
  pub Held-ack : (m n : Message) (w : W) → m.id ≢ n.id → Held m w → Held m (q.ack n w).1
  pub Held-dead_letter :
      (m n : Message) (d : Text) (a : ℤ) (w : W) → Held m w → Held m (q.dead_letter n d a w).1
  pub Held-list_dead : (m : Message) (n : ℤ) (w : W) → Held m w → Held m (q.list_dead n w).1
