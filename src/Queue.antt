-- ===== src/Queue.antt =====
-- internal/queue/queue.go: the messages and the `Queue` interface, over a world `W`.
pub mod Group
pub mod Redis
use infraforge.Base.{ℕ, ℤ, Text, txt, Option, List, GoError, Result}

-- An action is a string that comes from the stream.
abbrev pub Action : Type 0
Action = Text

unfoldable pub action_provision : Action
unfolding txt
action_provision = txt "provision"

unfoldable pub action_deprovision : Action
unfolding txt
action_deprovision = txt "deprovision"

pub record Message : Type 0 where
  pub id : Text
  pub job_id : Text
  pub action : Action

pub record DeadEntry : Type 0 where
  pub stream_id : Text
  pub job_id : Text
  pub action : Action
  pub detail : Text
  pub attempts : ℤ
  pub timestamp : ℕ

-- Durations are numbers of nanoseconds.
pub record Queue (W : Type 0) : Type 0 where
  pub enqueue : Text → Action → W → Option GoError × W
  pub dequeue : Text → ℤ → W → Result (Option Message) × W
  pub reclaim : Text → ℤ → ℤ → W → Result (List Message) × W
  pub ack : Message → W → Option GoError × W
  pub dead_letter : Message → Text → ℤ → W → Option GoError × W
  pub list_dead : ℤ → W → Result (List DeadEntry) × W
