-- ===== src/Calls/Looping.antt =====
-- internal/worker/worker.go: `Run` and `reclaimLoop`, as the tree of their calls.
use infraforge.Base.{ℕ, zero, suc, List, [], ◌∷◌, pos, none, some, ok, err, if◌then◌else◌}
use infraforge.Queue.{Message}
use infraforge.Worker.Loop.{Flow, goes_on, stops, Signal, ticked}
use infraforge.System.{Setup}
use infraforge.Calls.{dequeue, reclaim, ended, sleep, Code, call}
use infraforge.Calls.Handling.{handling}

module _ (s : Setup) where
  -- `ctx.Err() != nil` after a failed call
  abbrev pub unless_over : Code Flow → Code Flow
  unless_over rest = call (ended s.name) (λ e. if e then Code.done stops else rest)

  -- The loop of `Run` for some rounds.
  unfoldable pub consuming : ℕ → Code Flow
  unfolding handling
  consuming zero = Code.done goes_on
  consuming (suc rounds) = unless_over (
      call (dequeue s.name s.block_timeout) (λ got. elim got [
        | err e ↦ unless_over (call (sleep s.name 1000000000) (λ _. consuming rounds))
        | ok found ↦ elim found [
          | none ↦ consuming rounds
          | some msg ↦ handling s.max_attempts msg (consuming rounds)
        ]
      ]))

  -- The messages that were taken over, one after another.
  unfoldable pub handling_all : List Message → Code Flow → Code Flow
  unfolding handling
  handling_all [] rest = rest
  handling_all (msg ∷ msgs) rest =
      unless_over (handling s.max_attempts msg (handling_all msgs rest))

  -- `reclaimLoop`
  unfoldable pub reclaiming : List Signal → Code Flow
  unfolding handling_all
  reclaiming [] = Code.done goes_on
  reclaiming (Signal.done ∷ wakes) = Code.done stops
  reclaiming (ticked ∷ wakes) = call (reclaim s.name s.reclaim_min_idle (pos 16)) (λ got. elim got [
    | err e ↦ unless_over (reclaiming wakes)
    | ok msgs ↦ handling_all msgs (reclaiming wakes)
  ])
