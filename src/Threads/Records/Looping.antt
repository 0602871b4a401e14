-- ===== src/Threads/Records/Looping.antt =====
-- internal/worker/worker.go: the records that the loops write.
use infraforge.Base.{
  ℕ, zero, suc, Bool, true, false, if◌then◌else◌, [], ◌∷◌, List, Option, none, some, Result, ok,
  err,
}
use infraforge.Queue.{Message}
use infraforge.Worker.Loop.{Flow, stops, Signal, ticked, done}
use infraforge.System.{Setup}
use infraforge.Calls.{sleep, Code, call}
use infraforge.Calls.Handling.{handling}
use infraforge.Calls.Looping.{unless_over, consuming, handling_all, reclaiming}
use infraforge.Threads.Records.{WritesWell}
use infraforge.Threads.Records.Handling.{handling-WritesWell}

module _ (s : Setup) where
  unless_over-WritesWell : (rest : Code Flow) → WritesWell rest → WritesWell (unless_over s rest)
  unless_over-WritesWell rest h = (tt, λ e _. by_flag e)
    where
      by_flag : (e : Bool) → WritesWell (if e then Code.done stops else rest)
      by_flag true = tt
      by_flag false = h

  received-WritesWell :
      (got : Result (Option Message)) (next : Code Flow)
      → WritesWell next
      → WritesWell (elim got [
        | err e ↦ unless_over s (call (sleep s.name 1000000000) (λ _. next))
        | ok found ↦ elim found [ none ↦ next | some msg ↦ handling s.max_attempts msg next ]
      ])
  received-WritesWell (err e) next h = unless_over-WritesWell _ (tt, λ _ _. h)
  received-WritesWell (ok none) next h = h
  received-WritesWell (ok (some msg)) next h = handling-WritesWell next h msg s.max_attempts

  pub consuming-WritesWell : (rounds : ℕ) → WritesWell (consuming s rounds)
  unfolding consuming
  consuming-WritesWell zero = tt
  consuming-WritesWell (suc rounds) =
      unless_over-WritesWell _
        (tt, λ got _. received-WritesWell got (consuming s rounds) (consuming-WritesWell rounds))

  handling_all-WritesWell :
      (msgs : List Message) (rest : Code Flow)
      → WritesWell rest
      → WritesWell (handling_all s msgs rest)
  unfolding handling_all
  handling_all-WritesWell [] rest h = h
  handling_all-WritesWell (msg ∷ msgs) rest h = unless_over-WritesWell _ (
      handling-WritesWell (handling_all s msgs rest) (handling_all-WritesWell msgs rest h) msg
        s.max_attempts)

  taken_over-WritesWell :
      (got : Result (List Message)) (next : Code Flow)
      → WritesWell next
      → WritesWell (elim got [ err e ↦ unless_over s next | ok msgs ↦ handling_all s msgs next ])
  taken_over-WritesWell (err e) next h = unless_over-WritesWell next h
  taken_over-WritesWell (ok msgs) next h = handling_all-WritesWell msgs next h

  pub reclaiming-WritesWell : (wakes : List Signal) → WritesWell (reclaiming s wakes)
  unfolding reclaiming
  reclaiming-WritesWell [] = tt
  reclaiming-WritesWell (done ∷ wakes) = tt
  reclaiming-WritesWell (ticked ∷ wakes) =
      (tt, λ got _. taken_over-WritesWell got (reclaiming s wakes) (reclaiming-WritesWell wakes))
