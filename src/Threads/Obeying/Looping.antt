-- ===== src/Threads/Obeying/Looping.antt =====
-- internal/worker/worker.go: the loops make permitted calls.
use infraforge.Base.{
  ℕ, zero, suc, ◌≢◌, refl, Bool, true, false, inl, inr, if◌then◌else◌, pos, List, [], ◌∷◌, Among,
  Among-All, Option, none, some, Result, ok, err,
}
use infraforge.Queue.{Message}
use infraforge.Queue.Group.{IsApart}
use infraforge.Worker.Loop.{Flow, stops, Signal, ticked, done}
use infraforge.System.{Setup}
use infraforge.Calls.{dequeue, reclaim, sleep, Code, call}
use infraforge.Calls.Handling.{handling}
use infraforge.Calls.Looping.{unless_over, consuming, handling_all, reclaiming}
use infraforge.Threads.{Mind, learn}
use infraforge.Threads.Discipline.{Obeys, IsReply}
use infraforge.Threads.Obeying.Handling.{handling-Obeys}

module _ (s : Setup) where
  unless_over-Obeys : (m : Mind) (rest : Code Flow) → Obeys m rest → Obeys m (unless_over s rest)
  unless_over-Obeys m rest h = (tt, λ e _. by_flag e)
    where
      by_flag : (e : Bool) → Obeys m (if e then Code.done stops else rest)
      by_flag true = tt
      by_flag false = h

  received-Obeys :
      (m : Mind) (got : Result (Option Message)) (next : Code Flow)
      → ((m : Mind) → Obeys m next)
      → Obeys (learn (dequeue s.name s.block_timeout) got m) (elim got [
        | err e ↦ unless_over s (call (sleep s.name 1000000000) (λ _. next))
        | ok found ↦ elim found [ none ↦ next | some msg ↦ handling s.max_attempts msg next ]
      ])
  received-Obeys m (err e) next h = unless_over-Obeys m _ (tt, λ _ _. h m)
  received-Obeys m (ok none) next h = h m
  received-Obeys m (ok (some msg)) next h =
      handling-Obeys msg next s.max_attempts _ (inl refl) (λ m' _. h m')

  pub consuming-Obeys : (rounds : ℕ) (m : Mind) → Obeys m (consuming s rounds)
  unfolding consuming
  consuming-Obeys zero m = tt
  consuming-Obeys (suc rounds) m =
      unless_over-Obeys m _
        (tt, λ got _. received-Obeys m got (consuming s rounds) (consuming-Obeys rounds))

  -- The messages have different ids, and are at hand.
  handling_all-Obeys :
      (msgs : List Message) (m : Mind) (rest : Code Flow)
      → IsApart msgs
      → ((n : Message) → Among msgs n → Among m.hand n)
      → ((m : Mind) → Obeys m rest)
      → Obeys m (handling_all s msgs rest)
  unfolding handling_all
  handling_all-Obeys [] m rest apart here h = h m
  handling_all-Obeys (msg ∷ msgs) m rest apart here h = unless_over-Obeys m _ (
      handling-Obeys msg (handling_all s msgs rest) s.max_attempts m (here msg (inl refl))
        (λ m' others.
          handling_all-Obeys msgs m' rest apart.1
            (λ n a. others n (Among-All (λ x. x.id ≢ msg.id) msgs apart.0 n a) (here n (inr a))) h))

  taken_over-Obeys :
      (m : Mind) (got : Result (List Message)) (next : Code Flow)
      → IsReply (reclaim s.name s.reclaim_min_idle (pos 16)) got
      → ((m : Mind) → Obeys m next)
      → Obeys
          (learn (reclaim s.name s.reclaim_min_idle (pos 16)) got m)
          (elim got [ err e ↦ unless_over s next | ok msgs ↦ handling_all s msgs next ])
  taken_over-Obeys m (err e) next apart h = unless_over-Obeys m next (h m)
  taken_over-Obeys m (ok msgs) next apart h = handling_all-Obeys msgs _ next apart (λ n a. a) h

  pub reclaiming-Obeys : (wakes : List Signal) (m : Mind) → Obeys m (reclaiming s wakes)
  unfolding reclaiming
  reclaiming-Obeys [] m = tt
  reclaiming-Obeys (done ∷ wakes) m = tt
  reclaiming-Obeys (ticked ∷ wakes) m =
      (tt, λ got apart. taken_over-Obeys m got (reclaiming s wakes) apart (reclaiming-Obeys wakes))
