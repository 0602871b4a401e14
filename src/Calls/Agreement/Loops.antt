-- ===== src/Calls/Agreement/Loops.antt =====
-- internal/worker/worker.go: the loops as trees of calls, and as they are written.
use infraforge.Base.{◌≡◌, refl, ◌∙◌, arith, ℕ, zero, suc, List, [], ◌∷◌, Bool, true, false}
use infraforge.Queue.{Message}
use infraforge.Worker.{Worker, handle}
use infraforge.Worker.Loop.{
  Context, Flow, goes_on, stops, Signal, ticked, done, turn, run_loop, handle_all, tick,
  reclaim_rounds,
}
use infraforge.System.{Setup, worker_of}
use infraforge.Calls.{Services, Code, perform}
use infraforge.Calls.Looping.{consuming, handling_all, reclaiming}
use infraforge.Calls.Agreement.{handling-perform}

-- The services as the worker of that setup has them.
abbrev pub services_of : {W : Type 0} → Services W → Setup → Services W
services_of s u = record s { k = worker_of s.k u }

module _ {W : Type 0} (s : Services W) (u : Setup) where
  abbrev k : Worker W
  k = worker_of s.k u

  abbrev c : Context W
  c = s.context u.name

  pub consuming-perform :
      (rounds : ℕ) (w : W)
      → perform (services_of s u) (consuming u rounds) w ≡ run_loop c k rounds w
  unfolding consuming run_loop turn
  consuming-perform zero w = refl
  consuming-perform (suc rounds) w = grind (arith, consuming-perform rounds, handling-perform)

  after : Code Flow → Flow × W → Flow × W
  after rest (stops, w) = (stops, w)
  after rest (goes_on, w) = perform (services_of s u) rest w

  handling_all-perform :
      (msgs : List Message) (rest : Code Flow) (w : W)
      → perform (services_of s u) (handling_all u msgs rest) w ≡ after rest (handle_all c k msgs w)
  unfolding handling_all handle_all after
  handling_all-perform [] rest w = refl
  handling_all-perform (msg ∷ msgs) rest w =
      by_flag (handling_all-perform msgs rest) (c.ended w) refl
    where
      by_flag :
          ((w : W)
            → perform (services_of s u) (handling_all u msgs rest) w
              ≡ after rest (handle_all c k msgs w))
          → (r : Bool × W) → c.ended w ≡ r
          → perform (services_of s u) (handling_all u (msg ∷ msgs) rest) w
            ≡ after rest (handle_all c k (msg ∷ msgs) w)
      by_flag ih (true, w') eq = rw (eq, perform) refl
      by_flag ih (false, w') eq =
          rw (eq, perform, after)
            (handling-perform (services_of s u) (handling_all u msgs rest) msg w'
              ∙ ih (handle k msg w'))

  pub reclaiming-perform :
      (wakes : List Signal) (w : W)
      → perform (services_of s u) (reclaiming u wakes) w ≡ reclaim_rounds c k wakes w
  unfolding reclaiming reclaim_rounds tick after
  reclaiming-perform [] w = refl
  reclaiming-perform (done ∷ wakes) w = refl
  reclaiming-perform (ticked ∷ wakes) w =
      grind (arith, reclaiming-perform wakes, handling_all-perform)
