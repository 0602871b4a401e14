-- ===== src/Calls/Agreement/Processes.antt =====
-- internal/worker/worker.go, internal/api/api.go: what a process does when no other one runs.
use infraforge.Base.{ℕ, ◌≡◌, List}
use infraforge.Api.{Request, serve}
use infraforge.Worker.Loop.{Signal, run_loop, reclaim_rounds}
use infraforge.System.{Setup, broker, worker_of}
use infraforge.Calls.{Services, perform}
use infraforge.Calls.Looping.{consuming, reclaiming}
use infraforge.Calls.Serving.{serving}
use infraforge.Calls.Agreement.Loops.{services_of, consuming-perform, reclaiming-perform}
use infraforge.Calls.Agreement.Requests.{serving-perform}

module _ {W : Type 0} (s : Services W) where
  -- The calls of a request, of the rounds of `Run` and of the ticks of `reclaimLoop`, made one after
  -- another with no call of another process in between, leave the same world and return the same as
  -- the handler and the loops themselves, whatever the services reply and in every world.
  pub performed_as_written :
      (r : Request) (u : Setup) (rounds : ℕ) (wakes : List Signal) (w : W)
      → (perform s (serving r) w ≡ serve (broker s.k s.random_bytes) r w)
        × (perform (services_of s u) (consuming u rounds) w
            ≡ run_loop (s.context u.name) (worker_of s.k u) rounds w)
        × (perform (services_of s u) (reclaiming u wakes) w
            ≡ reclaim_rounds (s.context u.name) (worker_of s.k u) wakes w)
  performed_as_written r u rounds wakes w =
      (serving-perform s r w, consuming-perform s u rounds w, reclaiming-perform s u wakes w)
