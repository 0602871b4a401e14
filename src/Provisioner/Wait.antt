-- ===== src/Provisioner/Wait.antt =====
-- internal/provisioner/docker.go: the readiness loops end.
use native.Mathlib.Nat.{suc-mul}
use infraforge.Base.{
  ℕ, zero, suc, ◌+◌, ◌*◌, ◌≤◌, ◌<◌, ◌≡◌, ◌≢◌, Bool, Text, ℤ, none, GoError, arith, List,
}
use infraforge.Provisioner.Docker.{
  Docker, out_of_rounds, poll, wait_for_postgres, wait_for_http, pg_ready, http_ready,
}

-- The clock of the world never goes back, and a pause that is not cut short takes its time.
pub record IsClock {W : Type 0} (d : Docker W) : Type 0 where
  pub time : W → ℕ
  pub now_time : (w : W) → (d.now w).0 ≡ time w
  pub now_later : (w : W) → time w ≤ time (d.now w).1
  pub ctx_later : (w : W) → time w ≤ time (d.ctx_err w).1
  pub run_later : (args : List Text) (w : W) → time w ≤ time (d.run args w).1
  pub http_later : (url : Text) (w : W) → time w ≤ time (d.http_get url w).1
  pub pause_later :
      (step : ℕ) (w : W) → (d.pause step w).0 ≡ none → time w + step ≤ time (d.pause step w).1

module _ {W : Type 0} (d : Docker W) (clock : IsClock d) where
  open clock use {time, now_time, now_later, ctx_later, run_later, http_later, pause_later}

  module _ (ready : W → Bool × W) (step : ℕ) (late : GoError) (deadline : ℕ)
      (ready_later : (w : W) → time w ≤ time (ready w).1) where
    poll_ends :
        (r : ℕ) (w : W)
        → deadline < time w + r * step
        → (poll d ready step late deadline (suc r) w).0 ≢ out_of_rounds
    unfolding poll
    poll_ends zero w room = let w1 = (d.ctx_err w).1 in ground (arith, ctx_later w, now_time w1)
    poll_ends (suc r) w room =
        let w1 = (d.ctx_err w).1 in
        let w2 = (d.now w1).1 in
        let w3 = (ready w2).1 in
        let w4 = (d.pause step w3).1 in
        ground (
          arith,
          ctx_later w,
          now_time w1,
          now_later w1,
          ready_later w2,
          pause_later step w3,
          suc-mul r step,
          poll_ends r w4,
        )

  -- `waitForPostgres` ends within so many rounds that their pauses exceed the timeout, if the clock
  -- does not go back and a pause takes its time.
  pub wait_for_postgres_ends :
      (r : ℕ) (name user db : Text) (timeout : ℕ) (w : W)
      → timeout < r * 500000000
      → (wait_for_postgres d (suc r) name user db timeout w).0 ≢ out_of_rounds
  unfolding wait_for_postgres
  wait_for_postgres_ends r name user db timeout w room =
      poll_ends (pg_ready d name user db) 500000000 _ _ (λ v. run_later _ v) r (d.now w).1
        (omega (arith, now_time w, now_later w))

  -- The same for `waitForHTTP`.
  pub wait_for_http_ends :
      (r : ℕ) (host : Text) (port : ℤ) (path : Text) (timeout : ℕ) (w : W)
      → timeout < r * 200000000
      → (wait_for_http d (suc r) host port path timeout w).0 ≢ out_of_rounds
  unfolding wait_for_http
  wait_for_http_ends r host port path timeout w room =
      poll_ends (http_ready d _) 200000000 _ _ (λ v. http_later _ v) r (d.now w).1
        (omega (arith, now_time w, now_later w))
