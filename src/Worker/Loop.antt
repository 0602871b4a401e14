-- ===== src/Worker/Loop.antt =====
-- internal/worker/worker.go: `Run` and `reclaimLoop`.
use infraforge.Base.{
  ℕ, zero, suc, Bool, List, [], ◌∷◌, pos, Option, none, some, Result, ok, err, if◌then◌else◌, ltb_ℤ,
}
use infraforge.Queue.{Message}
use infraforge.Worker.{Worker, Settings, apply_defaults, handle}

-- The context of a loop, and the pause of `sleep`, which the end of the context cuts short.
pub record Context (W : Type 0) : Type 0 where
  pub ended : W → Bool × W
  pub sleep : ℕ → W → W

-- Whether a loop goes on.
pub data Flow : Type 0 where
  goes_on stops : Flow

-- What wakes the reclaim loop: the ticker, or the end of the context.
pub data Signal : Type 0 where
  ticked done : Signal

module _ {W : Type 0} (c : Context W) (k : Worker W) where
  -- `ctx.Err() != nil` after a failed call: the loop stops, or goes on with `rest`.
  abbrev pub unless_ended : (W → W) → W → Flow × W
  unless_ended rest w = let (e, w) = c.ended w in if e then (stops, w) else (goes_on, rest w)

  abbrev pub received : Result (Option Message) → W → Flow × W
  received (err e) w = unless_ended (λ w. c.sleep 1000000000 w) w
  received (ok none) w = (goes_on, w)
  received (ok (some msg)) w = (goes_on, handle k msg w)

  -- One round of the loop of `Run`.
  unfoldable pub turn : W → Flow × W
  unfolding handle
  turn w =
      let (e, w) = c.ended w in
      if e
      then (stops, w)
      else let (got, w) = k.queue.dequeue k.name k.block_timeout w in received got w

  -- The loop over the messages that were taken over.
  unfoldable pub handle_all : List Message → W → Flow × W
  unfolding handle
  handle_all [] w = (goes_on, w)
  handle_all (msg ∷ msgs) w =
      let (e, w) = c.ended w in if e then (stops, w) else handle_all msgs (handle k msg w)

  abbrev pub taken_over : Result (List Message) → W → Flow × W
  taken_over (err e) w = unless_ended (λ w. w) w
  taken_over (ok msgs) w = handle_all msgs w

  -- One tick of `reclaimLoop`.
  unfoldable pub tick : W → Flow × W
  unfolding handle_all
  tick w = let (got, w) = k.queue.reclaim k.name k.reclaim_min_idle (pos 16) w in taken_over got w

  -- The loop of `Run` for some rounds, or until it stops.
  unfoldable pub run_loop : ℕ → W → Flow × W
  unfolding turn
  run_loop zero w = (goes_on, w)
  run_loop (suc rounds) w =
      let (f, w) = turn w in elim f [ stops ↦ (stops, w) | goes_on ↦ run_loop rounds w ]

  unfoldable pub reclaim_rounds : List Signal → W → Flow × W
  unfolding tick
  reclaim_rounds [] w = (goes_on, w)
  reclaim_rounds (done ∷ wakes) w = (stops, w)
  reclaim_rounds (ticked ∷ wakes) w =
      let (f, w) = tick w in elim f [ stops ↦ (stops, w) | goes_on ↦ reclaim_rounds wakes w ]

  -- `reclaimLoop`: `none` for the panic of `time.NewTicker`, which wants a positive interval.
  unfoldable pub reclaim_loop : List Signal → W → Option (Flow × W)
  unfolding reclaim_rounds
  reclaim_loop wakes w =
      if ltb_ℤ (pos 0) k.reclaim_every then some (reclaim_rounds wakes w) else none

-- `Run` of the consuming goroutine.
unfoldable pub run : {W : Type 0} → Context W → Settings W → ℕ → W → Flow × W
run c s rounds w = run_loop c (apply_defaults s) rounds w
