-- ===== src/Provisioner/Docker.antt =====
-- internal/provisioner/docker.go: the docker command line, and the helpers that call it. What a
-- command does is left to the world `W`.
use infraforge.Base.{
  ℕ, zero, suc, ◌+◌, Bool, true, false, Text, txt, List, [], ◌∷◌, ◌++◌, ℤ, Option, none, some,
  GoError, Result, ok, err, new_error, wrap, if◌then◌else◌, ltb, ◌==◌, to_lower, has_substring,
  trim_space, show_int,
}
use infraforge.Provisioner.Inspect.{Inspect}

-- A command that failed: the error, and what an `exec.ExitError` has of the standard error.
pub record Failure : Type 0 where
  pub error : GoError
  pub stderr : Option Text

-- What a command printed, and its failure.
pub record Ran : Type 0 where
  pub output : Text
  pub failure : Option Failure

pub record Docker (W : Type 0) : Type 0 where
  -- `exec.CommandContext(ctx, "docker", args...)` with `Output`, `CombinedOutput` and `Run`
  pub output : List Text → W → Ran × W
  pub combined_output : List Text → W → Ran × W
  pub run : List Text → W → Option GoError × W
  -- `json.Unmarshal` of what `docker inspect` prints
  pub decode_inspect : Text → Result (List Inspect)
  -- the status of an HTTP GET
  pub http_get : Text → W → Result ℕ × W
  pub random : ℕ → W → List ℕ × W
  pub now : W → ℕ × W
  -- `ctx.Err()`
  pub ctx_err : W → Option GoError × W
  -- the `select` on a timer and the context: `none` if the time has passed
  pub pause : ℕ → W → Option GoError × W
  -- the error for a port that is no number
  pub invalid_port : Text → GoError

-- How a call ends: it returns a value or an error, it panics, or the rounds that it was given are
-- used up.
pub data Outcome (A : Type 0) : Type 0 where
  returned : A → Outcome A
  failed : GoError → Outcome A
  panicked : Outcome A
  out_of_rounds : Outcome A

abbrev pub inspect_failed : Text → GoError → Text → GoError
inspect_failed name e stderr =
    wrap (txt "docker inspect " ++ (name ++ txt ": ")) e (txt ": " ++ trim_space stderr)

abbrev pub first_of : Result (List Inspect) → Result (Option Inspect)
first_of (err e) = err (wrap (txt "decode inspect: ") e [])
first_of (ok []) = ok none
first_of (ok (inf ∷ rest)) = ok (some inf)

-- A failed inspection: an object that is not there is no error.
unfoldable pub not_inspected : Text → Failure → Result (Option Inspect)
unfolding txt to_lower has_substring
not_inspected name f = elim f.stderr [
  | none ↦ err (inspect_failed name f.error [])
  | some stderr ↦
      if has_substring (to_lower stderr) (txt "no such")
      then ok none
      else err (inspect_failed name f.error stderr)
]

module _ {W : Type 0} (d : Docker W) where
  -- `none` is a container that is not there.
  unfoldable pub docker_inspect : Text → W → Result (Option Inspect) × W
  unfolding not_inspected txt
  docker_inspect name w =
      let (r, w) = d.output (txt "inspect" ∷ name ∷ []) w in
      elim r.failure [
        | some f ↦ (not_inspected name f, w)
        | none ↦ (first_of (d.decode_inspect r.output), w)
      ]

  unfoldable pub docker_start : Text → W → Option GoError × W
  unfolding txt
  docker_start name w =
      let (r, w) = d.combined_output (txt "start" ∷ name ∷ []) w in
      elim r.failure [
        | none ↦ (none, w)
        | some f ↦ (some (wrap (txt "docker start: ") f.error (txt ": " ++ trim_space r.output)), w)
      ]

  -- The loop of `waitForPostgres` and of `waitForHTTP`, for a number of rounds.
  unfoldable pub poll : (W → Bool × W) → ℕ → GoError → ℕ → ℕ → W → Outcome Unit × W
  poll ready step late deadline zero w = (out_of_rounds, w)
  poll ready step late deadline (suc rounds) w =
      let again = poll ready step late deadline rounds in
      let (cancelled, w) = d.ctx_err w in
      elim cancelled [
        | some e ↦ (failed e, w)
        | none ↦
            let (t, w) = d.now w in
            if ltb deadline t
            then (failed late, w)
            else let (is_ready, w) = ready w in
              if is_ready
              then (returned tt, w)
              else let (stopped, w) = d.pause step w in
                elim stopped [ some e ↦ (failed e, w) | none ↦ again w ]
      ]

  abbrev pub pg_ready : Text → Text → Text → W → Bool × W
  pg_ready name user db w =
      let (failure, w) =
        d.run
          (txt "exec"
            ∷ name
            ∷ txt "pg_isready"
            ∷ txt "-U"
            ∷ user
            ∷ txt "-d"
            ∷ db
            ∷ txt "-h"
            ∷ txt "127.0.0.1"
            ∷ txt "-q"
            ∷ [])
          w in
      (elim failure [ none ↦ true | some e ↦ false ], w)

  abbrev pub http_ready : Text → W → Bool × W
  http_ready url w =
      let (answer, w) = d.http_get url w in
      (elim answer [ err e ↦ false | ok status ↦ status == 200 ], w)

  -- A pause is 500 ms, or 200 ms for HTTP.
  unfoldable pub wait_for_postgres : ℕ → Text → Text → Text → ℕ → W → Outcome Unit × W
  unfolding poll txt
  wait_for_postgres rounds name user db timeout w =
      let (t, w) = d.now w in
      poll (pg_ready name user db) 500000000 (new_error (txt "pg_isready timed out for " ++ name))
        (t + timeout) rounds w

  unfoldable pub wait_for_http : ℕ → Text → ℤ → Text → ℕ → W → Outcome Unit × W
  unfolding poll txt
  wait_for_http rounds host port path timeout w =
      let (t, w) = d.now w in
      let url = txt "http://" ++ (host ++ (b':' ∷ (show_int port ++ path))) in
      poll (http_ready url) 200000000 (new_error (txt "http readiness timed out for " ++ url))
        (t + timeout) rounds w
