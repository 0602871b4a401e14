-- ===== src/Command.antt =====
-- cmd/worker/main.go, cmd/broker/main.go, cmd/xds/main.go, cmd/echo/main.go: how the processes start,
-- up to their loops. The environment and what is dialled are arguments; log lines are left out.
pub mod WorkerMain
pub mod BrokerMain
pub mod XdsMain
pub mod EchoMain
mod Tests
use infraforge.Base.{
  Bool, ℕ, Text, txt, [], ℤ, Option, none, some, GoError, Result, ok, err, if◌then◌else◌, text_eq,
}
use infraforge.Base.Dict
use infraforge.Base.Dict.{Dict}
use infraforge.Queue.Redis.{Streams, ensure_group}
use infraforge.Store.Redis.{Redis}

-- What the process asks of its system, and `time.ParseDuration`, in nanoseconds.
pub record Os : Type 0 where
  pub variables : Dict Text
  pub hostname : Result Text
  pub parse_duration : Text → Option ℤ

abbrev value_or_empty : Option Text → Text
value_or_empty none = []
value_or_empty (some v) = v

-- `os.Getenv`
unfoldable pub getenv : Os → Text → Text
getenv os k = value_or_empty (Dict.lookup k os.variables)

unfoldable pub env_or : Os → Text → Text → Text
unfolding getenv
env_or os k def = let v = getenv os k in if text_eq v [] then def else v

abbrev pub duration_or : Option ℤ → ℤ → ℤ
duration_or none def = def
duration_or (some d) def = d

unfoldable pub env_dur : Os → Text → ℤ → ℤ
unfolding getenv
env_dur os k def =
    let v = getenv os k in if text_eq v [] then def else duration_or (os.parse_duration v) def

unfoldable pub host_name : Os → Text
unfolding txt
host_name os = elim os.hostname [ ok h ↦ h | err e ↦ txt "worker" ]

-- The process exits with a code, or goes on with what it has set up.
pub data Outcome (A : Type 0) : Type 0 where
  exits : ℕ → Outcome A
  runs : A → Outcome A

-- A client of Redis.
pub record Connection (W : Type 0) : Type 0 where
  pub ping : W → Option GoError × W
  pub streams : Streams W
  pub keys : Redis W

module _ {W A : Type 0} (c : Connection W) where
  -- The checks that the worker and the broker begin with: Redis answers, and the group exists.
  unfoldable pub connected : (W → Outcome A × W) → W → Outcome A × W
  unfolding ensure_group
  connected go w =
      let (failure, w) = c.ping w in
      elim failure [
        | some e ↦ (exits 1, w)
        | none ↦
            let (failure, w) = ensure_group c.streams w in
            elim failure [ some e ↦ (exits 1, w) | none ↦ go w ]
      ]

-- What happens to a process while it serves: its HTTP server ends, closed by a shutdown or not, its
-- gRPC server ends, or it is told to stop.
pub data Event : Type 0 where
  http_ended : (closed : Bool) → Event
  grpc_ended : Option GoError → Event
  told_to_stop : Event
