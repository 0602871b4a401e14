-- ===== src/Command/BrokerMain.antt =====
-- cmd/broker/main.go: the broker's process.
use infraforge.Base.{true, false, List, [], ◌∷◌, Option, none, some, ℕ, Text, txt, List}
use infraforge.Store.Redis.{Codec, redis_store}
use infraforge.Queue.Redis.{redis_queue}
use infraforge.Api.{Server}
use infraforge.Command.{
  Event, http_ended, grpc_ended, told_to_stop, Os, env_or, Outcome, runs, Connection, connected,
}

-- What is listened on, and the handlers.
pub record Broker (W : Type 0) : Type 0 where
  pub addr : Text
  pub server : Server W

module _ {W : Type 0} (os : Os) (dial : Text → Connection W) (codec : Codec) (rounds : ℕ)
    (now : W → ℕ × W) (random : ℕ → W → List ℕ × W) where
  unfoldable pub broker : Broker W
  unfolding env_or txt
  broker =
      let redis = dial (env_or os (txt "REDIS_ADDR") (txt "localhost:6379")) in
      record {
        addr = env_or os (txt "BROKER_ADDR") (txt ":8080");
        server = record {
          store = redis_store redis.keys codec rounds;
          queue = redis_queue redis.streams;
          now = now;
          random = random;
        };
      }

  -- `main` up to the listener.
  unfoldable pub boot : W → Outcome (Broker W) × W
  unfolding connected broker env_or txt
  boot w =
      connected (dial (env_or os (txt "REDIS_ADDR") (txt "localhost:6379"))) (λ w. (runs broker, w))
        w

-- `main` from the listener on: the code that the process exits with, `none` as long as it serves.
unfoldable pub serve_until : List Event → Option ℕ
serve_until [] = none
serve_until (told_to_stop ∷ events) = some 0
serve_until (http_ended true ∷ events) = serve_until events
serve_until (http_ended false ∷ events) = some 1
serve_until (grpc_ended e ∷ events) = serve_until events
