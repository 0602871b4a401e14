-- ===== src/XdsClient.antt =====
-- internal/xdsclient/client.go: the `Client` interface, over a world `W`, and the client that does
-- nothing.
pub mod Http
use infraforge.Base.{ℤ, Text, Option, none, GoError}

pub record Client (W : Type 0) : Type 0 where
  pub register : Text → Text → ℤ → W → Option GoError × W
  pub unregister : Text → Text → ℤ → W → Option GoError × W

abbrev pub noop : {W : Type 0} → Client W
noop = record {
  register = λ service host port w. (none, w);
  unregister = λ service host port w. (none, w);
}
