-- ===== src/Provisioner.antt =====
-- internal/provisioner/provisioner.go: the `Provisioner` interface, over a world `W`.
pub mod Classify
pub mod Naming
pub mod Inspect
pub mod Docker
pub mod Wait
pub mod Arguments
pub mod Shell
pub mod Trace
pub mod Commands
pub mod Creates
pub mod Ends
pub mod Permanent
pub mod Removal
pub mod Credentials
mod Tests
use infraforge.Base.{Option, GoError, Result}
use infraforge.Model.{Job, ConnectionInfo, HttpEndpoint}

-- What `Provision` returns.
pub record Resources : Type 0 where
  pub connection : ConnectionInfo
  pub http : HttpEndpoint

pub record Provisioner (W : Type 0) : Type 0 where
  pub provision : Job → W → Result Resources × W
  pub deprovision : Job → W → Option GoError × W
