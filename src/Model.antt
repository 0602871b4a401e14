-- ===== src/Model.antt =====
-- internal/model/model.go: the job record that broker, queue and worker share. A time is its
-- number of nanoseconds.
use infraforge.Base.{ℕ, Option, Text, txt, ℤ, Bool, true, false}

pub data Status : Type 0 where
  pending provisioning ready failed deleting deleted : Status

-- `ResourceType` is a string that a client sends.
abbrev pub ResourceType : Type 0
ResourceType = Text

unfoldable pub resource_postgres : ResourceType
unfolding txt
resource_postgres = txt "postgres"

pub record ProvisionRequest : Type 0 where
  pub service_name : Text
  pub resource : ResourceType

pub record ConnectionInfo : Type 0 where
  pub host : Text
  pub port : ℤ
  pub username : Text
  pub password : Text
  pub database : Text

pub record HttpEndpoint : Type 0 where
  pub host : Text
  pub port : ℤ

pub record Job : Type 0 where
  pub id : Text
  pub service_name : Text
  pub resource : ResourceType
  pub status : Status
  pub detail : Text
  pub attempts : ℤ
  pub connection : Option ConnectionInfo
  pub http : Option HttpEndpoint
  pub created_at : ℕ
  pub updated_at : ℕ

abbrev pub same_status : Status → Status → Bool
same_status pending pending = true
same_status provisioning provisioning = true
same_status ready ready = true
same_status failed failed = true
same_status deleting deleting = true
same_status deleted deleted = true
same_status _ _ = false
