-- ===== src/Threads/Records.antt =====
-- internal/worker/worker.go, internal/api/api.go: the job records that the processes write, whoever
-- else writes them.
pub mod Handling
pub mod Looping
pub mod Serving
pub mod Always
pub mod Routed
mod Tests
use infraforge.Base.{◌≡◌, ◌≢◌, Text, [], List, Option, none, some, Result, ok, err, pos, All}
use infraforge.Model.{
  Job, ConnectionInfo, HttpEndpoint, Status, pending, ready, deleted, resource_postgres,
}
use infraforge.Calls
use infraforge.Calls.{Call, put, get, Reply, Code, done, call}

-- What a broker has checked.
abbrev pub IsGenuine : Job → Type 0
IsGenuine j = (j.service_name ≢ []) × (j.resource ≡ resource_postgres)

-- A ready job can be reached, and one that is new or removed has no address.
pub record IsWellFormed (j : Job) : Type 0 where
  pub genuine : IsGenuine j
  pub reachable :
      j.status ≡ ready
      → (c : ConnectionInfo) × (h : HttpEndpoint) × (j.connection ≡ some c) × (j.http ≡ some h)
  pub removed : j.status ≡ deleted → (j.connection ≡ none) × (j.http ≡ none)
  pub new : j.status ≡ pending → (j.connection ≡ none) × (j.http ≡ none) × (j.attempts ≡ pos 0)

-- The record that a call writes.
abbrev pub IsWellWritten : Call → Type 0
IsWellWritten (put j) = IsWellFormed j
IsWellWritten _ = Unit

-- The record that a call returns.
abbrev pub IsWellRead : (c : Call) → Reply c → Type 0
IsWellRead (get id) (ok j) = IsWellFormed j
IsWellRead _ r = Unit

-- If the records that it reads are well-formed, then so are those that it writes.
abbrev pub WritesWell : {A : Type 0} → Code A → Type 0
WritesWell (done a) = Unit
WritesWell (call c rest) = IsWellWritten c × ((r : Reply c) → IsWellRead c r → WritesWell (rest r))
