-- ===== src/Threads/Effects.antt =====
-- internal/worker/worker.go, internal/api/api.go: a permitted call keeps the invariant, and leaves the
-- other processes alone.
pub mod Writing
pub mod Acking
pub mod Sending
pub mod Asking
pub mod Answering
