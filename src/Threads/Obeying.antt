-- ===== src/Threads/Obeying.antt =====
-- internal/worker/worker.go, internal/api/api.go: the code of the processes makes permitted calls.
pub mod Handling
pub mod Looping
pub mod Serving
pub mod Processes
