-- ===== src/Xds.antt =====
-- The xDS control plane: the registry of service endpoints and the Envoy configuration built from
-- it, and the reconciler that keeps the registry in step with the broker's job inventory.
pub mod Envoy
pub mod Registry
pub mod Reconciler
pub mod Interleaving
mod Tests
