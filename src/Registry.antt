-- ===== src/Registry.antt =====
-- The registry: virtual/registry/kv_registry.go over a key-value store. The definitions stand in
-- `State`, `Servers`, `Actors`, `Activation`, `Storage`
-- and `Modules`, the proofs in the other modules.
pub mod State
pub mod Servers
pub mod Actors
pub mod Activation
pub mod Storage
pub mod Modules
pub mod Keys
pub mod Records
pub mod Stamps
pub mod Placing
pub mod Fencing
pub mod LateHeartbeat
pub mod Balance
pub mod Isolation
pub mod Writing
pub mod Tests
