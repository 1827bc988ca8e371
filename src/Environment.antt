-- ===== src/Environment.antt =====
-- The environment of a server: virtual/environment.go. What it checks before it runs an actor, where
-- it sends a call, and how its heartbeats and the registry's versions work together.
pub mod State
pub mod Checks
pub mod Options
pub mod Routing
pub mod Beating
pub mod Discovered
pub mod Accepting
mod Tests
