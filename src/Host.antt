-- ===== src/Host.antt =====
-- What an actor may ask of its host: virtual/host_capabilities.go. The transaction of an invocation
-- is begun only when the actor first uses its storage.
pub mod Lazy
pub mod Transacting
pub mod Registered
pub mod Tests
