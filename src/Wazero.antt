-- ===== src/Wazero.antt =====
-- What WASM actors ask of their host: virtual/wazero.go.
pub mod Router
pub mod Calling
pub mod Timers
mod Tests
