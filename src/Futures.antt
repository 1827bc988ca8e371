-- ===== src/Futures.antt =====
-- Futures: virtual/futures/futures.go.
pub mod State
pub mod Settling
