-- ===== src/Activations.antt =====
-- The actors that are in memory: virtual/activations.go. Calls of `invoke` run as goroutines, whose
-- critical sections are the steps; `Running` interleaves them with the garbage collection.
pub mod State
pub mod Invariant
pub mod Stages
pub mod Entries
pub mod Installing
pub mod Running
pub mod Frames
pub mod Knowing
pub mod Safety
pub mod Opening
pub mod Deadlock
pub mod Tests
