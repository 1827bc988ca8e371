-- ===== src/Semaphore.antt =====
-- The semaphore actor: examples/semaphore/main.go. A request holds one unit of each of its keys
-- until it is released or its time is over. Payloads are decoded requests, and the deadline of a
-- request is an argument: what `time.Now().Add` answers.
pub mod State
pub mod Counting
pub mod Acquiring
pub mod Invariant
pub mod Returning
pub mod Reachable
pub mod Tests
