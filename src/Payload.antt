-- ===== src/Payload.antt =====
-- The payload of a PUT of an actor: wapcutils/kv.go, with the varints of encoding/binary.
pub mod Encoding
pub mod RoundTrip
pub mod Splitting
mod Tests
