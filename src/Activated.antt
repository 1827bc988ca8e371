-- ===== src/Activated.antt =====
-- One activated actor: `activatedActor` of virtual/activations.go.
pub mod State
pub mod Closing
pub mod Answering
mod Tests
