-- ===== src/Validator.antt =====
-- The validation of arguments before each call of the registry: virtual/registry/validator.go.
pub mod Strings
pub mod Calls
pub mod Accepting
mod Tests
