-- ===== src/Concrete.antt =====
-- Packages that keep the promises which the models ask of them, for running the models.
pub mod Wire
pub mod Packages
pub mod Requests
