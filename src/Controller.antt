-- ===== src/Controller.antt =====
-- The controller, internal/controller: lifecycle operations that run one at a time.
pub mod Operation
pub mod Steps
pub mod Laws
pub mod Promises
mod Tests
