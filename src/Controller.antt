-- ===== src/Controller.antt =====
-- The controller: src/controller.
pub mod Types
pub mod Lock
pub mod Calls
pub mod Polling
pub mod Run
