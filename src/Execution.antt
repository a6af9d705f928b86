-- ===== src/Execution.antt =====
-- Execution preparation: src/execution.
pub mod Types
pub mod FormalGate
pub mod Preparation
pub mod Handler
