-- ===== src/Sandbox.antt =====
-- The sandbox of an execution: src/sandbox.
pub mod Handler
pub mod Capture
