-- ===== src/Recovery.antt =====
-- Recovery at startup: src/recovery.
pub mod Calls
pub mod Source
pub mod Startup
pub mod Artifacts
