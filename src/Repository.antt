-- ===== src/Repository.antt =====
-- Which repositories the runner may read, and the exact source of an execution: src/repository.
pub mod Policy
pub mod Types
pub mod Handler
