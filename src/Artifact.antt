-- ===== src/Artifact.antt =====
-- Artifacts of executions: src/artifact.
pub mod Json
pub mod ChangedFiles
pub mod Runtime
pub mod Contract
pub mod Document
pub mod Address
pub mod Persistence
pub mod NoChanges
pub mod Types
pub mod Finalization
pub mod Provisional
