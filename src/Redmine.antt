-- ===== src/Redmine.antt =====
-- The Redmine side of the runner: src/redmine.
pub mod Domain
pub mod FieldNames
pub mod Client
pub mod Guard
pub mod StartWriter
pub mod Clock
pub mod Planning
pub mod Scalars
pub mod Bound
pub mod Finalization
pub mod FailureFinalizer
pub mod InterruptedFinalizer
pub mod Phase49Finalizer
pub mod RejectionWriter
pub mod FirstWrite
pub mod Adapters
