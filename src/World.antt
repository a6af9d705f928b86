-- ===== src/World.antt =====
-- The calls to Redmine and to the clock, and the kinds of diagnostics.
use ai_agent_runner.Base.{ℕ, List}
use ai_agent_runner.Redmine.Domain.{CustomFieldWrite}

-- `CandidateDiagnosticKind` of src/controller/types.ts.
pub data CandidateDiagnosticKind : Type 0 where
  query_predicate_mismatch non_pristine_candidate_skipped : CandidateDiagnosticKind
  unexpected_project candidate_state_changed candidate_scan_exhausted : CandidateDiagnosticKind

-- `RecoveryDiagnosticKind` of src/recovery/types.ts.
pub data RecoveryDiagnosticKind : Type 0 where
  cleanup_failure orphan_resource query_mismatch : RecoveryDiagnosticKind
  reconciliation_failure interrupted_execution : RecoveryDiagnosticKind

-- The calls of the modules of src/redmine.
pub data Event : Type 0 where
  issue_read : ℕ → Event
  issue_updated : ℕ → List CustomFieldWrite → Event
  clock_read : Event

abbrev pub History : Type 0
History = List Event
