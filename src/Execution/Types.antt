-- ===== src/Execution/Types.antt =====
-- The immutable identity of an execution and its logical record: src/execution/types.ts.
-- The record's finish, outcome and artifact reference are the constant `pending`, and are left out.
use ai_agent_runner.Base.{ℕ, String}
use ai_agent_runner.Controller.Types.{ReFetchedIssue, ValidatedHandoff}

pub record ApprovedBriefExecutionReference : Type 0 where
  pub repository : String
  pub issue_id : ℕ
  pub brief_revision : ℕ
  pub persisted_revision : String

pub record ImmutableExecutionInput : Type 0 where
  pub execution_id : String
  pub issue_id : ℕ
  pub repository : String
  pub source_revision : String
  pub brief_revision : ℕ
  pub persisted_revision : String
  pub requirements_fingerprint : String
  pub approved_brief_reference : ApprovedBriefExecutionReference

pub record LogicalExecutionRecord : Type 0 where
  pub execution_id : String
  pub issue_id : ℕ
  pub brief_revision : ℕ
  pub persisted_revision : String
  pub requirements_fingerprint : String
  pub repository : String
  pub source_revision : String
  pub started_at : String

pub record PreparedExecution : Type 0 where
  pub issue : ReFetchedIssue
  pub handoff : ValidatedHandoff
  pub input : ImmutableExecutionInput
  pub record_of : LogicalExecutionRecord
