-- ===== src/Controller/Types.antt =====
-- The values that the controller hands to the handlers behind it: src/controller/types.ts.
-- `ValidatedHandoff.opaque` is left out: no handler of the runner reads it. `raw` is the Redmine
-- record, which `RedmineIssueReader` puts there.
use ai_agent_runner.Base.{ℕ, String, Bool, Option}
use ai_agent_runner.Redmine.Domain.{RedmineIssueRecord}

abbrev pub ready_for_agent_lifecycle : String
ready_for_agent_lifecycle = "Ready for Agent"

pub data PreExecutionRejectionOutcome : Type 0 where
  stale_requirements eligibility_failed : PreExecutionRejectionOutcome

pub record ReadyForAgentCandidate : Type 0 where
  pub issue_id : ℕ
  pub project_id : ℕ

pub record PostLockCandidateState : Type 0 where
  pub execution_lifecycle : String
  pub execution_record_pristine : Bool

pub record ReFetchedIssue : Type 0 where
  pub issue_id : ℕ
  pub project_id : ℕ
  pub lifecycle : String
  pub post_lock_state : Option PostLockCandidateState
  pub raw : RedmineIssueRecord

pub record ValidatedHandoffApproval : Type 0 where
  pub approver_identity : String
  pub approved_at : String
  pub brief_revision : ℕ
  pub persisted_revision : String

pub record ValidatedHandoff : Type 0 where
  pub issue_id : ℕ
  pub repository : String
  pub approved_requirements_fingerprint : String
  pub approval : Option ValidatedHandoffApproval

pub data HandoffValidationResult : Type 0 where
  valid : ValidatedHandoff → HandoffValidationResult
  invalid : String → HandoffValidationResult

-- `stale` has the current and the approved fingerprint, and perhaps a diagnostic.
pub data RequirementsRevalidationResult : Type 0 where
  current : String → RequirementsRevalidationResult
  stale : String → String → Option String → RequirementsRevalidationResult
  failed : String → RequirementsRevalidationResult
