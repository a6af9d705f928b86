-- ===== src/Recovery/Calls.antt =====
-- The collaborators of the startup reconciler: the interfaces of src/recovery/types.ts. Each call is
-- answered from the history of the calls before it. `redact` is the `Redactor` of
-- src/security/redaction.ts under the context of reconciliation diagnostics, which may throw.
use ai_agent_runner.Base.{ℕ, String, Option, List}
use ai_agent_runner.Failure.{Result}
use ai_agent_runner.World.{RecoveryDiagnosticKind}

pub record AgentRunningExecutionCandidate : Type 0 where
  pub issue_id : ℕ
  pub project_id : ℕ

pub record OrphanCleanupSummary : Type 0 where
  pub removed_sandbox_containers : ℕ
  pub removed_workspaces : ℕ

pub data RecoveryCall : Type 0 where
  cleaned : RecoveryCall
  running_listed : RecoveryCall
  finalization_requested : ℕ → RecoveryCall
  recorded : RecoveryDiagnosticKind → Option ℕ → String → RecoveryCall

abbrev pub RecoveryCalls : Type 0
RecoveryCalls = List RecoveryCall

pub record RecoveryPorts : Type 0 where
  pub on_cleanup : RecoveryCalls → Result OrphanCleanupSummary
  pub on_list : RecoveryCalls → Result (List AgentRunningExecutionCandidate)
  pub on_finalize : RecoveryCalls → ℕ → Result (Unit {0})
  pub on_record : RecoveryCalls → RecoveryDiagnosticKind → Option ℕ → String → Result (Unit {0})
  pub redact : String → Result String
