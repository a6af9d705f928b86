-- ===== src/Controller/Calls.antt =====
-- The dependencies of the controller: the interfaces of src/controller/types.ts, each call of which
-- is answered from the history of the calls before it.
use ai_agent_runner.Base.{ℕ, String, Bool, Option, List, [], ◌∷◌}
use ai_agent_runner.Failure.{Result, error}
use ai_agent_runner.Exec.{Exec, call, catching, throw}
use ai_agent_runner.World.{CandidateDiagnosticKind}
use ai_agent_runner.Controller.Types.{
  PreExecutionRejectionOutcome, ReadyForAgentCandidate, ReFetchedIssue, ValidatedHandoff,
  HandoffValidationResult, RequirementsRevalidationResult,
}

pub data ControllerCall : Type 0 where
  reconciled : ControllerCall
  candidates_listed : List ℕ → String → ℕ → ControllerCall
  issue_fetched : ℕ → ControllerCall
  diagnosed : CandidateDiagnosticKind → Option ℕ → String → ControllerCall
  handoff_validated : ReFetchedIssue → ControllerCall
  requirements_revalidated : ReFetchedIssue → ValidatedHandoff → ControllerCall
  rejected : ℕ → PreExecutionRejectionOutcome → String → ControllerCall
  handled : ReFetchedIssue → ValidatedHandoff → String → ControllerCall
  slept : ℕ → ControllerCall

abbrev pub Calls : Type 0
Calls = List ControllerCall

pub record ControllerDependencies : Type 0 where
  pub on_reconcile : Calls → Result (Unit {0})
  pub on_list : Calls → List ℕ → String → ℕ → Result (List ReadyForAgentCandidate)
  pub on_issue : Calls → ℕ → Result ReFetchedIssue
  pub on_diagnostic : Calls → CandidateDiagnosticKind → Option ℕ → String → Result (Unit {0})
  pub on_validate : Calls → ReFetchedIssue → Result HandoffValidationResult
  pub on_revalidate :
      Calls → ReFetchedIssue → ValidatedHandoff → Result RequirementsRevalidationResult
  pub on_reject : Calls → ℕ → PreExecutionRejectionOutcome → String → Result (Unit {0})
  pub on_handle : Calls → ReFetchedIssue → ValidatedHandoff → String → Result (Unit {0})
  pub on_sleep : Calls → ℕ → Result (Unit {0})
  pub is_aborted : Calls → Bool

-- `recordCandidateDiagnostic`: what the sink throws is replaced.
unfoldable pub record_candidate_diagnostic :
    ControllerDependencies
    → CandidateDiagnosticKind
    → Option ℕ
    → String
    → Exec ControllerCall (Unit {0})
record_candidate_diagnostic deps kind issue_id reason =
    catching
      (call (diagnosed kind issue_id reason) (λ h. deps.on_diagnostic h kind issue_id reason))
      (λ _. throw (error "candidate diagnostic sink failed; raw diagnostic content suppressed"))

-- The calls that take a candidate on to a rejection or to an execution, the latest first.
unfoldable pub crossings : Calls → Calls
crossings [] = []
crossings (rejected id o d ∷ h) = rejected id o d ∷ crossings h
crossings (handled issue handoff fingerprint ∷ h) = handled issue handoff fingerprint ∷ crossings h
crossings (_ ∷ h) = crossings h
