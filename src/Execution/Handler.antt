-- ===== src/Execution/Handler.antt =====
-- From an exact source to a durable start: `Phase48_3ExactSourceResolvedHandler` of
-- src/execution/preparation.ts. Its collaborators are called through their interfaces.
pub mod Created
pub mod Starts
use ai_agent_runner.Base.{ℕ, String, Option, List, ◌∷◌}
use ai_agent_runner.Failure.{Result, ok, err}
use ai_agent_runner.Exec.{Exec, call, lift, ◌>>=◌, ◌>>◌}
use ai_agent_runner.Controller.Types.{PreExecutionRejectionOutcome, eligibility_failed}
use ai_agent_runner.Repository.Types.{ExactSourceResolvedInput}
use ai_agent_runner.Execution.Types.{ApprovedBriefExecutionReference, PreparedExecution}
use ai_agent_runner.Execution.Preparation.{
  require_approved_brief_reference, create_execution, handoff_invariant_diagnostic,
  formal_gate_diagnostic,
}

pub data PreparationCall : Type 0 where
  rejected : ℕ → PreExecutionRejectionOutcome → String → PreparationCall
  gate_asked : String → String → PreparationCall
  id_allocated : PreparationCall
  clock_read : PreparationCall
  persisted : PreparedExecution → PreparationCall
  continued : PreparedExecution → PreparationCall

abbrev pub PreparationCalls : Type 0
PreparationCalls = List PreparationCall

pub record PreparationPorts : Type 0 where
  pub on_reject : PreparationCalls → ℕ → PreExecutionRejectionOutcome → String → Result (Unit {0})
  pub on_gate : PreparationCalls → String → String → Result (Unit {0})
  pub on_allocate : PreparationCalls → Result String
  pub on_clock : PreparationCalls → Option String
  pub on_persist : PreparationCalls → PreparedExecution → Result (Unit {0})
  pub on_next : PreparationCalls → PreparedExecution → Result (Unit {0})

module _ (ports : PreparationPorts) (input : ExactSourceResolvedInput) where
  abbrev pub reject_with : String → Exec PreparationCall (Unit {0})
  reject_with diagnostic =
      call (rejected input.issue.issue_id eligibility_failed diagnostic)
        (λ h. ports.on_reject h input.issue.issue_id eligibility_failed diagnostic)

  unfoldable pub start_execution : PreparedExecution → Exec PreparationCall (Unit {0})
  start_execution execution = do
    call (persisted execution) (λ h. ports.on_persist h execution)
    call (continued execution) (λ h. ports.on_next h execution)

  -- Below the allocation boundary.
  unfoldable pub prepare_execution :
      ApprovedBriefExecutionReference → Exec PreparationCall PreparedExecution
  prepare_execution reference = do
    id ← call id_allocated (λ h. ports.on_allocate h)
    now ← call clock_read (λ h. ok (ports.on_clock h))
    lift (create_execution input reference id now)

  unfoldable pub after_gate :
      ApprovedBriefExecutionReference → Result (Unit {0}) → Exec PreparationCall (Unit {0})
  after_gate reference (err e) = reject_with (formal_gate_diagnostic e)
  after_gate reference (ok u) = do
    execution ← prepare_execution reference
    start_execution execution

  unfoldable pub after_reference :
      Result ApprovedBriefExecutionReference → Exec PreparationCall (Unit {0})
  after_reference (err e) h = reject_with (handoff_invariant_diagnostic e) h
  after_reference (ok reference) h =
      after_gate reference (ports.on_gate h input.repository input.source_revision)
        (gate_asked input.repository input.source_revision ∷ h)

  unfoldable pub handle : Exec PreparationCall (Unit {0})
  handle = after_reference (require_approved_brief_reference input)
