-- ===== src/Agent/Handler.antt =====
-- The ends of an agent's run: `Phase48_5SandboxPreparedHandler` and
-- `Phase48_5SandboxPreparationFailureHandler` of src/agent/phase48-5-handler.ts, with the result
-- types of src/agent/types.ts. Its collaborators are called through their interfaces.
use ai_agent_runner.Base.{ℕ, String, ◌≡◌, refl, Bool, List, ◌∷◌, inl, inr}
use ai_agent_runner.Failure.{Failure, Result, ok, err, Result-cases}
use ai_agent_runner.Exec.{Exec, ◌>>◌, call, pure}
use ai_agent_runner.Redmine.FailureFinalizer.{
  StartedExecutionFailureOutcome, timeout, agent_start_failed, agent_failed,
}
use ai_agent_runner.Execution.Types.{PreparedExecution}
use ai_agent_runner.Artifact.Types.{Phase49ArtifactOutcome}
use ai_agent_runner.Sandbox.Handler.{
  SandboxDisposalReason, RepositoryCheckoutResult, success, failure,
}
use ai_agent_runner.Sandbox.Handler

pub record AgentExecutionCapture : Type 0 where
  pub text : String
  pub captured_bytes : ℕ
  pub truncated : Bool

-- `ProvisionalAgentExecutionResult`
pub record ProvisionalResult : Type 0 where
  pub provisional_outcome : Phase49ArtifactOutcome
  pub output : AgentExecutionCapture
  pub diagnostic : AgentExecutionCapture

-- `AgentExecutionResult`
pub data AgentExecutionResult : Type 0 where
  provisional_success : ProvisionalResult → AgentExecutionResult
  started_failure :
      StartedExecutionFailureOutcome
      → AgentExecutionCapture
      → AgentExecutionCapture
      → AgentExecutionResult

pub data AgentCall : Type 0 where
  agent_run : PreparedExecution → String → String → AgentCall
  failure_finalized : PreparedExecution → StartedExecutionFailureOutcome → AgentCall
  provisional_handled :
      PreparedExecution → ProvisionalResult → String → RepositoryCheckoutResult → AgentCall

abbrev pub AgentCalls : Type 0
AgentCalls = List AgentCall

pub record AgentPorts : Type 0 where
  pub on_agent : AgentCalls → PreparedExecution → String → String → Result AgentExecutionResult
  pub on_failure :
      AgentCalls → PreparedExecution → StartedExecutionFailureOutcome → Result (Unit {0})
  pub on_provisional :
      AgentCalls
      → PreparedExecution
      → ProvisionalResult
      → String
      → RepositoryCheckoutResult
      → Result (Unit {0})

-- `result.outcome === "timeout" ? "timeout" : "failure"`.
unfoldable pub disposal_of : StartedExecutionFailureOutcome → SandboxDisposalReason
disposal_of timeout = Handler.timeout
disposal_of _ = failure

module _ (ports : AgentPorts) (execution : PreparedExecution) where
  unfoldable pub finalize_as :
      StartedExecutionFailureOutcome → SandboxDisposalReason → Exec AgentCall SandboxDisposalReason
  finalize_as outcome reason = do
    call (failure_finalized execution outcome) (λ h. ports.on_failure h execution outcome)
    pure reason

  -- `Phase48_5SandboxPreparationFailureHandler.handle`: the error is not read.
  unfoldable pub handle_preparation_failure : Failure → Exec AgentCall (Unit {0})
  handle_preparation_failure e =
      call (failure_finalized execution agent_start_failed)
        (λ h. ports.on_failure h execution agent_start_failed)

  module _ (workspace : String) (checkout : RepositoryCheckoutResult) (sandbox : String) where
    unfoldable pub after_agent : Result AgentExecutionResult → Exec AgentCall SandboxDisposalReason
    after_agent (err e) = finalize_as agent_failed failure
    after_agent (ok (started_failure outcome output diagnostic)) =
        finalize_as outcome (disposal_of outcome)
    after_agent (ok (provisional_success result)) = do
      call (provisional_handled execution result workspace checkout)
          (λ h. ports.on_provisional h execution result workspace checkout)
      pure success

    unfoldable pub handle : Exec AgentCall SandboxDisposalReason
    handle h =
        after_agent (ports.on_agent h execution workspace sandbox)
          (agent_run execution workspace sandbox ∷ h)

    -- The reason to dispose of the sandbox, where the end itself succeeds.
    abbrev pub reason_after :
        Result (Unit {0}) → SandboxDisposalReason → Result SandboxDisposalReason
    reason_after (ok u) reason = ok reason
    reason_after (err e) reason = err e

    -- The reason to dispose of a sandbox after a failure of the agent.
    pub data IsDisposedFor : StartedExecutionFailureOutcome → SandboxDisposalReason → Type 0 where
      on_timeout : IsDisposedFor timeout Handler.timeout
      on_start_failure : IsDisposedFor agent_start_failed failure
      on_agent_failure : IsDisposedFor agent_failed failure

    disposal-IsDisposedFor :
        (outcome : StartedExecutionFailureOutcome) → IsDisposedFor outcome (disposal_of outcome)
    unfolding disposal_of
    disposal-IsDisposedFor timeout = on_timeout
    disposal-IsDisposedFor agent_start_failed = on_start_failure
    disposal-IsDisposedFor agent_failed = on_agent_failure

    module _ (h : AgentCalls) where
      abbrev run_history : AgentCalls
      run_history = agent_run execution workspace sandbox ∷ h

      -- How a run ends.
      pub data Ends (r : Result SandboxDisposalReason) (h' : AgentCalls) : Type 0 where
        crashed :
            (e : Failure)
            → ports.on_agent h execution workspace sandbox ≡ err e
            → h' ≡ failure_finalized execution agent_failed ∷ run_history
            → r ≡ reason_after (ports.on_failure run_history execution agent_failed) failure
            → Ends r h'
        failed :
            (outcome : StartedExecutionFailureOutcome) (output diagnostic : AgentExecutionCapture)
            (reason : SandboxDisposalReason)
            → ports.on_agent h execution workspace sandbox
              ≡ ok (started_failure outcome output diagnostic)
            → h' ≡ failure_finalized execution outcome ∷ run_history
            → IsDisposedFor outcome reason
            → r ≡ reason_after (ports.on_failure run_history execution outcome) reason
            → Ends r h'
        provisional :
            (result : ProvisionalResult)
            → ports.on_agent h execution workspace sandbox ≡ ok (provisional_success result)
            → h' ≡ provisional_handled execution result workspace checkout ∷ run_history
            → r
              ≡ reason_after
                  (ports.on_provisional run_history execution result workspace checkout)
                  success
            → Ends r h'

      settle_failure :
          (outcome : StartedExecutionFailureOutcome) (reason : SandboxDisposalReason)
          → finalize_as outcome reason run_history ≡ (
            reason_after (ports.on_failure run_history execution outcome) reason,
            failure_finalized execution outcome ∷ run_history,
          )
      unfolding finalize_as
      settle_failure outcome reason =
          elim (Result-cases (ports.on_failure run_history execution outcome)) [
            | inl (e, q) ↦ rw q refl
            | inr (u, q) ↦ rw q refl
          ]

      settle_provisional :
          (result : ProvisionalResult)
          → after_agent (ok (provisional_success result)) run_history ≡ (
            reason_after
                (ports.on_provisional run_history execution result workspace checkout)
                success,
            provisional_handled execution result workspace checkout ∷ run_history,
          )
      unfolding after_agent
      settle_provisional result =
          elim (Result-cases
            (ports.on_provisional run_history execution result workspace checkout)) [
              | inl (e, q) ↦ rw q refl
              | inr (u, q) ↦ rw q refl
            ]

      settle_answer :
          (answer : Result AgentExecutionResult)
          → ports.on_agent h execution workspace sandbox ≡ answer
          → Ends (after_agent answer run_history).0 (after_agent answer run_history).1
      unfolding after_agent
      settle_answer (err e) q = rw (settle_failure agent_failed failure) (crashed e q refl refl)
      settle_answer (ok (started_failure outcome output diagnostic)) q =
          rw (settle_failure outcome (disposal_of outcome)) (
            failed outcome output diagnostic (disposal_of outcome) q refl
              (disposal-IsDisposedFor outcome) refl)
      settle_answer (ok (provisional_success result)) q =
          rw (settle_provisional result) (provisional result q refl refl)

      -- A run of the agent has exactly one end: a crash of the adapter is finalized as `agent_failed`, a
      -- reported failure with its own outcome, and a provisional success is handed to the provisional
      -- handler; the reason that the handler returns for the disposal of the sandbox is `failure` for a
      -- crash, `timeout` for that outcome and `failure` for the others, and `success`; and where the end
      -- itself throws, so does the handler.
      pub handle-Ends : Ends (handle h).0 (handle h).1
      unfolding handle
      handle-Ends = settle_answer (ports.on_agent h execution workspace sandbox) refl
