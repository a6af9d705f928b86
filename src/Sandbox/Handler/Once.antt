-- ===== src/Sandbox/Handler/Once.antt =====
-- A started execution is handed on once: to the handler of a prepared sandbox, or to that of a
-- failure before the agent.
use ai_agent_runner.Base.{String, ◌≡◌, refl, inl, inr, [], ◌∷◌, arith}
use ai_agent_runner.Failure.{Failure, Result, ok, err, Result-cases}
use ai_agent_runner.Execution.Types.{PreparedExecution}
use ai_agent_runner.Sandbox.Handler.{
  SandboxCalls, SandboxPorts, workspace_created, agent_prepared, failure_handled, Held, Prepared,
  create_sandbox, prepare_sandbox, run_prepared, in_workspace, handle_failure, dispose, handle,
  nothing, workspace_only, with_sandbox,
}

-- The calls of those two handlers, the latest first.
unfoldable pub handoffs : SandboxCalls → SandboxCalls
handoffs [] = []
handoffs (agent_prepared sandbox ∷ h) = agent_prepared sandbox ∷ handoffs h
handoffs (failure_handled e ∷ h) = failure_handled e ∷ handoffs h
handoffs (_ ∷ h) = handoffs h

module _ (ports : SandboxPorts) (execution : PreparedExecution) where
  prepared-handoffs :
      (path : String) (h : SandboxCalls)
      → handoffs (prepare_sandbox ports execution path h).1 ≡ handoffs h
  unfolding prepare_sandbox create_sandbox handoffs
  prepared-handoffs path h = ground arith

  disposed-handoffs :
      (r : Result (Unit {0})) (held : Held) (h : SandboxCalls)
      → handoffs (dispose ports execution (r, held, h)).1 ≡ handoffs h
  unfolding dispose handoffs
  disposed-handoffs r nothing h = refl
  disposed-handoffs r (workspace_only path) h = refl
  disposed-handoffs r (with_sandbox sandbox reason) h = refl

  module _ (h : SandboxCalls) where
    pub data HandsOnce (h' : SandboxCalls) : Type 0 where
      to_agent :
          (sandbox : String) → handoffs h' ≡ agent_prepared sandbox ∷ handoffs h → HandsOnce h'
      to_failure : (e : Failure) → handoffs h' ≡ failure_handled e ∷ handoffs h → HandsOnce h'

    run_once_of :
        (path : String) (s : Result Prepared × SandboxCalls)
        → handoffs s.1 ≡ handoffs h
        → HandsOnce
            (dispose ports execution
              (handle_failure ports execution (run_prepared ports execution path s))).1
    unfolding run_prepared handle_failure handoffs
    run_once_of path (err x, h₁) e = to_failure x (rw (disposed-handoffs, e) refl)
    run_once_of path (ok p, h₁) e =
        elim (Result-cases (ports.on_next h₁ execution path p.checkout p.sandbox)) [
          | inl (x, q) ↦ to_agent p.sandbox (rw (q, disposed-handoffs, e) refl)
          | inr (reason, q) ↦ to_agent p.sandbox (rw (q, disposed-handoffs, e) refl)
        ]

    -- Whatever the collaborators answer or throw, exactly one of the two handlers is called, once: the
    -- handler of the prepared sandbox, or that of a failure before the agent.
    pub handle-HandsOnce : HandsOnce (handle ports execution h).1
    unfolding handle in_workspace handle_failure handoffs
    handle-HandsOnce = elim (Result-cases (ports.on_workspace h execution.input.execution_id)) [
      | inl (x, e) ↦ rw e (to_failure x (disposed-handoffs _ nothing _))
      | inr (path, e) ↦ rw e (
          run_once_of path
            (prepare_sandbox ports execution path
              (workspace_created execution.input.execution_id ∷ h))
            (prepared-handoffs path (workspace_created execution.input.execution_id ∷ h)))
    ]
