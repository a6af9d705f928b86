-- ===== src/Sandbox/Handler.antt =====
-- From a confirmed start to a prepared sandbox: `Phase48_4AgentRunningConfirmedHandler` of
-- src/sandbox/phase48-4-handler.ts. Its collaborators are called through their interfaces; a
-- workspace and a sandbox are the texts that name them.
pub mod Disposal
pub mod Once
use ai_agent_runner.Base.{String, Bool, ◌==◌, ◌&&◌, List, [], ◌∷◌}
use ai_agent_runner.Failure.{Failure, Result, ok, err, require}
use ai_agent_runner.Exec.{Exec, ◌>>=◌, ◌>>◌, pure, lift, call}
use ai_agent_runner.Execution.Types.{PreparedExecution}

-- `SandboxDisposalReason` of src/sandbox/types.ts.
pub data SandboxDisposalReason : Type 0 where
  success failure timeout interruption lifecycle_limit workspace_disk_limit : SandboxDisposalReason

-- `RepositoryCheckoutResult` of src/repository/types.ts.
pub record RepositoryCheckoutResult : Type 0 where
  pub repository : String
  pub source_revision : String
  pub target_dir : String
  pub head_revision : String

pub data SandboxCall : Type 0 where
  workspace_created : String → SandboxCall
  checked_out : String → String → String → SandboxCall
  disk_limit_checked : String → SandboxCall
  sandbox_created : String → SandboxCall
  agent_prepared : String → SandboxCall
  failure_handled : Failure → SandboxCall
  sandbox_disposed : String → SandboxDisposalReason → SandboxCall
  workspace_disposed : String → SandboxCall

abbrev pub SandboxCalls : Type 0
SandboxCalls = List SandboxCall

pub record SandboxPorts : Type 0 where
  pub on_workspace : SandboxCalls → String → Result String
  pub on_checkout : SandboxCalls → String → String → String → Result RepositoryCheckoutResult
  pub on_disk_limit : SandboxCalls → String → Result (Unit {0})
  pub on_sandbox : SandboxCalls → PreparedExecution → String → Result String
  pub on_next :
      SandboxCalls
      → PreparedExecution
      → String
      → RepositoryCheckoutResult
      → String
      → Result SandboxDisposalReason
  pub on_pre_agent_failure : SandboxCalls → PreparedExecution → Failure → Result (Unit {0})
  pub on_dispose_sandbox : SandboxCalls → String → SandboxDisposalReason → Result (Unit {0})
  pub on_dispose_workspace : SandboxCalls → String → Result (Unit {0})

-- What the variables of `handle` hold when its `try` block ends.
pub data Held : Type 0 where
  nothing : Held
  workspace_only : String → Held
  with_sandbox : String → SandboxDisposalReason → Held

-- A sandbox with the checkout in it.
pub record Prepared : Type 0 where
  pub checkout : RepositoryCheckoutResult
  pub sandbox : String

module _ (ports : SandboxPorts) (execution : PreparedExecution) where
  abbrev pub matches_input : String → RepositoryCheckoutResult → Bool
  matches_input path checkout =
      (checkout.repository == execution.input.repository)
      && ((checkout.source_revision == execution.input.source_revision)
          && ((checkout.target_dir == path)
              && (checkout.head_revision == execution.input.source_revision)))

  unfoldable pub create_sandbox : String → RepositoryCheckoutResult → Exec SandboxCall Prepared
  create_sandbox path checkout = do
    lift (
        require (matches_input path checkout)
          "Phase 48-2 checkout result does not match immutable execution input")
    call (disk_limit_checked path) (λ h. ports.on_disk_limit h path)
    sandbox ← call (sandbox_created path) (λ h. ports.on_sandbox h execution path)
    pure (record { checkout = checkout; sandbox = sandbox })

  unfoldable pub prepare_sandbox : String → Exec SandboxCall Prepared
  prepare_sandbox path = do
    checkout ←
        call (checked_out execution.input.repository execution.input.source_revision path)
          (λ h. ports.on_checkout h execution.input.repository execution.input.source_revision path)
    create_sandbox path checkout

  abbrev pub next_outcome : String → Result SandboxDisposalReason → Result (Unit {0}) × Held
  next_outcome sandbox (ok reason) = (ok tt, with_sandbox sandbox reason)
  next_outcome sandbox (err e) = (err e, with_sandbox sandbox failure)

  unfoldable pub run_prepared :
      String → Result Prepared × SandboxCalls → Result (Unit {0}) × Held × SandboxCalls
  run_prepared path (err e, h) = (err e, workspace_only path, h)
  run_prepared path (ok p, h) =
      let (r, held) =
        next_outcome p.sandbox (ports.on_next h execution path p.checkout p.sandbox) in
      (r, held, agent_prepared p.sandbox ∷ h)

  unfoldable pub in_workspace :
      Result String → SandboxCalls → Result (Unit {0}) × Held × SandboxCalls
  in_workspace (err e) h = (err e, nothing, h)
  in_workspace (ok path) h = run_prepared path (prepare_sandbox path h)

  abbrev replaced : Failure → Result (Unit {0}) → Result (Unit {0})
  replaced e (ok u) = err e
  replaced e (err x) = err x

  -- The `catch` block.
  unfoldable pub handle_failure :
      Result (Unit {0}) × Held × SandboxCalls → Result (Unit {0}) × Held × SandboxCalls
  handle_failure (ok u, held, h) = (ok u, held, h)
  handle_failure (err e, with_sandbox sandbox reason, h) = (err e, with_sandbox sandbox reason, h)
  handle_failure (err e, nothing, h) =
      (replaced e (ports.on_pre_agent_failure h execution e), nothing, failure_handled e ∷ h)
  handle_failure (err e, workspace_only path, h) = (
    replaced e (ports.on_pre_agent_failure h execution e),
    workspace_only path,
    failure_handled e ∷ h,
  )

  abbrev after_disposal : Result (Unit {0}) → Result (Unit {0}) → Result (Unit {0})
  after_disposal r (ok u) = r
  after_disposal r (err e) = err e

  -- The `finally` block.
  unfoldable pub dispose :
      Result (Unit {0}) × Held × SandboxCalls → Result (Unit {0}) × SandboxCalls
  dispose (r, nothing, h) = (r, h)
  dispose (r, workspace_only path, h) =
      (after_disposal r (ports.on_dispose_workspace h path), workspace_disposed path ∷ h)
  dispose (r, with_sandbox sandbox reason, h) = (
    after_disposal r (ports.on_dispose_sandbox h sandbox reason),
    sandbox_disposed sandbox reason ∷ h,
  )

  unfoldable pub handle : SandboxCalls → Result (Unit {0}) × SandboxCalls
  handle h =
      let id = execution.input.execution_id in
      dispose (handle_failure (in_workspace (ports.on_workspace h id) (workspace_created id ∷ h)))
