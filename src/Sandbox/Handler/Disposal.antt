-- ===== src/Sandbox/Handler/Disposal.antt =====
-- Whatever happens, what was made for an execution is disposed of once.
use ai_agent_runner.Base.{String, ◌≡◌, ◌↔◌, refl, eq_iff, true, Bool-cases, inl, inr, ◌∷◌, arith}
use ai_agent_runner.Failure.{Failure, Result, ok, err, Result-cases}
use ai_agent_runner.Execution.Types.{PreparedExecution}
use ai_agent_runner.Sandbox.Handler.{
  SandboxDisposalReason, failure, SandboxCalls, SandboxPorts, RepositoryCheckoutResult,
  workspace_created, checked_out, disk_limit_checked, sandbox_created, agent_prepared,
  failure_handled, sandbox_disposed, workspace_disposed, Prepared, matches_input, create_sandbox,
  prepare_sandbox, next_outcome, run_prepared, in_workspace, handle_failure, dispose, handle,
}

module _ (ports : SandboxPorts) (execution : PreparedExecution) where
  -- The reason is what the next handler returned, and `failure` where it threw.
  abbrev pub IsReason : Result SandboxDisposalReason → SandboxDisposalReason → Type 0
  IsReason (ok reason) given = given ≡ reason
  IsReason (err x) given = given ≡ failure

  -- The checkout is that of the execution's input, in the workspace.
  pub record IsCheckoutOf (path : String) (checkout : RepositoryCheckoutResult) : Type 0 where
    pub repository : checkout.repository ≡ execution.input.repository
    pub source : checkout.source_revision ≡ execution.input.source_revision
    pub target : checkout.target_dir ≡ path
    pub head : checkout.head_revision ≡ execution.input.source_revision

  matches-IsCheckoutOf :
      (path : String) (checkout : RepositoryCheckoutResult)
      → (matches_input ports execution path checkout ≡ true) ↔ IsCheckoutOf path checkout
  matches-IsCheckoutOf path checkout = (
    λ h. record {
      repository = ground (arith, eq_iff checkout.repository execution.input.repository);
      source = ground (arith, eq_iff checkout.source_revision execution.input.source_revision);
      target = ground (arith, eq_iff checkout.target_dir path);
      head = ground (arith, eq_iff checkout.head_revision execution.input.source_revision);
    },
    λ m.
        rw
          (
            (eq_iff checkout.repository execution.input.repository).1 m.repository,
            (eq_iff checkout.source_revision execution.input.source_revision).1 m.source,
            (eq_iff checkout.target_dir path).1 m.target,
            (eq_iff checkout.head_revision execution.input.source_revision).1 m.head,
          )
          refl,
  )

  module _ (h : SandboxCalls) where
    abbrev after_workspace : SandboxCalls
    after_workspace = workspace_created execution.input.execution_id ∷ h

    abbrev after_checkout : String → SandboxCalls
    after_checkout path =
        checked_out execution.input.repository execution.input.source_revision path
        ∷ after_workspace

    abbrev after_disk_limit : String → SandboxCalls
    after_disk_limit path = disk_limit_checked path ∷ after_checkout path

    abbrev after_sandbox : String → SandboxCalls
    after_sandbox path = sandbox_created path ∷ after_disk_limit path

    abbrev checkout_answer : String → Result RepositoryCheckoutResult
    checkout_answer path =
        ports.on_checkout after_workspace execution.input.repository execution.input.source_revision
          path

    -- Why a workspace gets no sandbox, and the calls until then: the creation of a sandbox is not
    -- asked for, or it fails.
    pub data IsPrevented (path : String) (x : Failure) : SandboxCalls → Type 0 where
      not_checked_out : checkout_answer path ≡ err x → IsPrevented path x (after_checkout path)
      not_matching :
          (checkout : RepositoryCheckoutResult)
          → checkout_answer path ≡ ok checkout
          → ¬ IsCheckoutOf path checkout
          → IsPrevented path x (after_checkout path)
      over_disk_limit :
          (checkout : RepositoryCheckoutResult)
          → checkout_answer path ≡ ok checkout
          → ports.on_disk_limit (after_checkout path) path ≡ err x
          → IsPrevented path x (after_disk_limit path)
      not_created :
          (checkout : RepositoryCheckoutResult)
          → checkout_answer path ≡ ok checkout
          → ports.on_disk_limit (after_checkout path) path ≡ ok tt
          → ports.on_sandbox (after_disk_limit path) execution path ≡ err x
          → IsPrevented path x (after_sandbox path)

    -- The answers that give a workspace its sandbox.
    pub record IsPrepared (path : String) (p : Prepared) : Type 0 where
      pub given : checkout_answer path ≡ ok p.checkout
      pub matching : IsCheckoutOf path p.checkout
      pub within : ports.on_disk_limit (after_checkout path) path ≡ ok tt
      pub made : ports.on_sandbox (after_disk_limit path) execution path ≡ ok p.sandbox

    -- What the preparation makes of a workspace, and its calls.
    data Prepares (path : String) : Result Prepared × SandboxCalls → Type 0 where
      prevented :
          {x : Failure} {h₁ : SandboxCalls} → IsPrevented path x h₁ → Prepares path (err x, h₁)
      prepared : {p : Prepared} → IsPrepared path p → Prepares path (ok p, after_sandbox path)

    matched-Prepares :
        (path : String) (checkout : RepositoryCheckoutResult)
        → checkout_answer path ≡ ok checkout
        → matches_input ports execution path checkout ≡ true
        → Prepares path (create_sandbox ports execution path checkout (after_checkout path))
    unfolding create_sandbox
    matched-Prepares path checkout c m =
        elim (Result-cases (ports.on_disk_limit (after_checkout path) path)) [
          | inl (x, q) ↦ rw (m, q) (prevented (over_disk_limit checkout c q))
          | inr (u, q) ↦
              elim (Result-cases (ports.on_sandbox (after_disk_limit path) execution path)) [
                | inl (x, q₂) ↦ rw (m, q, q₂) (prevented (not_created checkout c q q₂))
                | inr (sandbox, q₂) ↦
                    rw (m, q, q₂)
                      (prepared (record {
                        given = c;
                        matching = (matches-IsCheckoutOf path checkout).0 m;
                        within = q;
                        made = q₂;
                      }))
              ]
        ]

    create-Prepares :
        (path : String) (checkout : RepositoryCheckoutResult)
        → checkout_answer path ≡ ok checkout
        → Prepares path (create_sandbox ports execution path checkout (after_checkout path))
    create-Prepares path checkout c =
        elim (Bool-cases (matches_input ports execution path checkout)) [
          | inl m ↦ matched-Prepares path checkout c m
          | inr m ↦
              unfold create_sandbox in
              rw m (
                prevented (
                  not_matching checkout c
                    (λ is. cc (m, (matches-IsCheckoutOf path checkout).1 is))))
        ]

    prepare-Prepares :
        (path : String) → Prepares path (prepare_sandbox ports execution path after_workspace)
    unfolding prepare_sandbox
    prepare-Prepares path = elim (Result-cases (checkout_answer path)) [
      | inl (x, q) ↦ rw q (prevented (not_checked_out q))
      | inr (checkout, q) ↦ rw q (create-Prepares path checkout q)
    ]

    -- How an execution leaves the handler.
    pub data Disposes (h' : SandboxCalls) : Type 0 where
      no_workspace :
          (x : Failure)
          → ports.on_workspace h execution.input.execution_id ≡ err x
          → h' ≡ failure_handled x ∷ after_workspace
          → Disposes h'
      no_sandbox :
          (path : String) (x : Failure) (h₁ : SandboxCalls)
          → ports.on_workspace h execution.input.execution_id ≡ ok path
          → IsPrevented path x h₁
          → h' ≡ workspace_disposed path ∷ failure_handled x ∷ h₁
          → Disposes h'
      used_sandbox :
          (path : String) (p : Prepared) (reason : SandboxDisposalReason)
          → ports.on_workspace h execution.input.execution_id ≡ ok path
          → IsPrepared path p
          → IsReason (ports.on_next (after_sandbox path) execution path p.checkout p.sandbox) reason
          → h' ≡ sandbox_disposed p.sandbox reason ∷ agent_prepared p.sandbox ∷ after_sandbox path
          → Disposes h'

    next-Disposes :
        (path : String) (p : Prepared) (answer : Result SandboxDisposalReason)
        → ports.on_workspace h execution.input.execution_id ≡ ok path
        → IsPrepared path p
        → ports.on_next (after_sandbox path) execution path p.checkout p.sandbox ≡ answer
        → (let (r, held) = next_outcome ports execution p.sandbox answer in
            Disposes
              (dispose ports execution (
                handle_failure ports execution
                  (r, held, agent_prepared p.sandbox ∷ after_sandbox path))).1)
    unfolding dispose handle_failure
    next-Disposes path p (ok reason) w i a = used_sandbox path p reason w i (rw a refl) refl
    next-Disposes path p (err x) w i a = used_sandbox path p failure w i (rw a refl) refl

    run-Disposes :
        (path : String) (s : Result Prepared × SandboxCalls)
        → ports.on_workspace h execution.input.execution_id ≡ ok path
        → Prepares path s
        → Disposes
            (dispose ports execution
              (handle_failure ports execution (run_prepared ports execution path s))).1
    unfolding run_prepared dispose handle_failure
    run-Disposes path s w (prevented {x} {h₁} q) = no_sandbox path x h₁ w q refl
    run-Disposes path s w (prepared {p} q) =
        next-Disposes path p
          (ports.on_next (after_sandbox path) execution path p.checkout p.sandbox) w q refl

    -- Whatever the collaborators answer or throw. Without a workspace, the failure is handled and
    -- nothing is disposed of. Where the checkout fails or is not that of the execution, the disk limit
    -- is exceeded, or the creation of a sandbox fails, no sandbox was created, and the workspace is
    -- disposed of once, after the failure was handled. Where a sandbox was created, it is disposed of
    -- once, for the reason that the next handler returned or for `failure` where it threw, and no
    -- failure is handled as one before the agent. These are all the calls.
    pub handle-Disposes : Disposes (handle ports execution h).1
    unfolding handle in_workspace dispose handle_failure
    handle-Disposes = elim (Result-cases (ports.on_workspace h execution.input.execution_id)) [
      | inl (x, e) ↦ rw e (no_workspace x e refl)
      | inr (path, e) ↦ rw e (
          run-Disposes path (prepare_sandbox ports execution path after_workspace) e
            (prepare-Prepares path))
    ]
