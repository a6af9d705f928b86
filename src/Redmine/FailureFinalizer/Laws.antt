-- ===== src/Redmine/FailureFinalizer/Laws.antt =====
-- What the failure finalizer confirms, and what it leaves alone, against any Redmine.
use ai_agent_runner.Base.{ℕ, ◌≡◌, sym, ap, ◌∙◌, ◌↔◌, List, ◌∷◌, inl, inr}
use ai_agent_runner.Base.Lists.{All}
use ai_agent_runner.Failure.{Result, ok, >>=-eq-ok, Result-cases}
use ai_agent_runner.World.{History, issue_read, issue_updated, clock_read}
use ai_agent_runner.Redmine.Domain.{
  RedmineIssueRecord, CustomFieldWrite, assert_scalar, assert_scalars, assert_all_written,
  assert_holds_written,
}
use ai_agent_runner.Redmine.FieldNames.{
  lifecycle, finished_at, outcome, artifact_reference, agent_running,
}
use ai_agent_runner.Redmine.Clock.{Clock}
use ai_agent_runner.Redmine.Client.{RedmineClient}
use ai_agent_runner.Redmine.Client.Trace.{WritesAtMostOnce}
use ai_agent_runner.Redmine.Scalars.{
  Holds, active_values, assert_scalar-eq-ok_iff, assert_scalars-eq-ok_iff, assert_all_written-Holds,
}
use ai_agent_runner.Redmine.Finalization.{
  IsFinalized, finalization-IsFinalized, finalization-WritesAtMostOnce, finalization_refused,
}
use ai_agent_runner.Execution.Types.{PreparedExecution}
use ai_agent_runner.Redmine.FailureFinalizer.{
  StartedExecutionFailureOutcome, mismatch, read_back_mismatch, assert_issue_boundary,
  execution_identity, assert_execution_identity, assert_active_execution, build_failure_writes,
  failure_confirmed, assert_finalized_execution, canonical_timestamp, plan_failure,
  finalize_failure,
}

module _ (issue : RedmineIssueRecord) (execution : PreparedExecution) (allowed : List ℕ) where
  -- The assertion passes exactly on an Issue of the execution, in an allowed project, that is
  -- running under the execution's identity.
  pub assert_active_execution-eq-ok_iff :
      (assert_active_execution issue execution allowed ≡ ok tt) ↔ (
        (assert_issue_boundary issue execution allowed ≡ ok tt)
        × All (Holds issue) (execution_identity execution)
        × All (Holds issue) active_values)
  unfolding assert_active_execution assert_execution_identity
  assert_active_execution-eq-ok_iff =
      let running = assert_scalar-eq-ok_iff mismatch issue lifecycle agent_running in
      let same = assert_scalars-eq-ok_iff mismatch issue (execution_identity execution) in
      let unfinished = assert_scalar-eq-ok_iff mismatch issue finished_at "" in
      let no_outcome = assert_scalar-eq-ok_iff mismatch issue outcome "" in
      let no_artifact = assert_scalar-eq-ok_iff mismatch issue artifact_reference "" in
      (
        λ h.
            let (u₁, boundary, r₁) =
              >>=-eq-ok (assert_issue_boundary issue execution allowed) _ h in
            let (u₂, e₂, r₂) =
              >>=-eq-ok (assert_scalar mismatch issue lifecycle agent_running) _ r₁ in
            let (u₃, e₃, r₃) =
              >>=-eq-ok (assert_scalars mismatch issue (execution_identity execution)) _ r₂ in
            let (u₄, e₄, r₄) = >>=-eq-ok (assert_scalar mismatch issue finished_at "") _ r₃ in
            let (u₅, e₅, e₆) =
              >>=-eq-ok (assert_scalar mismatch issue outcome "")
                (λ _. assert_scalar mismatch issue artifact_reference "") r₄ in
            (
              boundary,
              same.0 e₃,
              (running.0 e₂, (unfinished.0 e₄, (no_outcome.0 e₅, (no_artifact.0 e₆, tt)))),
            ),
        λ (boundary, s, (a, (b, (c, (d, t))))).
            rw (boundary, running.1 a, same.1 s, unfinished.1 b, no_outcome.1 c) (no_artifact.1 d),
      )

assert_finalized_execution-Holds :
    (issue : RedmineIssueRecord) (execution : PreparedExecution)
    (o : StartedExecutionFailureOutcome) (allowed : List ℕ) (writes : List CustomFieldWrite)
    → assert_finalized_execution execution o allowed writes issue ≡ ok tt
    → (assert_issue_boundary issue execution allowed ≡ ok tt)
      × All (Holds issue) (execution_identity execution)
      × All (Holds issue) (failure_confirmed o)
unfolding assert_finalized_execution assert_execution_identity
assert_finalized_execution-Holds issue execution o allowed writes h =
    let (u₁, boundary, r₁) = >>=-eq-ok (assert_issue_boundary issue execution allowed) _ h in
    let (u₂, same, r₂) =
      >>=-eq-ok (assert_scalars mismatch issue (execution_identity execution)) _ r₁ in
    let (u₃, wrote, r₃) =
      >>=-eq-ok (assert_all_written read_back_mismatch issue writes (failure_confirmed o))
        (λ _. assert_holds_written read_back_mismatch issue writes finished_at) r₂ in
    (
      boundary,
      (assert_scalars-eq-ok_iff mismatch issue (execution_identity execution)).0 same,
      assert_all_written-Holds read_back_mismatch issue writes (failure_confirmed o) wrote,
    )

module _ (client : RedmineClient) (clock : Clock) (allowed : List ℕ) (execution : PreparedExecution)
    (o : StartedExecutionFailureOutcome) (h : History) where
  finalize_failure-IsFinalized :
      (writes : List CustomFieldWrite) (h' : History)
      → finalize_failure client clock allowed execution o h ≡ (ok writes, h')
      → IsFinalized client execution.input.issue_id clock
          (λ i. assert_active_execution i execution allowed)
          canonical_timestamp
          (λ i active finished. build_failure_writes i o finished)
          (λ writes. writes)
          (assert_finalized_execution execution o allowed)
          h
          writes
          h'
  unfolding finalize_failure plan_failure
  finalize_failure-IsFinalized writes h' e =
      finalization-IsFinalized client execution.input.issue_id clock
        (λ i. assert_active_execution i execution allowed) canonical_timestamp
        (λ i active finished. build_failure_writes i o finished) (λ writes. writes)
        (assert_finalized_execution execution o allowed) h writes h' e

  -- When the finalizer returns, it has read the Issue, read the clock, updated once and read again;
  -- the Issue that was read first was running under the identity of the execution, and the one read
  -- back holds that identity with `Needs Human`, the outcome and an empty artifact reference.
  pub finalize_failure_confirmed :
      (writes : List CustomFieldWrite) (h' : History) (before after : RedmineIssueRecord)
      → finalize_failure client clock allowed execution o h ≡ (ok writes, h')
      → client.on_get h execution.input.issue_id ≡ ok before
      → client.on_get
          (issue_updated execution.input.issue_id writes
            ∷ clock_read
            ∷ issue_read execution.input.issue_id
            ∷ h)
          execution.input.issue_id
        ≡ ok after
      → (h'
          ≡ issue_read execution.input.issue_id
            ∷ issue_updated execution.input.issue_id writes
            ∷ clock_read
            ∷ issue_read execution.input.issue_id
            ∷ h)
        × All (Holds before) active_values
        × All (Holds before) (execution_identity execution)
        × All (Holds after) (execution_identity execution)
        × All (Holds after) (failure_confirmed o)
  finalize_failure_confirmed writes h' before after e b a =
      let f = finalize_failure-IsFinalized writes h' e in
      let was : ok f.before ≡ ok before = sym f.read_first ∙ b in
      let is : ok f.after ≡ ok after = sym f.read_back ∙ a in
      let (bound, same, running) =
        (assert_active_execution-eq-ok_iff before execution allowed).0 (cc (was, f.asserted)) in
      let (bound', same', finalized) =
        assert_finalized_execution-Holds after execution o allowed writes (cc (is, f.checked)) in
      (f.calls, running, same, same', finalized)

  -- Whatever Redmine answers, the finalizer updates at most once, and only its Issue.
  pub finalize_failure-WritesAtMostOnce :
      WritesAtMostOnce execution.input.issue_id
        (λ (writes : List CustomFieldWrite). writes)
        h
        (finalize_failure client clock allowed execution o h).1
  unfolding finalize_failure plan_failure
  finalize_failure-WritesAtMostOnce =
      finalization-WritesAtMostOnce client execution.input.issue_id clock
        (λ i. assert_active_execution i execution allowed) canonical_timestamp
        (λ i active finished. build_failure_writes i o finished) (λ writes. writes)
        (assert_finalized_execution execution o allowed) h

  -- An Issue that is not running, or that has an end, an outcome or an artifact, is read and left.
  pub finalize_failure_not_active :
      (before : RedmineIssueRecord)
      → client.on_get h execution.input.issue_id ≡ ok before
      → ¬ All (Holds before) active_values
      → (finalize_failure client clock allowed execution o h).1
        ≡ issue_read execution.input.issue_id ∷ h
  unfolding finalize_failure plan_failure
  finalize_failure_not_active before first ended =
      elim (Result-cases (assert_active_execution before execution allowed)) [
        | inl (x, e) ↦
            ap (λ (t : Result (List CustomFieldWrite) × History). t.1)
              (finalization_refused client execution.input.issue_id clock
                (λ i. assert_active_execution i execution allowed) canonical_timestamp
                (λ i active finished. build_failure_writes i o finished) (λ writes. writes)
                (assert_finalized_execution execution o allowed) h before x first e)
        | inr (u, e) ↦
            absurd (ended ((assert_active_execution-eq-ok_iff before execution allowed).0 e).2)
      ]
