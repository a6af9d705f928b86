-- ===== src/Redmine/FailureFinalizer/OnStore.antt =====
-- The failure finalizer on a Redmine that stores what it is sent: it ends the execution.
use ai_agent_runner.Base.{
  ℕ, String, ◌≡◌, refl, sym, ap, subst, ◌∙◌, nat_beq_iff, true, none, some, List, [], ◌∷◌,
}
use ai_agent_runner.Base.Lists.{All, distinct}
use ai_agent_runner.Failure.{ok}
use ai_agent_runner.World.{History, issue_read, issue_updated, clock_read}
use ai_agent_runner.Redmine.Domain.{
  RedmineIssueRecord, CustomFieldWrite, field_writes, assert_all_written,
}
use ai_agent_runner.Redmine.FieldNames.{
  lifecycle, execution_id, brief_revision, persisted_revision, requirements_fingerprint, repository,
  source_revision, started_at, finished_at, outcome, artifact_reference, needs_human,
}
use ai_agent_runner.Redmine.Clock.{Clock}
use ai_agent_runner.Redmine.Client.{RedmineClient}
use ai_agent_runner.Redmine.Client.Store.{stored, written_issue, IsStore}
use ai_agent_runner.Redmine.Guard.{Binding, field_ids}
use ai_agent_runner.Redmine.Scalars.{Holds, assert_scalars-eq-ok_iff}
use ai_agent_runner.Redmine.Bound.{
  AreBound, IsIn, text_get, field_writes_total, Holds-written, Holds-unwritten,
  assert_written-eq-ok, assert_holds_written-eq-ok,
}
use ai_agent_runner.Redmine.Finalization.{finalization_succeeds}
use ai_agent_runner.Redmine.FailureFinalizer.{
  StartedExecutionFailureOutcome, outcome_text, mismatch, read_back_mismatch, assert_issue_boundary,
  assert_execution_identity, assert_active_execution, execution_identity, failure_values,
  build_failure_writes, assert_finalized_execution, canonical_timestamp, plan_failure,
  finalize_failure,
}
use ai_agent_runner.Redmine.FailureFinalizer.Laws.{assert_active_execution-eq-ok_iff}
use ai_agent_runner.Execution.Types.{PreparedExecution}

abbrev pub finalized_names : List String
finalized_names =
    lifecycle ∷ finished_at ∷ outcome ∷ artifact_reference ∷ execution_id ∷ brief_revision
    ∷ persisted_revision ∷ requirements_fingerprint ∷ repository ∷ source_revision ∷ started_at ∷ []

-- The fields of the execution record are unique by name, with distinct ids.
pub record IsBoundBy (issue : RedmineIssueRecord) (fields : Binding) : Type 0 where
  pub bound : AreBound issue fields
  pub apart : distinct (field_ids fields) ≡ true
  pub named : All (IsIn fields) finalized_names

written_names :
    (issue : RedmineIssueRecord) (fields : Binding) (o : StartedExecutionFailureOutcome)
    (finished : String)
    → IsBoundBy issue fields
    → All (λ (p : String × String). IsIn fields p.0) (failure_values o finished)
written_names issue fields o finished b =
    let (life, (end, (out, (artifact, rest)))) = b.named in (life, (end, (out, (artifact, tt))))

module _ (issue : RedmineIssueRecord) (fields : Binding) (b : IsBoundBy issue fields)
    (o : StartedExecutionFailureOutcome) (finished : String) (writes : List CustomFieldWrite)
    (built : field_writes issue (failure_values o finished) ≡ ok writes) where
  -- The written Issue has the values of the failure.
  failure_values-Holds : All (Holds (written_issue writes issue)) (failure_values o finished)
  failure_values-Holds =
      let (life, (end, (out, (artifact, rest)))) = b.named in
      let value =
        λ (m v : String) (i : IsIn fields m) (e : text_get (failure_values o finished) m ≡ some v).
          Holds-written issue fields b.bound b.apart (failure_values o finished) writes m v
            (written_names issue fields o finished b) built i e in
      (
        value lifecycle needs_human life refl,
        (
          value finished_at finished end refl,
          (
            value outcome (outcome_text o) out refl,
            (value artifact_reference "" artifact refl, tt),
          ),
        ),
      )

  -- It keeps the identity of the execution.
  identity-Holds :
      (execution : PreparedExecution)
      → All (Holds issue) (execution_identity execution)
      → All (Holds (written_issue writes issue)) (execution_identity execution)
  identity-Holds execution (h₁, (h₂, (h₃, (h₄, (h₅, (h₆, (h₇, t))))))) =
      let (l, (f, (out, (a, (i₁, (i₂, (i₃, (i₄, (i₅, (i₆, (i₇, rest))))))))))) = b.named in
      let kept =
        λ (m v : String) (i : IsIn fields m) (e : text_get (failure_values o finished) m ≡ none)
            (held : Holds issue (m, v)).
          Holds-unwritten issue fields b.bound b.apart (failure_values o finished) writes m v
            (written_names issue fields o finished b) built i e held in
      (
        kept execution_id execution.input.execution_id i₁ refl h₁,
        (
          kept brief_revision _ i₂ refl h₂,
          (
            kept persisted_revision execution.input.persisted_revision i₃ refl h₃,
            (
              kept requirements_fingerprint execution.input.requirements_fingerprint i₄ refl h₄,
              (
                kept repository execution.input.repository i₅ refl h₅,
                (
                  kept source_revision execution.input.source_revision i₆ refl h₆,
                  (kept started_at execution.record_of.started_at i₇ refl h₇, tt),
                ),
              ),
            ),
          ),
        ),
      )

  boundary-written :
      (execution : PreparedExecution) (allowed : List ℕ)
      → assert_issue_boundary (written_issue writes issue) execution allowed
        ≡ assert_issue_boundary issue execution allowed
  unfolding written_issue assert_issue_boundary
  boundary-written execution allowed = refl

  -- So the read-back check passes.
  assert_finalized-eq-ok :
      (execution : PreparedExecution) (allowed : List ℕ)
      → assert_active_execution issue execution allowed ≡ ok tt
      → assert_finalized_execution execution o allowed writes (written_issue writes issue) ≡ ok tt
  unfolding assert_finalized_execution assert_execution_identity assert_all_written
  assert_finalized-eq-ok execution allowed active =
      let (boundary, same, running) =
        (assert_active_execution-eq-ok_iff issue execution allowed).0 active in
      let (life, (end, (out, (artifact, rest)))) = b.named in
      let confirmed =
        λ (m v : String) (i : IsIn fields m) (e : text_get (failure_values o finished) m ≡ some v).
          assert_written-eq-ok issue fields b.bound b.apart read_back_mismatch
            (failure_values o finished) writes m v (written_names issue fields o finished b) built i
            e in
      rw
        (
          boundary-written execution allowed,
          boundary,
          (assert_scalars-eq-ok_iff mismatch (written_issue writes issue)
                (execution_identity execution)).1
              (identity-Holds execution same),
          confirmed lifecycle needs_human life refl,
          confirmed outcome (outcome_text o) out refl,
          confirmed artifact_reference "" artifact refl,
        )
        (assert_holds_written-eq-ok issue fields b.bound b.apart read_back_mismatch
          (failure_values o finished) writes finished_at finished
          (written_names issue fields o finished b) built end refl)

module _ (issue : RedmineIssueRecord) (id : ℕ) (same : issue.id ≡ id)
    (writes : List CustomFieldWrite) (h : History) where
  stored-updated :
      stored issue (issue_updated id writes ∷ clock_read ∷ issue_read id ∷ h)
      ≡ written_issue writes (stored issue h)
  unfolding stored
  stored-updated = rw ((nat_beq_iff id issue.id).1 (sym same)) refl

  stored-finalized :
      stored issue (issue_read id ∷ issue_updated id writes ∷ clock_read ∷ issue_read id ∷ h)
      ≡ written_issue writes (stored issue h)
  unfolding stored
  stored-finalized = rw ((nat_beq_iff id issue.id).1 (sym same)) refl

module _ (client : RedmineClient) (issue : RedmineIssueRecord) (clock : Clock) (allowed : List ℕ)
    (execution : PreparedExecution) (o : StartedExecutionFailureOutcome) (h : History) where
  -- The calls of a finalization that wrote these writes.
  abbrev pub failure_calls : List CustomFieldWrite → History
  failure_calls writes =
      issue_read execution.input.issue_id
      ∷ issue_updated execution.input.issue_id writes
      ∷ clock_read
      ∷ issue_read execution.input.issue_id
      ∷ h

  -- On a Redmine that stores the Issue of a running execution, whose record's fields are unique by
  -- name with distinct ids, and with a clock that gives a canonical time, the finalizer returns, and
  -- the stored Issue then holds `Needs Human`, that time, the outcome, an empty artifact reference,
  -- and the identity of the execution as before.
  pub finalize_failure_on_store :
      (fields : Binding) (finished : String)
      → IsStore client issue
      → issue.id ≡ execution.input.issue_id
      → IsBoundBy (stored issue h) fields
      → assert_active_execution (stored issue h) execution allowed ≡ ok tt
      → canonical_timestamp (clock (issue_read execution.input.issue_id ∷ h)) ≡ ok finished
      → (writes : List CustomFieldWrite) × (finalize_failure client clock allowed execution o h
          ≡ (ok writes, failure_calls writes))
        × All (Holds (stored issue (failure_calls writes))) (failure_values o finished)
        × All (Holds (stored issue (failure_calls writes))) (execution_identity execution)
  unfolding finalize_failure plan_failure build_failure_writes
  finalize_failure_on_store fields finished store same b active timed =
      let id = execution.input.issue_id in
      let current = stored issue h in
      let (writes, built) =
        field_writes_total current fields (failure_values o finished) b.bound
          (written_names current fields o finished b) in
      let now = stored-finalized issue id same writes h in
      let (boundary, identity, running) =
        (assert_active_execution-eq-ok_iff current execution allowed).0 active in
      (
        writes,
        finalization_succeeds client id clock (λ i. assert_active_execution i execution allowed)
            canonical_timestamp (λ i active finished. build_failure_writes i o finished)
            (λ writes. writes) (assert_finalized_execution execution o allowed) h current
            (written_issue writes current) tt finished writes
            (subst (λ k. client.on_get h k ≡ ok current) same (store.shows h)) active timed built
            (subst (λ k. client.on_update (clock_read ∷ issue_read id ∷ h) k writes ≡ ok tt) same
              (store.accepts _ writes))
            (subst
              (λ k.
                client.on_get (issue_updated id writes ∷ clock_read ∷ issue_read id ∷ h) k
                ≡ ok (written_issue writes current))
              same (store.shows _ ∙ ap ok (stored-updated issue id same writes h)))
            (assert_finalized-eq-ok current fields b o finished writes built execution allowed
              active),
        rw now (failure_values-Holds current fields b o finished writes built),
        rw now (identity-Holds current fields b o finished writes built execution identity),
      )
