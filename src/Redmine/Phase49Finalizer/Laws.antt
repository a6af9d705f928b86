-- ===== src/Redmine/Phase49Finalizer/Laws.antt =====
-- What the artifact finalizer confirms, and what it leaves alone, against any Redmine.
use ai_agent_runner.Base.{
  ℕ, String, ◌≡◌, refl, sym, ap, subst, ◌∙◌, nat_beq, nat_beq_iff, List, ◌∷◌, inl, inr,
}
use ai_agent_runner.Base.Lists.{All}
use ai_agent_runner.Failure.{Result, ok, ◌>>=◌, >>=-eq-ok, require, require-eq-ok, Result-cases}
use ai_agent_runner.World.{History, issue_read, issue_updated, clock_read}
use ai_agent_runner.Redmine.Domain.{
  RedmineIssueRecord, assert_scalar, assert_scalars, scalar_of, field_writes,
}
use ai_agent_runner.Redmine.FieldNames.{
  lifecycle, finished_at, outcome, artifact_reference, agent_running, started_at,
}
use ai_agent_runner.Redmine.Clock.{Clock}
use ai_agent_runner.Redmine.Client.{RedmineClient}
use ai_agent_runner.Redmine.Client.Trace.{WritesAtMostOnce}
use ai_agent_runner.Redmine.Scalars.{
  Holds, active_values, assert_scalar-eq-ok_iff, assert_scalars-eq-ok_iff,
}
use ai_agent_runner.Redmine.Finalization.{
  IsFinalized, finalization-IsFinalized, finalization-WritesAtMostOnce, finalization_refused,
}
use ai_agent_runner.Artifact.Types.{Phase49ArtifactIdentity}
use ai_agent_runner.Redmine.Phase49Finalizer.{
  mismatch, ActiveExecutionSnapshot, assert_issue_boundary, identity_values, assert_identity,
  assert_active_execution, distinct_writes, FinalizationPlan, build_writes,
  assert_finalized_boundary, assert_read_back, canonical_timestamp, finalize_with,
}

-- An Issue of an allowed project that runs under the identity, as the snapshot remembers it.
pub record IsActive (identity : Phase49ArtifactIdentity) (allowed : List ℕ)
    (issue : RedmineIssueRecord) (active : ActiveExecutionSnapshot) : Type 0 where
  pub bounded : assert_issue_boundary issue identity.issue_id allowed ≡ ok tt
  pub same : All (Holds issue) (identity_values identity)
  pub running : All (Holds issue) active_values
  pub started : Holds issue (started_at, active.started)
  pub in_project : active.project_id ≡ issue.project.id

assert_active_execution-IsActive :
    (identity : Phase49ArtifactIdentity) (allowed : List ℕ) (issue : RedmineIssueRecord)
    (active : ActiveExecutionSnapshot)
    → assert_active_execution identity allowed issue ≡ ok active
    → IsActive identity allowed issue active
unfolding assert_active_execution assert_identity
assert_active_execution-IsActive identity allowed issue active h =
    let (u₁, boundary, r₁) =
      >>=-eq-ok (assert_issue_boundary issue identity.issue_id allowed) _ h in
    let (u₂, e₂, r₂) = >>=-eq-ok (assert_scalar mismatch issue lifecycle agent_running) _ r₁ in
    let (u₃, e₃, r₃) = >>=-eq-ok (assert_scalars mismatch issue (identity_values identity)) _ r₂ in
    let (u₄, e₄, r₄) = >>=-eq-ok (assert_scalar mismatch issue finished_at "") _ r₃ in
    let (u₅, e₅, r₅) = >>=-eq-ok (assert_scalar mismatch issue outcome "") _ r₄ in
    let (u₆, e₆, r₆) = >>=-eq-ok (assert_scalar mismatch issue artifact_reference "") _ r₅ in
    let (started, e₇, r₇) = >>=-eq-ok (scalar_of issue started_at) _ r₆ in
    let (u₈, e₈, r₈) =
      >>=-eq-ok (require _ _)
        (λ _. ok (record { project_id = issue.project.id; started = started })) r₇ in
    let made : record { project_id = issue.project.id; started = started } ≡ active = cc r₈ in
    subst (IsActive identity allowed issue) made (record {
      bounded = boundary;
      same = (assert_scalars-eq-ok_iff mismatch issue (identity_values identity)).0 e₃;
      running = (
        (assert_scalar-eq-ok_iff mismatch issue lifecycle agent_running).0 e₂,
        (
          (assert_scalar-eq-ok_iff mismatch issue finished_at "").0 e₄,
          (
            (assert_scalar-eq-ok_iff mismatch issue outcome "").0 e₅,
            ((assert_scalar-eq-ok_iff mismatch issue artifact_reference "").0 e₆, tt),
          ),
        ),
      );
      started = e₇;
      in_project = refl;
    })

-- The Issue that a finalization confirms: the identity and the start are those of the Issue that was
-- running, and the final values are there.
pub record IsFinal (identity : Phase49ArtifactIdentity) (values : String → List (String × String))
    (plan : FinalizationPlan) (issue : RedmineIssueRecord) : Type 0 where
  pub same : All (Holds issue) (identity_values identity)
  pub started : Holds issue (started_at, plan.active.started)
  pub in_project : issue.project.id ≡ plan.active.project_id
  pub final : All (Holds issue) (values plan.finished)

assert_read_back-IsFinal :
    (values : String → List (String × String)) (identity : Phase49ArtifactIdentity)
    (allowed : List ℕ) (plan : FinalizationPlan) (issue : RedmineIssueRecord)
    → assert_read_back values identity allowed plan issue ≡ ok tt
    → IsFinal identity values plan issue
unfolding assert_read_back assert_finalized_boundary assert_identity
assert_read_back-IsFinal values identity allowed plan issue h =
    let (u₁, bounded, final) =
      >>=-eq-ok (assert_finalized_boundary issue identity plan.active allowed)
        (λ _. assert_scalars mismatch issue (values plan.finished)) h in
    let (u₂, e₂, r₂) =
      >>=-eq-ok (assert_issue_boundary issue identity.issue_id allowed) _ bounded in
    let (u₃, e₃, r₃) =
      >>=-eq-ok (require (nat_beq issue.project.id plan.active.project_id) _) _ r₂ in
    let (u₄, e₄, e₅) =
      >>=-eq-ok (assert_scalars mismatch issue (identity_values identity))
        (λ _. assert_scalar mismatch issue started_at plan.active.started) r₃ in
    record {
      same = (assert_scalars-eq-ok_iff mismatch issue (identity_values identity)).0 e₄;
      started = (assert_scalar-eq-ok_iff mismatch issue started_at plan.active.started).0 e₅;
      in_project = (nat_beq_iff _ _).0 (require-eq-ok _ _ e₃);
      final = (assert_scalars-eq-ok_iff mismatch issue (values plan.finished)).0 final;
    }

build_writes-active :
    (values : String → List (String × String)) (issue : RedmineIssueRecord)
    (active : ActiveExecutionSnapshot) (finished : String) (plan : FinalizationPlan)
    → build_writes values issue active finished ≡ ok plan
    → plan.active ≡ active
unfolding build_writes
build_writes-active values issue active finished plan h =
    let (built, e₁, r₁) =
      >>=-eq-ok (field_writes issue (values finished))
        (λ built. distinct_writes built >>= λ writes.
          ok (record { active = active; finished = finished; writes = writes }))
        h in
    let (writes, e₂, r₂) =
      >>=-eq-ok (distinct_writes built)
        (λ writes. ok (record { active = active; finished = finished; writes = writes })) r₁ in
    let made : record { active = active; finished = finished; writes = writes } ≡ plan = cc r₂ in
    sym (ap (λ (p : FinalizationPlan). p.active) made)

module _ (client : RedmineClient) (clock : Clock) (allowed : List ℕ) (operation : String)
    (identity : Phase49ArtifactIdentity) (values : String → List (String × String))
    (h : History) where
  finalize_with-IsFinalized :
      (plan : FinalizationPlan) (h' : History)
      → finalize_with client clock allowed operation identity values h ≡ (ok plan, h')
      → IsFinalized client identity.issue_id clock
          (assert_active_execution identity allowed)
          (canonical_timestamp operation)
          (build_writes values)
          (λ (p : FinalizationPlan). p.writes)
          (assert_read_back values identity allowed)
          h
          plan
          h'
  unfolding finalize_with
  finalize_with-IsFinalized plan h' e =
      finalization-IsFinalized client identity.issue_id clock
        (assert_active_execution identity allowed) (canonical_timestamp operation)
        (build_writes values) (λ p. p.writes) (assert_read_back values identity allowed) h plan h' e

  pub finalize_with_confirmed :
      (plan : FinalizationPlan) (h' : History) (before after : RedmineIssueRecord)
      → finalize_with client clock allowed operation identity values h ≡ (ok plan, h')
      → client.on_get h identity.issue_id ≡ ok before
      → client.on_get
          (issue_updated identity.issue_id plan.writes
            ∷ clock_read
            ∷ issue_read identity.issue_id
            ∷ h)
          identity.issue_id
        ≡ ok after
      → IsActive identity allowed before plan.active × IsFinal identity values plan after
  finalize_with_confirmed plan h' before after e b a =
      let f = finalize_with-IsFinalized plan h' e in
      let was : ok f.before ≡ ok before = sym f.read_first ∙ b in
      let is : ok f.after ≡ ok after = sym f.read_back ∙ a in
      let from = build_writes-active values f.before f.active f.finished plan f.built in
      (
        assert_active_execution-IsActive identity allowed before plan.active
            (cc (was, f.asserted, from)),
        assert_read_back-IsFinal values identity allowed plan after (cc (is, f.checked)),
      )

  pub finalize_with-WritesAtMostOnce :
      WritesAtMostOnce identity.issue_id
        (λ (p : FinalizationPlan). p.writes)
        h
        (finalize_with client clock allowed operation identity values h).1
  unfolding finalize_with
  finalize_with-WritesAtMostOnce =
      finalization-WritesAtMostOnce client identity.issue_id clock
        (assert_active_execution identity allowed) (canonical_timestamp operation)
        (build_writes values) (λ p. p.writes) (assert_read_back values identity allowed) h

  pub finalize_with_not_active :
      (before : RedmineIssueRecord)
      → client.on_get h identity.issue_id ≡ ok before
      → ¬ All (Holds before) active_values
      → (finalize_with client clock allowed operation identity values h).1
        ≡ issue_read identity.issue_id ∷ h
  unfolding finalize_with
  finalize_with_not_active before first ended =
      elim (Result-cases (assert_active_execution identity allowed before)) [
        | inl (x, e) ↦
            ap (λ (t : Result FinalizationPlan × History). t.1)
              (finalization_refused client identity.issue_id clock
                (assert_active_execution identity allowed) (canonical_timestamp operation)
                (build_writes values) (λ p. p.writes) (assert_read_back values identity allowed) h
                before x first e)
        | inr (active, e) ↦
            absurd
              (ended (assert_active_execution-IsActive identity allowed before active e).running)
      ]
