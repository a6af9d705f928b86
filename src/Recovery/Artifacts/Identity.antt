-- ===== src/Recovery/Artifacts/Identity.antt =====
-- A started execution is found again: what `RedmineAgentRunningWriter` writes at a start is the
-- identity that the reconciler reads at a restart.
use ai_agent_runner.Base.{ℕ, ◌≡◌, refl, true, false, List, arith, ◌<◌, ◌≤◌, nat_beq_iff, leb, ltb}
use ai_agent_runner.Base.Lists.{All, includes}
use ai_agent_runner.Base.Text.{is_uuid_v4, is_fingerprint, is_git_oid, is_rfc3339, is_blank}
use ai_agent_runner.Base.Text.Decimal.{
  decimal, max_safe_integer, number_of-decimal, is_positive_decimal-decimal,
}
use ai_agent_runner.Failure.{ok}
use ai_agent_runner.Redmine.Domain.{RedmineIssueRecord}
use ai_agent_runner.Redmine.FieldNames.{
  lifecycle, finished_at, outcome, artifact_reference, agent_running,
}
use ai_agent_runner.Redmine.Scalars.{Holds, assert_scalar-eq-ok_iff}
use ai_agent_runner.Redmine.StartWriter.{start_values}
use ai_agent_runner.Execution.Types.{PreparedExecution}
use ai_agent_runner.Artifact.Types.{Phase49ArtifactIdentity}
use ai_agent_runner.Recovery.Artifacts.{
  mismatch, RawIdentity, read_raw_identity, validate_raw_identity, assert_agent_running,
  read_agent_running_identity,
}

-- The texts and numbers of an execution have the forms that the runner gives them.
pub record IsWellFormed (execution : PreparedExecution) : Type 0 where
  pub id_form : is_uuid_v4 execution.input.execution_id ≡ true
  pub revision_positive : 0 < execution.input.brief_revision
  pub revision_safe : execution.input.brief_revision ≤ max_safe_integer
  pub persisted_form : is_blank execution.input.persisted_revision ≡ false
  pub fingerprint_form : is_fingerprint execution.input.requirements_fingerprint ≡ true
  pub repository_form : is_blank execution.input.repository ≡ false
  pub source_form : is_git_oid execution.input.source_revision ≡ true
  pub time_form : is_rfc3339 execution.record_of.started_at ≡ true

abbrev pub raw_of : PreparedExecution → RawIdentity
raw_of execution = record {
  raw_execution_id = execution.input.execution_id;
  raw_brief_revision = decimal execution.input.brief_revision;
  raw_persisted_revision = execution.input.persisted_revision;
  raw_requirements_fingerprint = execution.input.requirements_fingerprint;
  raw_repository = execution.input.repository;
  raw_source_revision = execution.input.source_revision;
  raw_started_at = execution.record_of.started_at;
}

-- The identity of the execution's artifact.
abbrev pub artifact_identity : PreparedExecution → Phase49ArtifactIdentity
artifact_identity execution = record {
  execution_id = execution.input.execution_id;
  issue_id = execution.input.issue_id;
  repository = execution.input.repository;
  source_revision = execution.input.source_revision;
  brief_revision = execution.input.brief_revision;
  persisted_revision = execution.input.persisted_revision;
  requirements_fingerprint = execution.input.requirements_fingerprint;
}

validate_raw-eq-ok :
    (execution : PreparedExecution)
    → IsWellFormed execution
    → validate_raw_identity (raw_of execution) ≡ ok tt
unfolding validate_raw_identity
validate_raw-eq-ok execution w =
    let revision = execution.input.brief_revision in
    let safe : leb revision max_safe_integer ≡ true = ground (arith, w.revision_safe) in
    let positive : ltb 0 revision ≡ true = ground (arith, w.revision_positive) in
    rw
      (
        w.id_form,
        is_positive_decimal-decimal revision w.revision_positive,
        number_of-decimal revision,
        safe,
        positive,
        w.persisted_form,
        w.fingerprint_form,
        w.repository_form,
        w.source_form,
        w.time_form,
      )
      refl

module _ (issue : RedmineIssueRecord) (execution : PreparedExecution) (allowed : List ℕ) where
  read_raw-eq-ok :
      All (Holds issue) (start_values execution) → read_raw_identity issue ≡ ok (raw_of execution)
  unfolding read_raw_identity
  read_raw-eq-ok
        (
          life,
          (
            r₁,
            (
              r₂,
              (r₃, (id, (revision, (persisted, (fingerprint, (repo, (source, (started, rest)))))))),
            ),
          ),
        ) =
      rw (id, revision, persisted, fingerprint, repo, source, started) refl

  assert_running-eq-ok :
      issue.id ≡ execution.input.issue_id
      → includes allowed issue.project.id ≡ true
      → All (Holds issue) (start_values execution)
      → assert_agent_running issue execution.input.issue_id allowed ≡ ok tt
  unfolding assert_agent_running
  assert_running-eq-ok same inside
        (
          life,
          (
            r₁,
            (
              r₂,
              (
                r₃,
                (
                  id,
                  (
                    revision,
                    (
                      persisted,
                      (
                        fingerprint,
                        (repo, (source, (started, (finished, (out, (artifact, end)))))),
                      ),
                    ),
                  ),
                ),
              ),
            ),
          ),
        ) =
      rw
        (
          (nat_beq_iff issue.id execution.input.issue_id).1 same,
          inside,
          (assert_scalar-eq-ok_iff mismatch issue lifecycle agent_running).1 life,
          (assert_scalar-eq-ok_iff mismatch issue finished_at "").1 finished,
          (assert_scalar-eq-ok_iff mismatch issue outcome "").1 out,
          (assert_scalar-eq-ok_iff mismatch issue artifact_reference "").1 artifact,
        )
        refl

  -- An Issue of an allowed project that holds the values of a start, of a well-formed execution, is
  -- read as the identity of exactly that execution's artifact.
  pub read_identity-start_values :
      issue.id ≡ execution.input.issue_id
      → includes allowed issue.project.id ≡ true
      → IsWellFormed execution
      → All (Holds issue) (start_values execution)
      → read_agent_running_identity issue execution.input.issue_id allowed
        ≡ ok (artifact_identity execution)
  unfolding read_agent_running_identity
  read_identity-start_values same inside w held =
      rw
        (
          assert_running-eq-ok same inside held,
          read_raw-eq-ok held,
          validate_raw-eq-ok execution w,
          number_of-decimal execution.input.brief_revision,
        )
        refl
