-- ===== src/Recovery/Artifacts.antt =====
-- The end of a running execution whose artifact may be durable:
-- `Phase49ArtifactAwareExecutionReconciler` of src/recovery/phase49-artifact-reconciler.ts. The
-- reader, the artifact store and the two finalizers are called through its interfaces.
pub mod Identity
pub mod Settled
use ai_agent_runner.Base.{ℕ, String, not, ◌&&◌, List, [], ◌∷◌, nat_beq, leb, ltb}
use ai_agent_runner.Base.Lists.{includes}
use ai_agent_runner.Base.Text.{is_uuid_v4, is_fingerprint, is_git_oid, is_rfc3339, is_blank}
use ai_agent_runner.Base.Text.Decimal.{is_positive_decimal, number_of, max_safe_integer}
use ai_agent_runner.Failure.{
  Failure, Result, ok, err, s3_operation_error, not_found, ◌>>=◌, ◌>>◌, require,
}
use ai_agent_runner.Exec.{Exec, call, throw}
use ai_agent_runner.Exec
use ai_agent_runner.Redmine.Domain.{RedmineIssueRecord, scalar_of, assert_scalar}
use ai_agent_runner.Redmine.FieldNames.{
  lifecycle, execution_id, brief_revision, persisted_revision, requirements_fingerprint, repository,
  source_revision, started_at, finished_at, outcome, artifact_reference, agent_running,
}
use ai_agent_runner.Artifact.Types.{
  Phase49ArtifactIdentity, Phase49BuiltArtifact, Phase49PersistedArtifact,
}

-- `Phase49RecoveredArtifact` of src/artifact/s3-persistence.ts.
pub record Phase49RecoveredArtifact : Type 0 where
  pub artifact : Phase49BuiltArtifact
  pub persisted : Phase49PersistedArtifact

abbrev pub mismatch : String
mismatch = "Phase 49 artifact reconciliation identity mismatch: "

-- The scalars of the identity, as they were read.
pub record RawIdentity : Type 0 where
  pub raw_execution_id : String
  pub raw_brief_revision : String
  pub raw_persisted_revision : String
  pub raw_requirements_fingerprint : String
  pub raw_repository : String
  pub raw_source_revision : String
  pub raw_started_at : String

unfoldable pub read_raw_identity : RedmineIssueRecord → Result RawIdentity
read_raw_identity issue = do
  id ← scalar_of issue execution_id
  revision ← scalar_of issue brief_revision
  persisted ← scalar_of issue persisted_revision
  fingerprint ← scalar_of issue requirements_fingerprint
  repo ← scalar_of issue repository
  source ← scalar_of issue source_revision
  started ← scalar_of issue started_at
  ok (record {
    raw_execution_id = id;
    raw_brief_revision = revision;
    raw_persisted_revision = persisted;
    raw_requirements_fingerprint = fingerprint;
    raw_repository = repo;
    raw_source_revision = source;
    raw_started_at = started;
  })

unfoldable pub validate_raw_identity : RawIdentity → Result (Unit {0})
validate_raw_identity raw = do
  require (is_uuid_v4 raw.raw_execution_id)
      "Phase 49 Agent Running execution_id is not canonical UUIDv4"
  require (is_positive_decimal raw.raw_brief_revision)
      "Phase 49 Agent Running brief revision is invalid"
  require
      (leb (number_of raw.raw_brief_revision) max_safe_integer
        && ltb 0 (number_of raw.raw_brief_revision))
      "Phase 49 Agent Running brief revision is invalid"
  require (not (is_blank raw.raw_persisted_revision))
      "Phase 49 Agent Running persisted revision is empty"
  require (is_fingerprint raw.raw_requirements_fingerprint)
      "Phase 49 Agent Running requirements fingerprint is invalid"
  require (not (is_blank raw.raw_repository)) "Phase 49 Agent Running repository identity is empty"
  require (is_git_oid raw.raw_source_revision) "Phase 49 Agent Running source revision is invalid"
  require (is_rfc3339 raw.raw_started_at) "Phase 49 Agent Running started_at is invalid"

abbrev pub identity_of_raw : ℕ → RawIdentity → Phase49ArtifactIdentity
identity_of_raw issue_id raw = record {
  execution_id = raw.raw_execution_id;
  issue_id = issue_id;
  repository = raw.raw_repository;
  source_revision = raw.raw_source_revision;
  brief_revision = number_of raw.raw_brief_revision;
  persisted_revision = raw.raw_persisted_revision;
  requirements_fingerprint = raw.raw_requirements_fingerprint;
}

-- The tests in front of the scalars.
unfoldable pub assert_agent_running : RedmineIssueRecord → ℕ → List ℕ → Result (Unit {0})
assert_agent_running issue expected_issue_id allowed_project_ids = do
  require (nat_beq issue.id expected_issue_id)
      "Phase 49 artifact reconciliation Issue identity mismatch"
  require (includes allowed_project_ids issue.project.id)
      "Phase 49 artifact reconciliation is outside allowed projects"
  assert_scalar mismatch issue lifecycle agent_running
  assert_scalar mismatch issue finished_at ""
  assert_scalar mismatch issue outcome ""
  assert_scalar mismatch issue artifact_reference ""

unfoldable pub read_agent_running_identity :
    RedmineIssueRecord → ℕ → List ℕ → Result Phase49ArtifactIdentity
read_agent_running_identity issue expected_issue_id allowed_project_ids = do
  assert_agent_running issue expected_issue_id allowed_project_ids
  raw ← read_raw_identity issue
  validate_raw_identity raw
  ok (identity_of_raw expected_issue_id raw)

pub data ArtifactCall : Type 0 where
  issue_requested : ℕ → ArtifactCall
  recovery_requested : Phase49ArtifactIdentity → ArtifactCall
  absence_finalized : ℕ → ArtifactCall
  success_finalized : Phase49RecoveredArtifact → ArtifactCall

abbrev pub ArtifactCalls : Type 0
ArtifactCalls = List ArtifactCall

pub record ArtifactPorts : Type 0 where
  pub on_issue : ArtifactCalls → ℕ → Result RedmineIssueRecord
  pub on_recover : ArtifactCalls → Phase49ArtifactIdentity → Result Phase49RecoveredArtifact
  pub on_absence : ArtifactCalls → ℕ → Result (Unit {0})
  pub on_success : ArtifactCalls → Phase49RecoveredArtifact → Result (Unit {0})

module _ (ports : ArtifactPorts) (allowed_project_ids : List ℕ) where
  -- The `catch` block: only an explicit `not_found` means that there is no artifact.
  unfoldable pub recovery_failed : ℕ → Failure → Exec ArtifactCall (Unit {0})
  recovery_failed issue_id (s3_operation_error not_found m) =
      call (absence_finalized issue_id) (λ h. ports.on_absence h issue_id)
  recovery_failed issue_id e = throw e

  unfoldable pub settle_recovery :
      ℕ → Result Phase49RecoveredArtifact → Exec ArtifactCall (Unit {0})
  settle_recovery issue_id (ok recovered) =
      call (success_finalized recovered) (λ h. ports.on_success h recovered)
  settle_recovery issue_id (err e) = recovery_failed issue_id e

  unfoldable pub recover_identity :
      ℕ → Result Phase49ArtifactIdentity → Exec ArtifactCall (Unit {0})
  recover_identity issue_id (err e) h = (err e, h)
  recover_identity issue_id (ok identity) h =
      settle_recovery issue_id (ports.on_recover h identity) (recovery_requested identity ∷ h)

  unfoldable pub finalize_fetched : ℕ → Result RedmineIssueRecord → Exec ArtifactCall (Unit {0})
  finalize_fetched issue_id (err e) = throw e
  finalize_fetched issue_id (ok issue) =
      recover_identity issue_id (read_agent_running_identity issue issue_id allowed_project_ids)

  -- `finalizeInterrupted`.
  unfoldable pub finalize_interrupted : ℕ → Exec ArtifactCall (Unit {0})
  finalize_interrupted issue_id h =
      finalize_fetched issue_id (ports.on_issue h issue_id) (issue_requested issue_id ∷ h)
