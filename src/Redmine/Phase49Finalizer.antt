-- ===== src/Redmine/Phase49Finalizer.antt =====
-- The durable end of an execution with an artifact, and of one whose artifact failed:
-- `RedminePhase49ExecutionFinalizer` of src/redmine/phase49-finalizer.ts.
-- The parser of artifact references (src/artifact/s3-persistence.ts, over the URL class of Node) is
-- an argument.
pub mod Laws
pub mod Outcomes
use Prim.Native.String
use ai_agent_runner.Base.{
  ℕ, String, ◌==◌, ◌&&◌, Option, none, some, List, [], ◌∷◌, map, nat_beq, if◌then◌else◌,
}
use ai_agent_runner.Base.Lists.{includes, distinct}
use ai_agent_runner.Base.Text.{is_rfc3339, ends_with}
use ai_agent_runner.Base.Text.Decimal.{decimal}
use ai_agent_runner.Failure.{Result, ok, err, error, ◌>>=◌, ◌>>◌, require}
use ai_agent_runner.Exec.{Exec, throw}
use ai_agent_runner.World.{Event}
use ai_agent_runner.Redmine.Domain.{
  RedmineIssueRecord, CustomFieldWrite, scalar_of, assert_scalar, assert_scalars, field_writes,
}
use ai_agent_runner.Redmine.FieldNames.{
  lifecycle, execution_id, brief_revision, persisted_revision, requirements_fingerprint, repository,
  source_revision, started_at, finished_at, outcome, artifact_reference, agent_running, needs_human,
  ready_for_independent_verification,
}
use ai_agent_runner.Redmine.Client.{RedmineClient, confirmed_update}
use ai_agent_runner.Redmine.Clock.{Clock, canonical_date}
use ai_agent_runner.Redmine.Planning.{plan_at_time}
use ai_agent_runner.Artifact.Types.{
  Phase49ArtifactOutcome, artifact_outcome_text, Phase49ArtifactManifest, Phase49BuiltArtifact,
  Phase49PersistedArtifact, Phase49DevelopmentHandoffInput, Phase49ArtifactFailureReason,
  canonical_artifact_failure_outcome, Phase49ArtifactIdentity,
}

abbrev pub mismatch : String
mismatch = "Phase 49 finalization read-back/identity mismatch: "

-- `parsePhase49ArtifactReference`: the bucket and the key.
abbrev pub ReferenceParser : Type 0
ReferenceParser = String → Result (String × String)

unfoldable pub assert_persisted_artifact_binding :
    ReferenceParser → Phase49BuiltArtifact → Phase49PersistedArtifact → Result (Unit {0})
assert_persisted_artifact_binding parse artifact persisted = do
  parsed ← parse persisted.artifact_reference
  require (parsed.0 == persisted.bucket && parsed.1 == persisted.key)
      "Phase 49 successful finalization artifact_reference binding mismatch"
  require
      (ends_with persisted.key
        (String.◌++◌ "/" (String.◌++◌ artifact.manifest.execution_id ".json")))
      "Phase 49 successful finalization artifact execution binding mismatch"

abbrev pub identity_from_manifest : Phase49ArtifactManifest → Phase49ArtifactIdentity
identity_from_manifest manifest = record {
  execution_id = manifest.execution_id;
  issue_id = manifest.issue_id;
  repository = manifest.repository;
  source_revision = manifest.source_revision;
  brief_revision = manifest.brief_revision;
  persisted_revision = manifest.persisted_revision;
  requirements_fingerprint = manifest.requirements_fingerprint;
}

abbrev pub identity_from_handoff : Phase49DevelopmentHandoffInput → Phase49ArtifactIdentity
identity_from_handoff handoff = record {
  execution_id = handoff.execution_id;
  issue_id = handoff.issue_id;
  repository = handoff.repository;
  source_revision = handoff.source_revision;
  brief_revision = handoff.brief_revision;
  persisted_revision = handoff.persisted_revision;
  requirements_fingerprint = handoff.requirements_fingerprint;
}

pub record ActiveExecutionSnapshot : Type 0 where
  pub project_id : ℕ
  pub started : String

unfoldable pub assert_issue_boundary : RedmineIssueRecord → ℕ → List ℕ → Result (Unit {0})
assert_issue_boundary issue issue_id allowed_project_ids = do
  require (nat_beq issue.id issue_id) "Phase 49 finalization Issue identity mismatch"
  require (includes allowed_project_ids issue.project.id)
      "Phase 49 finalization is outside allowed projects"

abbrev pub identity_values : Phase49ArtifactIdentity → List (String × String)
identity_values identity =
    (execution_id, identity.execution_id)
    ∷ (brief_revision, decimal identity.brief_revision)
    ∷ (persisted_revision, identity.persisted_revision)
    ∷ (requirements_fingerprint, identity.requirements_fingerprint)
    ∷ (repository, identity.repository)
    ∷ (source_revision, identity.source_revision)
    ∷ []

unfoldable pub assert_identity : RedmineIssueRecord → Phase49ArtifactIdentity → Result (Unit {0})
assert_identity issue identity = assert_scalars mismatch issue (identity_values identity)

unfoldable pub assert_active_execution :
    Phase49ArtifactIdentity → List ℕ → RedmineIssueRecord → Result ActiveExecutionSnapshot
assert_active_execution identity allowed_project_ids issue = do
  assert_issue_boundary issue identity.issue_id allowed_project_ids
  assert_scalar mismatch issue lifecycle agent_running
  assert_identity issue identity
  assert_scalar mismatch issue finished_at ""
  assert_scalar mismatch issue outcome ""
  assert_scalar mismatch issue artifact_reference ""
  started ← scalar_of issue started_at
  require (is_rfc3339 started) "Phase 49 started execution timestamp is not canonical RFC3339"
  ok (record { project_id = issue.project.id; started = started })

unfoldable pub distinct_writes : List CustomFieldWrite → Result (List CustomFieldWrite)
distinct_writes writes = do
  require (distinct (map (λ (w : CustomFieldWrite). w.id) writes))
      "Phase 49 finalization field binding contains duplicate IDs"
  ok writes

abbrev pub success_values : Phase49ArtifactOutcome → String → String → List (String × String)
success_values o reference finished =
    (lifecycle, ready_for_independent_verification)
    ∷ (finished_at, finished)
    ∷ (outcome, artifact_outcome_text o)
    ∷ (artifact_reference, reference)
    ∷ []

abbrev pub artifact_failure_values : String → String → List (String × String)
artifact_failure_values o finished =
    (lifecycle, needs_human)
    ∷ (finished_at, finished)
    ∷ (outcome, o)
    ∷ (artifact_reference, "")
    ∷ []

-- What a finalization was planned from, and its writes.
pub record FinalizationPlan : Type 0 where
  pub active : ActiveExecutionSnapshot
  pub finished : String
  pub writes : List CustomFieldWrite

-- `buildSuccessWrites` and `buildFailureWrites`, for the values of either.
unfoldable pub build_writes :
    (String → List (String × String))
    → RedmineIssueRecord
    → ActiveExecutionSnapshot
    → String
    → Result FinalizationPlan
build_writes values issue active finished = do
  built ← field_writes issue (values finished)
  writes ← distinct_writes built
  ok (record { active = active; finished = finished; writes = writes })

unfoldable pub assert_finalized_boundary :
    RedmineIssueRecord
    → Phase49ArtifactIdentity
    → ActiveExecutionSnapshot
    → List ℕ
    → Result (Unit {0})
assert_finalized_boundary issue identity active allowed_project_ids = do
  assert_issue_boundary issue identity.issue_id allowed_project_ids
  require (nat_beq issue.project.id active.project_id)
      "Phase 49 finalization project identity changed"
  assert_identity issue identity
  assert_scalar mismatch issue started_at active.started

-- `assertSuccessfulReadBack` and `assertFailureReadBack`, for the values of either.
unfoldable pub assert_read_back :
    (String → List (String × String))
    → Phase49ArtifactIdentity
    → List ℕ
    → FinalizationPlan
    → RedmineIssueRecord
    → Result (Unit {0})
assert_read_back values identity allowed_project_ids plan issue = do
  assert_finalized_boundary issue identity plan.active allowed_project_ids
  assert_scalars mismatch issue (values plan.finished)

abbrev pub canonical_timestamp : String → Option String → Result String
canonical_timestamp operation =
    canonical_date
      (String.◌++◌ "Phase 49 " (String.◌++◌ operation " clock returned an invalid timestamp"))
      (String.◌++◌ "Phase 49 " (String.◌++◌ operation " timestamp is outside the Redmine contract"))

-- The common part of `finalizeSuccess` and `finalizeArtifactFailure`: one confirmed update with the
-- values of either.
unfoldable pub finalize_with :
    RedmineClient
    → Clock
    → List ℕ
    → String
    → Phase49ArtifactIdentity
    → (String → List (String × String))
    → Exec Event FinalizationPlan
finalize_with client clock allowed_project_ids operation identity values =
    confirmed_update client identity.issue_id
      (plan_at_time clock (assert_active_execution identity allowed_project_ids)
        (canonical_timestamp operation) (build_writes values))
      (λ plan. plan.writes) (assert_read_back values identity allowed_project_ids)

abbrev pub when_ok : {A : Type 0} → Result (Unit {0}) → Exec Event A → Exec Event A
when_ok (ok u) m = m
when_ok (err e) m = throw e

-- `finalizeSuccess`; the record that the source returns is made of its arguments and the plan.
unfoldable pub finalize_success :
    ReferenceParser
    → RedmineClient
    → Clock
    → List ℕ
    → Phase49BuiltArtifact
    → Phase49PersistedArtifact
    → Exec Event FinalizationPlan
finalize_success parse client clock allowed_project_ids artifact persisted =
    when_ok (assert_persisted_artifact_binding parse artifact persisted) (
      finalize_with client clock allowed_project_ids "successful finalization"
        (identity_from_manifest artifact.manifest)
        (success_values artifact.manifest.outcome persisted.artifact_reference))

unfoldable pub finalize_artifact_failure :
    RedmineClient
    → Clock
    → List ℕ
    → Phase49DevelopmentHandoffInput
    → Phase49ArtifactFailureReason
    → Exec Event FinalizationPlan
finalize_artifact_failure client clock allowed_project_ids handoff reason =
    finalize_with client clock allowed_project_ids "artifact failure finalization"
      (identity_from_handoff handoff)
      (artifact_failure_values (canonical_artifact_failure_outcome reason))
