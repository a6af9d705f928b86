-- ===== src/Tests/Artifacts.antt =====
-- The ends with an artifact, and the end of an interrupted execution, at concrete inputs.
use ai_agent_runner.Base.{ℕ, String, ◌≡◌, refl, [], ◌∷◌, false}
use ai_agent_runner.Base.Lists.{All}
use ai_agent_runner.Base.Text.{
  is_rfc3339, is_uuid_v4, is_fingerprint, is_git_oid, is_blank, ends_with,
}
use ai_agent_runner.Base.Text.Decimal.{decimal, is_positive_decimal, number_of}
use ai_agent_runner.Failure.{ok}
use ai_agent_runner.World.{issue_read, issue_updated, clock_read}
use ai_agent_runner.Redmine.Domain.{
  RedmineIssueRecord, CustomFieldWrite, find_unique_custom_field, named, scalar_custom_field_value,
  scalar_of, assert_scalar, assert_scalars, field_write, field_writes, assert_written,
  assert_all_written, assert_holds_written,
}
use ai_agent_runner.Redmine.Client.{confirmed_update, plan_from, write_once, read_again, examine}
use ai_agent_runner.Redmine.Client.Store.{store_client, stored, written_issue, written_field}
use ai_agent_runner.Redmine.Clock.{canonical_date}
use ai_agent_runner.Redmine.Planning.{plan_at_time, plan_with}
use ai_agent_runner.Redmine.Scalars.{Holds}
use ai_agent_runner.Redmine.InterruptedFinalizer
use ai_agent_runner.Redmine.InterruptedFinalizer.{
  DurableExecutionIdentity, InterruptedPlan, read_values, validate_identity, read_active_identity,
  assert_interrupted, interrupted_confirmed, assert_finalized, plan_interrupted,
  finalize_interrupted,
}
use ai_agent_runner.Redmine.InterruptedFinalizer.Laws.{
  IsActiveIdentity, finalize_interrupted_confirmed,
}
use ai_agent_runner.Redmine.Phase49Finalizer.{
  ReferenceParser, assert_persisted_artifact_binding, identity_from_manifest, identity_from_handoff,
  assert_issue_boundary, assert_identity, assert_active_execution, distinct_writes, success_values,
  artifact_failure_values, FinalizationPlan, build_writes, assert_finalized_boundary,
  assert_read_back, finalize_with, finalize_success, finalize_artifact_failure,
}
use ai_agent_runner.Redmine.Phase49Finalizer.Laws.{IsActive, IsFinal}
use ai_agent_runner.Redmine.Phase49Finalizer.Outcomes.{
  IsReferenceOf, finalize_success_confirmed, finalize_artifact_failure_confirmed,
}
use ai_agent_runner.Artifact.Types.{
  changes_ready, storage_failure, Phase49BuiltArtifact, Phase49PersistedArtifact,
  Phase49DevelopmentHandoffInput,
}
use ai_agent_runner.Tests.Sample.{
  running_issue, sample_clock, sample_end, sample_start, sample_id, sample_fingerprint,
  sample_revision,
}

abbrev write_of : ℕ → String → CustomFieldWrite
write_of id value = record { id = id; value = value }

abbrev sample_artifact : Phase49BuiltArtifact
sample_artifact = record {
  manifest = record {
    execution_id = sample_id;
    issue_id = 42;
    repository = "repo";
    source_revision = sample_revision;
    brief_revision = 3;
    persisted_revision = "p1";
    requirements_fingerprint = sample_fingerprint;
    outcome = changes_ready;
    changed_files = [];
    patch_checksum = "c";
  };
  body = "{}";
  size_bytes = 2;
  metadata = [];
  metadata_bytes = 0;
  patch_checksum = "c";
  envelope_checksum_hex = "h";
  envelope_checksum_base64 = "b";
}

abbrev sample_key : String
sample_key = "a/6f1c1e5a-3b7d-4c2e-9a41-0123456789ab.json"

abbrev sample_persisted : Phase49PersistedArtifact
sample_persisted = record {
  bucket = "bucket";
  key = sample_key;
  artifact_reference = "ref";
  adopted_existing_object = false;
}

abbrev sample_parser : ReferenceParser
sample_parser text = ok ("bucket", sample_key)

abbrev success_plan : FinalizationPlan
success_plan = record {
  active = record { project_id = 7; started = sample_start };
  finished = sample_end;
  writes =
      write_of 1 "Ready for Independent Verification"
      ∷ write_of 9 sample_end
      ∷ write_of 10 "changes_ready"
      ∷ write_of 11 "ref"
      ∷ [];
}

succeeded :
    finalize_success sample_parser
      (store_client running_issue)
      sample_clock
      (7 ∷ [])
      sample_artifact
      sample_persisted
      []
    ≡ (
      ok success_plan,
      issue_read 42 ∷ issue_updated 42 success_plan.writes ∷ clock_read ∷ issue_read 42 ∷ [],
    )
unfolding finalize_success finalize_with assert_persisted_artifact_binding assert_active_execution
    assert_issue_boundary assert_identity distinct_writes build_writes assert_finalized_boundary
    assert_read_back plan_at_time plan_with confirmed_update plan_from write_once read_again examine
    assert_scalars assert_scalar scalar_of canonical_date is_rfc3339 ends_with field_writes
    field_write stored written_issue written_field find_unique_custom_field named
    scalar_custom_field_value decimal
succeeded = refl

abbrev succeeded_issue : RedmineIssueRecord
succeeded_issue =
    stored running_issue (issue_updated 42 success_plan.writes ∷ clock_read ∷ issue_read 42 ∷ [])

finalize_success_confirmed_example :
    IsReferenceOf sample_parser sample_artifact sample_persisted
    × IsActive
        (identity_from_manifest sample_artifact.manifest)
        (7 ∷ [])
        running_issue
        success_plan.active
    × IsFinal
        (identity_from_manifest sample_artifact.manifest)
        (success_values changes_ready "ref")
        success_plan
        succeeded_issue
unfolding stored
finalize_success_confirmed_example =
    finalize_success_confirmed sample_parser (store_client running_issue) sample_clock (7 ∷ [])
      sample_artifact sample_persisted [] success_plan
      (issue_read 42 ∷ issue_updated 42 success_plan.writes ∷ clock_read ∷ issue_read 42 ∷ [])
      running_issue succeeded_issue succeeded refl refl

abbrev sample_development : Phase49DevelopmentHandoffInput
sample_development = record {
  execution_id = sample_id;
  issue_id = 42;
  repository = "repo";
  source_revision = sample_revision;
  brief_revision = 3;
  persisted_revision = "p1";
  requirements_fingerprint = sample_fingerprint;
  provisional_outcome = changes_ready;
  changed_files = [];
  patch = record { text = ""; captured_bytes = 0; truncated = false };
}

abbrev failure_plan : FinalizationPlan
failure_plan = record {
  active = record { project_id = 7; started = sample_start };
  finished = sample_end;
  writes =
      write_of 1 "Needs Human"
      ∷ write_of 9 sample_end
      ∷ write_of 10 "artifact_persistence_failed"
      ∷ write_of 11 ""
      ∷ [];
}

artifact_failed :
    finalize_artifact_failure
      (store_client running_issue)
      sample_clock
      (7 ∷ [])
      sample_development
      storage_failure
      []
    ≡ (
      ok failure_plan,
      issue_read 42 ∷ issue_updated 42 failure_plan.writes ∷ clock_read ∷ issue_read 42 ∷ [],
    )
unfolding finalize_artifact_failure finalize_with assert_active_execution assert_issue_boundary
    assert_identity distinct_writes build_writes assert_finalized_boundary assert_read_back
    plan_at_time plan_with confirmed_update plan_from write_once read_again examine assert_scalars
    assert_scalar scalar_of canonical_date is_rfc3339 field_writes field_write stored written_issue
    written_field find_unique_custom_field named scalar_custom_field_value decimal
artifact_failed = refl

abbrev artifact_failed_issue : RedmineIssueRecord
artifact_failed_issue =
    stored running_issue (issue_updated 42 failure_plan.writes ∷ clock_read ∷ issue_read 42 ∷ [])

finalize_artifact_failure_confirmed_example :
    IsActive (identity_from_handoff sample_development) (7 ∷ []) running_issue failure_plan.active
    × IsFinal
        (identity_from_handoff sample_development)
        (artifact_failure_values "artifact_persistence_failed")
        failure_plan
        artifact_failed_issue
unfolding stored
finalize_artifact_failure_confirmed_example =
    finalize_artifact_failure_confirmed (store_client running_issue) sample_clock (7 ∷ [])
      sample_development storage_failure [] failure_plan
      (issue_read 42 ∷ issue_updated 42 failure_plan.writes ∷ clock_read ∷ issue_read 42 ∷ [])
      running_issue artifact_failed_issue artifact_failed refl refl

abbrev sample_identity : DurableExecutionIdentity
sample_identity = record {
  project_id = 7;
  values =
      ("Agent Execution ID", sample_id)
      ∷ ("Agent Exec Brief Revision", "3")
      ∷ ("Agent Exec Persisted Revision", "p1")
      ∷ ("Agent Exec Req Fingerprint", sample_fingerprint)
      ∷ ("Agent Execution Repository", "repo")
      ∷ ("Agent Exec Source Revision", sample_revision)
      ∷ ("Agent Execution Started At", sample_start)
      ∷ [];
}

abbrev interrupted_plan : InterruptedPlan
interrupted_plan = record {
  identity = sample_identity;
  writes =
      write_of 1 "Needs Human"
      ∷ write_of 9 sample_end
      ∷ write_of 10 "interrupted"
      ∷ write_of 11 ""
      ∷ [];
}

interrupted : finalize_interrupted (store_client running_issue) sample_clock (7 ∷ []) 42 [] ≡ (
  ok interrupted_plan,
  issue_read 42 ∷ issue_updated 42 interrupted_plan.writes ∷ clock_read ∷ issue_read 42 ∷ [],
)
unfolding finalize_interrupted plan_interrupted assert_interrupted read_active_identity read_values
    validate_identity InterruptedFinalizer.build_writes InterruptedFinalizer.canonical_timestamp
    assert_finalized plan_at_time plan_with confirmed_update plan_from write_once read_again examine
    assert_scalars assert_scalar scalar_of canonical_date is_rfc3339 is_uuid_v4 is_fingerprint
    is_git_oid is_blank is_positive_decimal number_of field_writes field_write assert_all_written
    assert_written assert_holds_written stored written_issue written_field find_unique_custom_field
    named scalar_custom_field_value
interrupted = refl

abbrev interrupted_issue : RedmineIssueRecord
interrupted_issue =
    stored running_issue
      (issue_updated 42 interrupted_plan.writes ∷ clock_read ∷ issue_read 42 ∷ [])

finalize_interrupted_confirmed_example :
    IsActiveIdentity (7 ∷ []) running_issue sample_identity
    × All (Holds interrupted_issue) sample_identity.values
    × All (Holds interrupted_issue) interrupted_confirmed
unfolding stored
finalize_interrupted_confirmed_example =
    finalize_interrupted_confirmed (store_client running_issue) sample_clock (7 ∷ []) 42 []
      interrupted_plan
      (issue_read 42 ∷ issue_updated 42 interrupted_plan.writes ∷ clock_read ∷ issue_read 42 ∷ [])
      running_issue interrupted_issue interrupted refl refl
