-- ===== src/Tests/Objects.antt =====
-- Artifacts, their store and their recovery at concrete inputs.
use Prim.Native.Nat.{Ordering}
use Prim.Native.String.{◌++◌}
use ai_agent_runner.Base.{String, ◌≡◌, refl, ◌≤◌, true, false, none, some, [], ◌∷◌}
use ai_agent_runner.Base.Text.{codes, is_sha256_hex, is_ascii, is_uuid_v4, is_blank}
use ai_agent_runner.Base.Text.Decimal.{decimal}
use ai_agent_runner.Failure.{ok}
use ai_agent_runner.Artifact.Types.{
  modified, changes_ready, no_changes, Phase49ArtifactManifest, Phase49BuiltArtifact,
  Phase49PersistedArtifact, Phase49DevelopmentHandoffInput,
}
use ai_agent_runner.Artifact.Json.{canonical_json_stringify}
use ai_agent_runner.Artifact.ChangedFiles.{
  normalize_changed_files, assert_paths, assert_path, assert_distinct_neighbours, includes_nul,
}
use ai_agent_runner.Artifact.Runtime.{Bytes, Runtime, IsReliable}
use ai_agent_runner.Artifact.Contract.{
  Phase49ArtifactBuildInput, max_artifact_bytes, metadata_budget_bytes, metadata_of, body_of,
  artifact_of, document_json, build_phase49_artifact, assert_build_input, assert_non_empty,
  assert_positive_safe_integer, assert_outcome_matches_change_set, finish_build,
  build_phase49_metadata, ascii_projection, manifest_to_canonical_json, items_of_files,
  build_phase49_artifact_from_development_handoff,
}
use ai_agent_runner.Artifact.Contract.Built.{document_of, IsManifestOf, verify_body-build}
use ai_agent_runner.Artifact.Document.{verify_phase49_artifact_body}
use ai_agent_runner.Artifact.Address.{
  Phase49S3RuntimeConfig, is_valid_bucket_name, phase49_artifact_object_key,
  format_phase49_artifact_reference,
}
use ai_agent_runner.Artifact.Persistence.{assert_recovery_identity}
use ai_agent_runner.Artifact.Persistence.Confirmed.{IsPersisted, persist_and_confirm-IsPersisted}
use ai_agent_runner.Artifact.Persistence.Store.{object_store, stored}
use ai_agent_runner.Artifact.Persistence.Recovered.{
  identity_of, persisted_as, IsRecovered, recover-persist,
}
use ai_agent_runner.Artifact.NoChanges.{
  canonical_empty_patch_sha256_hex, assert_no_changes_handoff, build_phase49_no_changes_artifact,
}
use ai_agent_runner.Artifact.NoChanges.Accepted.{build_no_changes-eq-ok}
use ai_agent_runner.Artifact.Finalization.{
  FinalizationPorts, finalize, Finalizes, finalize-Finalizes,
}
use ai_agent_runner.Tests.Codec.{text_of, text_of-codes}
use ai_agent_runner.Tests.Sample.{sample_id, sample_fingerprint, sample_revision}

abbrev digest_of : Bytes → String
digest_of [] = canonical_empty_patch_sha256_hex
digest_of (b ∷ bytes) = "0123456789abcdef0123456789abcdef0123456789abcdef0123456789abcdef"

abbrev small_manifest : Phase49ArtifactManifest
small_manifest = record {
  execution_id = sample_id;
  issue_id = 42;
  repository = "repo";
  source_revision = sample_revision;
  brief_revision = 3;
  persisted_revision = "p1";
  requirements_fingerprint = sample_fingerprint;
  outcome = changes_ready;
  changed_files = record { path = "a.txt"; status = modified } ∷ [];
  patch_checksum = "0123456789abcdef0123456789abcdef0123456789abcdef0123456789abcdef";
}

abbrev unchanged_manifest : Phase49ArtifactManifest
unchanged_manifest = record small_manifest {
  outcome = no_changes;
  changed_files = [];
  patch_checksum = canonical_empty_patch_sha256_hex;
}

-- Its JSON reader knows one document.
abbrev runtime_for : Phase49ArtifactManifest → String → Runtime
runtime_for manifest patch = record {
  encode = codes;
  decode = text_of;
  sha256_hex = digest_of;
  sha256_base64 = λ bytes. "c3Vt";
  base64url = λ bytes. "dGV4dA";
  json_string = λ text. "'" ++ text ++ "'";
  json_parse = λ text. some (document_json manifest patch);
  locale_compare = λ a b. Ordering.eq;
}

digest_of_form : (bytes : Bytes) → is_sha256_hex (digest_of bytes) ≡ true
unfolding is_sha256_hex
digest_of_form [] = refl
digest_of_form (b ∷ bytes) = refl

runtime-IsReliable :
    (manifest : Phase49ArtifactManifest) (patch : String) → IsReliable (runtime_for manifest patch)
runtime-IsReliable manifest patch = record {
  decode-encode = text_of-codes;
  digest_form = digest_of_form;
  digest_given = λ bytes. refl;
  flips = λ a b. refl;
}

abbrev small_runtime : Runtime
small_runtime = runtime_for small_manifest "diff"

abbrev small_input : Phase49ArtifactBuildInput
small_input = record {
  execution_id = sample_id;
  issue_id = 42;
  repository = "repo";
  source_revision = sample_revision;
  brief_revision = 3;
  persisted_revision = "p1";
  requirements_fingerprint = sample_fingerprint;
  outcome = changes_ready;
  changed_files = record { path = "a.txt"; status = modified } ∷ [];
  patch = record { text = "diff"; captured_bytes = 4; truncated = false };
}

abbrev small_artifact : Phase49BuiltArtifact
small_artifact =
    artifact_of small_runtime small_manifest (body_of small_runtime small_manifest "diff")
      (metadata_of small_runtime small_manifest)

small_artifact-built : build_phase49_artifact small_runtime small_input ≡ ok small_artifact
unfolding build_phase49_artifact assert_build_input assert_non_empty assert_positive_safe_integer
    assert_outcome_matches_change_set finish_build build_phase49_metadata ascii_projection
    normalize_changed_files assert_paths assert_path assert_distinct_neighbours includes_nul body_of
    document_json canonical_json_stringify manifest_to_canonical_json items_of_files decimal
    is_ascii
small_artifact-built = refl

verify_body-build_example :
    (small_artifact.size_bytes ≤ max_artifact_bytes)
    × (small_artifact.metadata_bytes ≤ metadata_budget_bytes)
    × IsManifestOf small_runtime small_input small_artifact.manifest
    × (verify_phase49_artifact_body small_runtime (codes small_artifact.body) (some small_artifact)
        ≡ ok (document_of small_runtime small_input small_artifact))
    × (verify_phase49_artifact_body small_runtime (codes small_artifact.body) none
        ≡ ok (document_of small_runtime small_input small_artifact))
verify_body-build_example =
    verify_body-build small_runtime small_input small_artifact
      (runtime-IsReliable small_manifest "diff") refl small_artifact-built

abbrev small_config : Phase49S3RuntimeConfig
small_config = record {
  region = "eu-west-1";
  bucket = "bucket";
  prefix = "phase49/artifacts";
  expected_bucket_owner = none;
}

abbrev small_key : String
small_key = "phase49/artifacts/6f1c1e5a-3b7d-4c2e-9a41-0123456789ab.json"

abbrev small_reference : String
small_reference = "s3://bucket/phase49/artifacts/6f1c1e5a-3b7d-4c2e-9a41-0123456789ab.json"

small_key-made : phase49_artifact_object_key small_config sample_id ≡ ok small_key
unfolding phase49_artifact_object_key is_uuid_v4
small_key-made = refl

small_reference-made : format_phase49_artifact_reference "bucket" small_key ≡ ok small_reference
unfolding format_phase49_artifact_reference is_valid_bucket_name
small_reference-made = refl

small_identity-valid : assert_recovery_identity (identity_of small_manifest) ≡ ok tt
unfolding assert_recovery_identity is_uuid_v4 is_blank
small_identity-valid = refl

nothing_stored : stored "bucket" small_key [] ≡ none
unfolding stored
nothing_stored = refl

recover-persist_example :
    IsRecovered small_runtime small_config small_key small_reference small_reference-made
      small_artifact
      (document_of small_runtime small_input small_artifact)
      []
recover-persist_example =
    recover-persist small_runtime small_config small_key small_reference small_reference-made
      small_input small_artifact [] (runtime-IsReliable small_manifest "diff") refl
      small_artifact-built small_key-made small_identity-valid nothing_stored

small_round :
    IsRecovered small_runtime small_config small_key small_reference small_reference-made
      small_artifact
      (document_of small_runtime small_input small_artifact)
      []
small_round =
    recover-persist small_runtime small_config small_key small_reference small_reference-made
      small_input small_artifact [] (runtime-IsReliable small_manifest "diff") refl
      small_artifact-built small_key-made small_identity-valid nothing_stored

abbrev small_persisted : Phase49PersistedArtifact
small_persisted =
    persisted_as small_runtime small_config small_key small_reference small_reference-made false

persist_and_confirm-IsPersisted_example :
    IsPersisted object_store small_runtime small_config small_artifact [] small_persisted
      small_round.first_calls
persist_and_confirm-IsPersisted_example =
    persist_and_confirm-IsPersisted object_store small_runtime small_config small_artifact []
      small_persisted small_round.first_calls small_round.written

abbrev pub unchanged_runtime : Runtime
unchanged_runtime = runtime_for unchanged_manifest ""

abbrev unchanged_handoff : Phase49DevelopmentHandoffInput
unchanged_handoff = record {
  execution_id = sample_id;
  issue_id = 42;
  repository = "repo";
  source_revision = sample_revision;
  brief_revision = 3;
  persisted_revision = "p1";
  requirements_fingerprint = sample_fingerprint;
  provisional_outcome = no_changes;
  changed_files = [];
  patch = record { text = ""; captured_bytes = 0; truncated = false };
}

abbrev unchanged_artifact : Phase49BuiltArtifact
unchanged_artifact =
    artifact_of unchanged_runtime unchanged_manifest
      (body_of unchanged_runtime unchanged_manifest "")
      (metadata_of unchanged_runtime unchanged_manifest)

unchanged_artifact-built :
    build_phase49_artifact_from_development_handoff unchanged_runtime unchanged_handoff
    ≡ ok unchanged_artifact
unfolding build_phase49_artifact_from_development_handoff build_phase49_artifact assert_build_input
    assert_non_empty assert_positive_safe_integer assert_outcome_matches_change_set finish_build
    build_phase49_metadata ascii_projection normalize_changed_files assert_paths
    assert_distinct_neighbours body_of document_json canonical_json_stringify
    manifest_to_canonical_json items_of_files decimal is_ascii
unchanged_artifact-built = refl

unchanged-asserted : assert_no_changes_handoff unchanged_handoff ≡ ok tt
unfolding assert_no_changes_handoff
unchanged-asserted = refl

build_no_changes-eq-ok_example :
    build_phase49_no_changes_artifact unchanged_runtime unchanged_handoff ≡ ok unchanged_artifact
build_no_changes-eq-ok_example =
    build_no_changes-eq-ok unchanged_runtime unchanged_handoff unchanged_artifact
      (runtime-IsReliable unchanged_manifest "") refl refl unchanged-asserted
      unchanged_artifact-built

-- The artifact without changes is persisted and confirmed.
abbrev confirming_ports : FinalizationPorts
confirming_ports = record {
  on_persist = λ h artifact. ok small_persisted;
  on_success = λ h artifact persisted. ok tt;
  on_failure = λ h handoff reason. ok tt;
}

finalize-Finalizes_example :
    Finalizes unchanged_runtime confirming_ports unchanged_handoff []
      (finalize unchanged_runtime confirming_ports unchanged_handoff []).0
      (finalize unchanged_runtime confirming_ports unchanged_handoff []).1
finalize-Finalizes_example =
    finalize-Finalizes unchanged_runtime confirming_ports unchanged_handoff []
