-- ===== src/Artifact/Contract.antt =====
-- The artifact of an execution: the builder of src/artifact/contract.ts. Its
-- `canonicalJsonStringify` is Json, `normalizeChangedFiles` is ChangedFiles.
pub mod Again
pub mod Built
pub mod Head
use Prim.Native.String.{◌++◌}
use ai_agent_runner.Base.{
  ℕ, zero, suc, ◌+◌, ◌*◌, String, ◌==◌, Bool, true, false, not, ◌&&◌, ◌||◌, Option, none, some,
  List, [], ◌∷◌, map, nat_beq, ltb, leb, if◌then◌else◌,
}
use ai_agent_runner.Base.Lists.{length}
use ai_agent_runner.Base.Lists.Sort.{sort}
use ai_agent_runner.Base.Text.{is_ascii}
use ai_agent_runner.Base.Text.Decimal.{decimal, max_safe_integer}
use ai_agent_runner.Failure.{Result, ok, err, error, ◌>>=◌, ◌>>◌, require}
use ai_agent_runner.Artifact.Types.{
  Phase49ArtifactOutcome, changes_ready, no_changes, artifact_outcome_text, Phase49ChangedFile,
  Phase49PatchCapture, Phase49DevelopmentHandoffInput, Phase49ArtifactManifest,
  Phase49BuiltArtifact,
}
use ai_agent_runner.Artifact.Json.{
  Json, json_natural, json_text, json_array, json_object, JsonItems, no_items, item, JsonFields,
  no_fields, field, canonical_json_stringify, text_le,
}
use ai_agent_runner.Artifact.ChangedFiles.{status_text, normalize_changed_files}
use ai_agent_runner.Artifact.Runtime.{Bytes, Runtime, byte_length}

abbrev pub artifact_format_version : String
artifact_format_version = "phase49.single.v1"

abbrev pub patch_format : String
patch_format = "git-diff-binary-v1"

abbrev pub checksum_algorithm : String
checksum_algorithm = "sha256"

abbrev pub s3_checksum_algorithm : String
s3_checksum_algorithm = "SHA256"

abbrev pub s3_checksum_type : String
s3_checksum_type = "FULL_OBJECT"

abbrev pub max_artifact_bytes : ℕ
max_artifact_bytes = 8 * 1024 * 1024

abbrev pub metadata_budget_bytes : ℕ
metadata_budget_bytes = 1536

pub record Phase49ArtifactBuildInput : Type 0 where
  pub execution_id : String
  pub issue_id : ℕ
  pub repository : String
  pub source_revision : String
  pub brief_revision : ℕ
  pub persisted_revision : String
  pub requirements_fingerprint : String
  pub outcome : Phase49ArtifactOutcome
  pub changed_files : List Phase49ChangedFile
  pub patch : Phase49PatchCapture

-- `PHASE49_REQUIRED_METADATA_KEYS`
abbrev pub required_metadata_keys : List String
required_metadata_keys =
    "artifact-format-version" ∷ "execution-id" ∷ "issue-id" ∷ "repository" ∷ "source-revision"
    ∷ "brief-revision" ∷ "persisted-revision" ∷ "requirements-fingerprint" ∷ "outcome"
    ∷ "patch-checksum" ∷ []

-- `record[key]`
abbrev pub get_text {ℓ} : {V : Type ℓ} → String → List (String × V) → Option V
get_text key [] = none
get_text key ((k, v) ∷ rest) = let later = get_text key rest in if k == key then some v else later

unfoldable pub assert_non_empty : String → String → Result (Unit {0})
assert_non_empty value label =
    require (not (value == "")) ("Phase 49 " ++ label ++ " must not be empty")

unfoldable pub assert_positive_safe_integer : ℕ → String → Result (Unit {0})
assert_positive_safe_integer value label =
    require (leb value max_safe_integer && ltb 0 value)
      ("Phase 49 " ++ label ++ " must be a positive safe integer")

-- The array of the changed files.
unfoldable pub items_of_files : List Phase49ChangedFile → JsonItems
items_of_files [] = no_items
items_of_files (entry ∷ entries) =
    item
      (json_object (
        field "path" (json_text entry.path)
          (field "status" (json_text (status_text entry.status)) no_fields)))
      (items_of_files entries)

abbrev patch_fields : String → JsonFields
patch_fields checksum = field "checksumAlgorithm" (json_text checksum_algorithm) (
    field "checksumSha256Hex" (json_text checksum)
      (field "format" (json_text patch_format) no_fields))

unfoldable pub manifest_to_canonical_json : Phase49ArtifactManifest → Json
manifest_to_canonical_json manifest = json_object (
    field "artifactFormatVersion" (json_text artifact_format_version) (
      field "briefRevision" (json_natural manifest.brief_revision) (
        field "changedFiles" (json_array (items_of_files manifest.changed_files)) (
          field "executionId" (json_text manifest.execution_id) (
            field "issueId" (json_natural manifest.issue_id) (
              field "outcome" (json_text (artifact_outcome_text manifest.outcome)) (
                field "patch" (json_object (patch_fields manifest.patch_checksum)) (
                  field "persistedRevision" (json_text manifest.persisted_revision) (
                    field "repository" (json_text manifest.repository) (
                      field "requirementsFingerprint" (json_text manifest.requirements_fingerprint)
                        (field "sourceRevision" (json_text manifest.source_revision)
                          no_fields)))))))))))

-- The document of an artifact.
unfoldable pub document_json : Phase49ArtifactManifest → String → Json
document_json manifest patch = json_object (
    field "manifest" (manifest_to_canonical_json manifest)
      (field "patch" (json_text patch) no_fields))

unfoldable pub assert_outcome_matches_change_set :
    Phase49ArtifactOutcome → List Phase49ChangedFile → ℕ → Result (Unit {0})
assert_outcome_matches_change_set changes_ready changed_files patch_bytes =
    require (ltb 0 (length changed_files) && ltb 0 patch_bytes)
      "changes_ready requires a non-empty changed-file set and patch"
assert_outcome_matches_change_set no_changes changed_files patch_bytes =
    require (not (ltb 0 (length changed_files) || ltb 0 patch_bytes))
      "no_changes requires an empty changed-file set and canonical empty patch"

-- `measureMetadataBytes`: the values are ASCII, and the header name has the prefix `x-amz-meta-`.
abbrev pub metadata_bytes_of : (String → ℕ) → List (String × String) → ℕ
metadata_bytes_of size [] = 0
metadata_bytes_of size ((key, value) ∷ rest) =
    size ("x-amz-meta-" ++ key) + (size value + metadata_bytes_of size rest)

abbrev pub checked_metadata : List (String × String) → Result (Unit {0})
checked_metadata [] = ok tt
checked_metadata ((key, value) ∷ rest) = do
  require (is_ascii value) ("Phase 49 metadata value is invalid: " ++ key)
  checked_metadata rest

abbrev pub input_of : Phase49DevelopmentHandoffInput → Phase49ArtifactBuildInput
input_of handoff = record {
  execution_id = handoff.execution_id;
  issue_id = handoff.issue_id;
  repository = handoff.repository;
  source_revision = handoff.source_revision;
  brief_revision = handoff.brief_revision;
  persisted_revision = handoff.persisted_revision;
  requirements_fingerprint = handoff.requirements_fingerprint;
  outcome = handoff.provisional_outcome;
  changed_files = handoff.changed_files;
  patch = handoff.patch;
}

module _ (runtime : Runtime) where
  unfoldable pub assert_build_input : Phase49ArtifactBuildInput → Result (Unit {0})
  assert_build_input input = do
    assert_non_empty input.execution_id "executionId"
    assert_positive_safe_integer input.issue_id "issueId"
    assert_non_empty input.repository "repository"
    assert_non_empty input.source_revision "sourceRevision"
    assert_positive_safe_integer input.brief_revision "briefRevision"
    assert_non_empty input.persisted_revision "persistedRevision"
    assert_non_empty input.requirements_fingerprint "requirementsFingerprint"
    require (not input.patch.truncated) "Phase 49 artifact cannot persist a truncated patch"
    require (nat_beq input.patch.captured_bytes (byte_length runtime input.patch.text))
        "Phase 49 patch byte count does not match serialized patch bytes"

  unfoldable pub ascii_projection : String → String
  ascii_projection value = runtime.base64url (runtime.encode value)

  abbrev pub metadata_of : Phase49ArtifactManifest → List (String × String)
  metadata_of manifest =
      ("artifact-format-version", artifact_format_version)
      ∷ ("execution-id", manifest.execution_id)
      ∷ ("issue-id", decimal manifest.issue_id)
      ∷ ("repository", ascii_projection manifest.repository)
      ∷ ("source-revision", ascii_projection manifest.source_revision)
      ∷ ("brief-revision", decimal manifest.brief_revision)
      ∷ ("persisted-revision", ascii_projection manifest.persisted_revision)
      ∷ ("requirements-fingerprint", ascii_projection manifest.requirements_fingerprint)
      ∷ ("outcome", artifact_outcome_text manifest.outcome)
      ∷ ("patch-checksum", manifest.patch_checksum)
      ∷ []

  unfoldable pub build_phase49_metadata : Phase49ArtifactManifest → Result (List (String × String))
  build_phase49_metadata manifest = do
    checked_metadata (metadata_of manifest)
    ok (metadata_of manifest)

  abbrev pub manifest_of :
      Phase49ArtifactBuildInput → List Phase49ChangedFile → Phase49ArtifactManifest
  manifest_of input changed_files = record {
    execution_id = input.execution_id;
    issue_id = input.issue_id;
    repository = input.repository;
    source_revision = input.source_revision;
    brief_revision = input.brief_revision;
    persisted_revision = input.persisted_revision;
    requirements_fingerprint = input.requirements_fingerprint;
    outcome = input.outcome;
    changed_files = changed_files;
    patch_checksum = runtime.sha256_hex (runtime.encode input.patch.text);
  }

  unfoldable pub body_of : Phase49ArtifactManifest → String → String
  body_of manifest patch =
      canonical_json_stringify runtime.json_string (document_json manifest patch)

  abbrev pub artifact_of :
      Phase49ArtifactManifest → String → List (String × String) → Phase49BuiltArtifact
  artifact_of manifest body metadata = record {
    manifest = manifest;
    body = body;
    size_bytes = byte_length runtime body;
    metadata = metadata;
    metadata_bytes = metadata_bytes_of (byte_length runtime) metadata;
    patch_checksum = manifest.patch_checksum;
    envelope_checksum_hex = runtime.sha256_hex (runtime.encode body);
    envelope_checksum_base64 = runtime.sha256_base64 (runtime.encode body);
  }

  -- The envelope, with its bounds.
  unfoldable pub finish_build : Phase49ArtifactManifest → String → Result Phase49BuiltArtifact
  finish_build manifest body = do
    require (leb (byte_length runtime body) max_artifact_bytes) (
        "Phase 49 artifact exceeded maximum size: "
        ++ decimal (byte_length runtime body)
        ++ " > "
        ++ decimal max_artifact_bytes)
    metadata ← build_phase49_metadata manifest
    require (leb (metadata_bytes_of (byte_length runtime) metadata) metadata_budget_bytes) (
        "Phase 49 S3 metadata exceeded budget: "
        ++ decimal (metadata_bytes_of (byte_length runtime) metadata)
        ++ " > "
        ++ decimal metadata_budget_bytes)
    ok (artifact_of manifest body metadata)

  -- `buildPhase49Artifact`.
  unfoldable pub build_phase49_artifact : Phase49ArtifactBuildInput → Result Phase49BuiltArtifact
  build_phase49_artifact input = do
    assert_build_input input
    changed_files ← normalize_changed_files runtime.locale_compare input.changed_files
    assert_outcome_matches_change_set input.outcome changed_files
        (byte_length runtime input.patch.text)
    finish_build (manifest_of input changed_files)
        (body_of (manifest_of input changed_files) input.patch.text)

  unfoldable pub build_phase49_artifact_from_development_handoff :
      Phase49DevelopmentHandoffInput → Result Phase49BuiltArtifact
  build_phase49_artifact_from_development_handoff handoff =
      build_phase49_artifact (input_of handoff)
