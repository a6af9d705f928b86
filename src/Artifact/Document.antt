-- ===== src/Artifact/Document.antt =====
-- Reading a stored body back: `verifyPhase49ArtifactBody` of src/artifact/contract.ts with its
-- parser of documents.
pub mod Stored
use Prim.Native.String.{◌++◌}
use ai_agent_runner.Base.{
  ℕ, String, ◌==◌, Bool, true, false, not, ◌&&◌, Option, none, some, List, [], ◌∷◌, nat_beq, ltb,
  leb, if◌then◌else◌,
}
use ai_agent_runner.Base.Lists.Sort.{sort}
use ai_agent_runner.Base.Text.{is_sha256_hex}
use ai_agent_runner.Base.Text.Decimal.{max_safe_integer}
use ai_agent_runner.Failure.{Result, ok, err, error, ◌>>=◌, ◌>>◌, require}
use ai_agent_runner.Artifact.Types.{
  Phase49ArtifactOutcome, changes_ready, no_changes, artifact_outcome_text, Phase49ChangedFile,
  Phase49ChangedFileStatus, added, modified, deleted, type_changed, unmerged, untracked, other,
  Phase49ArtifactManifest, Phase49BuiltArtifact,
}
use ai_agent_runner.Artifact.Json.{
  Json, json_natural, json_text, json_array, json_object, JsonItems, no_items, item, JsonFields,
  no_fields, field, keys_of, canonical_json_stringify, text_le,
}
use ai_agent_runner.Artifact.ChangedFiles.{normalize_changed_files}
use ai_agent_runner.Artifact.Runtime.{Bytes, Runtime}
use ai_agent_runner.Artifact.Contract.{
  artifact_format_version, patch_format, checksum_algorithm, items_of_files, body_of,
}
use ai_agent_runner.Artifact.Contract.Head.{same_texts}

pub record Phase49ArtifactEnvelopeDocument : Type 0 where
  pub manifest : Phase49ArtifactManifest
  pub patch : String

-- `requireRecord`
abbrev pub require_record : Option Json → String → Result JsonFields
require_record (some (json_object fields)) label = ok fields
require_record _ label = err (error ("Phase 49 " ++ label ++ " must be an object"))

abbrev pub assert_exact_keys : JsonFields → List String → String → Result (Unit {0})
assert_exact_keys fields expected label =
    require (same_texts (sort text_le (keys_of fields)) (sort text_le expected))
      ("Phase 49 " ++ label ++ " field set mismatch")

-- `value[key]`
abbrev pub at_key : String → JsonFields → Option Json
at_key key no_fields = none
at_key key (field k value rest) =
    let later = at_key key rest in if k == key then some value else later

abbrev pub non_empty_text : String → String → Result String
non_empty_text value label =
    if value == ""
    then err (error ("Phase 49 " ++ label ++ " must be a non-empty string"))
    else ok value

abbrev pub require_string : Option Json → String → Result String
require_string (some (json_text value)) label = non_empty_text value label
require_string _ label = err (error ("Phase 49 " ++ label ++ " must be a non-empty string"))

abbrev pub require_any_string : Option Json → String → Result String
require_any_string (some (json_text value)) label = ok value
require_any_string _ label = err (error ("Phase 49 " ++ label ++ " must be a string"))

abbrev pub safe_integer : ℕ → String → Result ℕ
safe_integer value label =
    if leb value max_safe_integer && ltb 0 value
    then ok value
    else err (error ("Phase 49 " ++ label ++ " must be a positive safe integer"))

abbrev pub require_positive_safe_integer : Option Json → String → Result ℕ
require_positive_safe_integer (some (json_natural value)) label = safe_integer value label
require_positive_safe_integer _ label =
    err (error ("Phase 49 " ++ label ++ " must be a positive safe integer"))

abbrev pub parse_outcome : String → Result Phase49ArtifactOutcome
parse_outcome text =
    if text == "changes_ready"
    then ok changes_ready
    else if text == "no_changes"
    then ok no_changes
    else err (error "Phase 49 artifact outcome is unsupported")

-- `isChangedFileStatus`, with the status.
abbrev pub parse_status : String → Result Phase49ChangedFileStatus
parse_status text =
    if text == "added"
    then ok added
    else if text == "modified"
    then ok modified
    else if text == "deleted"
    then ok deleted
    else if text == "type_changed"
    then ok type_changed
    else if text == "unmerged"
    then ok unmerged
    else if text == "untracked"
    then ok untracked
    else if text == "other"
    then ok other
    else err (error "Phase 49 changed-file status is unsupported")

unfoldable pub parse_changed_file : Json → Result Phase49ChangedFile
parse_changed_file value = do
  entry ← require_record (some value) "changed file"
  assert_exact_keys entry ("path" ∷ "status" ∷ []) "changed file"
  path ← require_string (at_key "path" entry) "changed file path"
  text ← require_string (at_key "status" entry) "changed file status"
  status ← parse_status text
  ok (record { path = path; status = status })

unfoldable pub parse_changed_files : JsonItems → Result (List Phase49ChangedFile)
parse_changed_files no_items = ok []
parse_changed_files (item value rest) = do
  entry ← parse_changed_file value
  entries ← parse_changed_files rest
  ok (entry ∷ entries)

abbrev pub parse_file_array : Option Json → Result (List Phase49ChangedFile)
parse_file_array (some (json_array items)) = parse_changed_files items
parse_file_array _ = err (error "Phase 49 artifact changedFiles must be an array")

abbrev pub manifest_keys : List String
manifest_keys =
    "artifactFormatVersion" ∷ "briefRevision" ∷ "changedFiles" ∷ "executionId" ∷ "issueId"
    ∷ "outcome" ∷ "patch" ∷ "persistedRevision" ∷ "repository" ∷ "requirementsFingerprint"
    ∷ "sourceRevision" ∷ []

-- The checksum of the patch object.
unfoldable pub parse_patch_object : Option Json → Result String
parse_patch_object value = do
  fields ← require_record value "manifest patch"
  assert_exact_keys fields ("checksumAlgorithm" ∷ "checksumSha256Hex" ∷ "format" ∷ [])
      "manifest patch"
  format ← require_string (at_key "format" fields) "patch format"
  algorithm ← require_string (at_key "checksumAlgorithm" fields) "patch checksum algorithm"
  checksum ← require_string (at_key "checksumSha256Hex" fields) "patch checksum"
  require ((format == patch_format) && (algorithm == checksum_algorithm))
      "Phase 49 patch contract is unsupported"
  require (is_sha256_hex checksum) "Phase 49 patch checksum representation is invalid"
  ok checksum

-- The identity of a manifest whose outcome, checksum and files are read.
unfoldable pub parse_manifest_identity :
    JsonFields
    → Phase49ArtifactOutcome
    → String
    → List Phase49ChangedFile
    → Result Phase49ArtifactManifest
parse_manifest_identity fields outcome checksum changed_files = do
  execution_id ← require_string (at_key "executionId" fields) "executionId"
  issue_id ← require_positive_safe_integer (at_key "issueId" fields) "issueId"
  repository ← require_string (at_key "repository" fields) "repository"
  source_revision ← require_string (at_key "sourceRevision" fields) "sourceRevision"
  brief_revision ← require_positive_safe_integer (at_key "briefRevision" fields) "briefRevision"
  persisted_revision ← require_string (at_key "persistedRevision" fields) "persistedRevision"
  requirements_fingerprint ←
      require_string (at_key "requirementsFingerprint" fields) "requirementsFingerprint"
  ok (record {
    execution_id = execution_id;
    issue_id = issue_id;
    repository = repository;
    source_revision = source_revision;
    brief_revision = brief_revision;
    persisted_revision = persisted_revision;
    requirements_fingerprint = requirements_fingerprint;
    outcome = outcome;
    changed_files = changed_files;
    patch_checksum = checksum;
  })

module _ (runtime : Runtime) where
  abbrev files_text : List Phase49ChangedFile → String
  files_text entries =
      canonical_json_stringify runtime.json_string (json_array (items_of_files entries))

  -- The files are in canonical order.
  unfoldable pub assert_canonical_files : List Phase49ChangedFile → Result (Unit {0})
  assert_canonical_files changed_files = do
    normalized ← normalize_changed_files runtime.locale_compare changed_files
    require (files_text normalized == files_text changed_files)
        "Phase 49 artifact changedFiles are not in canonical order"

  unfoldable pub parse_manifest : Option Json → Result Phase49ArtifactManifest
  parse_manifest value = do
    fields ← require_record value "artifact manifest"
    assert_exact_keys fields manifest_keys "artifact manifest"
    version ← require_string (at_key "artifactFormatVersion" fields) "artifactFormatVersion"
    require (version == artifact_format_version) "Phase 49 artifact format version is unsupported"
    text ← require_string (at_key "outcome" fields) "outcome"
    outcome ← parse_outcome text
    checksum ← parse_patch_object (at_key "patch" fields)
    changed_files ← parse_file_array (at_key "changedFiles" fields)
    manifest ← parse_manifest_identity fields outcome checksum changed_files
    assert_canonical_files changed_files
    ok manifest

  unfoldable pub parse_artifact_document : Json → Result Phase49ArtifactEnvelopeDocument
  parse_artifact_document value = do
    root ← require_record (some value) "artifact document"
    assert_exact_keys root ("manifest" ∷ "patch" ∷ []) "artifact document"
    manifest ← parse_manifest (at_key "manifest" root)
    patch ← require_any_string (at_key "patch" root) "artifact patch"
    ok (record { manifest = manifest; patch = patch })

  abbrev pub same_manifest : Phase49ArtifactManifest → Phase49ArtifactManifest → Bool
  same_manifest expected actual =
      (expected.execution_id == actual.execution_id)
      && (nat_beq expected.issue_id actual.issue_id
          && ((expected.repository == actual.repository)
              && ((expected.source_revision == actual.source_revision)
                  && (nat_beq expected.brief_revision actual.brief_revision
                      && ((expected.persisted_revision == actual.persisted_revision)
                          && ((expected.requirements_fingerprint == actual.requirements_fingerprint)
                              && ((artifact_outcome_text expected.outcome
                                    == artifact_outcome_text actual.outcome)
                                  && (expected.patch_checksum == actual.patch_checksum))))))))

  unfoldable pub assert_manifest_identity_matches :
      Phase49ArtifactManifest → Phase49ArtifactManifest → Result (Unit {0})
  assert_manifest_identity_matches expected actual =
      require (same_manifest expected actual) "Phase 49 artifact manifest identity mismatch"

  abbrev parsed_json : Option Json → Result Json
  parsed_json none = err (error "Phase 49 artifact body is not valid JSON")
  parsed_json (some value) = ok value

  -- The tests against the artifact that is expected.
  unfoldable pub verify_expected :
      Bytes → Option Phase49BuiltArtifact → Phase49ArtifactManifest → Result (Unit {0})
  verify_expected body none manifest = ok tt
  verify_expected body (some expected) manifest = do
    require (runtime.sha256_hex body == expected.envelope_checksum_hex)
        "Phase 49 artifact body envelope checksum mismatch"
    assert_manifest_identity_matches expected.manifest manifest

  -- `verifyPhase49ArtifactBody`.
  unfoldable pub verify_phase49_artifact_body :
      Bytes → Option Phase49BuiltArtifact → Result Phase49ArtifactEnvelopeDocument
  verify_phase49_artifact_body body expected = do
    value ← parsed_json (runtime.json_parse (runtime.decode body))
    document ← parse_artifact_document value
    require (body_of runtime document.manifest document.patch == runtime.decode body)
        "Phase 49 artifact body is not in canonical serialization form"
    require (runtime.sha256_hex (runtime.encode document.patch) == document.manifest.patch_checksum)
        "Phase 49 artifact patch checksum mismatch"
    verify_expected body expected document.manifest
    ok document
