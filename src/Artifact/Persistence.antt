-- ===== src/Artifact/Persistence.antt =====
-- Artifacts in an object store: `Phase49S3ArtifactPersistence` of src/artifact/s3-persistence.ts.
-- The store is called through `Phase49S3ObjectClient`. The constants of a read (the checksum
-- mode) and of an artifact are left out.
pub mod Calls
pub mod Confirmed
pub mod Recovered
pub mod Store
use Prim.Native.String.{◌++◌}
use ai_agent_runner.Base.{
  ℕ, String, ◌==◌, Bool, true, false, not, ◌&&◌, Option, none, some, List, [], ◌∷◌, nat_beq, ltb,
  leb, if◌then◌else◌,
}
use ai_agent_runner.Base.Text.{is_uuid_v4, is_blank}
use ai_agent_runner.Base.Text.Decimal.{max_safe_integer}
use ai_agent_runner.Failure.{
  Failure, Result, ok, err, error, s3_operation_error, conflict, ambiguous, ◌>>=◌, ◌>>◌, require,
}
use ai_agent_runner.Artifact.Types.{
  Phase49ArtifactManifest, Phase49BuiltArtifact, Phase49PersistedArtifact, Phase49ArtifactIdentity,
}
use ai_agent_runner.Artifact.Runtime.{Bytes, Runtime, byte_length}
use ai_agent_runner.Artifact.Contract.{
  s3_checksum_algorithm, s3_checksum_type, required_metadata_keys, build_phase49_artifact,
}
use ai_agent_runner.Artifact.Contract.Head.{
  Phase49HeadObservation, required_text, has_required_keys, value_at, is_text,
  verify_phase49_artifact_head,
}
use ai_agent_runner.Artifact.Contract.Again.{rebuild_input}
use ai_agent_runner.Artifact.Document.{
  Phase49ArtifactEnvelopeDocument, verify_phase49_artifact_body,
}
use ai_agent_runner.Artifact.Address.{Phase49S3RuntimeConfig, format_phase49_artifact_reference}

pub record Phase49S3PutInput : Type 0 where
  pub bucket : String
  pub key : String
  pub body : Bytes
  pub metadata : List (String × String)
  pub checksum_algorithm : String
  pub checksum_base64 : String
  pub if_none_match : String
  pub server_side_encryption : String
  pub expected_bucket_owner : Option String

pub record Phase49S3ObjectObservation : Type 0 where
  pub checksum_type : Option String
  pub checksum_base64 : Option String
  pub metadata : Option (List (String × Option String))
  pub server_side_encryption : Option String
  pub version_id : Option String
  pub content_length : Option ℕ

pub record Phase49S3GetObservation : Type 0 where
  pub observation : Phase49S3ObjectObservation
  pub body : Bytes

pub record RecoveredDocument : Type 0 where
  pub artifact : Phase49BuiltArtifact
  pub persisted : Phase49PersistedArtifact
  pub document : Phase49ArtifactEnvelopeDocument

abbrev pub server_side_encryption_name : String
server_side_encryption_name = "AES256"

abbrev pub is_absent : Option String → Bool
is_absent none = true
is_absent (some v) = false

abbrev pub has_length : Option ℕ → ℕ → Bool
has_length none size = true
has_length (some n) size = nat_beq n size

-- `assertS3StorageObservation`.
unfoldable pub assert_s3_storage_observation :
    Phase49BuiltArtifact → Phase49S3ObjectObservation → Result (Unit {0})
assert_s3_storage_observation expected observed = do
  require (is_text server_side_encryption_name observed.server_side_encryption)
      "Phase 49 artifact is not confirmed with SSE-S3 AES256"
  require (is_absent observed.version_id)
      "Phase 49 artifact bucket versioning baseline is not disabled"
  require (has_length observed.content_length expected.size_bytes)
      "Phase 49 artifact content length mismatch"
  verify_phase49_artifact_head expected (record {
    checksum_mode_enabled = true;
    checksum_type = observed.checksum_type;
    checksum_base64 = observed.checksum_base64;
    metadata = observed.metadata;
  })

abbrev pub assert_values_present : List (String × Option String) → List String → Result (Unit {0})
assert_values_present metadata [] = ok tt
assert_values_present metadata (key ∷ keys) = do
  value ←
      required_text (value_at metadata key)
        ("Phase 49 recovered artifact required metadata is missing: " ++ key)
  assert_values_present metadata keys

abbrev assert_metadata_present : Option (List (String × Option String)) → Result (Unit {0})
assert_metadata_present none =
    err (error "Phase 49 recovered artifact metadata projection is missing")
assert_metadata_present (some metadata) = do
  require (has_required_keys metadata) "Phase 49 recovered artifact metadata field set mismatch"
  assert_values_present metadata required_metadata_keys

-- `assertRecoveryObservationPresence`.
unfoldable pub assert_recovery_observation_presence : Phase49S3ObjectObservation → Result (Unit {0})
assert_recovery_observation_presence observed = do
  require (is_text server_side_encryption_name observed.server_side_encryption)
      "Phase 49 recovered artifact is not confirmed with SSE-S3 AES256"
  require (is_absent observed.version_id)
      "Phase 49 recovered artifact bucket versioning baseline is not disabled"
  require (is_text s3_checksum_type observed.checksum_type)
      "Phase 49 recovered artifact checksum type is missing or is not FULL_OBJECT"
  checksum ←
      required_text observed.checksum_base64 "Phase 49 recovered artifact ChecksumSHA256 is missing"
  assert_metadata_present observed.metadata

abbrev pub same_identity : Phase49ArtifactManifest → Phase49ArtifactIdentity → Bool
same_identity manifest identity =
    (manifest.execution_id == identity.execution_id)
    && (nat_beq manifest.issue_id identity.issue_id
        && ((manifest.repository == identity.repository)
            && ((manifest.source_revision == identity.source_revision)
                && (nat_beq manifest.brief_revision identity.brief_revision
                    && ((manifest.persisted_revision == identity.persisted_revision)
                        && (manifest.requirements_fingerprint
                            == identity.requirements_fingerprint))))))

unfoldable pub assert_recovered_identity :
    Phase49ArtifactManifest → Phase49ArtifactIdentity → Result (Unit {0})
assert_recovered_identity manifest identity =
    require (same_identity manifest identity)
      "Phase 49 recovered artifact identity does not match Agent Running execution"

unfoldable pub assert_recovery_identity : Phase49ArtifactIdentity → Result (Unit {0})
assert_recovery_identity identity = do
  require (is_uuid_v4 identity.execution_id)
      "Phase 49 recovery execution_id must be a lowercase UUIDv4"
  require (leb identity.issue_id max_safe_integer && ltb 0 identity.issue_id)
      "Phase 49 recovery issueId must be a positive safe integer"
  require (leb identity.brief_revision max_safe_integer && ltb 0 identity.brief_revision)
      "Phase 49 recovery briefRevision must be a positive safe integer"
  require (not (is_blank identity.repository)) "Phase 49 recovery repository must not be blank"
  require (not (is_blank identity.source_revision))
      "Phase 49 recovery sourceRevision must not be blank"
  require (not (is_blank identity.persisted_revision))
      "Phase 49 recovery persistedRevision must not be blank"
  require (not (is_blank identity.requirements_fingerprint))
      "Phase 49 recovery requirementsFingerprint must not be blank"

-- `isRecoverablePersistenceError`.
unfoldable pub is_recoverable_persistence_error : Failure → Bool
is_recoverable_persistence_error (s3_operation_error conflict m) = true
is_recoverable_persistence_error (s3_operation_error ambiguous m) = true
is_recoverable_persistence_error _ = false

-- `Buffer.compare(a, b) === 0`.
abbrev pub same_bytes : Bytes → Bytes → Bool
same_bytes [] [] = true
same_bytes (x ∷ xs) (y ∷ ys) = nat_beq x y && same_bytes xs ys
same_bytes _ _ = false

abbrev same_option : Option String → Option String → Bool
same_option (some a) (some b) = a == b
same_option none none = true
same_option _ _ = false

module _ (runtime : Runtime) (config : Phase49S3RuntimeConfig) where
  abbrev pub put_input : Phase49BuiltArtifact → String → Phase49S3PutInput
  put_input artifact key = record {
    bucket = config.bucket;
    key = key;
    body = runtime.encode artifact.body;
    metadata = artifact.metadata;
    checksum_algorithm = s3_checksum_algorithm;
    checksum_base64 = artifact.envelope_checksum_base64;
    if_none_match = "*";
    server_side_encryption = server_side_encryption_name;
    expected_bucket_owner = config.expected_bucket_owner;
  }

  unfoldable pub persisted_at : String → Bool → Result Phase49PersistedArtifact
  persisted_at key adopted = do
    reference ← format_phase49_artifact_reference config.bucket key
    ok (record {
      bucket = config.bucket;
      key = key;
      artifact_reference = reference;
      adopted_existing_object = adopted;
    })

  -- The document is built again, and the artifact compared with what was observed.
  unfoldable pub rebuild_and_compare :
      Phase49ArtifactEnvelopeDocument
      → Phase49S3ObjectObservation
      → Phase49S3GetObservation
      → Result Phase49BuiltArtifact
  rebuild_and_compare document head got = do
    artifact ←
        build_phase49_artifact runtime (rebuild_input runtime document.manifest document.patch)
    assert_s3_storage_observation artifact head
    assert_s3_storage_observation artifact got.observation
    require (same_bytes (runtime.encode artifact.body) got.body)
        "Phase 49 recovered artifact body differs from canonical builder output"
    ok artifact

  -- What `recoverAndVerify` makes of the two answers.
  unfoldable pub check_recovered :
      Phase49ArtifactIdentity
      → String
      → Phase49S3ObjectObservation
      → Phase49S3GetObservation
      → Result RecoveredDocument
  check_recovered identity key head got = do
    assert_recovery_observation_presence got.observation
    require (same_option head.checksum_base64 got.observation.checksum_base64)
        "Phase 49 recovered artifact Head/Get checksum mismatch"
    document ← verify_phase49_artifact_body runtime got.body none
    assert_recovered_identity document.manifest identity
    artifact ← rebuild_and_compare document head got
    persisted ← persisted_at key true
    ok (record { artifact = artifact; persisted = persisted; document = document })
