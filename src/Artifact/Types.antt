-- ===== src/Artifact/Types.antt =====
-- The data of the artifact contract: the types of src/artifact/contract.ts and of
-- src/artifact/s3-persistence.ts. Fields that are the same constant in every value are left out
-- (format and algorithm names); the body is its UTF-8 text.
use ai_agent_runner.Base.{ℕ, String, Bool, List}

pub data Phase49ArtifactOutcome : Type 0 where
  changes_ready no_changes : Phase49ArtifactOutcome

abbrev pub artifact_outcome_text : Phase49ArtifactOutcome → String
artifact_outcome_text changes_ready = "changes_ready"
artifact_outcome_text no_changes = "no_changes"

pub data Phase49ChangedFileStatus : Type 0 where
  added modified deleted type_changed unmerged untracked other : Phase49ChangedFileStatus

pub record Phase49ChangedFile : Type 0 where
  pub path : String
  pub status : Phase49ChangedFileStatus

pub record Phase49PatchCapture : Type 0 where
  pub text : String
  pub captured_bytes : ℕ
  pub truncated : Bool

pub record Phase49DevelopmentHandoffInput : Type 0 where
  pub execution_id : String
  pub issue_id : ℕ
  pub repository : String
  pub source_revision : String
  pub brief_revision : ℕ
  pub persisted_revision : String
  pub requirements_fingerprint : String
  pub provisional_outcome : Phase49ArtifactOutcome
  pub changed_files : List Phase49ChangedFile
  pub patch : Phase49PatchCapture

pub record Phase49ArtifactManifest : Type 0 where
  pub execution_id : String
  pub issue_id : ℕ
  pub repository : String
  pub source_revision : String
  pub brief_revision : ℕ
  pub persisted_revision : String
  pub requirements_fingerprint : String
  pub outcome : Phase49ArtifactOutcome
  pub changed_files : List Phase49ChangedFile
  pub patch_checksum : String

pub record Phase49BuiltArtifact : Type 0 where
  pub manifest : Phase49ArtifactManifest
  pub body : String
  pub size_bytes : ℕ
  pub metadata : List (String × String)
  pub metadata_bytes : ℕ
  pub patch_checksum : String
  pub envelope_checksum_hex : String
  pub envelope_checksum_base64 : String

pub data Phase49ArtifactFailureReason : Type 0 where
  storage_failure integrity_failure artifact_too_large : Phase49ArtifactFailureReason
  secret_policy_rejection result_validation_failure : Phase49ArtifactFailureReason

-- `canonicalArtifactFailureOutcome`.
abbrev pub canonical_artifact_failure_outcome : Phase49ArtifactFailureReason → String
canonical_artifact_failure_outcome reason = "artifact_persistence_failed"

pub record Phase49PersistedArtifact : Type 0 where
  pub bucket : String
  pub key : String
  pub artifact_reference : String
  pub adopted_existing_object : Bool

-- The identity by which a durable artifact is found again.
pub record Phase49ArtifactIdentity : Type 0 where
  pub execution_id : String
  pub issue_id : ℕ
  pub repository : String
  pub source_revision : String
  pub brief_revision : ℕ
  pub persisted_revision : String
  pub requirements_fingerprint : String
