-- ===== src/Artifact/Persistence/Calls.antt =====
-- The operations of `Phase49S3ArtifactPersistence` as sequences of calls to the object store.
use ai_agent_runner.Base.{String, ◌==◌, Bool, true, false, ◌&&◌, Option, some, List, ◌∷◌}
use ai_agent_runner.Failure.{Result, ok, err, require}
use ai_agent_runner.Exec.{Exec, ◌>>=◌, ◌>>◌, call, lift}
use ai_agent_runner.Artifact.Types.{
  Phase49BuiltArtifact, Phase49PersistedArtifact, Phase49ArtifactIdentity,
}
use ai_agent_runner.Artifact.Runtime.{Runtime}
use ai_agent_runner.Artifact.Document.{
  Phase49ArtifactEnvelopeDocument, verify_phase49_artifact_body,
}
use ai_agent_runner.Artifact.Address.{
  Phase49S3RuntimeConfig, ReferenceUrl, phase49_artifact_object_key,
  parse_phase49_artifact_reference,
}
use ai_agent_runner.Artifact.Persistence.{
  Phase49S3PutInput, Phase49S3ObjectObservation, Phase49S3GetObservation, RecoveredDocument,
  assert_s3_storage_observation, assert_recovery_observation_presence, assert_recovery_identity,
  is_recoverable_persistence_error, put_input, persisted_at, check_recovered,
}

-- The calls of `Phase49S3ObjectClient`, by bucket and key.
pub data S3Call : Type 0 where
  put : Phase49S3PutInput → S3Call
  head : String → String → S3Call
  get : String → String → S3Call

abbrev pub S3Calls : Type 0
S3Calls = List S3Call

pub record Phase49S3ObjectClient : Type 0 where
  pub put_object : S3Calls → Phase49S3PutInput → Result (Unit {0})
  pub head_object : S3Calls → String → String → Result Phase49S3ObjectObservation
  pub get_object : S3Calls → String → String → Result Phase49S3GetObservation

-- The `catch` block: a conflict or an ambiguous answer means that an object may be there.
unfoldable pub adopts : Result (Unit {0}) → Result Bool
adopts (ok u) = ok false
adopts (err e) = elim (is_recoverable_persistence_error e) [ true ↦ ok true | false ↦ err e ]

module _ (client : Phase49S3ObjectClient) (runtime : Runtime)
    (config : Phase49S3RuntimeConfig) where
  abbrev pub ask_head : String → Exec S3Call Phase49S3ObjectObservation
  ask_head key = call (head config.bucket key) (λ h. client.head_object h config.bucket key)

  abbrev pub ask_get : String → Exec S3Call Phase49S3GetObservation
  ask_get key = call (get config.bucket key) (λ h. client.get_object h config.bucket key)

  unfoldable pub put_artifact : Phase49BuiltArtifact → String → Exec S3Call Bool
  put_artifact artifact key h =
      let input = put_input runtime config artifact key in
      (adopts (client.put_object h input), put input ∷ h)

  -- `#confirmByHead`.
  unfoldable pub confirm_by_head : Phase49BuiltArtifact → String → Exec S3Call (Unit {0})
  confirm_by_head artifact key = do
    observed ← ask_head key
    lift (assert_s3_storage_observation artifact observed)

  unfoldable pub persist_at : Phase49BuiltArtifact → String → Exec S3Call Phase49PersistedArtifact
  persist_at artifact key = do
    adopted ← put_artifact artifact key
    confirm_by_head artifact key
    lift (persisted_at runtime config key adopted)

  -- `persistAndConfirm`.
  unfoldable pub persist_and_confirm : Phase49BuiltArtifact → Exec S3Call Phase49PersistedArtifact
  persist_and_confirm artifact = do
    key ← lift (phase49_artifact_object_key config artifact.manifest.execution_id)
    persist_at artifact key

  -- `getAndVerify`.
  unfoldable pub get_and_verify :
      (String → Option ReferenceUrl)
      → String
      → Phase49BuiltArtifact
      → Exec S3Call Phase49ArtifactEnvelopeDocument
  get_and_verify parse_url reference expected = do
    parsed ← lift (parse_phase49_artifact_reference parse_url reference)
    key ← lift (phase49_artifact_object_key config expected.manifest.execution_id)
    lift (
        require ((parsed.bucket == config.bucket) && (parsed.key == key))
          "Phase 49 artifact_reference does not match configured deterministic address")
    observed ←
        call (get parsed.bucket parsed.key) (λ h. client.get_object h parsed.bucket parsed.key)
    lift (assert_s3_storage_observation expected observed.observation)
    lift (verify_phase49_artifact_body runtime observed.body (some expected))

  unfoldable pub recover_at : Phase49ArtifactIdentity → String → Exec S3Call RecoveredDocument
  recover_at identity key = do
    observed ← ask_head key
    lift (assert_recovery_observation_presence observed)
    got ← ask_get key
    lift (check_recovered runtime config identity key observed got)

  -- `recoverAndVerify`.
  unfoldable pub recover_and_verify : Phase49ArtifactIdentity → Exec S3Call RecoveredDocument
  recover_and_verify identity = do
    lift (assert_recovery_identity identity)
    key ← lift (phase49_artifact_object_key config identity.execution_id)
    recover_at identity key
