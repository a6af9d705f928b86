-- ===== src/Artifact/NoChanges.antt =====
-- The artifact of an execution that changed nothing: src/artifact/no-changes.ts.
pub mod Accepted
use Prim.Native.String
use ai_agent_runner.Base.{
  ℕ, String, ◌==◌, eq_iff, ◌≡◌, refl, ap, sym, Bool, true, false, not, ◌&&◌, Option, none, some,
  List, [], ◌∷◌, arith, nat_beq, ltb, inl, inr,
}
use ai_agent_runner.Base.Lists.{length}
use ai_agent_runner.Failure.{Result, ok, err, ◌>>=◌, ◌>>◌, require}
use ai_agent_runner.Artifact.Types.{
  Phase49ArtifactOutcome, changes_ready, no_changes, Phase49ChangedFile,
  Phase49DevelopmentHandoffInput, Phase49ArtifactManifest, Phase49BuiltArtifact,
  Phase49PersistedArtifact,
}
use ai_agent_runner.Artifact.Runtime.{Runtime, byte_length}
use ai_agent_runner.Artifact.Contract.{get_text, build_phase49_artifact_from_development_handoff}
use ai_agent_runner.Artifact.Contract.Head.{is_text}
use ai_agent_runner.Artifact.Document.{
  Phase49ArtifactEnvelopeDocument, verify_phase49_artifact_body,
}
use ai_agent_runner.Artifact.Address.{ReferenceUrl, Address, parse_phase49_artifact_reference}

abbrev pub canonical_empty_patch : String
canonical_empty_patch = ""

abbrev pub canonical_empty_patch_sha256_hex : String
canonical_empty_patch_sha256_hex =
    "e3b0c44298fc1c149afbf4c8996fb92427ae41e4649b934ca495991b7852b855"

abbrev pub is_no_changes : Phase49ArtifactOutcome → Bool
is_no_changes changes_ready = false
is_no_changes no_changes = true

abbrev pub is_empty : List Phase49ChangedFile → Bool
is_empty files = nat_beq (length files) 0

unfoldable pub assert_no_changes_handoff : Phase49DevelopmentHandoffInput → Result (Unit {0})
assert_no_changes_handoff handoff = do
  require (is_no_changes handoff.provisional_outcome)
      "Phase 49 no_changes artifact builder requires provisional no_changes"
  require (is_empty handoff.changed_files)
      "Phase 49 no_changes artifact builder rejects changed files"
  require (not handoff.patch.truncated)
      "Phase 49 no_changes artifact builder rejects a truncated patch capture"
  require ((handoff.patch.text == canonical_empty_patch) && nat_beq handoff.patch.captured_bytes 0)
      "Phase 49 no_changes artifact builder requires canonical empty patch bytes"

-- `assertPhase49NoChangesArtifactDocument`.
unfoldable pub assert_no_changes_document : Phase49ArtifactEnvelopeDocument → Result (Unit {0})
assert_no_changes_document document = do
  require (is_no_changes document.manifest.outcome)
      "Phase 49 no_changes artifact manifest outcome is not no_changes"
  require (is_empty document.manifest.changed_files)
      "Phase 49 no_changes artifact manifest contains changed files"
  require (document.patch == canonical_empty_patch)
      "Phase 49 no_changes artifact patch is not the canonical empty representation"
  require (document.manifest.patch_checksum == canonical_empty_patch_sha256_hex)
      "Phase 49 no_changes artifact empty patch checksum is invalid"

-- `Phase49NoChangesVerificationHandoff`; its constants are left out.
pub record NoChangesVerificationHandoff : Type 0 where
  pub canonical_manifest : Phase49ArtifactManifest
  pub artifact_reference : String
  pub envelope_checksum_hex : String

module _ (runtime : Runtime) where
  unfoldable pub assert_canonical_no_changes_artifact : Phase49BuiltArtifact → Result (Unit {0})
  assert_canonical_no_changes_artifact artifact = do
    require (is_no_changes artifact.manifest.outcome)
        "Phase 49 no_changes artifact outcome changed unexpectedly"
    require (is_empty artifact.manifest.changed_files)
        "Phase 49 no_changes artifact contains changed files"
    require (ltb 0 artifact.size_bytes && ltb 0 (byte_length runtime artifact.body))
        "Phase 49 no_changes must be a durable artifact, not artifact absence"
    require
        ((artifact.patch_checksum == canonical_empty_patch_sha256_hex)
          && ((artifact.manifest.patch_checksum == canonical_empty_patch_sha256_hex)
              && is_text canonical_empty_patch_sha256_hex
                  (get_text "patch-checksum" artifact.metadata)))
        "Phase 49 no_changes artifact empty patch checksum is invalid"
    require (is_text "no_changes" (get_text "outcome" artifact.metadata))
        "Phase 49 no_changes artifact metadata outcome mismatch"
    document ← verify_phase49_artifact_body runtime (runtime.encode artifact.body) (some artifact)
    assert_no_changes_document document

  -- `buildPhase49NoChangesArtifact`.
  unfoldable pub build_phase49_no_changes_artifact :
      Phase49DevelopmentHandoffInput → Result Phase49BuiltArtifact
  build_phase49_no_changes_artifact handoff = do
    assert_no_changes_handoff handoff
    artifact ← build_phase49_artifact_from_development_handoff runtime handoff
    assert_canonical_no_changes_artifact artifact
    ok artifact

  -- `buildPhase49NoChangesVerificationHandoff`.
  unfoldable pub build_no_changes_verification_handoff :
      (String → Option ReferenceUrl)
      → Phase49BuiltArtifact
      → Phase49PersistedArtifact
      → Result NoChangesVerificationHandoff
  build_no_changes_verification_handoff parse_url artifact persisted = do
    assert_canonical_no_changes_artifact artifact
    parsed ← parse_phase49_artifact_reference parse_url persisted.artifact_reference
    require ((parsed.bucket == persisted.bucket) && (parsed.key == persisted.key))
        "Phase 49 no_changes artifact_reference does not match persisted address"
    ok (record {
      canonical_manifest = artifact.manifest;
      artifact_reference = persisted.artifact_reference;
      envelope_checksum_hex = artifact.envelope_checksum_hex;
    })
