-- ===== src/Artifact/Contract/Built.antt =====
-- What the builder of artifacts makes: a bounded envelope that reads back as its document, and that
-- is built again from it.
use ai_agent_runner.Base.{String, ◌≤◌, ◌≡◌, refl, ap, subst, none, some, List, inl, inr, arith}
use ai_agent_runner.Failure.{ok, Result-cases, >>=-eq-ok}
use ai_agent_runner.Artifact.Types.{
  Phase49ChangedFile, Phase49ArtifactManifest, Phase49BuiltArtifact,
}
use ai_agent_runner.Artifact.ChangedFiles.{normalize_changed_files, normalize-normalize}
use ai_agent_runner.Artifact.Runtime.{Runtime, IsReliable, ReadsBack, byte_length}
use ai_agent_runner.Artifact.Contract.{
  Phase49ArtifactBuildInput, max_artifact_bytes, metadata_budget_bytes, assert_non_empty,
  assert_positive_safe_integer, assert_build_input, assert_outcome_matches_change_set,
  build_phase49_metadata, metadata_of, metadata_bytes_of, document_json, manifest_of, body_of,
  artifact_of, finish_build, build_phase49_artifact,
}
use ai_agent_runner.Artifact.Document.{
  Phase49ArtifactEnvelopeDocument, verify_phase49_artifact_body,
}
use ai_agent_runner.Artifact.Document.Stored.{IsStorable, verify_body-eq-ok}

module _ (runtime : Runtime) where
  -- The parts of a build that succeeds.
  pub record IsBuilt (input : Phase49ArtifactBuildInput) (files : List Phase49ChangedFile)
      (a : Phase49BuiltArtifact) : Type 0 where
    pub checked : assert_build_input runtime input ≡ ok tt
    pub normalized : normalize_changed_files runtime.locale_compare input.changed_files ≡ ok files
    pub matched :
        assert_outcome_matches_change_set input.outcome files (byte_length runtime input.patch.text)
        ≡ ok tt
    pub finished :
        finish_build runtime
          (manifest_of runtime input files)
          (body_of runtime (manifest_of runtime input files) input.patch.text)
        ≡ ok a

  pub build-IsBuilt :
      (input : Phase49ArtifactBuildInput) (a : Phase49BuiltArtifact)
      → build_phase49_artifact runtime input ≡ ok a
      → (files : List Phase49ChangedFile) × IsBuilt input files a
  unfolding build_phase49_artifact
  build-IsBuilt input a h =
      let (u, c, h₁) = >>=-eq-ok (assert_build_input runtime input) _ h in
      let (files, n, h₂) =
        >>=-eq-ok (normalize_changed_files runtime.locale_compare input.changed_files) _ h₁ in
      let (v, m, h₃) =
        >>=-eq-ok
          (assert_outcome_matches_change_set input.outcome files
            (byte_length runtime input.patch.text))
          _ h₂ in
      (files, record { checked = c; normalized = n; matched = m; finished = h₃ })

  pub record IsFinished (m : Phase49ArtifactManifest) (body : String) (a : Phase49BuiltArtifact)
      : Type 0 where
    pub small : byte_length runtime body ≤ max_artifact_bytes
    pub metadata_valid : build_phase49_metadata runtime m ≡ ok (metadata_of runtime m)
    pub metadata_small :
        metadata_bytes_of (byte_length runtime) (metadata_of runtime m) ≤ metadata_budget_bytes
    pub made : a ≡ artifact_of runtime m body (metadata_of runtime m)

  metadata-eq :
      (m : Phase49ArtifactManifest) (metadata : List (String × String))
      → build_phase49_metadata runtime m ≡ ok metadata
      → metadata ≡ metadata_of runtime m
  unfolding build_phase49_metadata
  metadata-eq m metadata h = ground arith

  pub finish-IsFinished :
      (m : Phase49ArtifactManifest) (body : String) (a : Phase49BuiltArtifact)
      → finish_build runtime m body ≡ ok a
      → IsFinished m body a
  unfolding finish_build
  finish-IsFinished m body a h = elim (Result-cases (build_phase49_metadata runtime m)) [
    | inl (e, q) ↦ absurd (ground arith)
    | inr (metadata, q) ↦
        let same : metadata ≡ metadata_of runtime m = metadata-eq m metadata q in
        let bounded : metadata_bytes_of (byte_length runtime) metadata ≤ metadata_budget_bytes =
          ground arith in
        let made_of : a ≡ artifact_of runtime m body metadata = ground arith in
        record {
          small = ground arith;
          metadata_valid = rw q (ap ok same);
          metadata_small =
              subst (λ md. metadata_bytes_of (byte_length runtime) md ≤ metadata_budget_bytes) same
                bounded;
          made = subst (λ md. a ≡ artifact_of runtime m body md) same made_of;
        }
  ]

  -- The checks of a build input, and the bound of a digest, make its manifest storable.
  manifest-IsStorable :
      (input : Phase49ArtifactBuildInput) (files : List Phase49ChangedFile)
      → IsReliable runtime
      → assert_build_input runtime input ≡ ok tt
      → normalize_changed_files runtime.locale_compare input.changed_files ≡ ok files
      → IsStorable runtime (manifest_of runtime input files)
  unfolding assert_build_input assert_non_empty assert_positive_safe_integer
  manifest-IsStorable input files r c n = record {
    id_given = ground arith;
    issue_safe = ground arith;
    repository_given = ground arith;
    source_given = ground arith;
    revision_safe = ground arith;
    persisted_given = ground arith;
    fingerprint_given = ground arith;
    checksum_form = r.digest_form (runtime.encode input.patch.text);
    files_normal = normalize-normalize runtime.locale_compare r.flips input.changed_files files n;
  }

  -- The document of a build.
  abbrev pub document_of :
      Phase49ArtifactBuildInput → Phase49BuiltArtifact → Phase49ArtifactEnvelopeDocument
  document_of input a = record { manifest = a.manifest; patch = input.patch.text }

  -- The manifest is about the input: its identity, its outcome and its patch.
  pub record IsManifestOf (input : Phase49ArtifactBuildInput) (m : Phase49ArtifactManifest)
      : Type 0 where
    pub same_execution : m.execution_id ≡ input.execution_id
    pub same_issue : m.issue_id ≡ input.issue_id
    pub same_repository : m.repository ≡ input.repository
    pub same_source : m.source_revision ≡ input.source_revision
    pub same_brief : m.brief_revision ≡ input.brief_revision
    pub same_persisted : m.persisted_revision ≡ input.persisted_revision
    pub same_fingerprint : m.requirements_fingerprint ≡ input.requirements_fingerprint
    pub same_outcome : m.outcome ≡ input.outcome
    pub digest : m.patch_checksum ≡ runtime.sha256_hex (runtime.encode input.patch.text)

  -- Over a reliable runtime that reads its document back, an artifact that was built is within the
  -- bounds of its envelope and its metadata; its manifest has every field of the identity of its
  -- input, the outcome of its input and the digest of its patch; and its body, read back and verified
  -- against it or on its own, is the document of its manifest and the input's patch.
  pub verify_body-build :
      (input : Phase49ArtifactBuildInput) (a : Phase49BuiltArtifact)
      → IsReliable runtime
      → ReadsBack runtime (document_json a.manifest input.patch.text)
      → build_phase49_artifact runtime input ≡ ok a
      → (a.size_bytes ≤ max_artifact_bytes)
        × (a.metadata_bytes ≤ metadata_budget_bytes)
        × IsManifestOf input a.manifest
        × (verify_phase49_artifact_body runtime (runtime.encode a.body) (some a)
            ≡ ok (document_of input a))
        × (verify_phase49_artifact_body runtime (runtime.encode a.body) none
            ≡ ok (document_of input a))
  verify_body-build input a r back h =
      let (files, b) = build-IsBuilt input a h in
      let m = manifest_of runtime input files in
      let f = finish-IsFinished m (body_of runtime m input.patch.text) a b.finished in
      let s = manifest-IsStorable input files r b.checked b.normalized in
      let same : a.manifest ≡ m = ap (λ (t : Phase49BuiltArtifact). t.manifest) f.made in
      let back' : ReadsBack runtime (document_json m input.patch.text) =
        subst (λ k. ReadsBack runtime (document_json k input.patch.text)) same back in
      rw f.made (
        f.small,
        f.metadata_small,
        record {
          same_execution = refl;
          same_issue = refl;
          same_repository = refl;
          same_source = refl;
          same_brief = refl;
          same_persisted = refl;
          same_fingerprint = refl;
          same_outcome = refl;
          digest = refl;
        },
        verify_body-eq-ok runtime m input.patch.text
            (some
              (artifact_of runtime m (body_of runtime m input.patch.text) (metadata_of runtime m)))
            r back' s refl (refl, refl),
        verify_body-eq-ok runtime m input.patch.text none r back' s refl tt,
      )
