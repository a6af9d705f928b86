-- ===== src/Artifact/Contract/Again.antt =====
-- An artifact is built again from its own document: what a restart relies on.
use ai_agent_runner.Base.{
  String, ◌≡◌, refl, ap, subst, sym, true, false, List, arith, nat_beq, nat_beq_iff,
}
use ai_agent_runner.Failure.{ok}
use ai_agent_runner.Artifact.Types.{
  Phase49ChangedFile, Phase49ArtifactManifest, Phase49BuiltArtifact,
}
use ai_agent_runner.Artifact.ChangedFiles.{normalize-normalize}
use ai_agent_runner.Artifact.Runtime.{Runtime, IsReliable, byte_length}
use ai_agent_runner.Artifact.Contract.{
  Phase49ArtifactBuildInput, assert_build_input, manifest_of, body_of, build_phase49_artifact,
}
use ai_agent_runner.Artifact.Contract.Built.{build-IsBuilt, finish-IsFinished}

module _ (runtime : Runtime) where
  -- The build input that `recoverAndVerify` makes of a document.
  abbrev pub rebuild_input : Phase49ArtifactManifest → String → Phase49ArtifactBuildInput
  rebuild_input manifest patch = record {
    execution_id = manifest.execution_id;
    issue_id = manifest.issue_id;
    repository = manifest.repository;
    source_revision = manifest.source_revision;
    brief_revision = manifest.brief_revision;
    persisted_revision = manifest.persisted_revision;
    requirements_fingerprint = manifest.requirements_fingerprint;
    outcome = manifest.outcome;
    changed_files = manifest.changed_files;
    patch = record { text = patch; captured_bytes = byte_length runtime patch; truncated = false };
  }

  rebuild-checked :
      (input : Phase49ArtifactBuildInput) (files : List Phase49ChangedFile)
      → assert_build_input runtime input ≡ ok tt
      → assert_build_input runtime
          (rebuild_input (manifest_of runtime input files) input.patch.text)
        ≡ ok tt
  unfolding assert_build_input
  rebuild-checked input files c =
      let size = byte_length runtime input.patch.text in
      let same : nat_beq size size ≡ true = (nat_beq_iff size size).1 refl in ground arith

  -- The document of a built artifact is built into the same artifact.
  pub build_again :
      (input : Phase49ArtifactBuildInput) (a : Phase49BuiltArtifact)
      → IsReliable runtime
      → build_phase49_artifact runtime input ≡ ok a
      → build_phase49_artifact runtime (rebuild_input a.manifest input.patch.text) ≡ ok a
  unfolding build_phase49_artifact
  build_again input a r h =
      let (files, b) = build-IsBuilt runtime input a h in
      let m = manifest_of runtime input files in
      let f = finish-IsFinished runtime m (body_of runtime m input.patch.text) a b.finished in
      let same : a.manifest ≡ m = ap (λ (t : Phase49BuiltArtifact). t.manifest) f.made in
      let again : build_phase49_artifact runtime (rebuild_input m input.patch.text) ≡ ok a =
        rw
          (
            rebuild-checked input files b.checked,
            normalize-normalize runtime.locale_compare r.flips input.changed_files files
                b.normalized,
            b.matched,
          )
          b.finished in
      subst (λ k. build_phase49_artifact runtime (rebuild_input k input.patch.text) ≡ ok a)
        (sym same) again
