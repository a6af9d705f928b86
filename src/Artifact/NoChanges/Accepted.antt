-- ===== src/Artifact/NoChanges/Accepted.antt =====
-- The further checks on an artifact without changes never refuse what the ordinary builder makes.
use text.Mathlib.TextLemmas.{append-eq-nil_iff, cons-ne-nil}
use ai_agent_runner.Base.{
  String, ◌==◌, eq_iff, ◌≡◌, ◌≢◌, refl, ap, sym, subst, ◌∙◌, true, some, List, [], ◌∷◌, arith, ltb,
  ◌<◌, inl, inr, Bool-cases,
}
use ai_agent_runner.Base.Lists.{length}
use ai_agent_runner.Failure.{ok}
use ai_agent_runner.Artifact.Types.{
  Phase49ArtifactOutcome, artifact_outcome_text, no_changes, changes_ready, Phase49ChangedFile,
  Phase49DevelopmentHandoffInput, Phase49ArtifactManifest, Phase49BuiltArtifact,
}
use ai_agent_runner.Artifact.Json.{canonical_json_stringify}
use ai_agent_runner.Artifact.ChangedFiles.{
  normalize_changed_files, assert_paths, assert_distinct_neighbours,
}
use ai_agent_runner.Artifact.Runtime.{Bytes, Runtime, IsReliable, ReadsBack, byte_length}
use ai_agent_runner.Artifact.Contract.{
  Phase49ArtifactBuildInput, document_json, manifest_of, body_of, metadata_of, artifact_of,
  assert_build_input, input_of, build_phase49_artifact_from_development_handoff,
}
use ai_agent_runner.Artifact.Contract.Built.{build-IsBuilt, finish-IsFinished, verify_body-build}
use ai_agent_runner.Artifact.Document.{verify_phase49_artifact_body}
use ai_agent_runner.Artifact.NoChanges.{
  canonical_empty_patch_sha256_hex, is_no_changes, is_empty, assert_no_changes_handoff,
  assert_no_changes_document, assert_canonical_no_changes_artifact,
  build_phase49_no_changes_artifact,
}

-- What the handoff of an unchanged workspace says.
record IsUnchanged (handoff : Phase49DevelopmentHandoffInput) : Type 0 where
  pub outcome : handoff.provisional_outcome ≡ no_changes
  pub files : handoff.changed_files ≡ []
  pub patch : handoff.patch.text ≡ ""
  pub size : handoff.patch.captured_bytes ≡ 0

no_changes_of : (o : Phase49ArtifactOutcome) → is_no_changes o ≡ true → o ≡ no_changes
no_changes_of changes_ready h = cc
no_changes_of no_changes h = refl

nil_of_is_empty : (xs : List Phase49ChangedFile) → is_empty xs ≡ true → xs ≡ []
nil_of_is_empty [] h = refl
nil_of_is_empty (x ∷ xs) h = absurd (ground arith)

handoff-IsUnchanged :
    (handoff : Phase49DevelopmentHandoffInput)
    → assert_no_changes_handoff handoff ≡ ok tt
    → IsUnchanged handoff
unfolding assert_no_changes_handoff
handoff-IsUnchanged handoff h = record {
  outcome = no_changes_of handoff.provisional_outcome (ground arith);
  files = nil_of_is_empty handoff.changed_files (ground arith);
  patch = ground (arith, eq_iff handoff.patch.text "");
  size = ground arith;
}

no_bytes : (xs : Bytes) → length xs ≡ 0 → xs ≡ []
no_bytes [] h = refl
no_bytes (x ∷ xs) h = absurd (omega arith)

module _ (runtime : Runtime) where
  body-≢-empty : (m : Phase49ArtifactManifest) (patch : String) → body_of runtime m patch ≢ ""
  unfolding body_of document_json canonical_json_stringify
  body-≢-empty m patch e = let (brace, rest) = append-eq-nil_iff.0 e in cons-ne-nil "{" "" brace

  -- Where the empty text has no bytes, a body has some.
  body-has_bytes :
      (m : Phase49ArtifactManifest) (patch : String)
      → IsReliable runtime
      → byte_length runtime "" ≡ 0
      → 0 < byte_length runtime (body_of runtime m patch)
  body-has_bytes m patch r no_length =
      let body = body_of runtime m patch in
      elim (Bool-cases (ltb 0 (byte_length runtime body))) [
        | inl q ↦ ground arith
        | inr q ↦
            let same : runtime.encode body ≡ runtime.encode "" =
              no_bytes (runtime.encode body) (ground arith)
              ∙ sym (no_bytes (runtime.encode "") no_length) in
            absurd (
              body-≢-empty m patch
                (sym (r.decode-encode body) ∙ ap runtime.decode same ∙ r.decode-encode ""))
      ]

  document-eq-ok :
      (m : Phase49ArtifactManifest)
      → m.outcome ≡ no_changes
      → m.changed_files ≡ []
      → m.patch_checksum ≡ canonical_empty_patch_sha256_hex
      → assert_no_changes_document (record { manifest = m; patch = "" }) ≡ ok tt
  unfolding assert_no_changes_document
  document-eq-ok m o f c =
      let outcome_test : is_no_changes m.outcome ≡ true = rw o refl in
      let files_test : is_empty m.changed_files ≡ true = rw f refl in
      rw (outcome_test, files_test, (eq_iff m.patch_checksum canonical_empty_patch_sha256_hex).1 c)
        refl

  captured_size :
      (input : Phase49ArtifactBuildInput)
      → assert_build_input runtime input ≡ ok tt
      → input.patch.captured_bytes ≡ byte_length runtime input.patch.text
  unfolding assert_build_input
  captured_size input h = ground arith

  normalized_nil :
      (given files : List Phase49ChangedFile)
      → given ≡ []
      → normalize_changed_files runtime.locale_compare given ≡ ok files
      → files ≡ []
  unfolding normalize_changed_files assert_paths assert_distinct_neighbours
  normalized_nil [] files e h = cc
  normalized_nil (x ∷ xs) files e h = cc

  canonical-eq-ok :
      (m : Phase49ArtifactManifest) (body : String)
      → m.outcome ≡ no_changes
      → m.changed_files ≡ []
      → m.patch_checksum ≡ canonical_empty_patch_sha256_hex
      → 0 < byte_length runtime body
      → verify_phase49_artifact_body runtime
          (runtime.encode body)
          (some (artifact_of runtime m body (metadata_of runtime m)))
        ≡ ok (record { manifest = m; patch = "" })
      → assert_canonical_no_changes_artifact runtime
          (artifact_of runtime m body (metadata_of runtime m))
        ≡ ok tt
  unfolding assert_canonical_no_changes_artifact
  canonical-eq-ok m body o f c l v =
      let long : ltb 0 (byte_length runtime body) ≡ true = ground (arith, l) in
      let outcome_test : is_no_changes m.outcome ≡ true = rw o refl in
      let files_test : is_empty m.changed_files ≡ true = rw f refl in
      let sum_test : (m.patch_checksum == canonical_empty_patch_sha256_hex) ≡ true =
        (eq_iff m.patch_checksum canonical_empty_patch_sha256_hex).1 c in
      let text_test : (artifact_outcome_text m.outcome == "no_changes") ≡ true = rw o refl in
      rw (outcome_test, files_test, long, sum_test, text_test, v, document-eq-ok m o f c) refl

  -- For a handoff without changes, the builder with the further checks makes what the ordinary
  -- builder makes: over a reliable runtime that reads the document back and whose SHA-256 of no bytes
  -- is the known constant, those checks refuse nothing.
  pub build_no_changes-eq-ok :
      (handoff : Phase49DevelopmentHandoffInput) (a : Phase49BuiltArtifact)
      → IsReliable runtime
      → runtime.sha256_hex (runtime.encode "") ≡ canonical_empty_patch_sha256_hex
      → ReadsBack runtime (document_json a.manifest handoff.patch.text)
      → assert_no_changes_handoff handoff ≡ ok tt
      → build_phase49_artifact_from_development_handoff runtime handoff ≡ ok a
      → build_phase49_no_changes_artifact runtime handoff ≡ ok a
  unfolding build_phase49_no_changes_artifact build_phase49_artifact_from_development_handoff
  build_no_changes-eq-ok handoff a r digest back h b =
      let u = handoff-IsUnchanged handoff h in
      let input = input_of handoff in
      let (files, built) = build-IsBuilt runtime input a b in
      let m = manifest_of runtime input files in
      let body = body_of runtime m handoff.patch.text in
      let f = finish-IsFinished runtime m body a built.finished in
      let (small, few, same_id, verified, alone) = verify_body-build runtime input a r back b in
      let no_length : byte_length runtime "" ≡ 0 =
        ap (λ t. byte_length runtime t) (sym u.patch)
        ∙ sym (captured_size input built.checked)
        ∙ u.size in
      let empty_document : verify_phase49_artifact_body runtime (runtime.encode a.body) (some a)
          ≡ ok (record { manifest = a.manifest; patch = "" }) =
        verified ∙ ap (λ t. ok (record { manifest = a.manifest; patch = t })) u.patch in
      let canonical : assert_canonical_no_changes_artifact runtime a ≡ ok tt =
        subst (λ t. assert_canonical_no_changes_artifact runtime t ≡ ok tt) (sym f.made)
          (canonical-eq-ok m body u.outcome
            (normalized_nil handoff.changed_files files u.files built.normalized)
            (ap (λ t. runtime.sha256_hex (runtime.encode t)) u.patch ∙ digest)
            (body-has_bytes m handoff.patch.text r no_length)
            (subst
              (λ (t : Phase49BuiltArtifact).
                verify_phase49_artifact_body runtime (runtime.encode t.body) (some t)
                ≡ ok (record { manifest = t.manifest; patch = "" }))
              f.made empty_document)) in
      rw (h, b, canonical) refl
