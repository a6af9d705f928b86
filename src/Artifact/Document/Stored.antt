-- ===== src/Artifact/Document/Stored.antt =====
-- A body in the canonical form of its manifest and patch is read back as that document.
use ai_agent_runner.Base.{
  String, ◌==◌, eq_iff, ◌≡◌, refl, sym, ap, true, false, ◌&&◌, Option, none, some, List, [], ◌∷◌,
  arith, leb, ltb, nat_beq_iff, inl, inr, Bool-cases,
}
use ai_agent_runner.Base.Text.{is_sha256_hex}
use ai_agent_runner.Base.Text.Decimal.{max_safe_integer}
use ai_agent_runner.Failure.{ok, >>=-eq-ok}
use ai_agent_runner.Artifact.Types.{
  Phase49ArtifactOutcome, changes_ready, no_changes, artifact_outcome_text, Phase49ChangedFile,
  Phase49ChangedFileStatus, added, modified, deleted, type_changed, unmerged, untracked, other,
  Phase49ArtifactManifest, Phase49BuiltArtifact,
}
use ai_agent_runner.Artifact.Json.{canonical_json_stringify, json_array}
use ai_agent_runner.Artifact.ChangedFiles.{
  status_text, assert_path, assert_paths, normalize_changed_files,
}
use ai_agent_runner.Artifact.Runtime.{Bytes, Runtime, IsReliable, ReadsBack}
use ai_agent_runner.Artifact.Contract.{
  items_of_files, manifest_to_canonical_json, document_json, body_of,
}
use ai_agent_runner.Artifact.Document.{
  parse_outcome, parse_status, parse_changed_file, parse_changed_files, parse_patch_object,
  parse_manifest_identity, assert_canonical_files, parse_manifest, parse_artifact_document,
  same_manifest, assert_manifest_identity_matches, verify_expected, verify_phase49_artifact_body,
}

module _ (runtime : Runtime) where
  -- What the contract asks of a manifest.
  pub record IsStorable (m : Phase49ArtifactManifest) : Type 0 where
    pub id_given : (m.execution_id == "") ≡ false
    pub issue_safe : (leb m.issue_id max_safe_integer && ltb 0 m.issue_id) ≡ true
    pub repository_given : (m.repository == "") ≡ false
    pub source_given : (m.source_revision == "") ≡ false
    pub revision_safe : (leb m.brief_revision max_safe_integer && ltb 0 m.brief_revision) ≡ true
    pub persisted_given : (m.persisted_revision == "") ≡ false
    pub fingerprint_given : (m.requirements_fingerprint == "") ≡ false
    pub checksum_form : is_sha256_hex m.patch_checksum ≡ true
    pub files_normal :
        normalize_changed_files runtime.locale_compare m.changed_files ≡ ok m.changed_files

  parse_status-text : (s : Phase49ChangedFileStatus) → parse_status (status_text s) ≡ ok s
  parse_status-text added = refl
  parse_status-text modified = refl
  parse_status-text deleted = refl
  parse_status-text type_changed = refl
  parse_status-text unmerged = refl
  parse_status-text untracked = refl
  parse_status-text other = refl

  parse_outcome-text : (o : Phase49ArtifactOutcome) → parse_outcome (artifact_outcome_text o) ≡ ok o
  parse_outcome-text changes_ready = refl
  parse_outcome-text no_changes = refl

  status_text-ne : (s : Phase49ChangedFileStatus) → (status_text s == "") ≡ false
  status_text-ne added = refl
  status_text-ne modified = refl
  status_text-ne deleted = refl
  status_text-ne type_changed = refl
  status_text-ne unmerged = refl
  status_text-ne untracked = refl
  status_text-ne other = refl

  outcome_text-ne : (o : Phase49ArtifactOutcome) → (artifact_outcome_text o == "") ≡ false
  outcome_text-ne changes_ready = refl
  outcome_text-ne no_changes = refl

  path-ne : (f : Phase49ChangedFile) → assert_path f ≡ ok tt → (f.path == "") ≡ false
  unfolding assert_path
  path-ne f h = ground arith

  parse_files-items :
      (fs : List Phase49ChangedFile)
      → assert_paths fs ≡ ok tt
      → parse_changed_files (items_of_files fs) ≡ ok fs
  unfolding parse_changed_files parse_changed_file items_of_files assert_paths
  parse_files-items [] h = refl
  parse_files-items (f ∷ fs) h =
      let (u, p, rest) = >>=-eq-ok (assert_path f) _ h in
      rw
        (
          path-ne f p,
          status_text-ne f.status,
          parse_status-text f.status,
          parse_files-items fs rest,
        )
        refl

  normal-paths :
      (fs : List Phase49ChangedFile)
      → normalize_changed_files runtime.locale_compare fs ≡ ok fs
      → assert_paths fs ≡ ok tt
  unfolding normalize_changed_files
  normal-paths fs h = let (u, p, rest) = >>=-eq-ok (assert_paths fs) _ h in p

  digest-ne : (s : String) → is_sha256_hex s ≡ true → (s == "") ≡ false
  unfolding is_sha256_hex
  digest-ne s h = elim (Bool-cases (s == "")) [
    | inl q ↦ absurd (cc (ap is_sha256_hex ((eq_iff s "").0 q)))
    | inr q ↦ q
  ]

  text_self : (s : String) → (s == s) ≡ true
  text_self s = (eq_iff s s).1 refl

  parse_manifest-json :
      (m : Phase49ArtifactManifest)
      → IsStorable m
      → parse_manifest runtime (some (manifest_to_canonical_json m)) ≡ ok m
  unfolding parse_manifest manifest_to_canonical_json parse_patch_object parse_manifest_identity
      assert_canonical_files
  parse_manifest-json m s =
      rw
        (
          outcome_text-ne m.outcome,
          parse_outcome-text m.outcome,
          digest-ne m.patch_checksum s.checksum_form,
          s.checksum_form,
          parse_files-items m.changed_files (normal-paths m.changed_files s.files_normal),
          s.id_given,
          s.issue_safe,
          s.repository_given,
          s.source_given,
          s.revision_safe,
          s.persisted_given,
          s.fingerprint_given,
          s.files_normal,
          text_self (
              canonical_json_stringify runtime.json_string
                (json_array (items_of_files m.changed_files))),
        )
        refl

  parse_document-json :
      (m : Phase49ArtifactManifest) (patch : String)
      → IsStorable m
      → parse_artifact_document runtime (document_json m patch)
        ≡ ok (record { manifest = m; patch = patch })
  unfolding parse_artifact_document document_json
  parse_document-json m patch s = rw (parse_manifest-json m s) refl

  same_manifest_self : (m : Phase49ArtifactManifest) → same_manifest runtime m m ≡ true
  same_manifest_self m =
      rw
        (
          text_self m.execution_id,
          (nat_beq_iff m.issue_id m.issue_id).1 refl,
          text_self m.repository,
          text_self m.source_revision,
          (nat_beq_iff m.brief_revision m.brief_revision).1 refl,
          text_self m.persisted_revision,
          text_self m.requirements_fingerprint,
          text_self (artifact_outcome_text m.outcome),
          text_self m.patch_checksum,
        )
        refl

  -- What is expected of a body, where anything is.
  abbrev pub Expects : Option Phase49BuiltArtifact → Phase49ArtifactManifest → Bytes → Type 0
  Expects none m body = Unit
  Expects (some a) m body = (a.manifest ≡ m) × (a.envelope_checksum_hex ≡ runtime.sha256_hex body)

  verify_expected-eq-ok :
      (expected : Option Phase49BuiltArtifact) (m : Phase49ArtifactManifest) (body : Bytes)
      → Expects expected m body
      → verify_expected runtime body expected m ≡ ok tt
  unfolding verify_expected assert_manifest_identity_matches
  verify_expected-eq-ok none m body h = refl
  verify_expected-eq-ok (some a) m body (same, sum) =
      rw (same, sum, text_self (runtime.sha256_hex body), same_manifest_self m) refl

  -- The body of a storable manifest and its patch, with any artifact that it is expected to be.
  pub verify_body-eq-ok :
      (m : Phase49ArtifactManifest) (patch : String) (expected : Option Phase49BuiltArtifact)
      → IsReliable runtime
      → ReadsBack runtime (document_json m patch)
      → IsStorable m
      → m.patch_checksum ≡ runtime.sha256_hex (runtime.encode patch)
      → Expects expected m (runtime.encode (body_of runtime m patch))
      → verify_phase49_artifact_body runtime (runtime.encode (body_of runtime m patch)) expected
        ≡ ok (record { manifest = m; patch = patch })
  unfolding verify_phase49_artifact_body
  verify_body-eq-ok m patch expected r back s sum e =
      let body = body_of runtime m patch in
      let parsed : runtime.json_parse body ≡ some (document_json m patch) =
        unfold body_of in back in
      let sum_test : (runtime.sha256_hex (runtime.encode patch) == m.patch_checksum) ≡ true =
        (eq_iff (runtime.sha256_hex (runtime.encode patch)) m.patch_checksum).1 (sym sum) in
      rw
        (
          r.decode-encode body,
          parsed,
          parse_document-json m patch s,
          text_self body,
          sum_test,
          verify_expected-eq-ok expected m (runtime.encode body) e,
        )
        refl
