-- ===== src/Artifact/Persistence/Recovered.antt =====
-- What is persisted in an object store is recovered from it, by the identity of the execution alone.
use ai_agent_runner.Base.{
  String, ◌==◌, eq_iff, ◌≡◌, refl, sym, subst, Bool, true, false, none, some, [], ◌∷◌, nat_beq_iff,
}
use ai_agent_runner.Failure.{ok}
use ai_agent_runner.Artifact.Types.{
  Phase49BuiltArtifact, Phase49ArtifactManifest, Phase49PersistedArtifact, Phase49ArtifactIdentity,
}
use ai_agent_runner.Artifact.Runtime.{Bytes, Runtime, IsReliable, ReadsBack}
use ai_agent_runner.Artifact.Contract.{
  Phase49ArtifactBuildInput, build_phase49_artifact, build_phase49_metadata, metadata_of,
  document_json, manifest_of, body_of, artifact_of,
}
use ai_agent_runner.Artifact.Contract.Built.{
  build-IsBuilt, finish-IsFinished, document_of, verify_body-build,
}
use ai_agent_runner.Artifact.Contract.Again.{rebuild_input, build_again}
use ai_agent_runner.Artifact.Document.{
  Phase49ArtifactEnvelopeDocument, verify_phase49_artifact_body,
}
use ai_agent_runner.Artifact.Address.{
  Phase49S3RuntimeConfig, phase49_artifact_object_key, format_phase49_artifact_reference,
}
use ai_agent_runner.Artifact.Persistence.{
  RecoveredDocument, Phase49S3GetObservation, same_bytes, assert_recovery_identity,
  assert_recovered_identity, is_recoverable_persistence_error, put_input, persisted_at,
  rebuild_and_compare, check_recovered,
}
use ai_agent_runner.Artifact.Persistence.Calls.{
  S3Calls, put, head, get, adopts, put_artifact, confirm_by_head, persist_at, persist_and_confirm,
  recover_at, recover_and_verify,
}
use ai_agent_runner.Artifact.Persistence.Store.{
  stored, stored_kept, stored_put, observation_of, object_store, observed-storage,
  observed-presence,
}

-- The identity of a manifest's execution.
abbrev pub identity_of : Phase49ArtifactManifest → Phase49ArtifactIdentity
identity_of m = record {
  execution_id = m.execution_id;
  issue_id = m.issue_id;
  repository = m.repository;
  source_revision = m.source_revision;
  brief_revision = m.brief_revision;
  persisted_revision = m.persisted_revision;
  requirements_fingerprint = m.requirements_fingerprint;
}

same_bytes_self : (xs : Bytes) → same_bytes xs xs ≡ true
same_bytes_self [] = refl
same_bytes_self (x ∷ xs) = rw ((nat_beq_iff x x).1 refl) (same_bytes_self xs)

text_self : (s : String) → (s == s) ≡ true
text_self s = (eq_iff s s).1 refl

identity_self : (m : Phase49ArtifactManifest) → assert_recovered_identity m (identity_of m) ≡ ok tt
unfolding assert_recovered_identity
identity_self m =
    rw
      (
        text_self m.execution_id,
        (nat_beq_iff m.issue_id m.issue_id).1 refl,
        text_self m.repository,
        text_self m.source_revision,
        (nat_beq_iff m.brief_revision m.brief_revision).1 refl,
        text_self m.persisted_revision,
        text_self m.requirements_fingerprint,
      )
      refl

module _ (runtime : Runtime) (config : Phase49S3RuntimeConfig) (key reference : String)
    (addressed : format_phase49_artifact_reference config.bucket key ≡ ok reference) where
  abbrev pub persisted_as : Bool → Phase49PersistedArtifact
  persisted_as adopted = record {
    bucket = config.bucket;
    key = key;
    artifact_reference = reference;
    adopted_existing_object = adopted;
  }

  address-eq-ok :
      (adopted : Bool) → persisted_at runtime config key adopted ≡ ok (persisted_as adopted)
  unfolding persisted_at
  address-eq-ok adopted = rw addressed refl

  -- An artifact that was written is adopted by a second write, and recovered.
  pub record IsRecovered (a : Phase49BuiltArtifact) (document : Phase49ArtifactEnvelopeDocument)
      (h : S3Calls) : Type 0 where
    pub first_calls : S3Calls
    pub written :
        persist_and_confirm object_store runtime config a h ≡ (ok (persisted_as false), first_calls)
    pub second_calls : S3Calls
    pub written_again :
        persist_and_confirm object_store runtime config a first_calls
        ≡ (ok (persisted_as true), second_calls)
    pub last_calls : S3Calls
    pub found :
        recover_and_verify object_store runtime config (identity_of a.manifest) second_calls ≡ (
          ok (record { artifact = a; persisted = persisted_as true; document = document }),
          last_calls,
        )

  module _ (m : Phase49ArtifactManifest) (patch : String) (reliable : IsReliable runtime)
      (valid : build_phase49_metadata runtime m ≡ ok (metadata_of runtime m)) where
    abbrev body : String
    body = body_of runtime m patch

    abbrev artifact : Phase49BuiltArtifact
    artifact = artifact_of runtime m body (metadata_of runtime m)

    abbrev after_put : S3Calls → S3Calls
    after_put h = put (put_input runtime config artifact key) ∷ h

    -- A write of this artifact, where the key holds it afterwards.
    persist_of :
        (h : S3Calls) (adopted : Bool)
        → adopts (object_store.put_object h (put_input runtime config artifact key)) ≡ ok adopted
        → stored config.bucket key (after_put h) ≡ some (put_input runtime config artifact key)
        → persist_at object_store runtime config artifact key h
          ≡ (ok (persisted_as adopted), head config.bucket key ∷ after_put h)
    unfolding persist_at put_artifact confirm_by_head object_store
    persist_of h adopted a s =
        rw (a, s, observed-storage runtime config m body key reliable valid, address-eq-ok adopted)
          refl

    persist_fresh :
        (h : S3Calls)
        → stored config.bucket key h ≡ none
        → persist_at object_store runtime config artifact key h
          ≡ (ok (persisted_as false), head config.bucket key ∷ after_put h)
    unfolding object_store adopts
    persist_fresh h e =
        persist_of h false (rw e refl) (stored_put h (put_input runtime config artifact key) e)

    persist_again :
        (h : S3Calls)
        → stored config.bucket key h ≡ some (put_input runtime config artifact key)
        → persist_at object_store runtime config artifact key h
          ≡ (ok (persisted_as true), head config.bucket key ∷ after_put h)
    unfolding object_store adopts is_recoverable_persistence_error
    persist_again h e = persist_of h true (rw e refl) (
        stored_kept config.bucket key h (put (put_input runtime config artifact key))
          (put_input runtime config artifact key) e)

    abbrev document : Phase49ArtifactEnvelopeDocument
    document = record { manifest = m; patch = patch }

    abbrev recovered : RecoveredDocument
    recovered = record { artifact = artifact; persisted = persisted_as true; document = document }

    module _
        (readable : verify_phase49_artifact_body runtime (runtime.encode body) none ≡ ok document)
        (rebuilt : build_phase49_artifact runtime (rebuild_input runtime m patch)
          ≡ ok artifact) where
      abbrev shown : Phase49S3GetObservation
      shown = record {
        observation = observation_of (put_input runtime config artifact key);
        body = runtime.encode body;
      }

      checked :
          check_recovered runtime config (identity_of m) key shown.observation shown ≡ ok recovered
      unfolding check_recovered rebuild_and_compare
      checked =
          rw
            (
              observed-presence runtime config m body key reliable valid,
              text_self artifact.envelope_checksum_base64,
              readable,
              identity_self m,
              rebuilt,
              observed-storage runtime config m body key reliable valid,
              same_bytes_self (runtime.encode body),
              address-eq-ok true,
            )
            refl

      recover_stored :
          (h : S3Calls)
          → stored config.bucket key h ≡ some (put_input runtime config artifact key)
          → recover_at object_store runtime config (identity_of m) key h
            ≡ (ok recovered, get config.bucket key ∷ head config.bucket key ∷ h)
      unfolding recover_at object_store
      recover_stored h e =
          let e' = stored_kept config.bucket key h (head config.bucket key) _ e in
          rw (e, observed-presence runtime config m body key reliable valid, e', checked) refl

      -- The first write, a second one, and a recovery behind both.
      round_of :
          (h : S3Calls)
          → phase49_artifact_object_key config m.execution_id ≡ ok key
          → assert_recovery_identity (identity_of m) ≡ ok tt
          → stored config.bucket key h ≡ none
          → IsRecovered artifact document h
      unfolding persist_and_confirm recover_and_verify stored
      round_of h k i e =
          let input = put_input runtime config artifact key in
          let kept : stored config.bucket key (after_put h) ≡ some input = stored_put h input e in
          let twice =
            stored_kept config.bucket key (head config.bucket key ∷ after_put h) (put input) input
              kept in
          record {
            first_calls = head config.bucket key ∷ after_put h;
            written = rw k (persist_fresh h e);
            second_calls =
                head config.bucket key ∷ after_put (head config.bucket key ∷ after_put h);
            written_again = rw k (persist_again (head config.bucket key ∷ after_put h) kept);
            last_calls =
                get config.bucket key
                ∷ head config.bucket key
                ∷ head config.bucket key
                ∷ after_put (head config.bucket key ∷ after_put h);
            found =
                rw (i, k)
                  (recover_stored
                    (head config.bucket key ∷ after_put (head config.bucket key ∷ after_put h))
                    twice);
          }

-- Over a reliable runtime that reads its document back, an artifact that was built, written to an object store that holds nothing
-- at its key, is persisted; written again, as a retry does, it is adopted; and the identity of its
-- execution alone, where it is well formed, then recovers exactly this artifact, with its address
-- and its document. The bucket and the key are of their forms.
pub recover-persist :
    (runtime : Runtime) (config : Phase49S3RuntimeConfig) (key reference : String)
    (addressed : format_phase49_artifact_reference config.bucket key ≡ ok reference)
    (input : Phase49ArtifactBuildInput) (a : Phase49BuiltArtifact) (h : S3Calls)
    → IsReliable runtime
    → ReadsBack runtime (document_json a.manifest input.patch.text)
    → build_phase49_artifact runtime input ≡ ok a
    → phase49_artifact_object_key config a.manifest.execution_id ≡ ok key
    → assert_recovery_identity (identity_of a.manifest) ≡ ok tt
    → stored config.bucket key h ≡ none
    → IsRecovered runtime config key reference addressed a (document_of runtime input a) h
recover-persist runtime config key reference addressed input a h r back b k i e =
    let (files, built) = build-IsBuilt runtime input a b in
    let m = manifest_of runtime input files in
    let f = finish-IsFinished runtime m (body_of runtime m input.patch.text) a built.finished in
    let (small, few, same_id, expected, readable) = verify_body-build runtime input a r back b in
    let again = build_again runtime input a r b in
    subst
      (λ (t : Phase49BuiltArtifact).
        phase49_artifact_object_key config t.manifest.execution_id ≡ ok key
        → assert_recovery_identity (identity_of t.manifest) ≡ ok tt
        → verify_phase49_artifact_body runtime (runtime.encode t.body) none
          ≡ ok (document_of runtime input t)
        → build_phase49_artifact runtime (rebuild_input runtime t.manifest input.patch.text) ≡ ok t
        → IsRecovered runtime config key reference addressed t (document_of runtime input t) h)
      (sym f.made)
      (λ k' i' readable' again'.
        round_of runtime config key reference addressed m input.patch.text r f.metadata_valid
          readable' again' h k' i' e)
      k i readable again
