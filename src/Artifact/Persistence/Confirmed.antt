-- ===== src/Artifact/Persistence/Confirmed.antt =====
-- What it takes for an artifact to be persisted.
use Prim.Native.String.{◌++◌}
use ai_agent_runner.Base.{
  ℕ, String, ◌==◌, eq_iff, nat_beq_iff, ◌≡◌, ap, sym, subst, refl, ◌∙◌, ◌⊎◌, Bool, true, false,
  Option, none, some, List, [], ◌∷◌, map, arith, inl, inr, Option-cases,
}
use ai_agent_runner.Base.Lists.{All}
use ai_agent_runner.Base.Lists.Sort.{sort}
use ai_agent_runner.Base.Text.{is_ascii}
use ai_agent_runner.Failure.{
  Failure, Result, ok, err, Result-cases, >>=-eq-ok, require, require-eq-ok, error,
  repository_access_error, s3_operation_error, query_predicate_mismatch_error, aggregate_error,
  not_an_error, conflict, ambiguous, not_found, access_denied, definitive,
}
use ai_agent_runner.Exec.{lift-eq-ok}
use ai_agent_runner.Artifact.Types.{Phase49BuiltArtifact, Phase49PersistedArtifact}
use ai_agent_runner.Artifact.Runtime.{Runtime}
use ai_agent_runner.Artifact.Json.{text_le}
use ai_agent_runner.Artifact.Contract.{required_metadata_keys, get_text}
use ai_agent_runner.Artifact.Contract.Head.{
  required_text, same_texts, value_at, is_text, verify_metadata_values,
  verify_phase49_artifact_head,
}
use ai_agent_runner.Artifact.Address.{
  Phase49S3RuntimeConfig, phase49_artifact_object_key, format_phase49_artifact_reference,
}
use ai_agent_runner.Artifact.Persistence.{
  Phase49S3PutInput, Phase49S3ObjectObservation, assert_s3_storage_observation, is_absent,
  has_length, is_recoverable_persistence_error, persisted_at,
}
use ai_agent_runner.Artifact.Persistence.Calls.{
  S3Calls, put, head, Phase49S3ObjectClient, adopts, put_artifact, confirm_by_head, persist_at,
  persist_and_confirm,
}

-- The metadata shows that key with the artifact's value.
abbrev pub IsShownAt : List (String × String) → List (String × Option String) → String → Type 0
IsShownAt expected metadata key =
    (v : String) × (value_at metadata key ≡ some v) × (get_text key expected ≡ some v)

-- The observation shows this artifact: encrypted, without a version, with its length where one is
-- given, with the checksum of its whole body, and with its metadata under the required keys alone.
pub record IsShown (a : Phase49BuiltArtifact) (o : Phase49S3ObjectObservation) : Type 0 where
  pub encrypted : o.server_side_encryption ≡ some "AES256"
  pub unversioned : o.version_id ≡ none
  pub sized : (o.content_length ≡ none) ⊎ (o.content_length ≡ some a.size_bytes)
  pub whole : o.checksum_type ≡ some "FULL_OBJECT"
  pub checksum : o.checksum_base64 ≡ some a.envelope_checksum_base64
  pub metadata : List (String × Option String)
  pub given : o.metadata ≡ some metadata
  pub keys : sort text_le (map (λ entry. entry.0) metadata) ≡ sort text_le required_metadata_keys
  pub values : All (IsShownAt a.metadata metadata) required_metadata_keys

is_text-eq : (wanted : String) (o : Option String) → is_text wanted o ≡ true → o ≡ some wanted
is_text-eq wanted none h = cc
is_text-eq wanted (some value) h = ap some ((eq_iff value wanted).0 h)

is_absent-eq : (o : Option String) → is_absent o ≡ true → o ≡ none
is_absent-eq none h = refl
is_absent-eq (some v) h = cc

has_length-eq : (o : Option ℕ) (size : ℕ) → has_length o size ≡ true → (o ≡ none) ⊎ (o ≡ some size)
has_length-eq none size h = inl refl
has_length-eq (some n) size h = inr (ap some ((nat_beq_iff n size).0 h))

same_texts-eq : (xs ys : List String) → same_texts xs ys ≡ true → xs ≡ ys
same_texts-eq [] [] h = refl
same_texts-eq [] (y ∷ ys) h = cc
same_texts-eq (x ∷ xs) [] h = cc
same_texts-eq (x ∷ xs) (y ∷ ys) h =
    let head : x ≡ y = ground (arith, eq_iff x y) in
    let tail : xs ≡ ys = same_texts-eq xs ys (ground arith) in cc (head, tail)

required_text-eq-ok : (o : Option String) (m v : String) → required_text o m ≡ ok v → o ≡ some v
required_text-eq-ok none m v h = cc
required_text-eq-ok (some w) m v h = ground arith

values-IsShownAt :
    (expected : List (String × String)) (observed : List (String × Option String))
    (keys : List String)
    → verify_metadata_values expected observed keys ≡ ok tt
    → All (IsShownAt expected observed) keys
unfolding verify_metadata_values
values-IsShownAt expected observed [] h = tt
values-IsShownAt expected observed (key ∷ keys) h =
    let (value, v, r₁) = >>=-eq-ok (required_text (value_at observed key) _) _ h in
    let (a, ascii, r₂) = >>=-eq-ok (require (is_ascii value) _) _ r₁ in
    let (wanted, w, r₃) = >>=-eq-ok (required_text (get_text key expected) _) _ r₂ in
    let (b, same, rest) =
      >>=-eq-ok (require (value == wanted) _) (λ _. verify_metadata_values expected observed keys)
        r₃ in
    let is : value ≡ wanted = (eq_iff value wanted).0 (require-eq-ok _ _ same) in
    (
      (
        value,
        required_text-eq-ok (value_at observed key) _ value v,
        required_text-eq-ok (get_text key expected) _ wanted w ∙ ap some (sym is),
      ),
      values-IsShownAt expected observed keys rest,
    )

-- What the storage check says of the artifact and the observation.
storage-IsShown :
    (a : Phase49BuiltArtifact) (o : Phase49S3ObjectObservation)
    → assert_s3_storage_observation a o ≡ ok tt
    → IsShown a o
unfolding assert_s3_storage_observation verify_phase49_artifact_head
storage-IsShown a o h = elim (Option-cases o.metadata) [
  | inl q ↦ absurd (ground arith)
  | inr (metadata, q) ↦ elim (Option-cases o.checksum_base64) [
    | inl q₂ ↦ absurd (ground arith)
    | inr (c, q₂) ↦
        let read : verify_metadata_values a.metadata metadata required_metadata_keys ≡ ok tt =
          ground arith in
        record {
          encrypted = is_text-eq "AES256" o.server_side_encryption (ground arith);
          unversioned = is_absent-eq o.version_id (ground arith);
          sized = has_length-eq o.content_length a.size_bytes (ground arith);
          whole = is_text-eq "FULL_OBJECT" o.checksum_type (ground arith);
          checksum = q₂ ∙ ap some (ground (arith, eq_iff c a.envelope_checksum_base64));
          metadata = metadata;
          given = q;
          keys = same_texts-eq _ _ (ground arith);
          values = values-IsShownAt a.metadata metadata required_metadata_keys read;
        }
  ]
]

-- The outcome of the write, with whether an object that may be there is adopted.
pub data Puts : Result (Unit {0}) → Bool → Type 0 where
  written : Puts (ok tt) false
  adopted_on_conflict : (m : String) → Puts (err (s3_operation_error conflict m)) true
  adopted_on_ambiguity : (m : String) → Puts (err (s3_operation_error ambiguous m)) true

failed-Puts : (e : Failure) → is_recoverable_persistence_error e ≡ true → Puts (err e) true
unfolding is_recoverable_persistence_error
failed-Puts (s3_operation_error conflict m) h = adopted_on_conflict m
failed-Puts (s3_operation_error ambiguous m) h = adopted_on_ambiguity m
failed-Puts (s3_operation_error not_found m) h = cc
failed-Puts (s3_operation_error access_denied m) h = cc
failed-Puts (s3_operation_error definitive m) h = cc
failed-Puts (error m) h = cc
failed-Puts (repository_access_error c m) h = cc
failed-Puts (query_predicate_mismatch_error m i) h = cc
failed-Puts (aggregate_error ms m) h = cc
failed-Puts not_an_error h = cc

adopts-Puts : (r : Result (Unit {0})) (b : Bool) → adopts r ≡ ok b → Puts r b
unfolding adopts
adopts-Puts (ok u) false h = written
adopts-Puts (ok u) true h = cc
adopts-Puts (err e) true h = failed-Puts e (ground arith)
adopts-Puts (err e) false h = absurd (ground arith)

module _ (client : Phase49S3ObjectClient) (runtime : Runtime) (config : Phase49S3RuntimeConfig)
    (a : Phase49BuiltArtifact) (h : S3Calls) where
  -- The conditional write of the artifact.
  abbrev write_of : String → Phase49S3PutInput
  write_of key = record {
    bucket = config.bucket;
    key = key;
    body = runtime.encode a.body;
    metadata = a.metadata;
    checksum_algorithm = "SHA256";
    checksum_base64 = a.envelope_checksum_base64;
    if_none_match = "*";
    server_side_encryption = "AES256";
    expected_bucket_owner = config.expected_bucket_owner;
  }

  abbrev put_history : String → S3Calls
  put_history key = put (write_of key) ∷ h

  abbrev key_of : String
  key_of = config.prefix ++ "/" ++ a.manifest.execution_id ++ ".json"

  -- The evidence of a persisted artifact.
  pub record IsPersisted (p : Phase49PersistedArtifact) (h' : S3Calls) : Type 0 where
    pub adopted : Bool
    pub put_answered : Puts (client.put_object h (write_of key_of)) adopted
    pub observed : Phase49S3ObjectObservation
    pub head_answered : client.head_object (put_history key_of) config.bucket key_of ≡ ok observed
    pub shown : IsShown a observed
    pub in_bucket : p.bucket ≡ config.bucket
    pub at_key : p.key ≡ key_of
    pub referenced : p.artifact_reference ≡ "s3://" ++ config.bucket ++ "/" ++ key_of
    pub adoption : p.adopted_existing_object ≡ adopted
    pub calls : h' ≡ head config.bucket key_of ∷ put_history key_of

  -- The record of a persisted artifact is about its key.
  persisted_at-eq :
      (b : Bool) (p : Phase49PersistedArtifact)
      → persisted_at runtime config key_of b ≡ ok p
      → p ≡ record {
        bucket = config.bucket;
        key = key_of;
        artifact_reference = "s3://" ++ config.bucket ++ "/" ++ key_of;
        adopted_existing_object = b;
      }
  unfolding persisted_at format_phase49_artifact_reference
  persisted_at-eq b p e = ground arith

  persist_at-IsPersisted :
      (p : Phase49PersistedArtifact) (h' : S3Calls)
      → persist_at client runtime config a key_of h ≡ (ok p, h')
      → IsPersisted p h'
  unfolding persist_at put_artifact confirm_by_head
  persist_at-IsPersisted p h' e =
      elim (Result-cases (adopts (client.put_object h (write_of key_of)))) [
        | inl (x, q) ↦ absurd (ground arith)
        | inr (b, q) ↦
            elim (Result-cases (client.head_object (put_history key_of) config.bucket key_of)) [
              | inl (x, q₂) ↦ absurd (ground arith)
              | inr (o, q₂) ↦ elim (Result-cases (assert_s3_storage_observation a o)) [
                | inl (x, q₃) ↦ absurd (ground arith)
                | inr (u, q₃) ↦
                    let made = persisted_at-eq b p (ground arith) in
                    record {
                      adopted = b;
                      put_answered = adopts-Puts (client.put_object h (write_of key_of)) b q;
                      observed = o;
                      head_answered = q₂;
                      shown = storage-IsShown a o q₃;
                      in_bucket = cc made;
                      at_key = cc made;
                      referenced = cc made;
                      adoption = cc made;
                      calls = ground arith;
                    }
              ]
            ]
      ]

  object_key-eq :
      (key : String)
      → phase49_artifact_object_key config a.manifest.execution_id ≡ ok key
      → key ≡ key_of
  unfolding phase49_artifact_object_key
  object_key-eq key e = ground arith

  -- An artifact is reported as persisted only with evidence, whatever the store answers: its key is
  -- made of the prefix and of the id of its execution, and its reference of the bucket and that key;
  -- the conditional, encrypted write of its body and metadata under that key succeeded, or it failed
  -- with a conflict or an ambiguous answer, and then, and only then, the object is reported as
  -- adopted; the head read after the write shows the object encrypted with AES256, without a version,
  -- with the full-object checksum and the metadata of this artifact, and with its length where one is
  -- given; and the write and that read are all the calls that were made.
  pub persist_and_confirm-IsPersisted :
      (p : Phase49PersistedArtifact) (h' : S3Calls)
      → persist_and_confirm client runtime config a h ≡ (ok p, h')
      → IsPersisted p h'
  unfolding persist_and_confirm
  persist_and_confirm-IsPersisted p h' e =
      let (key, k, rest) =
        lift-eq-ok (persist_at client runtime config a)
          (phase49_artifact_object_key config a.manifest.execution_id) h e in
      persist_at-IsPersisted p h' (
        subst (λ t. persist_at client runtime config a t h ≡ (ok p, h')) (object_key-eq key k) rest)
