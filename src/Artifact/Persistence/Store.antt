-- ===== src/Artifact/Persistence/Store.antt =====
-- An object store that keeps the first object written at a key, and shows it as it was written: what
-- S3 documents of conditional writes (`If-None-Match: *`) without versioning.
use ai_agent_runner.Base.{
  String, ◌==◌, eq_iff, ◌≡◌, refl, ap, Bool, true, false, ◌&&◌, Option, none, some, List, [], ◌∷◌,
  map, arith, inl, inr, nat_beq_iff, Bool-cases, if◌then◌else◌,
}
use ai_agent_runner.Base.Lists.{All, length}
use ai_agent_runner.Base.Text.{is_ascii}
use ai_agent_runner.Failure.{Result, ok, err, s3_operation_error, conflict, not_found}
use ai_agent_runner.Artifact.Types.{Phase49BuiltArtifact, Phase49ArtifactManifest}
use ai_agent_runner.Artifact.Runtime.{Runtime, IsReliable, byte_length}
use ai_agent_runner.Artifact.Contract.{
  checked_metadata, required_metadata_keys, metadata_of, build_phase49_metadata, artifact_of,
  get_text,
}
use ai_agent_runner.Artifact.Contract.Head.{
  verify_metadata_values, verify_phase49_artifact_head, value_at,
}
use ai_agent_runner.Artifact.Address.{Phase49S3RuntimeConfig}
use ai_agent_runner.Artifact.Persistence.{
  Phase49S3PutInput, Phase49S3ObjectObservation, Phase49S3GetObservation,
  assert_s3_storage_observation, assert_recovery_observation_presence, assert_values_present,
  put_input,
}
use ai_agent_runner.Artifact.Persistence.Calls.{
  S3Call, S3Calls, put, head, get, Phase49S3ObjectClient,
}

abbrev is_at : String → String → Phase49S3PutInput → Bool
is_at bucket key input = (input.bucket == bucket) && (input.key == key)

-- The first object written at a key.
unfoldable pub stored : String → String → S3Calls → Option Phase49S3PutInput
stored bucket key [] = none
stored bucket key (put input ∷ h) = elim (stored bucket key h) [
  | some kept ↦ some kept
  | none ↦ if is_at bucket key input then some input else none
]
stored bucket key (_ ∷ h) = stored bucket key h

abbrev shown : String × String → String × Option String
shown (key, value) = (key, some value)

abbrev pub observation_of : Phase49S3PutInput → Phase49S3ObjectObservation
observation_of input = record {
  checksum_type = some "FULL_OBJECT";
  checksum_base64 = some input.checksum_base64;
  metadata = some (map shown input.metadata);
  server_side_encryption = some input.server_side_encryption;
  version_id = none;
  content_length = some (length input.body);
}

abbrev written : Option Phase49S3PutInput → Result (Unit {0})
written none = ok tt
written (some kept) = err (s3_operation_error conflict "PreconditionFailed")

abbrev headed : Option Phase49S3PutInput → Result Phase49S3ObjectObservation
headed none = err (s3_operation_error not_found "NotFound")
headed (some kept) = ok (observation_of kept)

abbrev got : Option Phase49S3PutInput → Result Phase49S3GetObservation
got none = err (s3_operation_error not_found "NotFound")
got (some kept) = ok (record { observation = observation_of kept; body = kept.body })

unfoldable pub object_store : Phase49S3ObjectClient
object_store = record {
  put_object = λ h input. written (stored input.bucket input.key h);
  head_object = λ h bucket key. headed (stored bucket key h);
  get_object = λ h bucket key. got (stored bucket key h);
}

-- What is stored at a key is never replaced.
pub stored_kept :
    (bucket key : String) (h : S3Calls) (c : S3Call) (kept : Phase49S3PutInput)
    → stored bucket key h ≡ some kept
    → stored bucket key (c ∷ h) ≡ some kept
unfolding stored
stored_kept bucket key h (put input) kept e = rw e refl
stored_kept bucket key h (head b k) kept e = e
stored_kept bucket key h (get b k) kept e = e

-- Behind a write the key holds what was there, or else the object written.
pub stored_put :
    (h : S3Calls) (input : Phase49S3PutInput)
    → stored input.bucket input.key h ≡ none
    → stored input.bucket input.key (put input ∷ h) ≡ some input
unfolding stored
stored_put h input e =
    rw (e, (eq_iff input.bucket input.bucket).1 refl, (eq_iff input.key input.key).1 refl) refl

IsVisible : String × String → Type 0
IsVisible (key, value) = is_ascii value ≡ true

checked-IsVisible :
    (metadata : List (String × String)) → checked_metadata metadata ≡ ok tt → All IsVisible metadata
unfolding IsVisible
checked-IsVisible [] h = tt
checked-IsVisible ((key, value) ∷ rest) h = (ground arith, checked-IsVisible rest (ground arith))

ascii-ne : (s : String) → is_ascii s ≡ true → (s == "") ≡ false
unfolding is_ascii
ascii-ne s h = elim (Bool-cases (s == "")) [
  | inl q ↦ absurd (cc (ap is_ascii ((eq_iff s "").0 q)))
  | inr q ↦ q
]

text_self : (s : String) → (s == s) ≡ true
text_self s = (eq_iff s s).1 refl

value_at-shown :
    (metadata : List (String × String)) (key : String)
    → value_at (map shown metadata) key ≡ get_text key metadata
value_at-shown [] key = refl
value_at-shown ((k, v) ∷ rest) key = ground (arith, value_at-shown rest key)

-- The metadata have a visible text at a key.
abbrev HasText : List (String × String) → String → Type 0
HasText metadata key =
    (value : String) × (get_text key metadata ≡ some value) × (is_ascii value ≡ true)

values-verified :
    (metadata : List (String × String)) (keys : List String)
    → All (HasText metadata) keys
    → verify_metadata_values metadata (map shown metadata) keys ≡ ok tt
unfolding verify_metadata_values
values-verified metadata [] h = refl
values-verified metadata (key ∷ keys) ((value, at, visible), h) =
    rw
      (
        value_at-shown metadata key,
        at,
        ascii-ne value visible,
        visible,
        text_self value,
        values-verified metadata keys h,
      )
      refl

values-present :
    (metadata : List (String × String)) (keys : List String)
    → All (HasText metadata) keys
    → assert_values_present (map shown metadata) keys ≡ ok tt
values-present metadata [] h = refl
values-present metadata (key ∷ keys) ((value, at, visible), h) =
    rw (value_at-shown metadata key, at, ascii-ne value visible, values-present metadata keys h)
      refl

module _ (runtime : Runtime) (config : Phase49S3RuntimeConfig) (m : Phase49ArtifactManifest)
    (body key : String) where
  abbrev artifact : Phase49BuiltArtifact
  artifact = artifact_of runtime m body (metadata_of runtime m)

  abbrev observation : Phase49S3ObjectObservation
  observation = observation_of (put_input runtime config artifact key)

  keys-HasText :
      All IsVisible (metadata_of runtime m)
      → All (HasText (metadata_of runtime m)) required_metadata_keys
  unfolding IsVisible
  keys-HasText (v₁, (v₂, (v₃, (v₄, (v₅, (v₆, (v₇, (v₈, (v₉, (v₁₀, end)))))))))) = (
    (_, refl, v₁),
    (
      (_, refl, v₂),
      (
        (_, refl, v₃),
        (
          (_, refl, v₄),
          (
            (_, refl, v₅),
            (
              (_, refl, v₆),
              ((_, refl, v₇), ((_, refl, v₈), ((_, refl, v₉), ((_, refl, v₁₀), tt)))),
            ),
          ),
        ),
      ),
    ),
  )

  module _ (reliable : IsReliable runtime)
      (valid : build_phase49_metadata runtime m ≡ ok (metadata_of runtime m)) where
    all-HasText : All (HasText (metadata_of runtime m)) required_metadata_keys
    all-HasText =
        keys-HasText (
          checked-IsVisible (metadata_of runtime m) (unfold build_phase49_metadata in ground arith))

    -- The store shows an artifact as the persistence wants it.
    pub observed-storage : assert_s3_storage_observation artifact observation ≡ ok tt
    unfolding assert_s3_storage_observation verify_phase49_artifact_head
    observed-storage =
        let size = byte_length runtime body in
        let sum = runtime.sha256_base64 (runtime.encode body) in
        rw
          (
            (nat_beq_iff size size).1 refl,
            reliable.digest_given (runtime.encode body),
            text_self sum,
            values-verified (metadata_of runtime m) required_metadata_keys all-HasText,
          )
          refl

    pub observed-presence : assert_recovery_observation_presence observation ≡ ok tt
    unfolding assert_recovery_observation_presence
    observed-presence =
        rw
          (
            reliable.digest_given (runtime.encode body),
            values-present (metadata_of runtime m) required_metadata_keys all-HasText,
          )
          refl
