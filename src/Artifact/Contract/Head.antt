-- ===== src/Artifact/Contract/Head.antt =====
-- The check of a stored object's head: `verifyPhase49ArtifactHead` of src/artifact/contract.ts.
use Prim.Native.String.{◌++◌}
use ai_agent_runner.Base.{
  String, ◌==◌, Bool, true, false, ◌&&◌, Option, none, some, List, [], ◌∷◌, map, if◌then◌else◌,
}
use ai_agent_runner.Base.Lists.Sort.{sort}
use ai_agent_runner.Base.Text.{is_ascii}
use ai_agent_runner.Failure.{Result, ok, err, error, ◌>>=◌, ◌>>◌, require}
use ai_agent_runner.Artifact.Types.{Phase49BuiltArtifact}
use ai_agent_runner.Artifact.Json.{text_le}
use ai_agent_runner.Artifact.Contract.{required_metadata_keys, s3_checksum_type, get_text}

-- `Phase49HeadObservation`; an absent value is `none`.
pub record Phase49HeadObservation : Type 0 where
  pub checksum_mode_enabled : Bool
  pub checksum_type : Option String
  pub checksum_base64 : Option String
  pub metadata : Option (List (String × Option String))

abbrev pub required_text : Option String → String → Result String
required_text none message = err (error message)
required_text (some value) message = if value == "" then err (error message) else ok value

abbrev pub same_texts : List String → List String → Bool
same_texts [] [] = true
same_texts (x ∷ xs) (y ∷ ys) = (x == y) && same_texts xs ys
same_texts _ _ = false

-- The keys, sorted, are the required ones.
abbrev pub has_required_keys {ℓ} : {V : Type ℓ} → List (String × V) → Bool
has_required_keys metadata =
    same_texts (sort text_le (map (λ entry. entry.0) metadata))
      (sort text_le required_metadata_keys)

abbrev pub value_at : List (String × Option String) → String → Option String
value_at metadata key = elim (get_text key metadata) [ none ↦ none | some value ↦ value ]

unfoldable pub verify_metadata_values :
    List (String × String) → List (String × Option String) → List String → Result (Unit {0})
verify_metadata_values expected observed [] = ok tt
verify_metadata_values expected observed (key ∷ keys) = do
  value ←
      required_text (value_at observed key)
        ("Phase 49 artifact required metadata is missing: " ++ key)
  require (is_ascii value) ("Phase 49 artifact metadata is not ASCII-safe: " ++ key)
  wanted ← required_text (get_text key expected) ("Phase 49 artifact metadata mismatch: " ++ key)
  require (value == wanted) ("Phase 49 artifact metadata mismatch: " ++ key)
  verify_metadata_values expected observed keys

abbrev verify_metadata :
    List (String × String) → Option (List (String × Option String)) → Result (Unit {0})
verify_metadata expected none = err (error "Phase 49 artifact metadata projection is missing")
verify_metadata expected (some observed) = do
  require (has_required_keys observed) "Phase 49 artifact metadata field set mismatch"
  verify_metadata_values expected observed required_metadata_keys

abbrev pub is_text : String → Option String → Bool
is_text wanted none = false
is_text wanted (some value) = value == wanted

-- `verifyPhase49ArtifactHead`.
unfoldable pub verify_phase49_artifact_head :
    Phase49BuiltArtifact → Phase49HeadObservation → Result (Unit {0})
verify_phase49_artifact_head expected observed = do
  require observed.checksum_mode_enabled
      "Phase 49 artifact verification requires ChecksumMode=ENABLED"
  require (is_text s3_checksum_type observed.checksum_type)
      "Phase 49 artifact checksum type is missing or is not FULL_OBJECT"
  checksum ← required_text observed.checksum_base64 "Phase 49 artifact ChecksumSHA256 is missing"
  require (checksum == expected.envelope_checksum_base64)
      "Phase 49 artifact envelope checksum mismatch"
  verify_metadata expected.metadata observed.metadata
