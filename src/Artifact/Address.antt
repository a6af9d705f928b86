-- ===== src/Artifact/Address.antt =====
-- Where an artifact is stored: the configuration, the object key and the reference of
-- src/artifact/s3-persistence.ts. The class `URL` of the runtime is an argument.
use Prim.Native.Char.{code}
use Prim.Native.String.{◌++◌, count}
use ai_agent_runner.Base.{
  ℕ, String, ◌==◌, ◌≡◌, refl, Bool, true, false, not, ◌&&◌, ◌||◌, Option, none, some, List, [], ◌∷◌,
  nat_beq, leb, if◌then◌else◌,
}
use ai_agent_runner.Base.Lists.{any}
use ai_agent_runner.Base.Text.{
  codes, Matcher, finish, one, up_to, star, digit, between, times, is_space, is_uuid_v4,
}
use ai_agent_runner.Base.Text.Parts.{trim_by}
use ai_agent_runner.Failure.{Result, ok, err, error, ◌>>=◌, ◌>>◌, require}

pub record Phase49S3RuntimeConfig : Type 0 where
  pub region : String
  pub bucket : String
  pub prefix : String
  pub expected_bucket_owner : Option String

-- `[a-z0-9]`
abbrev lower_alnum : ℕ → Bool
lower_alnum c = digit c || between 97 122 c

-- `value.includes("..")` on codes
abbrev has_double_dot : List ℕ → Bool
has_double_dot (a ∷ b ∷ rest) = (nat_beq a b'.' && nat_beq b b'.') || has_double_dot (b ∷ rest)
has_double_dot _ = false

-- `\d{1,3}`
abbrev octet : Matcher → Matcher
octet k = one digit (up_to 2 digit k)

abbrev dot : ℕ → Bool
dot c = nat_beq c b'.'

-- `^\d{1,3}(?:\.\d{1,3}){3}$`
abbrev is_ip_address : Matcher
is_ip_address = octet (one dot (octet (one dot (octet (one dot (octet finish))))))

-- `isValidBucketName`. A text that passes the pattern is ASCII.
unfoldable pub is_valid_bucket_name : String → Bool
is_valid_bucket_name value =
    leb 3 (count value)
    && (leb (count value) 63
        && (one lower_alnum
              (star (λ c. lower_alnum c || (dot c || nat_beq c 45)) (one lower_alnum finish))
              (codes value)
            && (not (has_double_dot (codes value)) && not (is_ip_address (codes value)))))

unfoldable pub required_env : (String → Option String) → String → Result String
required_env env name = elim (env name) [
  | none ↦ err (error (name ++ " is required"))
  | some raw ↦
      let value = trim_by is_space raw in
      if value == "" then err (error (name ++ " is required")) else ok value
]

-- The text without its outer slashes.
abbrev stripped : String → String
stripped raw = trim_by (λ c. nat_beq c 47) (trim_by is_space raw)

abbrev is_prefix_form : String → Bool
is_prefix_form value =
    not (value == "")
    && (leb (count value) 256
        && (not (has_double_dot (codes value))
            && one lower_alnum
                (star (λ c. lower_alnum c || (nat_beq c 47 || (nat_beq c 95 || nat_beq c 45)))
                  finish)
                (codes value)))

unfoldable pub normalize_prefix : String → Result String
normalize_prefix raw = do
  require (is_prefix_form (stripped raw))
      "AGENT_RUNNER_ARTIFACT_S3_PREFIX must be a bounded lowercase ASCII S3 key prefix"
  ok (stripped raw)

abbrev or_default : Option String → String
or_default none = "phase49/artifacts"
or_default (some raw) = raw

abbrev is_owner_form : Option String → Bool
is_owner_form none = true
is_owner_form (some owner) = times 12 digit finish (codes owner)

-- A blank owner is no owner.
abbrev owner_of : Option String → Option String
owner_of none = none
owner_of (some raw) = let owner = trim_by is_space raw in if owner == "" then none else some owner

-- `loadPhase49S3RuntimeConfig`.
unfoldable pub load_phase49_s3_runtime_config :
    (String → Option String) → Result Phase49S3RuntimeConfig
load_phase49_s3_runtime_config env = do
  region ← required_env env "AGENT_RUNNER_ARTIFACT_S3_REGION"
  bucket ← required_env env "AGENT_RUNNER_ARTIFACT_S3_BUCKET"
  prefix ← normalize_prefix (or_default (env "AGENT_RUNNER_ARTIFACT_S3_PREFIX"))
  require (is_valid_bucket_name bucket)
      "AGENT_RUNNER_ARTIFACT_S3_BUCKET must be a DNS-compatible S3 bucket name"
  require (is_owner_form (owner_of (env "AGENT_RUNNER_ARTIFACT_S3_EXPECTED_BUCKET_OWNER")))
      "AGENT_RUNNER_ARTIFACT_S3_EXPECTED_BUCKET_OWNER must be a 12-digit AWS account ID"
  ok (record {
    region = region;
    bucket = bucket;
    prefix = prefix;
    expected_bucket_owner = owner_of (env "AGENT_RUNNER_ARTIFACT_S3_EXPECTED_BUCKET_OWNER");
  })

unfoldable pub phase49_artifact_object_key : Phase49S3RuntimeConfig → String → Result String
phase49_artifact_object_key config execution_id = do
  require (is_uuid_v4 execution_id) "Phase 49 artifact execution_id must be a lowercase UUIDv4"
  ok (config.prefix ++ "/" ++ execution_id ++ ".json")

abbrev starts_with_slash : List ℕ → Bool
starts_with_slash [] = false
starts_with_slash (c ∷ cs) = nat_beq c 47

abbrev is_key_form : String → Bool
is_key_form key =
    not (key == "") && (not (starts_with_slash (codes key)) && not (any (nat_beq 0) (codes key)))

unfoldable pub format_phase49_artifact_reference : String → String → Result String
format_phase49_artifact_reference bucket key = do
  require (is_valid_bucket_name bucket) "Phase 49 artifact reference bucket is invalid"
  require (is_key_form key) "Phase 49 artifact reference key is invalid"
  ok ("s3://" ++ bucket ++ "/" ++ key)

-- What the parser of references reads of a `URL`.
pub record ReferenceUrl : Type 0 where
  pub protocol : String
  pub username : String
  pub password : String
  pub port : String
  pub search : String
  pub hash : String
  pub hostname : String
  pub pathname : String

pub record Address : Type 0 where
  pub bucket : String
  pub key : String

-- `replace(/^\//u, "")`
abbrev without_slash : String → String
without_slash String.[] = ""
without_slash (String.◌∷◌ c s) = if nat_beq (code c) 47 then s else String.◌∷◌ c s

abbrev is_canonical_url : ReferenceUrl → Bool
is_canonical_url url =
    (url.protocol == "s3:")
    && ((url.username == "")
        && ((url.password == "") && ((url.port == "") && ((url.search == "") && (url.hash == "")))))

abbrev address_of_url : Option ReferenceUrl → Result Address
address_of_url none = err (error "Phase 49 artifact_reference is not a valid URI")
address_of_url (some url) = do
  require (is_canonical_url url)
      "Phase 49 artifact_reference must use canonical s3://bucket/key form"
  require
      (is_valid_bucket_name url.hostname
        && (not (without_slash url.pathname == "")
            && not (any (nat_beq 0) (codes (without_slash url.pathname)))))
      "Phase 49 artifact_reference is invalid"
  ok (record { bucket = url.hostname; key = without_slash url.pathname })

unfoldable pub parse_phase49_artifact_reference :
    (String → Option ReferenceUrl) → String → Result Address
parse_phase49_artifact_reference parse_url reference = address_of_url (parse_url reference)

names :
    (is_valid_bucket_name "my-bucket.x" ≡ true)
    × (is_valid_bucket_name "10.0.0.1" ≡ false)
    × (normalize_prefix " /a/b// " ≡ ok "a/b")
unfolding is_valid_bucket_name normalize_prefix trim_by
names = (refl, refl, refl)
