-- ===== src/Repository/Policy.antt =====
-- The allowlist of repositories: src/repository/policy.ts and its types. The class `URL` of the
-- runtime is a parameter, a parser of texts that may throw.
pub mod Authorized
pub mod Entries
use Prim.Native.Char.{Char, code}
use Prim.Native.String.{◌++◌}
use ai_agent_runner.Base.{
  ℕ, String, ◌+◌, ◌==◌, Bool, true, false, not, ◌&&◌, ◌||◌, Option, none, some, List, [], ◌∷◌, map,
  nat_beq, if◌then◌else◌,
}
use ai_agent_runner.Base.Lists.{keep, any, all, length}
use ai_agent_runner.Base.Text.{codes, Matcher, one, star, finish, between, is_space}
use ai_agent_runner.Base.Text.Parts.{split, trim_by, distinct_texts}
use ai_agent_runner.Base.Text.Decimal.{decimal}
use ai_agent_runner.Failure.{
  Failure, Result, ok, err, ◌>>=◌, ◌>>◌, repository_access_error, message_of, AccessCode,
  authorization_configuration_invalid, repository_unauthorized, credential_unavailable,
}

pub record RepositoryAccessEntry : Type 0 where
  pub repository : String
  pub remote_url : String
  pub source_ref : String
  pub username_env : String
  pub password_env : String

pub data RepositoryAuthorizationConfiguration : Type 0 where
  configured : List RepositoryAccessEntry → RepositoryAuthorizationConfiguration
  invalid : String → RepositoryAuthorizationConfiguration

pub record RepositoryCredential : Type 0 where
  pub username : String
  pub password : String

-- What the source reads of a `URL`.
pub record Url : Type 0 where
  pub protocol : String
  pub username : String
  pub password : String
  pub search : String
  pub hash : String

abbrev pub repositories : List RepositoryAccessEntry → List String
repositories entries = map (λ entry. entry.repository) entries

abbrev pub UrlParser : Type 0
UrlParser = String → Option Url

abbrev pub demand : Bool → AccessCode → String → Result (Unit {0})
demand false c message = err (repository_access_error c message)
demand true c message = ok tt

-- `invalidConfig` for the entry at an index.
abbrev pub entry_problem : ℕ → String → String
entry_problem index what = "repository configuration entry " ++ decimal (index + 1) ++ what

-- `ASCII_EDGE_WHITESPACE`
abbrev ascii_space : ℕ → Bool
ascii_space c = between 9 13 c || nat_beq c 32

unfoldable pub trim_ascii_edge_whitespace : String → String
trim_ascii_edge_whitespace value = trim_by ascii_space value

unfoldable pub trim : String → String
trim value = trim_by is_space value

abbrev upper_or_underscore : ℕ → Bool
upper_or_underscore c = between 65 90 c || nat_beq c 95

-- `^[A-Z_][A-Z0-9_]*$`
unfoldable pub is_env_name : String → Bool
is_env_name s =
    one upper_or_underscore (star (λ c. upper_or_underscore c || between 48 57 c) finish) (codes s)

abbrev starts_with_dash : List ℕ → Bool
starts_with_dash [] = false
starts_with_dash (c ∷ cs) = nat_beq c 45

-- `[\x00-\x20~^:?*[\\]`
abbrev ref_forbidden : ℕ → Bool
ref_forbidden c =
    between 0 32 c
    || nat_beq c b'~'
    || nat_beq c b'^'
    || nat_beq c b':'
    || nat_beq c b'?'
    || nat_beq c b'*'
    || nat_beq c b'['
    || nat_beq c b'\\'

unfoldable pub is_source_ref : String → Bool
is_source_ref ref =
    not (ref == "") && (not (starts_with_dash (codes ref)) && not (any ref_forbidden (codes ref)))

abbrev has_no_credentials : Url → Bool
has_no_credentials url =
    (url.username == "") && ((url.password == "") && ((url.search == "") && (url.hash == "")))

abbrev validate_parsed_url : ℕ → Option Url → Result (Unit {0})
validate_parsed_url index none = err (
    repository_access_error authorization_configuration_invalid
      (entry_problem index " has an invalid remote URL"))
validate_parsed_url index (some url) = do
  demand (url.protocol == "https:") authorization_configuration_invalid
      (entry_problem index " must use an https remote URL")
  demand (has_no_credentials url) authorization_configuration_invalid
      (entry_problem index " remote URL must not contain credentials, query, or fragment")

unfoldable pub validate_source_ref : String → ℕ → Result (Unit {0})
validate_source_ref ref index =
    demand (is_source_ref ref) authorization_configuration_invalid
      (entry_problem index " has an invalid source ref")

unfoldable pub validate_credential_env_name : String → ℕ → String → Result (Unit {0})
validate_credential_env_name value index kind =
    demand (is_env_name value) authorization_configuration_invalid
      (entry_problem index (" has an invalid " ++ kind ++ " environment name"))

-- The parts of a record of the configuration, trimmed.
abbrev pub entry_of_parts : String → String → String → String → String → RepositoryAccessEntry
entry_of_parts identity url ref name pass = record {
  repository = trim_ascii_edge_whitespace identity;
  remote_url = trim url;
  source_ref = trim ref;
  username_env = trim name;
  password_env = trim pass;
}

abbrev pub checked_entries : List RepositoryAccessEntry → Result (List RepositoryAccessEntry)
checked_entries entries = do
  demand (distinct_texts (repositories entries)) authorization_configuration_invalid
      "repository authorization configuration contains duplicate normalized identities"
  ok entries

module _ (parse_url : UrlParser) where
  unfoldable pub validate_remote_url : String → ℕ → Result (Unit {0})
  validate_remote_url url index = validate_parsed_url index (parse_url url)

  unfoldable pub checked_entry : ℕ → RepositoryAccessEntry → Result RepositoryAccessEntry
  checked_entry index entry = do
    demand (not (entry.repository == "")) authorization_configuration_invalid
        (entry_problem index " has an empty identity")
    validate_remote_url entry.remote_url index
    validate_source_ref entry.source_ref index
    validate_credential_env_name entry.username_env index "username"
    validate_credential_env_name entry.password_env index "password"
    ok entry

  unfoldable pub parse_parts : ℕ → List String → Result RepositoryAccessEntry
  parse_parts index (identity ∷ url ∷ ref ∷ name ∷ pass ∷ []) =
      checked_entry index (entry_of_parts identity url ref name pass)
  parse_parts index _ = err (
      repository_access_error authorization_configuration_invalid
        (entry_problem index " is malformed"))

  -- The `map` over the records, which throws at the first bad one.
  unfoldable pub parse_records : ℕ → List String → Result (List RepositoryAccessEntry)
  parse_records index [] = ok []
  parse_records index (text ∷ texts) = do
    entry ← parse_parts index (split "|" text)
    rest ← parse_records (index + 1) texts
    ok (entry ∷ rest)

  -- `parseRepositoryAccessEntries`.
  unfoldable pub parse_repository_access_entries :
      Option String → Result (List RepositoryAccessEntry)
  parse_repository_access_entries none = err (
      repository_access_error authorization_configuration_invalid
        "repository authorization configuration is unavailable")
  parse_repository_access_entries (some raw) =
      if raw == ""
      then ok []
      else parse_records 0 (split ";" raw) >>= λ entries. checked_entries entries

  abbrev configuration_of :
      Result (List RepositoryAccessEntry) → RepositoryAuthorizationConfiguration
  configuration_of (ok entries) = configured entries
  configuration_of (err (repository_access_error c message)) = invalid message
  configuration_of (err _) = invalid "repository authorization configuration is invalid"

  unfoldable pub load_repository_authorization_configuration :
      Option String → RepositoryAuthorizationConfiguration
  load_repository_authorization_configuration raw =
      configuration_of (parse_repository_access_entries raw)

-- `RepositoryAccessPolicy`: its entries, and the diagnostic of a bad configuration.
pub record RepositoryAccessPolicy : Type 0 where
  pub entries : List RepositoryAccessEntry
  pub configuration_diagnostic : Option String

-- The constructor.
unfoldable pub policy_of : RepositoryAuthorizationConfiguration → RepositoryAccessPolicy
policy_of (invalid diagnostic) = record { entries = []; configuration_diagnostic = some diagnostic }
policy_of (configured entries) =
    if distinct_texts (repositories entries)
    then record { entries = entries; configuration_diagnostic = none }
    else record {
      entries = [];
      configuration_diagnostic = some "repository authorization entries are ambiguous";
    }

-- `matches.length !== 1`.
abbrev pub only_match : List RepositoryAccessEntry → Result RepositoryAccessEntry
only_match (entry ∷ []) = ok entry
only_match _ = err (
    repository_access_error repository_unauthorized
      "repository is not authorized for credentialed access")

abbrev authorize_with :
    Option String → List RepositoryAccessEntry → String → Result RepositoryAccessEntry
authorize_with (some diagnostic) entries repository = err (
    repository_access_error authorization_configuration_invalid
      "repository authorization configuration is invalid or unavailable")
authorize_with none entries repository =
    only_match (keep (λ (entry : RepositoryAccessEntry). entry.repository == repository) entries)

unfoldable pub authorize : RepositoryAccessPolicy → String → Result RepositoryAccessEntry
authorize policy repository =
    authorize_with policy.configuration_diagnostic policy.entries repository

abbrev credential_of : Option String → Option String → Result RepositoryCredential
credential_of (some username) (some password) =
    if (username == "") || (password == "")
    then err (
        repository_access_error credential_unavailable
          "read-only repository credential is unavailable")
    else ok (record { username = username; password = password })
credential_of _ _ = err (
    repository_access_error credential_unavailable "read-only repository credential is unavailable")

-- `EnvironmentRepositoryCredentialProvider` over an environment.
unfoldable pub get_credential :
    (String → Option String) → RepositoryAccessEntry → Result RepositoryCredential
get_credential env entry = credential_of (env entry.username_env) (env entry.password_env)
