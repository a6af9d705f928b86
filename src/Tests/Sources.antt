-- ===== src/Tests/Sources.antt =====
-- The access policy and the preparation of an execution at concrete inputs.
use ai_agent_runner.Base.{String, ◌↔◌, ◌≡◌, refl, true, false, some, [], ◌∷◌}
use ai_agent_runner.Base.Lists.{All}
use ai_agent_runner.Base.Text.{is_uuid_v4, is_fingerprint, is_git_oid, is_rfc3339, is_blank}
use ai_agent_runner.Base.Text.Parts.{split, trim_by, distinct_texts}
use ai_agent_runner.Failure.{ok, err, error, repository_access_error, repository_unauthorized}
use ai_agent_runner.Controller.Types.{ValidatedHandoff}
use ai_agent_runner.Repository.Types.{ExactSourceResolvedInput}
use ai_agent_runner.Repository.Policy.{
  RepositoryAccessEntry, RepositoryAccessPolicy, RepositoryAuthorizationConfiguration, configured,
  Url, UrlParser, policy_of, authorize, parse_repository_access_entries, repositories, trim,
  trim_ascii_edge_whitespace, is_env_name, is_source_ref, parse_records, parse_parts, checked_entry,
  validate_remote_url, validate_source_ref, validate_credential_env_name,
}
use ai_agent_runner.Repository.Policy.Authorized.{Grants, authorize-eq-ok_iff}
use ai_agent_runner.Repository.Policy.Entries.{
  IsUsable, IsPrintable, print_entries, parse-IsUsable, parse-print_entries,
}
use ai_agent_runner.Repository.Handler.{SourcePorts, handle, Leaves, handle-Leaves}
use ai_agent_runner.Execution.Types.{ApprovedBriefExecutionReference, PreparedExecution}
use ai_agent_runner.Execution.FormalGate.{authorize_formally}
use ai_agent_runner.Execution.Preparation.{
  require_approved_brief_reference, create_execution, input_of, create_immutable_execution_input,
  create_logical_execution_record, canonical_started_at,
}
use ai_agent_runner.Execution.Handler.{PreparationPorts}
use ai_agent_runner.Execution.Handler
use ai_agent_runner.Execution.Handler.Starts.{Starts, handle-Starts}
use ai_agent_runner.Execution.Handler.Created.{create_execution-IsWellFormed}
use ai_agent_runner.Recovery.Artifacts.Identity.{IsWellFormed}
use ai_agent_runner.Tests.Sample.{
  sample_id, sample_fingerprint, sample_revision, sample_start, sample_fetched, sample_handoff,
}

abbrev small_entry : RepositoryAccessEntry
small_entry = record {
  repository = "repo";
  remote_url = "https://host/repo";
  source_ref = "main";
  username_env = "USER";
  password_env = "PASS";
}

abbrev other_entry : RepositoryAccessEntry
other_entry = record small_entry { repository = "other" }

abbrev small_configuration : RepositoryAuthorizationConfiguration
small_configuration = configured (small_entry ∷ other_entry ∷ [])

authorize-eq-ok_iff_example :
    (authorize (policy_of small_configuration) "other" ≡ ok other_entry)
    ↔ Grants small_configuration "other" other_entry
authorize-eq-ok_iff_example = authorize-eq-ok_iff small_configuration "other" other_entry

abbrev plain_url : Url
plain_url = record { protocol = "https:"; username = ""; password = ""; search = ""; hash = "" }

abbrev small_parser : UrlParser
small_parser text = some plain_url

small_entry-IsUsable : IsUsable small_parser small_entry
unfolding is_source_ref is_env_name
small_entry-IsUsable = record {
  named = refl;
  url = plain_url;
  url_parsed = refl;
  secure = refl;
  no_credentials = refl;
  ref_form = refl;
  username_form = refl;
  password_form = refl;
}

small_entry-IsPrintable : IsPrintable small_parser small_entry
unfolding trim trim_ascii_edge_whitespace trim_by
small_entry-IsPrintable = record {
  no_bars = (refl, (refl, (refl, (refl, (refl, tt)))));
  no_semicolons = (refl, (refl, (refl, (refl, (refl, tt)))));
  repository_trimmed = refl;
  url_trimmed = refl;
  ref_trimmed = refl;
  username_trimmed = refl;
  password_trimmed = refl;
}

parse-print_entries_example :
    parse_repository_access_entries small_parser (some (print_entries (small_entry ∷ [])))
    ≡ ok (small_entry ∷ [])
parse-print_entries_example =
    parse-print_entries small_parser (small_entry ∷ []) (small_entry-IsUsable, tt)
      (small_entry-IsPrintable, tt) refl

abbrev small_text : String
small_text = " repo |https://host/repo| main|USER|PASS"

small_text-parsed :
    parse_repository_access_entries small_parser (some small_text) ≡ ok (small_entry ∷ [])
unfolding parse_repository_access_entries parse_records parse_parts checked_entry
    validate_remote_url validate_source_ref validate_credential_env_name is_source_ref is_env_name
    trim trim_ascii_edge_whitespace trim_by split
small_text-parsed = refl

parse-IsUsable_example :
    All (IsUsable small_parser) (small_entry ∷ [])
    × (distinct_texts (repositories (small_entry ∷ [])) ≡ true)
parse-IsUsable_example =
    parse-IsUsable small_parser (some small_text) (small_entry ∷ []) small_text-parsed

abbrev source_ports : SourcePorts
source_ports = record {
  on_resolve = λ h repository. err (repository_access_error repository_unauthorized "no");
  on_reject = λ h id outcome diagnostic. ok tt;
  on_next = λ h input. ok tt;
}

handle-Leaves_example :
    Leaves source_ports sample_fetched sample_handoff sample_fingerprint []
      (handle source_ports sample_fetched sample_handoff sample_fingerprint []).0
      (handle source_ports sample_fetched sample_handoff sample_fingerprint []).1
handle-Leaves_example =
    handle-Leaves source_ports sample_fetched sample_handoff sample_fingerprint []

abbrev approved_handoff : ValidatedHandoff
approved_handoff = record sample_handoff {
  approval = some (record {
    approver_identity = "approver";
    approved_at = sample_start;
    brief_revision = 3;
    persisted_revision = "p1";
  });
}

abbrev exact_input : ExactSourceResolvedInput
exact_input = record {
  issue = sample_fetched;
  handoff = approved_handoff;
  current_requirements_fingerprint = sample_fingerprint;
  repository = "repo";
  source_revision = sample_revision;
}

abbrev exact_reference : ApprovedBriefExecutionReference
exact_reference = record {
  repository = "repo";
  issue_id = 42;
  brief_revision = 3;
  persisted_revision = "p1";
}

abbrev small_policy : RepositoryAccessPolicy
small_policy = policy_of small_configuration

abbrev preparation_ports : PreparationPorts
preparation_ports = record {
  on_reject = λ h id outcome diagnostic. ok tt;
  on_gate = λ h repository revision. authorize_formally small_policy repository revision;
  on_allocate = λ h. ok sample_id;
  on_clock = λ h. some sample_start;
  on_persist = λ h execution. err (error "ambiguous");
  on_next = λ h execution. ok tt;
}

handle-Starts_example :
    Starts preparation_ports exact_input []
      (Handler.handle preparation_ports exact_input []).0
      (Handler.handle preparation_ports exact_input []).1
handle-Starts_example = handle-Starts preparation_ports exact_input []

abbrev exact_execution : PreparedExecution
exact_execution =
    let snapshot = input_of exact_input sample_id exact_reference in
    record {
      issue = sample_fetched;
      handoff = approved_handoff;
      input = snapshot;
      record_of = record {
        execution_id = sample_id;
        issue_id = 42;
        brief_revision = 3;
        persisted_revision = "p1";
        requirements_fingerprint = sample_fingerprint;
        repository = "repo";
        source_revision = sample_revision;
        started_at = sample_start;
      };
    }

exact_reference-required : require_approved_brief_reference exact_input ≡ ok exact_reference
unfolding require_approved_brief_reference is_blank is_fingerprint
exact_reference-required = refl

exact_source-authorized : authorize_formally small_policy "repo" sample_revision ≡ ok tt
unfolding authorize_formally authorize policy_of is_git_oid
exact_source-authorized = refl

exact_execution-created :
    create_execution exact_input exact_reference sample_id (some sample_start) ≡ ok exact_execution
unfolding create_execution create_immutable_execution_input create_logical_execution_record
    canonical_started_at is_uuid_v4 is_rfc3339
exact_execution-created = refl

repo_named : is_blank "repo" ≡ false
unfolding is_blank
repo_named = refl

create_execution-IsWellFormed_example :
    IsWellFormed exact_execution
    × (exact_execution.input.execution_id ≡ sample_id)
    × (exact_execution.input.issue_id ≡ 42)
    × (exact_execution.input.repository ≡ "repo")
    × (exact_execution.input.source_revision ≡ sample_revision)
    × (exact_execution.input.requirements_fingerprint ≡ sample_fingerprint)
create_execution-IsWellFormed_example =
    create_execution-IsWellFormed small_policy exact_input exact_reference sample_id
      (some sample_start) exact_execution exact_reference-required exact_source-authorized
      repo_named exact_execution-created
