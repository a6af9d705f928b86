-- ===== src/Tests/Sample.antt =====
-- A sample Issue and execution, and a Redmine that stores the Issue.
use ai_agent_runner.Base.{ℕ, String, none, some, List, [], ◌∷◌}
use ai_agent_runner.Redmine.Domain.{RedmineCustomField, RedmineIssueRecord, scalar}
use ai_agent_runner.Redmine.FieldNames.{
  lifecycle, execution_id, brief_revision, persisted_revision, requirements_fingerprint, repository,
  source_revision, started_at, finished_at, outcome, artifact_reference, rejected_at,
  rejection_outcome, rejection_diagnostic, agent_running,
}
use ai_agent_runner.Redmine.Adapters.{brief_lifecycle}
use ai_agent_runner.Redmine.Clock.{Clock}
use ai_agent_runner.Controller.Types.{ReFetchedIssue, ValidatedHandoff, ready_for_agent_lifecycle}
use ai_agent_runner.Execution.Types.{PreparedExecution, ImmutableExecutionInput}

abbrev pub sample_id : String
sample_id = "6f1c1e5a-3b7d-4c2e-9a41-0123456789ab"

abbrev pub sample_fingerprint : String
sample_fingerprint = "sha256:0123456789abcdef0123456789abcdef0123456789abcdef0123456789abcdef"

abbrev pub sample_revision : String
sample_revision = "0123456789abcdef0123456789abcdef01234567"

abbrev pub sample_start : String
sample_start = "2026-01-02T03:04:05.678Z"

abbrev pub sample_end : String
sample_end = "2026-01-02T04:05:06.789Z"

abbrev pub sample_clock : Clock
sample_clock h = some sample_end

abbrev pub field_of : ℕ → String → String → RedmineCustomField
field_of id name value = record { id = id; name = name; value = scalar value }

abbrev pub issue_with : List RedmineCustomField → RedmineIssueRecord
issue_with fields = record {
  id = 42;
  project = record { id = 7; name = "project" };
  tracker = record { id = 1; name = "Task" };
  fixed_version = none;
  subject = "subject";
  description = "";
  custom_fields = fields;
  updated_on = "";
  journals = [];
  relations = [];
  children = [];
}

abbrev pub fresh_fields : List RedmineCustomField
fresh_fields =
    field_of 20 brief_lifecycle ready_for_agent_lifecycle
    ∷ field_of 1 lifecycle ""
    ∷ field_of 2 execution_id ""
    ∷ field_of 3 brief_revision ""
    ∷ field_of 4 persisted_revision ""
    ∷ field_of 5 requirements_fingerprint ""
    ∷ field_of 6 repository ""
    ∷ field_of 7 source_revision ""
    ∷ field_of 8 started_at ""
    ∷ field_of 9 finished_at ""
    ∷ field_of 10 outcome ""
    ∷ field_of 11 artifact_reference ""
    ∷ field_of 12 rejected_at ""
    ∷ field_of 13 rejection_outcome ""
    ∷ field_of 14 rejection_diagnostic ""
    ∷ []

abbrev pub fresh_issue : RedmineIssueRecord
fresh_issue = issue_with fresh_fields

abbrev pub running_fields : List RedmineCustomField
running_fields =
    field_of 20 brief_lifecycle ready_for_agent_lifecycle
    ∷ field_of 1 lifecycle agent_running
    ∷ field_of 2 execution_id sample_id
    ∷ field_of 3 brief_revision "3"
    ∷ field_of 4 persisted_revision "p1"
    ∷ field_of 5 requirements_fingerprint sample_fingerprint
    ∷ field_of 6 repository "repo"
    ∷ field_of 7 source_revision sample_revision
    ∷ field_of 8 started_at sample_start
    ∷ field_of 9 finished_at ""
    ∷ field_of 10 outcome ""
    ∷ field_of 11 artifact_reference ""
    ∷ field_of 12 rejected_at ""
    ∷ field_of 13 rejection_outcome ""
    ∷ field_of 14 rejection_diagnostic ""
    ∷ []

abbrev pub running_issue : RedmineIssueRecord
running_issue = issue_with running_fields

abbrev pub sample_handoff : ValidatedHandoff
sample_handoff = record {
  issue_id = 42;
  repository = "repo";
  approved_requirements_fingerprint = sample_fingerprint;
  approval = none;
}

abbrev pub sample_fetched : ReFetchedIssue
sample_fetched = record {
  issue_id = 42;
  project_id = 7;
  lifecycle = ready_for_agent_lifecycle;
  post_lock_state = none;
  raw = fresh_issue;
}

abbrev pub sample_input : ImmutableExecutionInput
sample_input = record {
  execution_id = sample_id;
  issue_id = 42;
  repository = "repo";
  source_revision = sample_revision;
  brief_revision = 3;
  persisted_revision = "p1";
  requirements_fingerprint = sample_fingerprint;
  approved_brief_reference = record {
    repository = "repo";
    issue_id = 42;
    brief_revision = 3;
    persisted_revision = "p1";
  };
}

abbrev pub sample_execution : PreparedExecution
sample_execution = record {
  issue = sample_fetched;
  handoff = sample_handoff;
  input = sample_input;
  record_of = record {
    execution_id = sample_id;
    issue_id = 42;
    brief_revision = 3;
    persisted_revision = "p1";
    requirements_fingerprint = sample_fingerprint;
    repository = "repo";
    source_revision = sample_revision;
    started_at = sample_start;
  };
}
