-- ===== src/Redmine/FailureFinalizer.antt =====
-- The durable end of a started execution that failed: `RedmineStartedExecutionFailureFinalizer` of
-- src/redmine/execution-finalizer.ts.
pub mod Laws
pub mod OnStore
use ai_agent_runner.Base.{
  ℕ, String, ◌==◌, ◌&&◌, Option, none, some, List, [], ◌∷◌, nat_beq, leb, if◌then◌else◌,
}
use ai_agent_runner.Base.Lists.{includes}
use ai_agent_runner.Base.Text.{is_rfc3339}
use ai_agent_runner.Base.Text.Decimal.{decimal}
use ai_agent_runner.Failure.{Result, ok, err, error, ◌>>=◌, ◌>>◌, require}
use ai_agent_runner.Exec.{Exec}
use ai_agent_runner.World.{Event, History}
use ai_agent_runner.Redmine.Domain.{
  RedmineIssueRecord, CustomFieldWrite, assert_scalar, assert_scalars, field_writes,
  assert_all_written, assert_holds_written,
}
use ai_agent_runner.Redmine.FieldNames.{
  lifecycle, execution_id, brief_revision, persisted_revision, requirements_fingerprint, repository,
  source_revision, started_at, finished_at, outcome, artifact_reference, agent_running, needs_human,
}
use ai_agent_runner.Redmine.Client.{RedmineClient, confirmed_update}
use ai_agent_runner.Redmine.Clock.{Clock, canonical_date}
use ai_agent_runner.Redmine.Planning.{plan_at_time}
use ai_agent_runner.Execution.Types.{PreparedExecution}

pub data StartedExecutionFailureOutcome : Type 0 where
  timeout agent_start_failed agent_failed : StartedExecutionFailureOutcome

abbrev pub outcome_text : StartedExecutionFailureOutcome → String
outcome_text timeout = "timeout"
outcome_text agent_start_failed = "agent_start_failed"
outcome_text agent_failed = "agent_failed"

abbrev pub mismatch : String
mismatch = "started-execution identity/read-back mismatch: "

abbrev pub read_back_mismatch : String
read_back_mismatch = "started-execution finalization read-back mismatch: "

unfoldable pub assert_issue_boundary :
    RedmineIssueRecord → PreparedExecution → List ℕ → Result (Unit {0})
assert_issue_boundary issue execution allowed_project_ids = do
  require (nat_beq issue.id execution.input.issue_id)
      "started-execution finalization Issue identity mismatch"
  require (includes allowed_project_ids issue.project.id)
      "started-execution finalization is outside allowed projects"
  require (nat_beq issue.project.id execution.issue.project_id)
      "started-execution finalization project identity changed"

abbrev pub execution_identity : PreparedExecution → List (String × String)
execution_identity execution =
    (execution_id, execution.input.execution_id)
    ∷ (brief_revision, decimal execution.input.brief_revision)
    ∷ (persisted_revision, execution.input.persisted_revision)
    ∷ (requirements_fingerprint, execution.input.requirements_fingerprint)
    ∷ (repository, execution.input.repository)
    ∷ (source_revision, execution.input.source_revision)
    ∷ (started_at, execution.record_of.started_at)
    ∷ []

unfoldable pub assert_execution_identity :
    RedmineIssueRecord → PreparedExecution → Result (Unit {0})
assert_execution_identity issue execution =
    assert_scalars mismatch issue (execution_identity execution)

unfoldable pub assert_active_execution :
    RedmineIssueRecord → PreparedExecution → List ℕ → Result (Unit {0})
assert_active_execution issue execution allowed_project_ids = do
  assert_issue_boundary issue execution allowed_project_ids
  assert_scalar mismatch issue lifecycle agent_running
  assert_execution_identity issue execution
  assert_scalar mismatch issue finished_at ""
  assert_scalar mismatch issue outcome ""
  assert_scalar mismatch issue artifact_reference ""

abbrev pub failure_values : StartedExecutionFailureOutcome → String → List (String × String)
failure_values o finished =
    (lifecycle, needs_human)
    ∷ (finished_at, finished)
    ∷ (outcome, outcome_text o)
    ∷ (artifact_reference, "")
    ∷ []

unfoldable pub build_failure_writes :
    RedmineIssueRecord → StartedExecutionFailureOutcome → String → Result (List CustomFieldWrite)
build_failure_writes issue o finished = field_writes issue (failure_values o finished)

-- The names and values of the read-back loop.
abbrev pub failure_confirmed : StartedExecutionFailureOutcome → List (String × String)
failure_confirmed o =
    (lifecycle, needs_human) ∷ (outcome, outcome_text o) ∷ (artifact_reference, "") ∷ []

unfoldable pub assert_finalized_execution :
    PreparedExecution
    → StartedExecutionFailureOutcome
    → List ℕ
    → List CustomFieldWrite
    → RedmineIssueRecord
    → Result (Unit {0})
assert_finalized_execution execution o allowed_project_ids writes issue = do
  assert_issue_boundary issue execution allowed_project_ids
  assert_execution_identity issue execution
  assert_all_written read_back_mismatch issue writes (failure_confirmed o)
  assert_holds_written read_back_mismatch issue writes finished_at

unfoldable pub canonical_timestamp : Option String → Result String
canonical_timestamp =
    canonical_date "failure finalization clock returned an invalid timestamp"
      "failure finalization timestamp is outside the Redmine contract"

unfoldable pub plan_failure :
    Clock
    → List ℕ
    → PreparedExecution
    → StartedExecutionFailureOutcome
    → RedmineIssueRecord
    → Exec Event (List CustomFieldWrite)
plan_failure clock allowed_project_ids execution o before =
    plan_at_time clock (λ i. assert_active_execution i execution allowed_project_ids)
      canonical_timestamp (λ i active finished. build_failure_writes i o finished) before

-- `finalizeFailure`, which returns the writes that it confirmed in place of nothing.
unfoldable pub finalize_failure :
    RedmineClient
    → Clock
    → List ℕ
    → PreparedExecution
    → StartedExecutionFailureOutcome
    → Exec Event (List CustomFieldWrite)
finalize_failure client clock allowed_project_ids execution o =
    confirmed_update client execution.input.issue_id
      (plan_failure clock allowed_project_ids execution o) (λ writes. writes)
      (assert_finalized_execution execution o allowed_project_ids)
