-- ===== src/Redmine/StartWriter.antt =====
-- The durable start of an execution: `RedmineAgentRunningWriter` of src/redmine/execution-writer.ts.
pub mod Laws
pub mod Confirmed
use Prim.Native.String
use ai_agent_runner.Base.{
  ℕ, String, ◌==◌, Option, none, some, List, [], ◌∷◌, map, nat_beq, if◌then◌else◌,
}
use ai_agent_runner.Base.Lists.{includes, map_get}
use ai_agent_runner.Base.Text.Decimal.{decimal}
use ai_agent_runner.Failure.{Result, ok, err, error, ◌>>=◌, ◌>>◌, require}
use ai_agent_runner.Exec.{Exec, lift, pure}
use ai_agent_runner.Exec
use ai_agent_runner.World.{Event}
use ai_agent_runner.Redmine.Domain.{
  RedmineIssueRecord, CustomFieldWrite, find_unique_custom_field, scalar_custom_field_value,
  expected_by_id,
}
use ai_agent_runner.Redmine.FieldNames.{
  lifecycle, execution_id, brief_revision, persisted_revision, requirements_fingerprint, repository,
  source_revision, started_at, finished_at, outcome, artifact_reference, rejected_at,
  rejection_outcome, rejection_diagnostic, durable_execution_field_names, agent_running,
}
use ai_agent_runner.Redmine.Client.{RedmineClient, confirmed_update}
use ai_agent_runner.Redmine.Guard.{
  Binding, bind_pristine_durable_execution_fields, require_bound_durable_execution_field,
}
use ai_agent_runner.Execution.Types.{PreparedExecution}

-- `#assertAllowedIssue`.
unfoldable pub assert_allowed_issue :
    List ℕ → PreparedExecution → RedmineIssueRecord → Result (Unit {0})
assert_allowed_issue allowed_project_ids execution issue = do
  require (nat_beq issue.id execution.input.issue_id)
      "Agent Running mutation Issue identity mismatch"
  require (includes allowed_project_ids issue.project.id)
      "Agent Running mutation is outside allowed projects"
  require (nat_beq issue.project.id execution.issue.project_id)
      "Agent Running mutation project identity changed after candidate validation"

-- The `Map` from field names to the values of the start projection. Its keys are distinct.
abbrev pub start_values : PreparedExecution → List (String × String)
start_values execution =
    (lifecycle, agent_running)
    ∷ (rejected_at, "")
    ∷ (rejection_outcome, "")
    ∷ (rejection_diagnostic, "")
    ∷ (execution_id, execution.input.execution_id)
    ∷ (brief_revision, decimal execution.input.brief_revision)
    ∷ (persisted_revision, execution.input.persisted_revision)
    ∷ (requirements_fingerprint, execution.input.requirements_fingerprint)
    ∷ (repository, execution.input.repository)
    ∷ (source_revision, execution.input.source_revision)
    ∷ (started_at, execution.record_of.started_at)
    ∷ (finished_at, "")
    ∷ (outcome, "")
    ∷ (artifact_reference, "")
    ∷ []

abbrev pub value_for : List (String × String) → String → Result String
value_for [] name =
    err (error (String.◌++◌ "Agent execution start projection is incomplete: " name))
value_for ((key, value) ∷ values) name = if key == name then ok value else value_for values name

-- One element of the mapped list of writes.
unfoldable pub start_write : List (String × String) → Binding → String → Result CustomFieldWrite
start_write values fields name = do
  value ← value_for values name
  field ← require_bound_durable_execution_field fields name
  ok (record { id = field.id; value = value })

unfoldable pub start_writes_for :
    List (String × String) → Binding → List String → Result (List CustomFieldWrite)
start_writes_for values fields [] = ok []
start_writes_for values fields (name ∷ names) = do
  write ← start_write values fields name
  rest ← start_writes_for values fields names
  ok (write ∷ rest)

unfoldable pub build_start_writes :
    RedmineIssueRecord → PreparedExecution → Result (List CustomFieldWrite)
build_start_writes issue execution = do
  fields ← bind_pristine_durable_execution_fields issue
  start_writes_for (start_values execution) fields durable_execution_field_names

abbrev pub expected_or : String → Option String → Result String
expected_or message none = err (error message)
expected_or message (some value) = ok value

-- One round of the read-back loop.
unfoldable pub start_field_read_back :
    RedmineIssueRecord → List CustomFieldWrite → String → Result (Unit {0})
start_field_read_back issue writes name = do
  field ← find_unique_custom_field issue name
  expected ←
      expected_or (String.◌++◌ "Agent Running read-back field binding changed: " name)
        (expected_by_id writes field.id)
  actual ← scalar_custom_field_value field
  require (actual == expected) (String.◌++◌ "Agent Running read-back mismatch: " name)

unfoldable pub start_fields_read_back :
    RedmineIssueRecord → List CustomFieldWrite → List String → Result (Unit {0})
start_fields_read_back issue writes [] = ok tt
start_fields_read_back issue writes (name ∷ names) = do
  start_field_read_back issue writes name
  start_fields_read_back issue writes names

unfoldable pub assert_exact_start_read_back :
    RedmineIssueRecord → List CustomFieldWrite → Result (Unit {0})
assert_exact_start_read_back issue writes =
    start_fields_read_back issue writes durable_execution_field_names

unfoldable pub plan_start :
    List ℕ → PreparedExecution → RedmineIssueRecord → Result (List CustomFieldWrite)
plan_start allowed_project_ids execution before = do
  assert_allowed_issue allowed_project_ids execution before
  build_start_writes before execution

unfoldable pub check_start :
    List ℕ → PreparedExecution → List CustomFieldWrite → RedmineIssueRecord → Result (Unit {0})
check_start allowed_project_ids execution writes after = do
  assert_allowed_issue allowed_project_ids execution after
  assert_exact_start_read_back after writes

-- `persistAndConfirm`, which returns the writes that it confirmed in place of nothing.
unfoldable pub persist_and_confirm :
    RedmineClient → List ℕ → PreparedExecution → Exec Event (List CustomFieldWrite)
persist_and_confirm client allowed_project_ids execution =
    confirmed_update client execution.input.issue_id
      (λ before. lift (plan_start allowed_project_ids execution before)) (λ writes. writes)
      (check_start allowed_project_ids execution)
