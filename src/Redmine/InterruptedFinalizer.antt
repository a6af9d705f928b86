-- ===== src/Redmine/InterruptedFinalizer.antt =====
-- The durable end of an execution that a restart found running:
-- `RedmineInterruptedExecutionFinalizer` of src/redmine/interrupted-finalizer.ts.
pub mod Laws
use Prim.Native.String
use ai_agent_runner.Base.{
  ℕ, String, ◌==◌, ◌&&◌, not, Option, none, some, List, [], ◌∷◌, nat_beq, leb, if◌then◌else◌,
}
use ai_agent_runner.Base.Lists.{includes}
use ai_agent_runner.Base.Text.{is_uuid_v4, is_fingerprint, is_git_oid, is_rfc3339, is_blank}
use ai_agent_runner.Base.Text.Decimal.{is_positive_decimal, number_of, max_safe_integer}
use ai_agent_runner.Failure.{Result, ok, err, error, ◌>>=◌, ◌>>◌, require}
use ai_agent_runner.Exec.{Exec}
use ai_agent_runner.World.{Event}
use ai_agent_runner.Redmine.Domain.{
  RedmineIssueRecord, CustomFieldWrite, scalar_of, assert_scalar, assert_scalars, field_writes,
  assert_all_written, assert_holds_written,
}
use ai_agent_runner.Redmine.FieldNames.{
  lifecycle, execution_id, brief_revision, persisted_revision, requirements_fingerprint, repository,
  source_revision, started_at, finished_at, outcome, artifact_reference, agent_running, needs_human,
}
use ai_agent_runner.Redmine.Client.{RedmineClient, confirmed_update}
use ai_agent_runner.Redmine.Clock.{Clock, canonical_date}
use ai_agent_runner.Redmine.Planning.{plan_at_time}

abbrev pub mismatch : String
mismatch = "interrupted execution identity/read-back mismatch: "

abbrev pub read_back_mismatch : String
read_back_mismatch = "interrupted finalization read-back mismatch: "

pub record DurableExecutionIdentity : Type 0 where
  pub project_id : ℕ
  pub values : List (String × String)

-- The scalars of the named fields, in the order of the names.
unfoldable pub read_values : RedmineIssueRecord → List String → Result (List (String × String))
read_values issue [] = ok []
read_values issue (name ∷ names) = do
  value ← scalar_of issue name
  rest ← read_values issue names
  ok ((name, value) ∷ rest)

abbrev pub identity_names : List String
identity_names =
    execution_id ∷ brief_revision ∷ persisted_revision ∷ requirements_fingerprint ∷ repository
    ∷ source_revision ∷ started_at ∷ []

-- `values[name]`.
abbrev pub required_identity : List (String × String) → String → Result String
required_identity [] name = err (error (String.◌++◌ "Agent Running identity is missing: " name))
required_identity ((key, value) ∷ values) name =
    if key == name then ok value else required_identity values name

unfoldable pub validate_identity : List (String × String) → Result (Unit {0})
validate_identity values = do
  id ← required_identity values execution_id
  require (is_uuid_v4 id) "Agent Running execution_id is not canonical UUIDv4"
  revision ← required_identity values brief_revision
  require (is_positive_decimal revision && leb (number_of revision) max_safe_integer)
      "Agent Running brief revision is invalid"
  persisted ← required_identity values persisted_revision
  require (not (is_blank persisted)) "Agent Running persisted revision is empty"
  fingerprint ← required_identity values requirements_fingerprint
  require (is_fingerprint fingerprint) "Agent Running requirements fingerprint is invalid"
  repo ← required_identity values repository
  require (not (is_blank repo)) "Agent Running repository identity is empty"
  revision' ← required_identity values source_revision
  require (is_git_oid revision') "Agent Running source revision is invalid"
  started ← required_identity values started_at
  require (is_rfc3339 started) "Agent Running started_at is invalid"

unfoldable pub read_active_identity : List ℕ → RedmineIssueRecord → Result DurableExecutionIdentity
read_active_identity allowed_project_ids issue = do
  require (includes allowed_project_ids issue.project.id)
      "interrupted finalization is outside allowed projects"
  assert_scalar mismatch issue lifecycle agent_running
  assert_scalar mismatch issue finished_at ""
  assert_scalar mismatch issue outcome ""
  assert_scalar mismatch issue artifact_reference ""
  values ← read_values issue identity_names
  validate_identity values
  ok (record { project_id = issue.project.id; values = values })

-- The test on the Issue's id in front of `readActiveIdentity`.
unfoldable pub assert_interrupted :
    ℕ → List ℕ → RedmineIssueRecord → Result DurableExecutionIdentity
assert_interrupted issue_id allowed_project_ids before = do
  require (nat_beq before.id issue_id) "interrupted finalization Issue identity mismatch"
  read_active_identity allowed_project_ids before

abbrev pub interrupted_values : String → List (String × String)
interrupted_values finished =
    (lifecycle, needs_human)
    ∷ (finished_at, finished)
    ∷ (outcome, "interrupted")
    ∷ (artifact_reference, "")
    ∷ []

-- The identity that was read and the writes that were built.
pub record InterruptedPlan : Type 0 where
  pub identity : DurableExecutionIdentity
  pub writes : List CustomFieldWrite

unfoldable pub build_writes :
    RedmineIssueRecord → DurableExecutionIdentity → String → Result InterruptedPlan
build_writes issue identity finished = do
  writes ← field_writes issue (interrupted_values finished)
  ok (record { identity = identity; writes = writes })

abbrev pub interrupted_confirmed : List (String × String)
interrupted_confirmed =
    (lifecycle, needs_human) ∷ (outcome, "interrupted") ∷ (artifact_reference, "") ∷ []

unfoldable pub assert_finalized :
    ℕ → List ℕ → InterruptedPlan → RedmineIssueRecord → Result (Unit {0})
assert_finalized issue_id allowed_project_ids plan issue = do
  require (nat_beq issue.id issue_id) "interrupted finalization Issue identity mismatch"
  require
      (includes allowed_project_ids issue.project.id
        && nat_beq issue.project.id plan.identity.project_id)
      "interrupted finalization project identity changed"
  assert_scalars mismatch issue plan.identity.values
  assert_all_written read_back_mismatch issue plan.writes interrupted_confirmed
  assert_holds_written read_back_mismatch issue plan.writes finished_at

unfoldable pub canonical_timestamp : Option String → Result String
canonical_timestamp =
    canonical_date "interrupted finalization clock returned an invalid timestamp"
      "interrupted finalization timestamp is outside the Redmine contract"

unfoldable pub plan_interrupted :
    Clock → List ℕ → ℕ → RedmineIssueRecord → Exec Event InterruptedPlan
plan_interrupted clock allowed_project_ids issue_id =
    plan_at_time clock (assert_interrupted issue_id allowed_project_ids) canonical_timestamp
      build_writes

-- `finalizeInterrupted`, which returns its plan in place of nothing.
unfoldable pub finalize_interrupted :
    RedmineClient → Clock → List ℕ → ℕ → Exec Event InterruptedPlan
finalize_interrupted client clock allowed_project_ids issue_id =
    confirmed_update client issue_id (plan_interrupted clock allowed_project_ids issue_id)
      (λ plan. plan.writes) (assert_finalized issue_id allowed_project_ids)
