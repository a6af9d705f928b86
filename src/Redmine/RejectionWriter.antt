-- ===== src/Redmine/RejectionWriter.antt =====
-- The durable rejection of a candidate: `RedminePreExecutionRejectionWriter` of
-- src/redmine/rejection-writer.ts. `sanitize` stands for `sanitizeDiagnostic` with its configured
-- secrets, which cuts and redacts text by regular expressions and may throw.
pub mod Laws
use Prim.Native.String
use ai_agent_runner.Base.{
  ℕ, String, ◌==◌, ◌&&◌, Bool, false, Option, none, some, List, [], ◌∷◌, nat_beq,
}
use ai_agent_runner.Base.Lists.{includes}
use ai_agent_runner.Failure.{Result, ok, err, error, ◌>>=◌, ◌>>◌, require}
use ai_agent_runner.Exec.{Exec}
use ai_agent_runner.World.{Event}
use ai_agent_runner.Redmine.Domain.{
  RedmineIssueRecord, CustomFieldWrite, find_unique_custom_field, scalar_custom_field_value,
  expected_by_id, required,
}
use ai_agent_runner.Redmine.FieldNames.{
  lifecycle, rejected_at, rejection_outcome, rejection_diagnostic, needs_human,
}
use ai_agent_runner.Redmine.Client.{RedmineClient, confirmed_update}
use ai_agent_runner.Redmine.Clock.{Clock}
use ai_agent_runner.Redmine.Guard.{
  Binding, bind_pristine_durable_execution_fields, require_bound_durable_execution_field,
}
use ai_agent_runner.Redmine.Planning.{plan_at_time}
use ai_agent_runner.Controller.Types.{
  PreExecutionRejectionOutcome, stale_requirements, eligibility_failed,
}

abbrev pub rejection_outcome_text : PreExecutionRejectionOutcome → String
rejection_outcome_text stale_requirements = "stale_requirements"
rejection_outcome_text eligibility_failed = "eligibility_failed"

-- What is known before the clock is read: the bound fields and the sanitized diagnostic.
pub record RejectionBasis : Type 0 where
  pub fields : Binding
  pub diagnostic : String

unfoldable pub assert_rejectable :
    (String → Result String) → List ℕ → ℕ → String → RedmineIssueRecord → Result RejectionBasis
assert_rejectable sanitize allowed_project_ids issue_id diagnostic before = do
  require (nat_beq before.id issue_id) "pre-execution rejection Issue identity mismatch"
  require (includes allowed_project_ids before.project.id)
      "pre-execution rejection write is outside allowed projects"
  fields ← bind_pristine_durable_execution_fields before
  sanitized ← sanitize diagnostic
  ok (record { fields = fields; diagnostic = sanitized })

unfoldable pub bound_writes : Binding → List (String × String) → Result (List CustomFieldWrite)
bound_writes fields [] = ok []
bound_writes fields ((name, value) ∷ pairs) = do
  field ← require_bound_durable_execution_field fields name
  writes ← bound_writes fields pairs
  ok (record { id = field.id; value = value } ∷ writes)

abbrev pub rejection_values :
    PreExecutionRejectionOutcome → String → String → List (String × String)
rejection_values reason diagnostic rejected =
    (lifecycle, needs_human)
    ∷ (rejected_at, rejected)
    ∷ (rejection_outcome, rejection_outcome_text reason)
    ∷ (rejection_diagnostic, diagnostic)
    ∷ []

-- `buildWrites`.
unfoldable pub build_rejection_writes :
    PreExecutionRejectionOutcome
    → RedmineIssueRecord
    → RejectionBasis
    → String
    → Result (List CustomFieldWrite)
build_rejection_writes reason issue basis rejected =
    bound_writes basis.fields (rejection_values reason basis.diagnostic rejected)

abbrev is_text : Option String → String → Bool
is_text none value = false
is_text (some text) value = text == value

-- The first loop of `assertReadBack`: fields whose values are known.
unfoldable pub read_back_values :
    RedmineIssueRecord → List CustomFieldWrite → List (String × String) → Result (Unit {0})
read_back_values issue writes [] = ok tt
read_back_values issue writes ((name, expected) ∷ pairs) = do
  field ← find_unique_custom_field issue name
  actual ← scalar_custom_field_value field
  require ((actual == expected) && is_text (expected_by_id writes field.id) expected)
      (String.◌++◌ "Redmine rejection read-back mismatch: " name)
  read_back_values issue writes pairs

-- The second loop: fields that hold whatever was written to their ids.
unfoldable pub read_back_written :
    RedmineIssueRecord → List CustomFieldWrite → List String → Result (Unit {0})
read_back_written issue writes [] = ok tt
read_back_written issue writes (name ∷ names) = do
  field ← find_unique_custom_field issue name
  expected ←
      required (String.◌++◌ "Redmine rejection read-back mismatch: " name)
        (expected_by_id writes field.id)
  actual ← scalar_custom_field_value field
  require (actual == expected) (String.◌++◌ "Redmine rejection read-back mismatch: " name)
  read_back_written issue writes names

unfoldable pub assert_rejection_read_back :
    List ℕ
    → ℕ
    → PreExecutionRejectionOutcome
    → List CustomFieldWrite
    → RedmineIssueRecord
    → Result (Unit {0})
assert_rejection_read_back allowed_project_ids issue_id reason writes after = do
  require (nat_beq after.id issue_id && includes allowed_project_ids after.project.id)
      "pre-execution rejection read-back Issue boundary changed"
  read_back_values after writes
      ((lifecycle, needs_human) ∷ (rejection_outcome, rejection_outcome_text reason) ∷ [])
  read_back_written after writes (rejected_at ∷ rejection_diagnostic ∷ [])

-- `toISOString()`, which throws a RangeError on an invalid date.
abbrev pub iso_string : Option String → Result String
iso_string = required "Invalid time value"

-- `reject`, which returns the writes that it confirmed in place of nothing.
unfoldable pub reject :
    RedmineClient
    → Clock
    → (String → Result String)
    → List ℕ
    → ℕ
    → PreExecutionRejectionOutcome
    → String
    → Exec Event (List CustomFieldWrite)
reject client clock sanitize allowed_project_ids issue_id reason diagnostic =
    confirmed_update client issue_id
      (plan_at_time clock (assert_rejectable sanitize allowed_project_ids issue_id diagnostic)
        iso_string (build_rejection_writes reason))
      (λ writes. writes) (assert_rejection_read_back allowed_project_ids issue_id reason)
