-- ===== src/Redmine/Guard.antt =====
-- The guard over the whole durable execution and rejection record, which both writers of a fresh
-- record pass first: src/redmine/durable-state-guard.ts.
pub mod Laws
use Prim.Native.String
use ai_agent_runner.Base.{ℕ, String, ◌==◌, List, [], ◌∷◌, map, if◌then◌else◌}
use ai_agent_runner.Base.Lists.{distinct}
use ai_agent_runner.Failure.{Result, ok, err, error, ◌>>=◌, ◌>>◌, require}
use ai_agent_runner.Redmine.Domain.{
  RedmineCustomField, RedmineIssueRecord, find_unique_custom_field, scalar_custom_field_value,
}
use ai_agent_runner.Redmine.FieldNames.{durable_execution_field_names}

-- The `Map` from names to fields, in the order of insertion.
abbrev pub Binding : Type 0
Binding = List (String × RedmineCustomField)

-- One round of the loop: the field of that name, if its value is the empty text.
unfoldable pub bind_field : RedmineIssueRecord → String → Result RedmineCustomField
bind_field issue name = do
  field ← find_unique_custom_field issue name
  value ← scalar_custom_field_value field
  require (value == "") (String.◌++◌ "durable execution/rejection state is not pristine: " name)
  ok field

unfoldable pub bind_fields : RedmineIssueRecord → List String → Result Binding
bind_fields issue [] = ok []
bind_fields issue (name ∷ names) = do
  field ← bind_field issue name
  rest ← bind_fields issue names
  ok ((name, field) ∷ rest)

abbrev pub field_ids : Binding → List ℕ
field_ids fields = map (λ (entry : String × RedmineCustomField). entry.1.id) fields

unfoldable pub bind_pristine_durable_execution_fields : RedmineIssueRecord → Result Binding
bind_pristine_durable_execution_fields issue = do
  fields ← bind_fields issue durable_execution_field_names
  require (distinct (field_ids fields))
      "durable execution/rejection field binding contains duplicate IDs"
  ok fields

unfoldable pub require_bound_durable_execution_field : Binding → String → Result RedmineCustomField
require_bound_durable_execution_field [] name =
    err (error (String.◌++◌ "durable execution/rejection field binding is incomplete: " name))
require_bound_durable_execution_field ((key, field) ∷ fields) name =
    if key == name then ok field else require_bound_durable_execution_field fields name
