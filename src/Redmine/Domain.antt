-- ===== src/Redmine/Domain.antt =====
-- The Redmine records and the access to custom fields by exact name: src/redmine/domain.ts.
use ai_agent_runner.Base.{ℕ, String, Bool, false, Option, none, some, List, [], ◌∷◌, map, ◌==◌}
use ai_agent_runner.Base.Lists.{keep, map_get}
use ai_agent_runner.Failure.{Result, ok, err, error, ◌>>=◌, ◌>>◌, require}
use Prim.Native.String

pub record RedmineNamedResource : Type 0 where
  pub id : ℕ
  pub name : String

-- `string | readonly string[]`.
pub data FieldValue : Type 0 where
  scalar : String → FieldValue
  several : List String → FieldValue

pub record RedmineCustomField : Type 0 where
  pub id : ℕ
  pub name : String
  pub value : FieldValue

pub record RedmineJournal : Type 0 where
  pub id : ℕ
  pub notes : String
  pub created_on : String

pub record RedmineIssueRelation : Type 0 where
  pub id : ℕ
  pub issue_id : ℕ
  pub issue_to_id : ℕ
  pub relation_type : String
  pub delay : Option ℕ

pub record RedmineIssueChild : Type 0 where
  pub id : ℕ
  pub subject : String
  pub tracker : Option RedmineNamedResource

pub record RedmineIssueRecord : Type 0 where
  pub id : ℕ
  pub project : RedmineNamedResource
  pub tracker : RedmineNamedResource
  pub fixed_version : Option RedmineNamedResource
  pub subject : String
  pub description : String
  pub custom_fields : List RedmineCustomField
  pub updated_on : String
  pub journals : List RedmineJournal
  pub relations : List RedmineIssueRelation
  pub children : List RedmineIssueChild

pub record CustomFieldWrite : Type 0 where
  pub id : ℕ
  pub value : String

-- `issue.customFields.filter((field) => field.name === exactName)`.
unfoldable pub named : String → List RedmineCustomField → List RedmineCustomField
named exact_name fields = keep (λ f. f.name == exact_name) fields

-- The tests on the number of matches.
abbrev pub the_only : String → List RedmineCustomField → Result RedmineCustomField
the_only exact_name [] =
    err (error (String.◌++◌ "Required Redmine custom field is missing: " exact_name))
the_only exact_name (f ∷ []) = ok f
the_only exact_name (f ∷ g ∷ rest) =
    err (error (String.◌++◌ "Required Redmine custom field is ambiguous: " exact_name))

unfoldable pub find_unique_custom_field : RedmineIssueRecord → String → Result RedmineCustomField
find_unique_custom_field issue exact_name =
    the_only exact_name (named exact_name issue.custom_fields)

abbrev scalar_or : String → FieldValue → Result String
scalar_or name (scalar s) = ok s
scalar_or name (several ss) = err (error (String.◌++◌ "Redmine custom field must be scalar: " name))

unfoldable pub scalar_custom_field_value : RedmineCustomField → Result String
scalar_custom_field_value field = scalar_or field.name field.value

-- The value of the field of that name: `scalar` of the modules that read execution records.
unfoldable pub scalar_of : RedmineIssueRecord → String → Result String
scalar_of issue name = find_unique_custom_field issue name >>= scalar_custom_field_value

-- `assertScalar`, with the text that the module puts before the name.
unfoldable pub assert_scalar : String → RedmineIssueRecord → String → String → Result (Unit {0})
assert_scalar prefix issue name expected = do
  actual ← scalar_of issue name
  require (actual == expected) (String.◌++◌ prefix name)

-- The entries of `new Map(writes.map((entry) => [entry.id, entry.value]))`.
abbrev pub pairs_of : List CustomFieldWrite → List (ℕ × String)
pairs_of = map (λ (w : CustomFieldWrite). (w.id, w.value))

-- `expectedById.get(id)`.
abbrev pub expected_by_id : List CustomFieldWrite → ℕ → Option String
expected_by_id writes id = map_get (pairs_of writes) id

-- A loop of `assertScalar` over names and values.
unfoldable pub assert_scalars :
    String → RedmineIssueRecord → List (String × String) → Result (Unit {0})
assert_scalars prefix issue [] = ok tt
assert_scalars prefix issue ((name, expected) ∷ rest) = do
  assert_scalar prefix issue name expected
  assert_scalars prefix issue rest

-- `{ id: field(issue, name).id, value }`, for each name and value.
unfoldable pub field_write : RedmineIssueRecord → String → String → Result CustomFieldWrite
field_write issue name value = do
  field ← find_unique_custom_field issue name
  ok (record { id = field.id; value = value })

unfoldable pub field_writes :
    RedmineIssueRecord → List (String × String) → Result (List CustomFieldWrite)
field_writes issue [] = ok []
field_writes issue ((name, value) ∷ rest) = do
  write ← field_write issue name value
  writes ← field_writes issue rest
  ok (write ∷ writes)

abbrev pub required : String → Option String → Result String
required message none = err (error message)
required message (some value) = ok value

abbrev pub is_value : Option String → String → Bool
is_value none expected = false
is_value (some value) expected = value == expected

-- One round of a finalizer's read-back loop: the field of that name was written with the expected
-- value and holds it.
unfoldable pub assert_written :
    String → RedmineIssueRecord → List CustomFieldWrite → String → String → Result (Unit {0})
assert_written prefix issue writes name expected = do
  target ← find_unique_custom_field issue name
  require (is_value (expected_by_id writes target.id) expected) (String.◌++◌ prefix name)
  actual ← scalar_custom_field_value target
  require (actual == expected) (String.◌++◌ prefix name)

unfoldable pub assert_all_written :
    String → RedmineIssueRecord → List CustomFieldWrite → List (String × String) → Result (Unit {0})
assert_all_written prefix issue writes [] = ok tt
assert_all_written prefix issue writes ((name, expected) ∷ rest) = do
  assert_written prefix issue writes name expected
  assert_all_written prefix issue writes rest

-- The last test of a finalizer: the field of that name holds whatever was written to its id.
unfoldable pub assert_holds_written :
    String → RedmineIssueRecord → List CustomFieldWrite → String → Result (Unit {0})
assert_holds_written prefix issue writes name = do
  field ← find_unique_custom_field issue name
  expected ← required (String.◌++◌ prefix name) (expected_by_id writes field.id)
  actual ← scalar_custom_field_value field
  require (actual == expected) (String.◌++◌ prefix name)
