-- ===== src/Redmine/Adapters/Laws.antt =====
-- What the reader says of an Issue, and what the writers' guard makes of it.
use ai_agent_runner.Base.{
  subst, String, ◌≡◌, refl, ◌↔◌, eq_iff, ◌==◌, true, false, List, [], ◌∷◌, arith, inl, inr,
  Bool-cases, if◌then◌else◌,
}
use ai_agent_runner.Base.Lists.{All, distinct}
use ai_agent_runner.Failure.{ok, >>=-eq-ok}
use ai_agent_runner.Redmine.Domain.{
  RedmineIssueRecord, RedmineCustomField, find_unique_custom_field, scalar_custom_field_value,
  scalar_of,
}
use ai_agent_runner.Redmine.FieldNames.{durable_execution_field_names}
use ai_agent_runner.Redmine.Scalars.{Holds}
use ai_agent_runner.Redmine.Guard.{
  Binding, field_ids, bind_fields, bind_field, bind_pristine_durable_execution_fields,
}
use ai_agent_runner.Redmine.RejectionWriter.Laws.{IsPristine}
use ai_agent_runner.Redmine.Adapters.{every_field_empty, is_execution_record_pristine}

every_field_empty-eq-true_iff :
    (issue : RedmineIssueRecord) (names : List String)
    → (every_field_empty issue names ≡ ok true) ↔ All (λ name. Holds issue (name, "")) names
unfolding every_field_empty
every_field_empty-eq-true_iff issue [] = (λ h. tt, λ h. refl)
every_field_empty-eq-true_iff issue (name ∷ names) = (
  λ h.
      let (value, read, r) =
        >>=-eq-ok (scalar_of issue name)
          (λ value. if value == "" then every_field_empty issue names else ok false) h in
      elim (Bool-cases (value == "")) [
        | inl e ↦ (
          cc (read, (eq_iff value "").0 e),
          (every_field_empty-eq-true_iff issue names).0
              (subst (λ b. (if b then every_field_empty issue names else ok false) ≡ ok true) e r),
        )
        | inr e ↦ absurd (ground (arith, e))
      ],
  λ h. rw (h.0) ((every_field_empty-eq-true_iff issue names).1 h.1),
)

-- The reader calls a record pristine exactly when each of the fourteen durable fields is unique by
-- name and holds the empty text.
pub is_execution_record_pristine_iff :
    (issue : RedmineIssueRecord) → (is_execution_record_pristine issue ≡ ok true) ↔ IsPristine issue
unfolding is_execution_record_pristine
is_execution_record_pristine_iff issue =
    every_field_empty-eq-true_iff issue durable_execution_field_names

bind_field_of_Holds :
    (issue : RedmineIssueRecord) (name : String)
    → Holds issue (name, "")
    → (field : RedmineCustomField) × (bind_field issue name ≡ ok field)
unfolding bind_field scalar_of
bind_field_of_Holds issue name h =
    let (field, found, read) =
      >>=-eq-ok (find_unique_custom_field issue name) scalar_custom_field_value h in
    (field, rw (found, read) refl)

bind_fields_of_Holds :
    (issue : RedmineIssueRecord) (names : List String)
    → All (λ name. Holds issue (name, "")) names
    → (fields : Binding) × (bind_fields issue names ≡ ok fields)
unfolding bind_fields
bind_fields_of_Holds issue [] h = ([], refl)
bind_fields_of_Holds issue (name ∷ names) (h, hs) =
    let (field, bound) = bind_field_of_Holds issue name h in
    let (fields, more) = bind_fields_of_Holds issue names hs in
    ((name, field) ∷ fields, rw (bound, more) refl)

-- What the reader calls pristine the guard of the writers binds, and it refuses it only for
-- fields that share an id.
pub pristine-bind_pristine :
    (issue : RedmineIssueRecord)
    → is_execution_record_pristine issue ≡ ok true
    → (fields : Binding) × (bind_fields issue durable_execution_field_names ≡ ok fields)
      × (distinct (field_ids fields) ≡ true
          → bind_pristine_durable_execution_fields issue ≡ ok fields)
unfolding bind_pristine_durable_execution_fields
pristine-bind_pristine issue h =
    let (fields, bound) =
      bind_fields_of_Holds issue durable_execution_field_names
        ((is_execution_record_pristine_iff issue).0 h) in
    (fields, bound, λ apart. rw (bound, apart) refl)
