-- ===== src/Redmine/Guard/Laws.antt =====
-- What the guard lets through.
use ai_agent_runner.Base.{String, ◌≡◌, refl, ap, ◌↔◌, eq_iff, true, List, [], ◌∷◌, map, arith}
use ai_agent_runner.Base.Lists.{All, distinct}
use ai_agent_runner.Failure.{ok, ◌>>=◌, >>=-eq-ok, require, require-eq-ok}
use ai_agent_runner.Redmine.Domain.{
  RedmineCustomField, RedmineIssueRecord, find_unique_custom_field, scalar_custom_field_value,
}
use ai_agent_runner.Redmine.FieldNames.{durable_execution_field_names}
use ai_agent_runner.Redmine.Guard.{
  Binding, bind_field, bind_fields, field_ids, bind_pristine_durable_execution_fields,
}

-- The entry binds its name to the one field of that name, and the field holds the empty text.
abbrev pub IsPristineEntry : RedmineIssueRecord → String × RedmineCustomField → Type 0
IsPristineEntry issue (name, field) =
    (find_unique_custom_field issue name ≡ ok field) × (scalar_custom_field_value field ≡ ok "")

bind_field-IsPristineEntry :
    (issue : RedmineIssueRecord) (name : String) (field : RedmineCustomField)
    → bind_field issue name ≡ ok field
    → IsPristineEntry issue (name, field)
unfolding bind_field
bind_field-IsPristineEntry issue name field h =
    let (f, found, r₁) = >>=-eq-ok (find_unique_custom_field issue name) _ h in
    let (v, read, r₂) = >>=-eq-ok (scalar_custom_field_value f) _ r₁ in ground (arith, eq_iff v "")

bind_field-eq-ok :
    (issue : RedmineIssueRecord) (name : String) (field : RedmineCustomField)
    → IsPristineEntry issue (name, field)
    → bind_field issue name ≡ ok field
unfolding bind_field
bind_field-eq-ok issue name field (found, read) = rw (found, read)

abbrev pub names_of : Binding → List String
names_of = map (λ (e : String × RedmineCustomField). e.0)

pub bind_fields-IsPristineEntry :
    (issue : RedmineIssueRecord) (names : List String) (fields : Binding)
    → bind_fields issue names ≡ ok fields
    → (names_of fields ≡ names) × All (IsPristineEntry issue) fields
unfolding bind_fields
bind_fields-IsPristineEntry issue [] [] h = (refl, tt)
bind_fields-IsPristineEntry issue [] (f ∷ fs) h = cc
bind_fields-IsPristineEntry issue (name ∷ names) fields h =
    let (field, bound, r₁) =
      >>=-eq-ok (bind_field issue name)
        (λ f. bind_fields issue names >>= λ rest. ok ((name, f) ∷ rest)) h in
    let (rest, found, r₂) =
      >>=-eq-ok (bind_fields issue names) (λ rest. ok ((name, field) ∷ rest)) r₁ in
    let (same, pristine) = bind_fields-IsPristineEntry issue names rest found in
    let e : (name, field) ∷ rest ≡ fields = cc r₂ in
    rw (← e) (
      ap (λ (t : List String). name ∷ t) same,
      (bind_field-IsPristineEntry issue name field bound, pristine),
    )

pub bind_fields-eq-ok :
    (issue : RedmineIssueRecord) (fields : Binding)
    → All (IsPristineEntry issue) fields
    → bind_fields issue (names_of fields) ≡ ok fields
unfolding bind_fields
bind_fields-eq-ok issue [] h = refl
bind_fields-eq-ok issue ((name, field) ∷ fields) (h, hs) =
    rw (bind_field-eq-ok issue name field h, bind_fields-eq-ok issue fields hs)

-- The guard returns `fields` exactly when they bind the fourteen names in order, each to the only
-- field of that name with the empty text as its value, and no two of them have the same id.
pub bind_pristine-eq-ok_iff :
    (issue : RedmineIssueRecord) (fields : Binding)
    → (bind_pristine_durable_execution_fields issue ≡ ok fields) ↔ (
        (names_of fields ≡ durable_execution_field_names)
        × All (IsPristineEntry issue) fields
        × (distinct (field_ids fields) ≡ true))
unfolding bind_pristine_durable_execution_fields
bind_pristine-eq-ok_iff issue fields = (
  λ h.
      let (fs, bound, r₁) = >>=-eq-ok (bind_fields issue durable_execution_field_names) _ h in
      let (u, test, r₂) = >>=-eq-ok (require (distinct (field_ids fs)) _) (λ _. ok fs) r₁ in
      let e : fs ≡ fields = cc r₂ in
      let (same, pristine) = bind_fields-IsPristineEntry issue _ fs bound in
      rw (← e) (same, pristine, require-eq-ok _ _ test),
  λ (same, pristine, test). rw (← same, bind_fields-eq-ok issue fields pristine, test),
)
