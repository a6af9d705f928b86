-- ===== src/Redmine/Client/Store.antt =====
-- A Redmine that stores: one Issue, which every accepted update changes and nothing else does. The
-- REST API documents that a PUT with `custom_fields` sets the fields of those ids and that a later
-- GET shows them.
use ai_agent_runner.Base.{
  String, ◌≡◌, refl, ap, ◌==◌, Option, none, some, List, [], ◌∷◌, map, arith, nat_beq,
  if◌then◌else◌, Bool-cases, inl, inr,
}
use ai_agent_runner.Base.Lists.{map_get}
use ai_agent_runner.Failure.{ok, err, error, ◌>>=◌}
use ai_agent_runner.World.{History, issue_updated}
use ai_agent_runner.Redmine.Domain.{
  scalar, RedmineCustomField, RedmineIssueRecord, CustomFieldWrite, named, the_only,
  find_unique_custom_field, scalar_custom_field_value, pairs_of,
}
use ai_agent_runner.Redmine.Client.{RedmineClient}

abbrev write_value : RedmineCustomField → Option String → RedmineCustomField
write_value field none = field
write_value field (some v) = record field { value = scalar v }

-- A field after the writes.
unfoldable pub written_field : List CustomFieldWrite → RedmineCustomField → RedmineCustomField
written_field writes field = write_value field (map_get (pairs_of writes) field.id)

unfoldable pub written_issue : List CustomFieldWrite → RedmineIssueRecord → RedmineIssueRecord
written_issue writes issue = record issue {
  custom_fields = map (written_field writes) issue.custom_fields;
}

-- The Issue after a history of calls, from its first state.
unfoldable pub stored : RedmineIssueRecord → History → RedmineIssueRecord
stored issue [] = issue
stored issue (issue_updated id writes ∷ h) =
    if nat_beq id issue.id then written_issue writes (stored issue h) else stored issue h
stored issue (_ ∷ h) = stored issue h

pub record IsStore (client : RedmineClient) (issue : RedmineIssueRecord) : Type 0 where
  pub shows : (h : History) → client.on_get h issue.id ≡ ok (stored issue h)
  pub accepts :
      (h : History) (writes : List CustomFieldWrite) → client.on_update h issue.id writes ≡ ok tt

abbrev pub store_client : RedmineIssueRecord → RedmineClient
store_client issue = record {
  on_get = λ h id.
      if nat_beq id issue.id then ok (stored issue h) else err (error "Redmine answered 404");
  on_update =
      λ h id writes. if nat_beq id issue.id then ok tt else err (error "Redmine answered 404");
}

pub store_client-IsStore : (issue : RedmineIssueRecord) → IsStore (store_client issue) issue
store_client-IsStore issue = record {
  shows = λ h. ground arith;
  accepts = λ h writes. ground arith;
}

module _ (writes : List CustomFieldWrite) where
  name-written_field : (field : RedmineCustomField) → (written_field writes field).name ≡ field.name
  unfolding written_field
  name-written_field field = ground arith

  pub id-written_field : (field : RedmineCustomField) → (written_field writes field).id ≡ field.id
  unfolding written_field
  id-written_field field = ground arith

  pub value-written_field :
      (field : RedmineCustomField) (v : String)
      → map_get (pairs_of writes) field.id ≡ some v
      → scalar_custom_field_value (written_field writes field) ≡ ok v
  unfolding written_field scalar_custom_field_value
  value-written_field field v h = rw h

  pub unwritten_field :
      (field : RedmineCustomField)
      → map_get (pairs_of writes) field.id ≡ none
      → written_field writes field ≡ field
  unfolding written_field
  unwritten_field field h = rw h

  named-map :
      (name : String) (fields : List RedmineCustomField)
      → named name (map (written_field writes) fields)
        ≡ map (written_field writes) (named name fields)
  unfolding named written_field
  named-map name [] = refl
  named-map name (f ∷ fs) = elim (Bool-cases (f.name == name)) [
    | inl e ↦
        rw (name-written_field f, e) (ap (λ t. written_field writes f ∷ t) (named-map name fs))
    | inr e ↦ rw (name-written_field f, e) (named-map name fs)
  ]

  the_only-map :
      (name : String) (fields : List RedmineCustomField)
      → the_only name (map (written_field writes) fields)
        ≡ (the_only name fields >>= λ f. ok (written_field writes f))
  the_only-map name [] = refl
  the_only-map name (f ∷ []) = refl
  the_only-map name (f ∷ g ∷ fs) = refl

  -- A write changes no binding of a name.
  pub find_unique-written_issue :
      (issue : RedmineIssueRecord) (name : String)
      → find_unique_custom_field (written_issue writes issue) name
        ≡ (find_unique_custom_field issue name >>= λ f. ok (written_field writes f))
  unfolding find_unique_custom_field written_issue
  find_unique-written_issue issue name =
      rw named-map (the_only-map name (named name issue.custom_fields))
