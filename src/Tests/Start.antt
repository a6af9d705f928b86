-- ===== src/Tests/Start.antt =====
-- The start of an execution at concrete inputs.
use ai_agent_runner.Base.{ℕ, String, ◌≡◌, refl, ◌↔◌, List, [], ◌∷◌, map, true, inl, inr}
use ai_agent_runner.Base.Lists.{All, In, distinct}
use ai_agent_runner.Base.Text.Decimal.{decimal}
use ai_agent_runner.Failure.{Failure, ok, err}
use ai_agent_runner.World.{issue_read, issue_updated}
use ai_agent_runner.Redmine.Domain.{
  RedmineCustomField, RedmineIssueRecord, CustomFieldWrite, find_unique_custom_field, named,
  scalar_custom_field_value,
}
use ai_agent_runner.Redmine.FieldNames.{
  execution_id, rejection_outcome, durable_execution_field_names,
}
use ai_agent_runner.Redmine.Client.{confirmed_update, plan_from, write_once, read_again, examine}
use ai_agent_runner.Redmine.Client.Store.{store_client, stored, written_issue, written_field}
use ai_agent_runner.Redmine.Guard.{
  Binding, bind_field, bind_fields, field_ids, bind_pristine_durable_execution_fields,
  require_bound_durable_execution_field,
}
use ai_agent_runner.Redmine.Guard.Laws.{IsPristineEntry, names_of, bind_pristine-eq-ok_iff}
use ai_agent_runner.Redmine.StartWriter.{
  assert_allowed_issue, start_write, start_writes_for, build_start_writes, start_field_read_back,
  start_fields_read_back, assert_exact_start_read_back, plan_start, check_start,
  persist_and_confirm,
}
use ai_agent_runner.Redmine.StartWriter.Confirmed.{
  persist_and_confirm_values, persist_and_confirm_stale,
}
use ai_agent_runner.Base.Text.{is_blank}
use ai_agent_runner.Redmine.FirstWrite.{
  verify, assert_verification_input, assert_positive_integer, plan_verification, check_verification,
  assert_fixture, build_verification_writes, assert_exact_read_back, fixture_field_read_back,
  IsVerified, verify_confirmed,
}
use ai_agent_runner.Tests.Sample.{
  field_of, fresh_issue, fresh_fields, sample_execution, sample_id, sample_fingerprint,
  sample_revision, sample_start,
}

abbrev write_of : ℕ → String → CustomFieldWrite
write_of id value = record { id = id; value = value }

abbrev sample_writes : List CustomFieldWrite
sample_writes =
    write_of 1 "Agent Running"
    ∷ write_of 2 sample_id
    ∷ write_of 3 "3"
    ∷ write_of 4 "p1"
    ∷ write_of 5 sample_fingerprint
    ∷ write_of 6 "repo"
    ∷ write_of 7 sample_revision
    ∷ write_of 8 sample_start
    ∷ write_of 9 ""
    ∷ write_of 10 ""
    ∷ write_of 11 ""
    ∷ write_of 12 ""
    ∷ write_of 13 ""
    ∷ write_of 14 ""
    ∷ []

started_calls :
    persist_and_confirm (store_client fresh_issue) (7 ∷ []) sample_execution []
    ≡ (ok sample_writes, issue_read 42 ∷ issue_updated 42 sample_writes ∷ issue_read 42 ∷ [])
unfolding persist_and_confirm confirmed_update plan_from write_once read_again examine plan_start
    check_start assert_allowed_issue build_start_writes bind_pristine_durable_execution_fields
    bind_fields bind_field require_bound_durable_execution_field start_writes_for start_write
    assert_exact_start_read_back start_fields_read_back start_field_read_back stored written_issue
    written_field find_unique_custom_field named scalar_custom_field_value decimal
started_calls = refl

abbrev after_start : RedmineIssueRecord
after_start = stored fresh_issue (issue_updated 42 sample_writes ∷ issue_read 42 ∷ [])

persist_and_confirm_values_example :
    scalar_custom_field_value (field_of 2 execution_id sample_id) ≡ ok sample_id
unfolding stored written_issue written_field find_unique_custom_field named
persist_and_confirm_values_example =
    persist_and_confirm_values (store_client fresh_issue) (7 ∷ []) sample_execution [] sample_writes
      (issue_read 42 ∷ issue_updated 42 sample_writes ∷ issue_read 42 ∷ []) fresh_issue after_start
      execution_id sample_id (field_of 2 execution_id "") (field_of 2 execution_id sample_id)
      started_calls refl refl (inr (inl refl)) refl refl refl refl

-- An Issue with the outcome of an earlier rejection.
abbrev stale_issue : RedmineIssueRecord
stale_issue = stored fresh_issue (issue_updated 42 (write_of 13 "stale_requirements" ∷ []) ∷ [])

stale_found :
    find_unique_custom_field stale_issue rejection_outcome
    ≡ ok (field_of 13 rejection_outcome "stale_requirements")
unfolding stored written_issue written_field find_unique_custom_field named
stale_found = refl

stale_read :
    scalar_custom_field_value (field_of 13 rejection_outcome "stale_requirements")
    ≡ ok "stale_requirements"
unfolding scalar_custom_field_value
stale_read = refl

stale_listed : In rejection_outcome durable_execution_field_names
stale_listed = inr (inr (inr (inr (inr (inr (inr (inr (inr (inr (inr (inr (inl refl))))))))))))

persist_and_confirm_stale_example :
    (x : Failure) × (persist_and_confirm (store_client stale_issue) (7 ∷ []) sample_execution []
      ≡ (err x, issue_read 42 ∷ []))
unfolding stored written_issue
persist_and_confirm_stale_example =
    persist_and_confirm_stale (store_client stale_issue) (7 ∷ []) sample_execution [] stale_issue
      rejection_outcome "stale_requirements" (field_of 13 rejection_outcome "stale_requirements")
      refl stale_listed stale_found stale_read (λ e. cc e)

abbrev rest_of : List RedmineCustomField → List RedmineCustomField
rest_of [] = []
rest_of (f ∷ fs) = fs

abbrev fresh_binding : Binding
fresh_binding = map (λ (f : RedmineCustomField). (f.name, f)) (rest_of fresh_fields)

bind_pristine-eq-ok_iff_example :
    (bind_pristine_durable_execution_fields fresh_issue ≡ ok fresh_binding) ↔ (
      (names_of fresh_binding ≡ durable_execution_field_names)
      × All (IsPristineEntry fresh_issue) fresh_binding
      × (distinct (field_ids fresh_binding) ≡ true))
bind_pristine-eq-ok_iff_example = bind_pristine-eq-ok_iff fresh_issue fresh_binding

abbrev fixture_writes : List CustomFieldWrite
fixture_writes =
    write_of 1 "Ready for Independent Verification"
    ∷ write_of 10 "artifact_persistence_failed"
    ∷ write_of 11 "ref"
    ∷ []

verified :
    verify (store_client fresh_issue) (7 ∷ []) 42 "ref" []
    ≡ (ok fixture_writes, issue_read 42 ∷ issue_updated 42 fixture_writes ∷ issue_read 42 ∷ [])
unfolding verify assert_verification_input assert_positive_integer plan_verification
    check_verification assert_fixture build_verification_writes assert_exact_read_back
    fixture_field_read_back confirmed_update plan_from write_once read_again examine stored
    written_issue written_field find_unique_custom_field named scalar_custom_field_value is_blank
verified = refl

verify_confirmed_example :
    IsVerified
      (store_client fresh_issue)
      (7 ∷ [])
      42
      "ref"
      []
      fixture_writes
      (issue_read 42 ∷ issue_updated 42 fixture_writes ∷ issue_read 42 ∷ [])
verify_confirmed_example =
    verify_confirmed (store_client fresh_issue) (7 ∷ []) 42 "ref" [] fixture_writes
      (issue_read 42 ∷ issue_updated 42 fixture_writes ∷ issue_read 42 ∷ []) verified
