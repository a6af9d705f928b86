-- ===== src/Tests/Ends.antt =====
-- The ends of an execution at concrete inputs.
use ai_agent_runner.Base.{ℕ, String, ◌≡◌, refl, List, [], ◌∷◌, map, inl, inr}
use ai_agent_runner.Base.Lists.{All}
use ai_agent_runner.Base.Text.{is_rfc3339}
use ai_agent_runner.Base.Text.Decimal.{decimal}
use ai_agent_runner.Failure.{Result, ok}
use ai_agent_runner.World.{issue_read, issue_updated, clock_read}
use ai_agent_runner.Redmine.Domain.{
  RedmineCustomField, RedmineIssueRecord, CustomFieldWrite, find_unique_custom_field, named,
  scalar_custom_field_value, scalar_of, assert_scalar, assert_scalars, field_write, field_writes,
  assert_written, assert_all_written, assert_holds_written,
}
use ai_agent_runner.Redmine.FieldNames.{lifecycle, rejection_outcome, needs_human}
use ai_agent_runner.Redmine.Client.{confirmed_update, plan_from, write_once, read_again, examine}
use ai_agent_runner.Redmine.Client.Store.{
  store_client, store_client-IsStore, stored, written_issue, written_field,
}
use ai_agent_runner.Redmine.Clock.{canonical_date}
use ai_agent_runner.Redmine.Planning.{plan_at_time, plan_with}
use ai_agent_runner.Redmine.Guard.{
  Binding, bind_field, bind_fields, bind_pristine_durable_execution_fields,
  require_bound_durable_execution_field,
}
use ai_agent_runner.Redmine.Scalars.{Holds, active_values}
use ai_agent_runner.Redmine.FailureFinalizer.{
  timeout, assert_issue_boundary, assert_execution_identity, assert_active_execution,
  execution_identity, failure_values, failure_confirmed, build_failure_writes,
  assert_finalized_execution, canonical_timestamp, plan_failure, finalize_failure,
}
use ai_agent_runner.Redmine.FailureFinalizer.Laws.{finalize_failure_confirmed}
use ai_agent_runner.Redmine.FailureFinalizer.OnStore.{
  IsBoundBy, failure_calls, finalize_failure_on_store,
}
use ai_agent_runner.Redmine.RejectionWriter.{
  rejection_outcome_text, assert_rejectable, bound_writes, build_rejection_writes, read_back_values,
  read_back_written, assert_rejection_read_back, reject,
}
use ai_agent_runner.Redmine.RejectionWriter.Laws.{IsPristine, reject_confirmed}
use ai_agent_runner.Controller.Types.{stale_requirements}
use ai_agent_runner.Tests.Sample.{
  fresh_issue, running_issue, running_fields, sample_clock, sample_end, sample_execution,
}

abbrev write_of : ℕ → String → CustomFieldWrite
write_of id value = record { id = id; value = value }

abbrev rest_of : List RedmineCustomField → List RedmineCustomField
rest_of [] = []
rest_of (f ∷ fs) = fs

abbrev running_binding : Binding
running_binding = map (λ (f : RedmineCustomField). (f.name, f)) (rest_of running_fields)

running_binding-IsBoundBy : IsBoundBy (stored running_issue []) running_binding
unfolding stored find_unique_custom_field named
running_binding-IsBoundBy = record {
  bound = (
    refl,
    (
      refl,
      (
        refl,
        (refl, (refl, (refl, (refl, (refl, (refl, (refl, (refl, (refl, (refl, (refl, tt))))))))))),
      ),
    ),
  );
  apart = refl;
  named = (
    (_, inl refl),
    (
      (_, inr (inr (inr (inr (inr (inr (inr (inr (inl refl))))))))),
      (
        (_, inr (inr (inr (inr (inr (inr (inr (inr (inr (inl refl)))))))))),
        (
          (_, inr (inr (inr (inr (inr (inr (inr (inr (inr (inr (inl refl))))))))))),
          (
            (_, inr (inl refl)),
            (
              (_, inr (inr (inl refl))),
              (
                (_, inr (inr (inr (inl refl)))),
                (
                  (_, inr (inr (inr (inr (inl refl))))),
                  (
                    (_, inr (inr (inr (inr (inr (inl refl)))))),
                    (
                      (_, inr (inr (inr (inr (inr (inr (inl refl))))))),
                      ((_, inr (inr (inr (inr (inr (inr (inr (inl refl)))))))), tt),
                    ),
                  ),
                ),
              ),
            ),
          ),
        ),
      ),
    ),
  );
}

running-active : assert_active_execution running_issue sample_execution (7 ∷ []) ≡ ok tt
unfolding assert_active_execution assert_issue_boundary assert_execution_identity assert_scalars
    assert_scalar scalar_of find_unique_custom_field named scalar_custom_field_value decimal
running-active = refl

timely : canonical_timestamp (sample_clock (issue_read 42 ∷ [])) ≡ ok sample_end
unfolding canonical_timestamp canonical_date is_rfc3339
timely = refl

abbrev failed_writes : List CustomFieldWrite
failed_writes =
    write_of 1 "Needs Human" ∷ write_of 9 sample_end ∷ write_of 10 "timeout" ∷ write_of 11 "" ∷ []

failed :
    finalize_failure (store_client running_issue) sample_clock (7 ∷ []) sample_execution timeout []
    ≡ (
      ok failed_writes,
      issue_read 42 ∷ issue_updated 42 failed_writes ∷ clock_read ∷ issue_read 42 ∷ [],
    )
unfolding finalize_failure plan_failure plan_at_time plan_with confirmed_update plan_from write_once
    read_again examine assert_active_execution assert_issue_boundary assert_execution_identity
    assert_scalars assert_scalar scalar_of canonical_timestamp canonical_date is_rfc3339
    build_failure_writes field_writes field_write assert_finalized_execution assert_all_written
    assert_written assert_holds_written stored written_issue written_field find_unique_custom_field
    named scalar_custom_field_value decimal
failed = refl

finalize_failure_on_store_example :
    (writes : List CustomFieldWrite) × (finalize_failure
        (store_client running_issue)
        sample_clock
        (7 ∷ [])
        sample_execution
        timeout
        []
      ≡ (
        ok writes,
        failure_calls
            (store_client running_issue)
            running_issue
            sample_clock
            (7 ∷ [])
            sample_execution
            timeout
            []
            writes,
      ))
    × All
        (Holds (
          stored running_issue (
            failure_calls
              (store_client running_issue)
              running_issue
              sample_clock
              (7 ∷ [])
              sample_execution
              timeout
              []
              writes)))
        (failure_values timeout sample_end)
    × All
        (Holds (
          stored running_issue (
            failure_calls
              (store_client running_issue)
              running_issue
              sample_clock
              (7 ∷ [])
              sample_execution
              timeout
              []
              writes)))
        (execution_identity sample_execution)
unfolding stored
finalize_failure_on_store_example =
    finalize_failure_on_store (store_client running_issue) running_issue sample_clock (7 ∷ [])
      sample_execution timeout [] running_binding sample_end (store_client-IsStore running_issue)
      refl running_binding-IsBoundBy running-active timely

abbrev ended_issue : RedmineIssueRecord
ended_issue =
    stored running_issue (issue_updated 42 failed_writes ∷ clock_read ∷ issue_read 42 ∷ [])

finalize_failure_confirmed_example :
    (issue_read 42 ∷ issue_updated 42 failed_writes ∷ clock_read ∷ issue_read 42 ∷ []
      ≡ issue_read 42 ∷ issue_updated 42 failed_writes ∷ clock_read ∷ issue_read 42 ∷ [])
    × All (Holds running_issue) active_values
    × All (Holds running_issue) (execution_identity sample_execution)
    × All (Holds ended_issue) (execution_identity sample_execution)
    × All (Holds ended_issue) (failure_confirmed timeout)
unfolding stored
finalize_failure_confirmed_example =
    finalize_failure_confirmed (store_client running_issue) sample_clock (7 ∷ []) sample_execution
      timeout [] failed_writes
      (issue_read 42 ∷ issue_updated 42 failed_writes ∷ clock_read ∷ issue_read 42 ∷ [])
      running_issue ended_issue failed refl refl

abbrev rejection_writes : List CustomFieldWrite
rejection_writes =
    write_of 1 "Needs Human"
    ∷ write_of 12 sample_end
    ∷ write_of 13 "stale_requirements"
    ∷ write_of 14 "stale"
    ∷ []

abbrev unchanged : String → Result String
unchanged text = ok text

rejected-ok :
    reject
      (store_client fresh_issue)
      sample_clock
      unchanged
      (7 ∷ [])
      42
      stale_requirements
      "stale"
      []
    ≡ (
      ok rejection_writes,
      issue_read 42 ∷ issue_updated 42 rejection_writes ∷ clock_read ∷ issue_read 42 ∷ [],
    )
unfolding reject plan_at_time plan_with confirmed_update plan_from write_once read_again examine
    assert_rejectable build_rejection_writes bound_writes bind_pristine_durable_execution_fields
    bind_fields bind_field require_bound_durable_execution_field assert_rejection_read_back
    read_back_values read_back_written stored written_issue written_field find_unique_custom_field
    named scalar_custom_field_value
rejected-ok = refl

abbrev rejected_issue : RedmineIssueRecord
rejected_issue =
    stored fresh_issue (issue_updated 42 rejection_writes ∷ clock_read ∷ issue_read 42 ∷ [])

reject_confirmed_example :
    IsPristine fresh_issue
    × Holds rejected_issue (lifecycle, needs_human)
    × Holds rejected_issue (rejection_outcome, rejection_outcome_text stale_requirements)
unfolding stored
reject_confirmed_example =
    reject_confirmed (store_client fresh_issue) sample_clock unchanged (7 ∷ []) 42
      stale_requirements "stale" [] rejection_writes
      (issue_read 42 ∷ issue_updated 42 rejection_writes ∷ clock_read ∷ issue_read 42 ∷ [])
      fresh_issue rejected_issue rejected-ok refl refl

dirty : ¬ IsPristine running_issue
unfolding scalar_of find_unique_custom_field named scalar_custom_field_value
dirty (life, rest) = cc
