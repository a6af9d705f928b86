-- ===== src/Tests/Restarts.antt =====
-- Restarts at concrete inputs.
use ai_agent_runner.Base.{ℕ, ◌≡◌, refl, true, some, List, [], ◌∷◌, arith}
use ai_agent_runner.Base.Lists.{All, includes, distinct}
use ai_agent_runner.Base.Text.{is_uuid_v4, is_fingerprint, is_git_oid, is_rfc3339, is_blank}
use ai_agent_runner.Base.Text.Decimal.{decimal}
use ai_agent_runner.Failure.{Result, ok, err, s3_operation_error, not_found}
use ai_agent_runner.World.{interrupted_execution}
use ai_agent_runner.Redmine.Domain.{
  find_unique_custom_field, named, scalar_custom_field_value, scalar_of,
}
use ai_agent_runner.Redmine.Guard.{
  Binding, bind_fields, field_ids, bind_pristine_durable_execution_fields,
}
use ai_agent_runner.Redmine.FieldNames.{durable_execution_field_names}
use ai_agent_runner.Redmine.Scalars.{Holds}
use ai_agent_runner.Redmine.StartWriter.{start_values}
use ai_agent_runner.Redmine.Adapters.{every_field_empty, is_execution_record_pristine}
use ai_agent_runner.Redmine.Adapters.Laws.{pristine-bind_pristine}
use ai_agent_runner.Recovery.Calls.{
  RecoveryCalls, RecoveryPorts, AgentRunningExecutionCandidate, OrphanCleanupSummary, cleaned,
  running_listed, finalization_requested, recorded,
}
use ai_agent_runner.Recovery.Source.{
  ListedIssue, checked_running, list_agent_running, list_agent_running-project,
}
use ai_agent_runner.Recovery.Startup.{
  reconcile, reconcile_running, reconcile_listed, reconcile_each, reconcile_next,
  reconcile_candidate, finalize_candidate, report, record_diagnostic, safe_redact, report_orphans,
  clean_up, conclude, list_candidates_fail_closed, issue_ids_of,
}
use ai_agent_runner.Recovery.Startup.Confirmed.{Unseen, IsFinalizedIssue, reconcile_confirmed}
use ai_agent_runner.Recovery.Artifacts.{
  ArtifactPorts, finalize_interrupted, read_agent_running_identity,
}
use ai_agent_runner.Recovery.Artifacts.Settled.{Settles, finalize_interrupted-Settles}
use ai_agent_runner.Recovery.Artifacts.Identity.{
  IsWellFormed, artifact_identity, read_identity-start_values,
}
use ai_agent_runner.Tests.Sample.{fresh_issue, running_issue, sample_execution}

abbrev sample_ports : RecoveryPorts
sample_ports = record {
  on_cleanup = λ h. ok (record { removed_sandbox_containers = 0; removed_workspaces = 0 });
  on_list = λ h. ok (record { issue_id = 42; project_id = 7 } ∷ []);
  on_finalize = λ h id. ok tt;
  on_record = λ h kind id message. ok tt;
  redact = λ text. ok text;
}

abbrev reconciled_calls : RecoveryCalls
reconciled_calls =
    recorded interrupted_execution (some 42)
      "Agent Running execution finalized as interrupted for issue 42"
    ∷ finalization_requested 42
    ∷ running_listed
    ∷ cleaned
    ∷ []

reconciled-ok : reconcile sample_ports [] ≡ (ok tt, reconciled_calls)
unfolding reconcile reconcile_running reconcile_listed reconcile_each reconcile_next
    reconcile_candidate finalize_candidate report record_diagnostic safe_redact report_orphans
    clean_up conclude list_candidates_fail_closed decimal
reconciled-ok = refl

reconcile_confirmed_example :
    (summary : OrphanCleanupSummary) × (g : RecoveryCalls) × (candidates : List
      AgentRunningExecutionCandidate)
    × (sample_ports.on_cleanup [] ≡ ok summary)
    × (sample_ports.on_list g ≡ ok candidates)
    × Unseen (issue_ids_of sample_ports candidates) []
    × All (IsFinalizedIssue sample_ports) (issue_ids_of sample_ports candidates)
reconcile_confirmed_example = reconcile_confirmed sample_ports [] reconciled_calls reconciled-ok

abbrev sample_artifact_ports : ArtifactPorts
sample_artifact_ports = record {
  on_issue = λ h id. ok running_issue;
  on_recover = λ h identity. err (s3_operation_error not_found "absent");
  on_absence = λ h id. ok tt;
  on_success = λ h recovered. ok tt;
}

finalize_interrupted-Settles_example :
    (let s = finalize_interrupted sample_artifact_ports (7 ∷ []) 42 [] in
      Settles sample_artifact_ports (7 ∷ []) 42 [] s.0 s.1)
finalize_interrupted-Settles_example =
    finalize_interrupted-Settles sample_artifact_ports (7 ∷ []) 42 []

sample-IsWellFormed : IsWellFormed sample_execution
unfolding is_uuid_v4 is_fingerprint is_git_oid is_rfc3339 is_blank
sample-IsWellFormed = record {
  id_form = refl;
  revision_positive = omega arith;
  revision_safe = omega arith;
  persisted_form = refl;
  fingerprint_form = refl;
  repository_form = refl;
  source_form = refl;
  time_form = refl;
}

sample-Holds : All (Holds running_issue) (start_values sample_execution)
unfolding scalar_of find_unique_custom_field named scalar_custom_field_value decimal
sample-Holds = (
  refl,
  (
    refl,
    (
      refl,
      (refl, (refl, (refl, (refl, (refl, (refl, (refl, (refl, (refl, (refl, (refl, tt))))))))))),
    ),
  ),
)

read_identity-start_values_example :
    read_agent_running_identity running_issue 42 (7 ∷ []) ≡ ok (artifact_identity sample_execution)
read_identity-start_values_example =
    read_identity-start_values running_issue sample_execution (7 ∷ []) refl refl sample-IsWellFormed
      sample-Holds

fresh-pristine : is_execution_record_pristine fresh_issue ≡ ok true
unfolding is_execution_record_pristine every_field_empty scalar_of find_unique_custom_field named
    scalar_custom_field_value
fresh-pristine = refl

pristine-bind_pristine_example :
    (fields : Binding) × (bind_fields fresh_issue durable_execution_field_names ≡ ok fields)
    × (distinct (field_ids fields) ≡ true
        → bind_pristine_durable_execution_fields fresh_issue ≡ ok fields)
pristine-bind_pristine_example = pristine-bind_pristine fresh_issue fresh-pristine

abbrev listed_running : ℕ → Result (List ListedIssue)
listed_running project_id =
    ok (record { id = 42; project_id = project_id; custom_field_value = some "Agent Running" } ∷ [])

listed-ok :
    list_agent_running listed_running (7 ∷ []) ≡ ok (record { issue_id = 42; project_id = 7 } ∷ [])
unfolding list_agent_running checked_running
listed-ok = refl

list_agent_running-project_example :
    All
      (λ (c : AgentRunningExecutionCandidate). includes (7 ∷ []) c.project_id ≡ true)
      (record { issue_id = 42; project_id = 7 } ∷ [])
list_agent_running-project_example =
    list_agent_running-project listed_running (λ id. includes (7 ∷ []) id ≡ true) (7 ∷ [])
      (record { issue_id = 42; project_id = 7 } ∷ []) (refl, tt) listed-ok
