-- ===== src/Recovery/Startup.antt =====
-- Reconciliation at startup: `Phase48_6StartupReconciler` of src/recovery/startup-reconciler.ts.
pub mod Confirmed
use Prim.Native.String
use ai_agent_runner.Base.{
  ℕ, String, ◌||◌, Bool, true, false, Option, none, some, List, [], ◌∷◌, ◌++◌, map, ltb,
  if◌then◌else◌,
}
use ai_agent_runner.Base.Lists.{includes}
use ai_agent_runner.Base.Text.Decimal.{decimal}
use ai_agent_runner.Failure.{
  Failure, Result, ok, err, error, aggregate_error, query_predicate_mismatch_error, message_of,
}
use ai_agent_runner.Exec.{Exec, ◌>>=◌, ◌>>◌, pure, throw, call, catching}
use ai_agent_runner.World.{
  RecoveryDiagnosticKind, cleanup_failure, orphan_resource, query_mismatch, reconciliation_failure,
  interrupted_execution,
}
use ai_agent_runner.Recovery.Calls.{
  AgentRunningExecutionCandidate, OrphanCleanupSummary, RecoveryCall, RecoveryCalls, RecoveryPorts,
  cleaned, running_listed, finalization_requested, recorded,
}

-- `errorMessage`.
abbrev message_or : Option String → String
message_or none = "unknown recovery failure"
message_or (some m) = m

unfoldable pub error_message : Failure → String
error_message e = message_or (message_of e)

abbrev or_suppressed : Result String → String
or_suppressed (ok text) = text
or_suppressed (err e) = "recovery diagnostic redaction failed; raw content suppressed"

abbrev text_after : String → String → String
text_after = String.◌++◌

module _ (ports : RecoveryPorts) where
  unfoldable pub safe_redact : String → String
  safe_redact raw = or_suppressed (ports.redact raw)

  unfoldable pub record_diagnostic :
      RecoveryDiagnosticKind → Option ℕ → String → Exec RecoveryCall (Unit {0})
  record_diagnostic kind issue_id message =
      catching
        (call (recorded kind issue_id message) (λ h. ports.on_record h kind issue_id message))
        (λ _. throw (error "recovery diagnostic sink failed after redaction boundary"))

  -- `#report`.
  unfoldable pub report : RecoveryDiagnosticKind → String → Option ℕ → Exec RecoveryCall (Unit {0})
  report kind raw issue_id = record_diagnostic kind issue_id (safe_redact raw)

  unfoldable pub report_orphans : OrphanCleanupSummary → Exec RecoveryCall (Unit {0})
  report_orphans summary =
      if ltb 0 summary.removed_sandbox_containers || ltb 0 summary.removed_workspaces
      then report orphan_resource
          (text_after "removed transient orphan resources: containers=" (
            text_after (decimal summary.removed_sandbox_containers)
              (text_after " workspaces=" (decimal summary.removed_workspaces))))
          none
      else pure tt

  unfoldable pub clean_up : Exec RecoveryCall (Unit {0})
  clean_up = do summary ← call cleaned ports.on_cleanup; report_orphans summary

  unfoldable pub cleanup_failed : Failure → Exec RecoveryCall (Unit {0})
  cleanup_failed e = do
    report cleanup_failure (safe_redact (error_message e)) none
    throw (error (text_after "startup recovery cleanup failed: " (safe_redact (error_message e))))

  -- Whether the failure of the query is its predicate mismatch, and of which Issue.
  abbrev query_kind : Failure → RecoveryDiagnosticKind
  query_kind (query_predicate_mismatch_error m id) = query_mismatch
  query_kind _ = reconciliation_failure

  abbrev query_issue : Failure → Option ℕ
  query_issue (query_predicate_mismatch_error m id) = id
  query_issue _ = none

  unfoldable pub query_failed : Failure → Exec RecoveryCall (List AgentRunningExecutionCandidate)
  query_failed e = do
    report (query_kind e) (safe_redact (error_message e)) (query_issue e)
    throw (
        error (
          text_after "startup recovery Agent Running query failed: "
            (safe_redact (error_message e))))

  unfoldable pub list_candidates_fail_closed :
      Exec RecoveryCall (List AgentRunningExecutionCandidate)
  list_candidates_fail_closed = catching (call running_listed ports.on_list) query_failed

  unfoldable pub finalize_candidate : ℕ → Exec RecoveryCall (List String)
  finalize_candidate issue_id = do
    call (finalization_requested issue_id) (λ h. ports.on_finalize h issue_id)
    report interrupted_execution
        (text_after "Agent Running execution finalized as interrupted for issue "
          (decimal issue_id))
        (some issue_id)
    pure []

  unfoldable pub finalization_failed : ℕ → Failure → Exec RecoveryCall (List String)
  finalization_failed issue_id e = do
    report reconciliation_failure (safe_redact (error_message e)) (some issue_id)
    pure (
        text_after "interrupted reconciliation remains unconfirmed for issue "
          (text_after (decimal issue_id) (text_after ": " (safe_redact (error_message e))))
        ∷ [])

  -- One candidate that was not seen before: the messages of its failures.
  unfoldable pub reconcile_candidate : ℕ → Exec RecoveryCall (List String)
  reconcile_candidate issue_id =
      catching (finalize_candidate issue_id) (finalization_failed issue_id)

  abbrev duplicate_message : ℕ → String
  duplicate_message issue_id =
      text_after "duplicate Agent Running issue in reconciliation source: " (decimal issue_id)

  unfoldable pub duplicate_candidate : ℕ → Exec RecoveryCall (List String)
  duplicate_candidate issue_id = do
    report reconciliation_failure (duplicate_message issue_id) (some issue_id)
    pure (duplicate_message issue_id ∷ [])

  abbrev and_then :
      List String
      → (List ℕ → Exec RecoveryCall (List String))
      → List ℕ
      → Exec RecoveryCall (List String)
  and_then failures rest seen = do more ← rest seen; pure (failures ++ more)

  -- One round of the loop, with what `seen` holds.
  unfoldable pub reconcile_next :
      (List ℕ → Exec RecoveryCall (List String)) → ℕ → List ℕ → Exec RecoveryCall (List String)
  reconcile_next rest issue_id seen =
      if includes seen issue_id
      then (duplicate_candidate issue_id >>= λ failures. and_then failures rest seen)
      else (reconcile_candidate issue_id >>= λ failures. and_then failures rest (issue_id ∷ seen))

  -- The loop over the candidates: the messages of all failures.
  unfoldable pub reconcile_each : List ℕ → List ℕ → Exec RecoveryCall (List String)
  reconcile_each [] seen = pure []
  reconcile_each (issue_id ∷ issue_ids) seen =
      reconcile_next (reconcile_each issue_ids) issue_id seen

  unfoldable pub conclude : List String → Exec RecoveryCall (Unit {0})
  conclude [] = pure tt
  conclude (failure ∷ failures) = throw (
      aggregate_error (failure ∷ failures)
        "startup reconciliation did not confirm every Agent Running execution")

  abbrev pub issue_ids_of : List AgentRunningExecutionCandidate → List ℕ
  issue_ids_of = map (λ (c : AgentRunningExecutionCandidate). c.issue_id)

  unfoldable pub reconcile_listed :
      List AgentRunningExecutionCandidate → Exec RecoveryCall (Unit {0})
  reconcile_listed candidates = do
    failures ← reconcile_each (issue_ids_of candidates) []
    conclude failures

  unfoldable pub reconcile_running : Unit {0} → Exec RecoveryCall (Unit {0})
  reconcile_running done = do candidates ← list_candidates_fail_closed; reconcile_listed candidates

  unfoldable pub reconcile : Exec RecoveryCall (Unit {0})
  reconcile = do done ← catching clean_up cleanup_failed; reconcile_running done
