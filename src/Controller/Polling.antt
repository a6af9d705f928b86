-- ===== src/Controller/Polling.antt =====
-- One polling cycle and the loop around it: `AgentController` of src/controller/controller.ts.
-- The loop runs on a number of rounds: the source's ends only when its signal is aborted.
pub mod Admission
pub mod Cycle
pub mod Locked
pub mod Single
use ai_agent_runner.Base.{
  ℕ, zero, suc, String, ◌==◌, Bool, true, false, not, Option, none, some, List, [], ◌∷◌, nat_beq,
  ltb, if◌then◌else◌,
}
use ai_agent_runner.Base.Lists.{length, includes}
use ai_agent_runner.Failure.{Failure, Result, ok, err, error}
use ai_agent_runner.Exec.{Exec, ◌>>=◌, ◌>>◌, pure, throw, call}
use ai_agent_runner.World.{
  CandidateDiagnosticKind, query_predicate_mismatch, non_pristine_candidate_skipped,
  unexpected_project, candidate_state_changed, candidate_scan_exhausted,
}
use ai_agent_runner.Controller.Types.{
  ready_for_agent_lifecycle, PreExecutionRejectionOutcome, stale_requirements, eligibility_failed,
  ReadyForAgentCandidate, PostLockCandidateState, ReFetchedIssue, ValidatedHandoff,
  HandoffValidationResult, valid, invalid, RequirementsRevalidationResult, current, stale, failed,
}
use ai_agent_runner.Controller.Lock.{HeldIssues, try_acquire, release}
use ai_agent_runner.Controller.Calls.{
  ControllerCall, Calls, ControllerDependencies, record_candidate_diagnostic, reconciled,
  candidates_listed, issue_fetched, handoff_validated, requirements_revalidated, rejected, handled,
  slept,
}

pub record ControllerConfig : Type 0 where
  pub allowed_project_ids : List ℕ
  pub poll_interval_ms : ℕ

abbrev pub phase53_candidate_scan_limit : ℕ
phase53_candidate_scan_limit = 100

pub data CandidateProcessingResult : Type 0 where
  skipped consumed : CandidateProcessingResult

-- A test that the Issue fetched under the lock fails: what is recorded of it.
pub record CandidateProblem : Type 0 where
  pub kind : CandidateDiagnosticKind
  pub issue_id : ℕ
  pub reason : String

abbrev pub post_lock_state_problem :
    ReFetchedIssue → Option PostLockCandidateState → Option CandidateProblem
post_lock_state_problem issue none = none
post_lock_state_problem issue (some state) =
    if not (state.execution_lifecycle == "")
    then some (record {
      kind = candidate_state_changed;
      issue_id = issue.issue_id;
      reason = "post-lock execution lifecycle changed";
    })
    else if not state.execution_record_pristine
    then some (record {
      kind = non_pristine_candidate_skipped;
      issue_id = issue.issue_id;
      reason = "post-lock execution or rejection record is non-pristine";
    })
    else none

-- The first test of the Issue that fails, in the order of the source.
unfoldable pub candidate_problem : ReadyForAgentCandidate → ReFetchedIssue → Option CandidateProblem
candidate_problem candidate issue =
    if not (nat_beq issue.issue_id candidate.issue_id)
    then some (record {
      kind = candidate_state_changed;
      issue_id = candidate.issue_id;
      reason = "post-lock issue identity changed";
    })
    else if not (nat_beq issue.project_id candidate.project_id)
    then some (record {
      kind = unexpected_project;
      issue_id = issue.issue_id;
      reason = "post-lock issue project changed";
    })
    else if not (issue.lifecycle == ready_for_agent_lifecycle)
    then some (record {
      kind = candidate_state_changed;
      issue_id = issue.issue_id;
      reason = "post-lock brief lifecycle changed";
    })
    else post_lock_state_problem issue issue.post_lock_state

-- A computation that leaves the lock alone.
abbrev pub outside_lock :
    {A : Type 0} → HeldIssues → Result A × Calls → Result A × HeldIssues × Calls
outside_lock held (r, h) = (r, held, h)

module _ (deps : ControllerDependencies) where
  unfoldable pub skip_candidate : CandidateProblem → Exec ControllerCall CandidateProcessingResult
  skip_candidate problem = do
    record_candidate_diagnostic deps problem.kind (some problem.issue_id) problem.reason
    pure skipped

  unfoldable pub reject_candidate :
      ReFetchedIssue
      → PreExecutionRejectionOutcome
      → String
      → Exec ControllerCall CandidateProcessingResult
  reject_candidate issue outcome diagnostic = do
    call (rejected issue.issue_id outcome diagnostic)
        (λ h. deps.on_reject h issue.issue_id outcome diagnostic)
    pure consumed

  unfoldable pub execute_candidate :
      ReFetchedIssue → ValidatedHandoff → String → Exec ControllerCall CandidateProcessingResult
  execute_candidate issue handoff fingerprint = do
    call (handled issue handoff fingerprint) (λ h. deps.on_handle h issue handoff fingerprint)
    pure consumed

  abbrev pub stale_diagnostic : Option String → String
  stale_diagnostic none = "current requirements fingerprint does not match approved fingerprint"
  stale_diagnostic (some diagnostic) = diagnostic

  -- The switch on the revalidation's answer.
  unfoldable pub settle_candidate :
      ReFetchedIssue
      → ValidatedHandoff
      → RequirementsRevalidationResult
      → Exec ControllerCall CandidateProcessingResult
  settle_candidate issue handoff (current fingerprint) = execute_candidate issue handoff fingerprint
  settle_candidate issue handoff (stale fingerprint approved diagnostic) =
      reject_candidate issue stale_requirements (stale_diagnostic diagnostic)
  settle_candidate issue handoff (failed diagnostic) =
      reject_candidate issue eligibility_failed diagnostic

  unfoldable pub revalidate_candidate :
      ReFetchedIssue → HandoffValidationResult → Exec ControllerCall CandidateProcessingResult
  revalidate_candidate issue (invalid diagnostic) =
      reject_candidate issue eligibility_failed diagnostic
  revalidate_candidate issue (valid handoff) = do
    result ← call (requirements_revalidated issue handoff) (λ h. deps.on_revalidate h issue handoff)
    settle_candidate issue handoff result

  unfoldable pub examine_candidate :
      ReFetchedIssue → Option CandidateProblem → Exec ControllerCall CandidateProcessingResult
  examine_candidate issue (some problem) = skip_candidate problem
  examine_candidate issue none = do
    result ← call (handoff_validated issue) (λ h. deps.on_validate h issue)
    revalidate_candidate issue result

  -- The body of the `try` block.
  unfoldable pub process_locked :
      ReadyForAgentCandidate → Exec ControllerCall CandidateProcessingResult
  process_locked candidate = do
    issue ← call (issue_fetched candidate.issue_id) (λ h. deps.on_issue h candidate.issue_id)
    examine_candidate issue (candidate_problem candidate issue)

  -- The `finally` block: the lock is released whatever the body did.
  abbrev unlocked :
      {A : Type 0}
      → Result A
      → HeldIssues
      → Calls
      → Result HeldIssues
      → Result A × HeldIssues × Calls
  unlocked r held h (ok rest) = (r, rest, h)
  unlocked r held h (err e) = (err e, held, h)

  unfoldable pub unlock :
      {A : Type 0} → ℕ → HeldIssues → Result A × Calls → Result A × HeldIssues × Calls
  unlock issue_id held (r, h) = unlocked r held h (release issue_id held)

  unfoldable pub process_acquired :
      ReadyForAgentCandidate
      → HeldIssues
      → Calls
      → Result (Bool × HeldIssues)
      → Result CandidateProcessingResult × HeldIssues × Calls
  process_acquired candidate held h (err e) = (err e, held, h)
  process_acquired candidate held h (ok (false, now)) = (ok skipped, now, h)
  process_acquired candidate held h (ok (true, now)) =
      unlock candidate.issue_id now (process_locked candidate h)

  -- `#processCandidate`.
  unfoldable pub process_candidate :
      ReadyForAgentCandidate
      → HeldIssues
      → Calls
      → Result CandidateProcessingResult × HeldIssues × Calls
  process_candidate candidate held h =
      process_acquired candidate held h (try_acquire candidate.issue_id held)

  unfoldable pub refuse_candidate :
      Option ℕ → String → Exec ControllerCall CandidateProcessingResult
  refuse_candidate issue_id message = do
    record_candidate_diagnostic deps query_predicate_mismatch issue_id
        "candidate list item did not satisfy the requested project and lifecycle predicate"
    throw (error message)

  unfoldable pub exhausted_scan : Exec ControllerCall CandidateProcessingResult
  exhausted_scan = do
    record_candidate_diagnostic deps candidate_scan_exhausted none
        "candidate scan bound reached without an executable candidate"
    throw (error "candidate polling stopped: candidate scan exhausted")

  module _ (config : ControllerConfig) where
    unfoldable pub scan_on :
        (HeldIssues → Calls → Result CandidateProcessingResult × HeldIssues × Calls)
        → Result CandidateProcessingResult × HeldIssues × Calls
        → Result CandidateProcessingResult × HeldIssues × Calls
    scan_on rest (ok skipped, held, h) = rest held h
    scan_on rest (ok consumed, held, h) = (ok consumed, held, h)
    scan_on rest (err e, held, h) = (err e, held, h)

    -- The loop over the candidates, which ends at the first one that is consumed.
    unfoldable pub scan_candidates :
        List ReadyForAgentCandidate
        → HeldIssues
        → Calls
        → Result CandidateProcessingResult × HeldIssues × Calls
    scan_candidates [] held h = (ok skipped, held, h)
    scan_candidates (candidate ∷ candidates) held h =
        let rest = scan_candidates candidates in
        if includes config.allowed_project_ids candidate.project_id
        then scan_on rest (process_candidate candidate held h)
        else outside_lock held (
            refuse_candidate (some candidate.issue_id)
              "candidate polling stopped: query predicate mismatch" h)

    -- What follows the loop when no candidate was consumed.
    unfoldable pub after_scan :
        List ReadyForAgentCandidate
        → Result CandidateProcessingResult × HeldIssues × Calls
        → Result CandidateProcessingResult × HeldIssues × Calls
    after_scan candidates (ok skipped, held, h) =
        if nat_beq (length candidates) phase53_candidate_scan_limit
        then outside_lock held (exhausted_scan h)
        else (ok skipped, held, h)
    after_scan candidates (ok consumed, held, h) = (ok consumed, held, h)
    after_scan candidates (err e, held, h) = (err e, held, h)

    unfoldable pub poll_candidates :
        HeldIssues
        → Calls
        → Result (List ReadyForAgentCandidate)
        → Result CandidateProcessingResult × HeldIssues × Calls
    poll_candidates held h (err e) = (err e, held, h)
    poll_candidates held h (ok candidates) =
        if ltb phase53_candidate_scan_limit (length candidates)
        then outside_lock held (
            refuse_candidate none "candidate polling stopped: candidate source exceeded scan bound"
              h)
        else after_scan candidates (scan_candidates candidates held h)

    -- `runOnce`, which says whether a candidate was consumed in place of nothing.
    unfoldable pub run_once :
        HeldIssues → Calls → Result CandidateProcessingResult × HeldIssues × Calls
    run_once held h =
        let ids = config.allowed_project_ids in
        poll_candidates held
          (candidates_listed ids ready_for_agent_lifecycle phase53_candidate_scan_limit ∷ h)
          (deps.on_list h ids ready_for_agent_lifecycle phase53_candidate_scan_limit)
