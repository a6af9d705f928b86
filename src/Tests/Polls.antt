-- ===== src/Tests/Polls.antt =====
-- Polling cycles at concrete inputs.
use ai_agent_runner.Base.{◌≡◌, refl, ◌↔◌, true, false, none, List, [], ◌∷◌}
use ai_agent_runner.Failure.{ok}
use ai_agent_runner.Controller.Types.{
  ready_for_agent_lifecycle, ReadyForAgentCandidate, valid, current,
}
use ai_agent_runner.Controller.Lock.{
  try_acquire, release, release-try_acquire, assert_positive_issue_id,
}
use ai_agent_runner.Controller.Calls.{Calls, ControllerDependencies, candidates_listed}
use ai_agent_runner.Controller.Polling.{
  ControllerConfig, candidate_problem, process_locked, run_once,
}
use ai_agent_runner.Controller.Polling.Locked.{Processes, process_locked-Processes}
use ai_agent_runner.Controller.Polling.Admission.{IsSameCandidate, candidate_problem-eq-none_iff}
use ai_agent_runner.Controller.Polling.Cycle.{run_once-held}
use ai_agent_runner.Controller.Polling.Single.{Advances, run_once-Advances}
use ai_agent_runner.Controller.Run.{run}
use ai_agent_runner.Controller.Run.Rounds.{Runs, run-Runs}
use ai_agent_runner.Base.{some, ◌≤◌, nat_beq, if◌then◌else◌, arith}
use ai_agent_runner.Base.Lists.{length}
use ai_agent_runner.Redmine.Adapters.{assert_query, checked_matches}
use ai_agent_runner.Redmine.Adapters.CandidateSource.{
  SourcePorts, matches_listed, RespectsLimit, accept_matches, list_project, list_projects,
  list_ready_for_agent_candidates, list_ready-length,
}
use ai_agent_runner.Tests.Sample.{sample_fetched, sample_handoff, sample_fingerprint}

abbrev sample_candidate : ReadyForAgentCandidate
sample_candidate = record { issue_id = 42; project_id = 7 }

abbrev sample_candidates : List ReadyForAgentCandidate
sample_candidates = record { issue_id = 41; project_id = 7 } ∷ sample_candidate ∷ []

abbrev sample_config : ControllerConfig
sample_config = record { allowed_project_ids = 7 ∷ []; poll_interval_ms = 1000 }

-- Every Issue is read as the Issue 42, which is executable.
abbrev sample_deps : ControllerDependencies
sample_deps = record {
  on_reconcile = λ h. ok tt;
  on_list = λ h ids lifecycle limit. ok sample_candidates;
  on_issue = λ h id. ok sample_fetched;
  on_diagnostic = λ h kind id reason. ok tt;
  on_validate = λ h issue. ok (valid sample_handoff);
  on_revalidate = λ h issue handoff. ok (current sample_fingerprint);
  on_reject = λ h id outcome diagnostic. ok tt;
  on_handle = λ h issue handoff fingerprint. ok tt;
  on_sleep = λ h ms. ok tt;
  is_aborted = λ h. false;
}

abbrev listed : Calls
listed = candidates_listed (7 ∷ []) ready_for_agent_lifecycle 100 ∷ []

run_once-Advances_example :
    (let t = run_once sample_deps sample_config [] [] in
      Advances sample_deps sample_config sample_candidates listed t.0 t.2)
run_once-Advances_example = run_once-Advances sample_deps sample_config [] [] sample_candidates refl

run_once-held_example : (run_once sample_deps sample_config (3 ∷ []) []).1 ≡ 3 ∷ []
run_once-held_example = run_once-held sample_deps sample_config (3 ∷ []) []

candidate_problem-eq-none_iff_example :
    (candidate_problem sample_candidate sample_fetched ≡ none)
    ↔ IsSameCandidate sample_candidate sample_fetched
candidate_problem-eq-none_iff_example =
    candidate_problem-eq-none_iff sample_candidate sample_fetched

taken : try_acquire 42 (3 ∷ []) ≡ ok (true, 42 ∷ 3 ∷ [])
unfolding try_acquire assert_positive_issue_id
taken = refl

release-try_acquire_example : release 42 (42 ∷ 3 ∷ []) ≡ ok (3 ∷ [])
release-try_acquire_example = release-try_acquire 42 (3 ∷ []) (42 ∷ 3 ∷ []) taken

abbrev one_match : SourcePorts
one_match = record {
  on_matches = λ h project_id limit. ok (
      if nat_beq limit 0
      then []
      else record {
        id = 42;
        project_id = project_id;
        brief_lifecycle = some ready_for_agent_lifecycle;
        execution_lifecycle = some "";
      }
        ∷ []);
  on_record = λ h id. ok tt;
}

one_match-RespectsLimit : RespectsLimit one_match
one_match-RespectsLimit g project_id limit items h = ground arith

abbrev matched : List ReadyForAgentCandidate
matched = record { issue_id = 42; project_id = 7 } ∷ record { issue_id = 42; project_id = 8 } ∷ []

matched-ok :
    list_ready_for_agent_candidates one_match (7 ∷ 8 ∷ []) ready_for_agent_lifecycle 100 []
    ≡ (ok matched, matches_listed 8 99 ∷ matches_listed 7 100 ∷ [])
unfolding list_ready_for_agent_candidates assert_query list_projects list_project accept_matches
    checked_matches
matched-ok = refl

list_ready-length_example : length matched ≤ 100
list_ready-length_example =
    list_ready-length one_match one_match-RespectsLimit ready_for_agent_lifecycle (7 ∷ 8 ∷ []) 100
      [] (matches_listed 8 99 ∷ matches_listed 7 100 ∷ []) matched matched-ok

process_locked-Processes_example :
    Processes sample_deps sample_candidate []
      (process_locked sample_deps sample_candidate []).0
      (process_locked sample_deps sample_candidate []).1
process_locked-Processes_example = process_locked-Processes sample_deps sample_candidate []

run-Runs_example :
    (let t = run sample_deps sample_config 2 (3 ∷ []) [] in
      Runs sample_deps sample_config 2 (3 ∷ []) [] t.0 t.1 t.2)
run-Runs_example = run-Runs sample_deps sample_config 2 (3 ∷ []) []
