-- ===== src/Controller/Polling/Admission.antt =====
-- Which candidates cross into a rejection or an execution, and with what.
use ai_agent_runner.Base.{
  ℕ, String, ◌≡◌, ◌≢◌, ◌↔◌, refl, eq_iff, true, Option, none, some, ◌∷◌, arith, inl, inr,
  nat_beq_iff,
}
use ai_agent_runner.Failure.{Result, ok, Result-cases}
use ai_agent_runner.Controller.Types.{
  ready_for_agent_lifecycle, PreExecutionRejectionOutcome, stale_requirements, eligibility_failed,
  ReadyForAgentCandidate, PostLockCandidateState, ReFetchedIssue, ValidatedHandoff, valid, invalid,
  RequirementsRevalidationResult, current, stale, failed,
}
use ai_agent_runner.Controller.Calls.{
  Calls, ControllerDependencies, record_candidate_diagnostic, crossings, issue_fetched,
  handoff_validated, requirements_revalidated, rejected, handled,
}
use ai_agent_runner.Controller.Polling.{
  CandidateProcessingResult, skipped, consumed, CandidateProblem, candidate_problem,
  post_lock_state_problem, skip_candidate, reject_candidate, execute_candidate, stale_diagnostic,
  settle_candidate, revalidate_candidate, examine_candidate, process_locked,
}

-- The state under the lock, where the reader gives one, is fresh.
abbrev pub IsFresh : Option PostLockCandidateState → Type 0
IsFresh none = Unit
IsFresh (some state) = (state.execution_lifecycle ≡ "") × (state.execution_record_pristine ≡ true)

-- The Issue that was fetched is still the candidate that was listed, and untouched.
pub record IsSameCandidate (candidate : ReadyForAgentCandidate) (issue : ReFetchedIssue)
    : Type 0 where
  pub same_issue : issue.issue_id ≡ candidate.issue_id
  pub same_project : issue.project_id ≡ candidate.project_id
  pub ready : issue.lifecycle ≡ ready_for_agent_lifecycle
  pub fresh : IsFresh issue.post_lock_state

post_lock_state_problem-IsFresh :
    (issue : ReFetchedIssue) (state : Option PostLockCandidateState)
    → post_lock_state_problem issue state ≡ none
    → IsFresh state
post_lock_state_problem-IsFresh issue none h = tt
post_lock_state_problem-IsFresh issue (some state) h =
    (ground (arith, eq_iff state.execution_lifecycle ""), ground arith)

post_lock_state_problem-eq-none :
    (issue : ReFetchedIssue) (state : Option PostLockCandidateState)
    → IsFresh state
    → post_lock_state_problem issue state ≡ none
post_lock_state_problem-eq-none issue none h = refl
post_lock_state_problem-eq-none issue (some state) (fresh, pristine) =
    rw ((eq_iff state.execution_lifecycle "").1 fresh, pristine)

-- The tests on an Issue fetched under the lock pass exactly when it has the id and the project of
-- the candidate, the brief lifecycle `Ready for Agent`, and, where the reader gives the state under
-- the lock, an empty execution lifecycle and a pristine record.
pub candidate_problem-eq-none_iff :
    (candidate : ReadyForAgentCandidate) (issue : ReFetchedIssue)
    → (candidate_problem candidate issue ≡ none) ↔ IsSameCandidate candidate issue
unfolding candidate_problem
candidate_problem-eq-none_iff candidate issue = (
  λ h. record {
    same_issue = ground (arith, nat_beq_iff issue.issue_id candidate.issue_id);
    same_project = ground (arith, nat_beq_iff issue.project_id candidate.project_id);
    ready = ground (arith, eq_iff issue.lifecycle ready_for_agent_lifecycle);
    fresh = post_lock_state_problem-IsFresh issue issue.post_lock_state (ground arith);
  },
  λ s.
      rw
        (
          (nat_beq_iff issue.issue_id candidate.issue_id).1 s.same_issue,
          (nat_beq_iff issue.project_id candidate.project_id).1 s.same_project,
          (eq_iff issue.lifecycle ready_for_agent_lifecycle).1 s.ready,
        )
        (post_lock_state_problem-eq-none issue issue.post_lock_state s.fresh),
)

module _ (deps : ControllerDependencies) where
  executed-crossings :
      (issue : ReFetchedIssue) (handoff : ValidatedHandoff) (fingerprint : String) (h : Calls)
      → crossings (execute_candidate deps issue handoff fingerprint h).1
        ≡ handled issue handoff fingerprint ∷ crossings h
  unfolding execute_candidate crossings
  executed-crossings issue handoff fingerprint h = ground arith

  executed-≢-skipped :
      (issue : ReFetchedIssue) (handoff : ValidatedHandoff) (fingerprint : String) (h : Calls)
      → (execute_candidate deps issue handoff fingerprint h).0 ≢ ok skipped
  unfolding execute_candidate
  executed-≢-skipped issue handoff fingerprint h = ground arith

  rejected-crossings :
      (issue : ReFetchedIssue) (reason : PreExecutionRejectionOutcome) (diagnostic : String)
      (h : Calls) (id : ℕ)
      → issue.issue_id ≡ id
      → crossings (reject_candidate deps issue reason diagnostic h).1
        ≡ rejected id reason diagnostic ∷ crossings h
  unfolding reject_candidate crossings
  rejected-crossings issue reason diagnostic h id same = ground arith

  rejected-≢-skipped :
      (issue : ReFetchedIssue) (reason : PreExecutionRejectionOutcome) (diagnostic : String)
      (h : Calls)
      → (reject_candidate deps issue reason diagnostic h).0 ≢ ok skipped
  unfolding reject_candidate
  rejected-≢-skipped issue reason diagnostic h = ground arith

  skipped-crossings :
      (problem : CandidateProblem) (h : Calls)
      → crossings (skip_candidate deps problem h).1 ≡ crossings h
  unfolding skip_candidate record_candidate_diagnostic crossings
  skipped-crossings problem h = ground arith

  skipped-≢-consumed :
      (problem : CandidateProblem) (h : Calls) → (skip_candidate deps problem h).0 ≢ ok consumed
  unfolding skip_candidate record_candidate_diagnostic
  skipped-≢-consumed problem h = ground arith

module _ (deps : ControllerDependencies) (candidate : ReadyForAgentCandidate) (h : Calls) where
  -- The answers that take a candidate to an execution.
  pub record IsAdmitted (issue : ReFetchedIssue) (handoff : ValidatedHandoff) (fingerprint : String)
      : Type 0 where
    pub fetched : deps.on_issue h candidate.issue_id ≡ ok issue
    pub same : IsSameCandidate candidate issue
    pub validated :
        deps.on_validate (issue_fetched candidate.issue_id ∷ h) issue ≡ ok (valid handoff)
    pub revalidated :
        deps.on_revalidate
          (handoff_validated issue ∷ issue_fetched candidate.issue_id ∷ h)
          issue
          handoff
        ≡ ok (current fingerprint)

  -- The answers that take a candidate to a rejection with that outcome and diagnostic.
  pub data IsTurnedDown (issue : ReFetchedIssue)
      : PreExecutionRejectionOutcome → String → Type 0 where
    not_valid :
        {diagnostic : String}
        → deps.on_validate (issue_fetched candidate.issue_id ∷ h) issue ≡ ok (invalid diagnostic)
        → IsTurnedDown issue eligibility_failed diagnostic
    is_stale :
        {handoff : ValidatedHandoff} {fingerprint approved : String} {diagnostic : Option String}
        → deps.on_validate (issue_fetched candidate.issue_id ∷ h) issue ≡ ok (valid handoff)
        → deps.on_revalidate
            (handoff_validated issue ∷ issue_fetched candidate.issue_id ∷ h)
            issue
            handoff
          ≡ ok (stale fingerprint approved diagnostic)
        → IsTurnedDown issue stale_requirements (stale_diagnostic deps diagnostic)
    not_revalidated :
        {handoff : ValidatedHandoff} {diagnostic : String}
        → deps.on_validate (issue_fetched candidate.issue_id ∷ h) issue ≡ ok (valid handoff)
        → deps.on_revalidate
            (handoff_validated issue ∷ issue_fetched candidate.issue_id ∷ h)
            issue
            handoff
          ≡ ok (failed diagnostic)
        → IsTurnedDown issue eligibility_failed diagnostic

  -- What a candidate leads to: nothing beyond reads and diagnostics, one execution, or one rejection.
  pub data Crosses (r : Result CandidateProcessingResult) (h' : Calls) : Type 0 where
    stays : crossings h' ≡ crossings h → r ≢ ok consumed → Crosses r h'
    executes :
        (issue : ReFetchedIssue) (handoff : ValidatedHandoff) (fingerprint : String)
        → IsAdmitted issue handoff fingerprint
        → crossings h' ≡ handled issue handoff fingerprint ∷ crossings h
        → r ≢ ok skipped
        → Crosses r h'
    rejects :
        (issue : ReFetchedIssue) (reason : PreExecutionRejectionOutcome) (diagnostic : String)
        → deps.on_issue h candidate.issue_id ≡ ok issue
        → IsSameCandidate candidate issue
        → IsTurnedDown issue reason diagnostic
        → crossings h' ≡ rejected candidate.issue_id reason diagnostic ∷ crossings h
        → r ≢ ok skipped
        → Crosses r h'

  abbrev before_settling : ReFetchedIssue → ValidatedHandoff → Calls
  before_settling issue handoff =
      requirements_revalidated issue handoff
      ∷ handoff_validated issue
      ∷ issue_fetched candidate.issue_id
      ∷ h

  settled-Crosses :
      (issue : ReFetchedIssue) (handoff : ValidatedHandoff)
      (answer : RequirementsRevalidationResult)
      → deps.on_issue h candidate.issue_id ≡ ok issue
      → IsSameCandidate candidate issue
      → deps.on_validate (issue_fetched candidate.issue_id ∷ h) issue ≡ ok (valid handoff)
      → deps.on_revalidate
          (handoff_validated issue ∷ issue_fetched candidate.issue_id ∷ h)
          issue
          handoff
        ≡ ok answer
      → (let s = settle_candidate deps issue handoff answer (before_settling issue handoff) in
          Crosses s.0 s.1)
  unfolding settle_candidate crossings
  settled-Crosses issue handoff (current fingerprint) f s v a =
      executes issue handoff fingerprint
        (record { fetched = f; same = s; validated = v; revalidated = a })
        (executed-crossings deps issue handoff fingerprint _)
        (executed-≢-skipped deps issue handoff fingerprint _)
  settled-Crosses issue handoff (stale fingerprint approved diagnostic) f s v a =
      rejects issue stale_requirements (stale_diagnostic deps diagnostic) f s (is_stale v a)
        (rejected-crossings deps issue stale_requirements (stale_diagnostic deps diagnostic)
          (before_settling issue handoff) candidate.issue_id s.same_issue)
        (rejected-≢-skipped deps issue stale_requirements (stale_diagnostic deps diagnostic) _)
  settled-Crosses issue handoff (failed diagnostic) f s v a =
      rejects issue eligibility_failed diagnostic f s (not_revalidated v a)
        (rejected-crossings deps issue eligibility_failed diagnostic (before_settling issue handoff)
          candidate.issue_id s.same_issue)
        (rejected-≢-skipped deps issue eligibility_failed diagnostic _)

  examined-Crosses :
      (issue : ReFetchedIssue)
      → deps.on_issue h candidate.issue_id ≡ ok issue
      → (problem : Option CandidateProblem) → candidate_problem candidate issue ≡ problem
      → (let s = examine_candidate deps issue problem (issue_fetched candidate.issue_id ∷ h) in
          Crosses s.0 s.1)
  unfolding examine_candidate revalidate_candidate crossings
  examined-Crosses issue f (some problem) p =
      stays (skipped-crossings deps problem _) (skipped-≢-consumed deps problem _)
  examined-Crosses issue f none p =
      let same = (candidate_problem-eq-none_iff candidate issue).0 p in
      elim (Result-cases (deps.on_validate (issue_fetched candidate.issue_id ∷ h) issue)) [
        | inl (x, e) ↦ rw e (stays refl cc)
        | inr (invalid diagnostic, e) ↦ rw e (
            rejects issue eligibility_failed diagnostic f same (not_valid e)
              (rejected-crossings deps issue eligibility_failed diagnostic
                (handoff_validated issue ∷ issue_fetched candidate.issue_id ∷ h) candidate.issue_id
                same.same_issue)
              (rejected-≢-skipped deps issue eligibility_failed diagnostic _))
        | inr (valid handoff, e) ↦
            elim (Result-cases (
              deps.on_revalidate (handoff_validated issue ∷ issue_fetched candidate.issue_id ∷ h)
                issue handoff)) [
                  | inl (x, q) ↦ rw (e, q) (stays refl cc)
                  | inr (answer, q) ↦ rw (e, q) (settled-Crosses issue handoff answer f same e q)
                ]
      ]

  -- The body crosses into at most one execution or rejection, that one only on the answers that admit
  -- the candidate or turn it down. A result `skipped` comes with neither, a result `consumed` with one
  -- of them.
  pub process_locked-Crosses :
      Crosses (process_locked deps candidate h).0 (process_locked deps candidate h).1
  unfolding process_locked crossings
  process_locked-Crosses = elim (Result-cases (deps.on_issue h candidate.issue_id)) [
    | inl (x, e) ↦ rw e (stays refl cc)
    | inr (issue, e) ↦ rw e (examined-Crosses issue e (candidate_problem candidate issue) refl)
  ]
