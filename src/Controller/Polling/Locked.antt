-- ===== src/Controller/Polling/Locked.antt =====
-- What happens to a candidate under the lock: every way out of `process_locked`, with its calls.
use ai_agent_runner.Base.{String, ◌≡◌, refl, Option, none, some, ◌∷◌, inl, inr, Option-cases}
use ai_agent_runner.Failure.{Failure, Result, ok, err, error, Result-cases}
use ai_agent_runner.Controller.Types.{
  PreExecutionRejectionOutcome, stale_requirements, eligibility_failed, ReadyForAgentCandidate,
  ReFetchedIssue, ValidatedHandoff, HandoffValidationResult, valid, invalid,
  RequirementsRevalidationResult, current, stale, failed,
}
use ai_agent_runner.Controller.Calls.{
  Calls, ControllerDependencies, record_candidate_diagnostic, diagnosed, issue_fetched,
  handoff_validated, requirements_revalidated, rejected, handled,
}
use ai_agent_runner.Controller.Polling.{
  CandidateProcessingResult, skipped, consumed, CandidateProblem, candidate_problem, skip_candidate,
  reject_candidate, execute_candidate, stale_diagnostic, settle_candidate, revalidate_candidate,
  examine_candidate, process_locked,
}
use ai_agent_runner.Controller.Polling.Admission.{IsSameCandidate, candidate_problem-eq-none_iff}

-- The result of a skipped candidate, by the answer of the diagnostic sink.
abbrev pub skipped_after : Result (Unit {0}) → Result CandidateProcessingResult
skipped_after (ok u) = ok skipped
skipped_after (err e) =
    err (error "candidate diagnostic sink failed; raw diagnostic content suppressed")

-- The result of a candidate that was taken on, by the answer of the call that took it on.
abbrev pub consumed_after : Result (Unit {0}) → Result CandidateProcessingResult
consumed_after (ok u) = ok consumed
consumed_after (err e) = err e

-- The diagnostic of stale requirements: the given one, where there is one.
pub data Explains : Option String → String → Type 0 where
  given : {diagnostic : String} → Explains (some diagnostic) diagnostic
  by_default : Explains none "current requirements fingerprint does not match approved fingerprint"

module _ (deps : ControllerDependencies) (candidate : ReadyForAgentCandidate) (h : Calls) where
  stale-Explains :
      (diagnostic : Option String) → Explains diagnostic (stale_diagnostic deps diagnostic)
  stale-Explains none = by_default
  stale-Explains (some diagnostic) = given

  abbrev fetched_history : Calls
  fetched_history = issue_fetched candidate.issue_id ∷ h

  abbrev validated_history : ReFetchedIssue → Calls
  validated_history issue = handoff_validated issue ∷ fetched_history

  abbrev revalidated_history : ReFetchedIssue → ValidatedHandoff → Calls
  revalidated_history issue handoff =
      requirements_revalidated issue handoff ∷ validated_history issue

  -- The Issue that was fetched is still the candidate.
  pub record IsFetched (issue : ReFetchedIssue) : Type 0 where
    pub fetched : deps.on_issue h candidate.issue_id ≡ ok issue
    pub same : IsSameCandidate candidate issue

  -- Its handoff is valid.
  pub record IsValidated (issue : ReFetchedIssue) (handoff : ValidatedHandoff) : Type 0 where
    pub is : IsFetched issue
    pub validated : deps.on_validate fetched_history issue ≡ ok (valid handoff)

  abbrev revalidation : ReFetchedIssue → ValidatedHandoff → Result RequirementsRevalidationResult
  revalidation issue handoff = deps.on_revalidate (validated_history issue) issue handoff

  -- The Issue is turned down, with that outcome and that diagnostic, after those calls.
  pub data IsTurnedAway (issue : ReFetchedIssue)
      : PreExecutionRejectionOutcome → String → Calls → Type 0 where
    not_valid :
        {diagnostic : String}
        → IsFetched issue
        → deps.on_validate fetched_history issue ≡ ok (invalid diagnostic)
        → IsTurnedAway issue eligibility_failed diagnostic (validated_history issue)
    not_current :
        {handoff : ValidatedHandoff} {fingerprint approved : String} {reason : Option String}
        {diagnostic : String}
        → IsValidated issue handoff
        → revalidation issue handoff ≡ ok (stale fingerprint approved reason)
        → Explains reason diagnostic
        → IsTurnedAway issue stale_requirements diagnostic (revalidated_history issue handoff)
    not_revalidated :
        {handoff : ValidatedHandoff} {diagnostic : String}
        → IsValidated issue handoff
        → revalidation issue handoff ≡ ok (failed diagnostic)
        → IsTurnedAway issue eligibility_failed diagnostic (revalidated_history issue handoff)

  -- Every way out of the body, with its result and all its calls.
  pub data Processes (r : Result CandidateProcessingResult) (h' : Calls) : Type 0 where
    not_fetched :
        (x : Failure)
        → deps.on_issue h candidate.issue_id ≡ err x
        → h' ≡ fetched_history
        → r ≡ err x
        → Processes r h'
    changed :
        (issue : ReFetchedIssue) (problem : CandidateProblem)
        → deps.on_issue h candidate.issue_id ≡ ok issue
        → ¬ IsSameCandidate candidate issue
        → candidate_problem candidate issue ≡ some problem
        → h' ≡ diagnosed problem.kind (some problem.issue_id) problem.reason ∷ fetched_history
        → r
          ≡ skipped_after (
              deps.on_diagnostic fetched_history problem.kind
                (some problem.issue_id)
                problem.reason)
        → Processes r h'
    validation_threw :
        (issue : ReFetchedIssue) (x : Failure)
        → IsFetched issue
        → deps.on_validate fetched_history issue ≡ err x
        → h' ≡ validated_history issue
        → r ≡ err x
        → Processes r h'
    revalidation_threw :
        (issue : ReFetchedIssue) (handoff : ValidatedHandoff) (x : Failure)
        → IsValidated issue handoff
        → revalidation issue handoff ≡ err x
        → h' ≡ revalidated_history issue handoff
        → r ≡ err x
        → Processes r h'
    turned_away :
        (issue : ReFetchedIssue) (outcome : PreExecutionRejectionOutcome) (diagnostic : String)
        (g : Calls)
        → IsTurnedAway issue outcome diagnostic g
        → h' ≡ rejected issue.issue_id outcome diagnostic ∷ g
        → r ≡ consumed_after (deps.on_reject g issue.issue_id outcome diagnostic)
        → Processes r h'
    admitted :
        (issue : ReFetchedIssue) (handoff : ValidatedHandoff) (fingerprint : String)
        → IsValidated issue handoff
        → revalidation issue handoff ≡ ok (current fingerprint)
        → h' ≡ handled issue handoff fingerprint ∷ revalidated_history issue handoff
        → r
          ≡ consumed_after
              (deps.on_handle (revalidated_history issue handoff) issue handoff fingerprint)
        → Processes r h'

  skip-eq :
      (problem : CandidateProblem) (g : Calls)
      → skip_candidate deps problem g ≡ (
        skipped_after (deps.on_diagnostic g problem.kind (some problem.issue_id) problem.reason),
        diagnosed problem.kind (some problem.issue_id) problem.reason ∷ g,
      )
  unfolding skip_candidate record_candidate_diagnostic
  skip-eq problem g =
      elim (Result-cases
        (deps.on_diagnostic g problem.kind (some problem.issue_id) problem.reason)) [
          | inl (x, e) ↦ rw e refl
          | inr (u, e) ↦ rw e refl
        ]

  reject-eq :
      (issue : ReFetchedIssue) (outcome : PreExecutionRejectionOutcome) (diagnostic : String)
      (g : Calls)
      → reject_candidate deps issue outcome diagnostic g ≡ (
        consumed_after (deps.on_reject g issue.issue_id outcome diagnostic),
        rejected issue.issue_id outcome diagnostic ∷ g,
      )
  unfolding reject_candidate
  reject-eq issue outcome diagnostic g =
      elim (Result-cases (deps.on_reject g issue.issue_id outcome diagnostic)) [
        | inl (x, e) ↦ rw e refl
        | inr (u, e) ↦ rw e refl
      ]

  execute-eq :
      (issue : ReFetchedIssue) (handoff : ValidatedHandoff) (fingerprint : String) (g : Calls)
      → execute_candidate deps issue handoff fingerprint g ≡ (
        consumed_after (deps.on_handle g issue handoff fingerprint),
        handled issue handoff fingerprint ∷ g,
      )
  unfolding execute_candidate
  execute-eq issue handoff fingerprint g =
      elim (Result-cases (deps.on_handle g issue handoff fingerprint)) [
        | inl (x, e) ↦ rw e refl
        | inr (u, e) ↦ rw e refl
      ]

  rejected-Processes :
      (issue : ReFetchedIssue) (outcome : PreExecutionRejectionOutcome) (diagnostic : String)
      (g : Calls)
      → IsTurnedAway issue outcome diagnostic g
      → (let s = reject_candidate deps issue outcome diagnostic g in Processes s.0 s.1)
  rejected-Processes issue outcome diagnostic g away =
      rw (reject-eq issue outcome diagnostic g)
        (turned_away issue outcome diagnostic g away refl refl)

  settled-Processes :
      (issue : ReFetchedIssue) (handoff : ValidatedHandoff)
      (answer : RequirementsRevalidationResult)
      → IsValidated issue handoff
      → revalidation issue handoff ≡ ok answer
      → (let s = settle_candidate deps issue handoff answer (revalidated_history issue handoff) in
          Processes s.0 s.1)
  unfolding settle_candidate
  settled-Processes issue handoff (current fingerprint) v a =
      rw (execute-eq issue handoff fingerprint (revalidated_history issue handoff))
        (admitted issue handoff fingerprint v a refl refl)
  settled-Processes issue handoff (stale fingerprint approved reason) v a =
      rejected-Processes issue stale_requirements (stale_diagnostic deps reason)
        (revalidated_history issue handoff) (not_current v a (stale-Explains reason))
  settled-Processes issue handoff (failed diagnostic) v a =
      rejected-Processes issue eligibility_failed diagnostic (revalidated_history issue handoff)
        (not_revalidated v a)

  validated-Processes :
      (issue : ReFetchedIssue) (answer : HandoffValidationResult)
      → IsFetched issue
      → deps.on_validate fetched_history issue ≡ ok answer
      → (let s = revalidate_candidate deps issue answer (validated_history issue) in
          Processes s.0 s.1)
  unfolding revalidate_candidate
  validated-Processes issue (invalid diagnostic) f v =
      rejected-Processes issue eligibility_failed diagnostic (validated_history issue)
        (not_valid f v)
  validated-Processes issue (valid handoff) f v =
      let checked : IsValidated issue handoff = record { is = f; validated = v } in
      elim (Result-cases (revalidation issue handoff)) [
        | inl (x, q) ↦ rw q (revalidation_threw issue handoff x checked q refl refl)
        | inr (answer, q) ↦ rw q (settled-Processes issue handoff answer checked q)
      ]

  examined-Processes :
      (issue : ReFetchedIssue)
      → deps.on_issue h candidate.issue_id ≡ ok issue
      → (let s = examine_candidate deps issue (candidate_problem candidate issue) fetched_history in
          Processes s.0 s.1)
  unfolding examine_candidate
  examined-Processes issue f =
      let (same_of, none_of) = candidate_problem-eq-none_iff candidate issue in
      elim (Option-cases (candidate_problem candidate issue)) [
        | inl p ↦
            let fetched : IsFetched issue = record { fetched = f; same = same_of p } in
            elim (Result-cases (deps.on_validate fetched_history issue)) [
              | inl (x, e) ↦ rw (p, e) (validation_threw issue x fetched e refl refl)
              | inr (answer, e) ↦ rw (p, e) (validated-Processes issue answer fetched e)
            ]
        | inr (problem, p) ↦
            rw (p, skip-eq problem fetched_history)
              (changed issue problem f (λ same. cc (p, none_of same)) p refl refl)
      ]

  -- What the body does under the lock, with its result and all its calls. It fetches the Issue; one
  -- that is no longer the candidate that was listed is recorded as skipped, and nothing else is
  -- asked. Otherwise the handoff is validated and the requirements are revalidated, and exactly one
  -- of these follows: the Issue is rejected once, for an invalid handoff, stale requirements or a
  -- failed revalidation, with its diagnostic; or it is handed to the handler once, with the handoff
  -- and the fingerprint of the answers. The result is `consumed` where that last call returns; and
  -- what a call throws is thrown, with no call behind it, but for the diagnostic sink, whose failure is
  -- replaced by one that suppresses its content.
  pub process_locked-Processes :
      Processes (process_locked deps candidate h).0 (process_locked deps candidate h).1
  unfolding process_locked
  process_locked-Processes = elim (Result-cases (deps.on_issue h candidate.issue_id)) [
    | inl (x, e) ↦ rw e (not_fetched x e refl refl)
    | inr (issue, e) ↦ rw e (examined-Processes issue e)
  ]
