-- ===== src/Recovery/Startup/Confirmed.antt =====
-- What a reconciliation that returns has confirmed, and what stops it.
use ai_agent_runner.Base.{
  ℕ, String, ◌≡◌, refl, sym, ap, ◌∙◌, true, false, List, [], ◌∷◌, ◌++◌, arith, inl, inr, Bool-cases,
}
use ai_agent_runner.Base.Lists.{All, includes}
use ai_agent_runner.Failure.{Failure, Result, ok, err, Result-cases}
use ai_agent_runner.Exec.{Exec, ◌>>=◌, pure, bind-eq-ok, catching}
use ai_agent_runner.Recovery.Calls.{
  AgentRunningExecutionCandidate, OrphanCleanupSummary, RecoveryCall, RecoveryCalls, RecoveryPorts,
  cleaned, running_listed, finalization_requested,
}
use ai_agent_runner.Recovery.Startup.{
  record_diagnostic, report, clean_up, cleanup_failed, query_failed, list_candidates_fail_closed,
  finalize_candidate, finalization_failed, reconcile_candidate, duplicate_candidate, reconcile_next,
  reconcile_each, conclude, issue_ids_of, reconcile_listed, reconcile_running, reconcile,
}

-- No id is in `seen`, and none comes twice.
abbrev pub Unseen : List ℕ → List ℕ → Type 0
Unseen [] seen = Unit
Unseen (id ∷ ids) seen = (includes seen id ≡ false) × Unseen ids (id ∷ seen)

module _ (ports : RecoveryPorts) where
  -- The finalizer of interrupted executions returned for that Issue.
  abbrev pub IsFinalizedIssue : ℕ → Type 0
  IsFinalizedIssue id = (g : RecoveryCalls) × (ports.on_finalize g id ≡ ok tt)

  finalization_failed-≢ :
      (id : ℕ) (e : Failure) (h h' : RecoveryCalls)
      → ¬ (finalization_failed ports id e h ≡ (ok [], h'))
  unfolding finalization_failed report record_diagnostic
  finalization_failed-≢ id e h h' p = ground arith

  duplicate_candidate-≢ :
      (id : ℕ) (h h' : RecoveryCalls) → ¬ (duplicate_candidate ports id h ≡ (ok [], h'))
  unfolding duplicate_candidate report record_diagnostic
  duplicate_candidate-≢ id h h' p = ground arith

  reconcile_candidate_failed :
      (id : ℕ) (x : Failure) (h : RecoveryCalls)
      → ports.on_finalize h id ≡ err x
      → reconcile_candidate ports id h
        ≡ finalization_failed ports id x (finalization_requested id ∷ h)
  unfolding reconcile_candidate finalize_candidate
  reconcile_candidate_failed id x h e = rw e refl

  reconcile_candidate-IsFinalizedIssue :
      (id : ℕ) (h h' : RecoveryCalls)
      → reconcile_candidate ports id h ≡ (ok [], h')
      → IsFinalizedIssue id
  unfolding reconcile_candidate finalize_candidate
  reconcile_candidate-IsFinalizedIssue id h h' p = elim (Result-cases (ports.on_finalize h id)) [
    | inl (x, e) ↦ absurd (
        finalization_failed-≢ id x (finalization_requested id ∷ h) h'
          (sym (reconcile_candidate_failed id x h e) ∙ p))
    | inr (tt, e) ↦ (h, e)
  ]

  -- The messages of a bound computation are empty only if those of both parts are.
  both_empty : (xs ys : List String) → xs ++ ys ≡ [] → (xs ≡ []) × (ys ≡ [])
  both_empty [] ys e = (refl, e)
  both_empty (x ∷ xs) ys e = cc

  and_then-empty :
      (first : Exec RecoveryCall (List String)) (rest : Exec RecoveryCall (List String))
      (h h' : RecoveryCalls)
      → (first >>= λ failures. (rest >>= λ more. pure (failures ++ more))) h ≡ (ok [], h')
      → (g : RecoveryCalls) × (first h ≡ (ok [], g)) × (rest g ≡ (ok [], h'))
  and_then-empty first rest h h' p =
      let (failures, g, one, q) =
        bind-eq-ok first (λ failures. (rest >>= λ more. pure (failures ++ more))) h p in
      let (more, k, two, r) = bind-eq-ok rest (λ more. pure (failures ++ more)) g q in
      let (a, b) = both_empty failures more (cc r) in
      (g, cc (one, a), cc (two, b, ap (λ (t : Result (List String) × RecoveryCalls). t.1) r))

  module _ (rest : List ℕ → Exec RecoveryCall (List String)) (id : ℕ) (seen : List ℕ)
      (h : RecoveryCalls) where
    reconcile_next_seen :
        includes seen id ≡ true
        → reconcile_next ports rest id seen h
          ≡ (duplicate_candidate ports id >>= λ failures.
                (rest seen >>= λ more. pure (failures ++ more)))
              h
    unfolding reconcile_next
    reconcile_next_seen e = rw e refl

    reconcile_next_unseen :
        includes seen id ≡ false
        → reconcile_next ports rest id seen h
          ≡ (reconcile_candidate ports id >>= λ failures.
                (rest (id ∷ seen) >>= λ more. pure (failures ++ more)))
              h
    unfolding reconcile_next
    reconcile_next_unseen e = rw e refl

  reconcile_each-confirmed :
      (ids seen : List ℕ) (h h' : RecoveryCalls)
      → reconcile_each ports ids seen h ≡ (ok [], h')
      → Unseen ids seen × All IsFinalizedIssue ids
  unfolding reconcile_each
  reconcile_each-confirmed [] seen h h' p = (tt, tt)
  reconcile_each-confirmed (id ∷ ids) seen h h' p = elim (Bool-cases (includes seen id)) [
    | inl e ↦
        let (g, one, two) =
          and_then-empty (duplicate_candidate ports id) (reconcile_each ports ids seen) h h'
            (sym (reconcile_next_seen (reconcile_each ports ids) id seen h e) ∙ p) in
        absurd (duplicate_candidate-≢ id h g one)
    | inr e ↦
        let (g, one, two) =
          and_then-empty (reconcile_candidate ports id) (reconcile_each ports ids (id ∷ seen)) h h'
            (sym (reconcile_next_unseen (reconcile_each ports ids) id seen h e) ∙ p) in
        let (unseen, finalized) = reconcile_each-confirmed ids (id ∷ seen) g h' two in
        ((e, unseen), (reconcile_candidate-IsFinalizedIssue id h g one, finalized))
  ]

  conclude-empty :
      (failures : List String) (h h' : RecoveryCalls)
      → conclude ports failures h ≡ (ok tt, h')
      → failures ≡ []
  unfolding conclude
  conclude-empty [] h h' p = refl
  conclude-empty (f ∷ fs) h h' p = cc

  query_failed-≢ :
      (e : Failure) (h h' : RecoveryCalls) (found : List AgentRunningExecutionCandidate)
      → ¬ (query_failed ports e h ≡ (ok found, h'))
  unfolding query_failed report record_diagnostic
  query_failed-≢ e h h' found p = ground arith

  list_candidates_failed :
      (x : Failure) (h : RecoveryCalls)
      → ports.on_list h ≡ err x
      → list_candidates_fail_closed ports h ≡ query_failed ports x (running_listed ∷ h)
  unfolding list_candidates_fail_closed
  list_candidates_failed x h e = rw e refl

  list_candidates_answered :
      (found : List AgentRunningExecutionCandidate) (h : RecoveryCalls)
      → ports.on_list h ≡ ok found
      → list_candidates_fail_closed ports h ≡ (ok found, running_listed ∷ h)
  unfolding list_candidates_fail_closed
  list_candidates_answered found h e = rw e refl

  list_candidates-answer :
      (found : List AgentRunningExecutionCandidate) (h h' : RecoveryCalls)
      → list_candidates_fail_closed ports h ≡ (ok found, h')
      → ports.on_list h ≡ ok found
  list_candidates-answer found h h' p = elim (Result-cases (ports.on_list h)) [
    | inl (x, e) ↦
        absurd
          (query_failed-≢ x (running_listed ∷ h) h' found (sym (list_candidates_failed x h e) ∙ p))
    | inr (a, e) ↦ cc (e, list_candidates_answered a h e, p)
  ]

  cleanup_failed-≢ :
      (e : Failure) (h h' : RecoveryCalls) → ¬ (cleanup_failed ports e h ≡ (ok tt, h'))
  unfolding cleanup_failed report record_diagnostic
  cleanup_failed-≢ e h h' p = ground arith

  clean_up_failed :
      (x : Failure) (h : RecoveryCalls)
      → ports.on_cleanup h ≡ err x
      → catching (clean_up ports) (cleanup_failed ports) h ≡ cleanup_failed ports x (cleaned ∷ h)
  unfolding clean_up
  clean_up_failed x h e = rw e refl

  cleaned_up :
      (h h' : RecoveryCalls)
      → catching (clean_up ports) (cleanup_failed ports) h ≡ (ok tt, h')
      → (summary : OrphanCleanupSummary) × (ports.on_cleanup h ≡ ok summary)
  cleaned_up h h' p = elim (Result-cases (ports.on_cleanup h)) [
    | inl (x, e) ↦ absurd (cleanup_failed-≢ x (cleaned ∷ h) h' (sym (clean_up_failed x h e) ∙ p))
    | inr (summary, e) ↦ (summary, e)
  ]

  -- When a reconciliation returns, its first call, the cleanup of orphans, returned, the running
  -- executions were listed, no Issue is listed twice, and the finalizer of interrupted executions
  -- returned for every listed Issue.
  pub reconcile_confirmed :
      (h h' : RecoveryCalls)
      → reconcile ports h ≡ (ok tt, h')
      → (summary : OrphanCleanupSummary) × (g : RecoveryCalls) × (candidates : List
          AgentRunningExecutionCandidate)
        × (ports.on_cleanup h ≡ ok summary)
        × (ports.on_list g ≡ ok candidates)
        × Unseen (issue_ids_of ports candidates) []
        × All IsFinalizedIssue (issue_ids_of ports candidates)
  unfolding reconcile reconcile_running reconcile_listed
  reconcile_confirmed h h' p =
      let (u, g, clean, q) =
        bind-eq-ok (catching (clean_up ports) (cleanup_failed ports)) (reconcile_running ports) h
          p in
      let (candidates, k, listed, r) =
        bind-eq-ok (list_candidates_fail_closed ports) (reconcile_listed ports) g q in
      let (failures, l, each, s) =
        bind-eq-ok (reconcile_each ports (issue_ids_of ports candidates) []) (conclude ports) k r in
      let none_failed : failures ≡ [] = conclude-empty failures l h' s in
      let (unseen, finalized) =
        reconcile_each-confirmed (issue_ids_of ports candidates) [] k l (cc (each, none_failed)) in
      let (summary, answered) = cleaned_up h g clean in
      (
        summary,
        g,
        candidates,
        answered,
        list_candidates-answer candidates g k listed,
        unseen,
        finalized,
      )
