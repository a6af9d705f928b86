-- ===== src/Controller/Polling/Single.antt =====
-- A polling cycle takes at most one candidate on.
use ai_agent_runner.Base.{
  ℕ, String, ◌≡◌, refl, sym, subst, ◌∙◌, ◌≢◌, true, Option, none, some, List, [], ◌∷◌, arith, inl,
  inr, nat_beq, ltb, Bool-cases,
}
use ai_agent_runner.Base.Lists.{length, includes, In}
use ai_agent_runner.Failure.{Result, ok, err}
use ai_agent_runner.Controller.Types.{ReadyForAgentCandidate, ready_for_agent_lifecycle}
use ai_agent_runner.Controller.Lock.{HeldIssues}
use ai_agent_runner.Controller.Calls.{
  Calls, ControllerDependencies, record_candidate_diagnostic, crossings, candidates_listed,
}
use ai_agent_runner.Controller.Polling.{
  ControllerConfig, phase53_candidate_scan_limit, CandidateProcessingResult, skipped, consumed,
  process_candidate, refuse_candidate, exhausted_scan, scan_on, scan_candidates, after_scan,
  poll_candidates, run_once,
}
use ai_agent_runner.Controller.Polling.Cycle.{
  Processed, ran, busy, not_positive, process_candidate-Processed,
}
use ai_agent_runner.Controller.Polling.Admission.{
  Crosses, stays, executes, rejects, process_locked-Crosses,
}

abbrev Outcome : Type 0
Outcome = Result CandidateProcessingResult × HeldIssues × Calls

module _ (deps : ControllerDependencies) where
  refused-crossings :
      (id : Option ℕ) (message : String) (h : Calls)
      → (crossings (refuse_candidate deps id message h).1 ≡ crossings h)
        × ((refuse_candidate deps id message h).0 ≢ ok consumed)
  unfolding refuse_candidate record_candidate_diagnostic crossings
  refused-crossings id message h = ground arith

  exhausted-crossings :
      (h : Calls)
      → (crossings (exhausted_scan deps h).1 ≡ crossings h)
        × ((exhausted_scan deps h).0 ≢ ok consumed)
  unfolding exhausted_scan record_candidate_diagnostic crossings
  exhausted-crossings h = ground arith

  Processed-Crosses :
      (candidate : ReadyForAgentCandidate) (held : HeldIssues) (h : Calls) (s : Outcome)
      → Processed deps candidate held h s
      → Crosses deps candidate h s.0 s.2
  Processed-Crosses candidate held h s (ran e) =
      subst (λ (t : Outcome). Crosses deps candidate h t.0 t.2) (sym e)
        (process_locked-Crosses deps candidate h)
  Processed-Crosses candidate held h s (busy e) =
      subst (λ (t : Outcome). Crosses deps candidate h t.0 t.2) (sym e) (stays refl cc)
  Processed-Crosses candidate held h s (not_positive x e) =
      subst (λ (t : Outcome). Crosses deps candidate h t.0 t.2) (sym e) (stays refl cc)

  skipped-stays :
      (candidate : ReadyForAgentCandidate) (h : Calls) (r : Result CandidateProcessingResult)
      (h' : Calls)
      → Crosses deps candidate h r h'
      → r ≡ ok skipped
      → crossings h' ≡ crossings h
  skipped-stays candidate h r h' (stays same n) e = same
  skipped-stays candidate h r h' (executes i f p a c n) e = absurd (n e)
  skipped-stays candidate h r h' (rejects i o d f s t c n) e = absurd (n e)

  module _ (config : ControllerConfig) where
    -- What a cycle over those candidates leads to: nothing beyond reads and diagnostics, or what one
    -- of the candidates, of an allowed project, leads to.
    pub data Advances (candidates : List ReadyForAgentCandidate) (h : Calls)
        (r : Result CandidateProcessingResult) (h' : Calls) : Type 0 where
      idle : crossings h' ≡ crossings h → r ≢ ok consumed → Advances candidates h r h'
      takes_on :
          (candidate : ReadyForAgentCandidate) (g : Calls)
          → In candidate candidates
          → includes config.allowed_project_ids candidate.project_id ≡ true
          → crossings g ≡ crossings h
          → Crosses deps candidate g r h'
          → Advances candidates h r h'

    later :
        (candidate : ReadyForAgentCandidate) (candidates : List ReadyForAgentCandidate)
        (h g : Calls) (r : Result CandidateProcessingResult) (h' : Calls)
        → crossings g ≡ crossings h
        → Advances candidates g r h'
        → Advances (candidate ∷ candidates) h r h'
    later candidate candidates h g r h' same (idle e n) = idle (e ∙ same) n
    later candidate candidates h g r h' same (takes_on c k i a e x) =
        takes_on c k (inr i) a (e ∙ same) x

    scan_on-Advances :
        (candidate : ReadyForAgentCandidate) (candidates : List ReadyForAgentCandidate) (h : Calls)
        (rest : HeldIssues → Calls → Outcome) (s : Outcome)
        → includes config.allowed_project_ids candidate.project_id ≡ true
        → ((k : HeldIssues) (g : Calls) → Advances candidates g (rest k g).0 (rest k g).2)
        → Crosses deps candidate h s.0 s.2
        → (let t = scan_on deps config rest s in Advances (candidate ∷ candidates) h t.0 t.2)
    unfolding scan_on
    scan_on-Advances c cs h rest (ok skipped, k, g) a more x =
        later c cs h g (rest k g).0 (rest k g).2 (skipped-stays c h (ok skipped) g x refl)
          (more k g)
    scan_on-Advances c cs h rest (ok consumed, k, g) a more x = takes_on c h (inl refl) a refl x
    scan_on-Advances c cs h rest (err e, k, g) a more x = takes_on c h (inl refl) a refl x

    scan_candidates-Advances :
        (candidates : List ReadyForAgentCandidate) (held : HeldIssues) (h : Calls)
        → (let t = scan_candidates deps config candidates held h in Advances candidates h t.0 t.2)
    unfolding scan_candidates
    scan_candidates-Advances [] held h = idle refl cc
    scan_candidates-Advances (c ∷ cs) held h =
        elim (Bool-cases (includes config.allowed_project_ids c.project_id)) [
          | inl e ↦ rw e (
              scan_on-Advances c cs h (scan_candidates deps config cs)
                (process_candidate deps c held h) e (scan_candidates-Advances cs)
                (Processed-Crosses c held h _ (process_candidate-Processed deps c held h)))
          | inr e ↦
              let (same, n) =
                refused-crossings (some c.issue_id)
                  "candidate polling stopped: query predicate mismatch" h in
              rw e (idle same n)
        ]

    idled :
        (candidates : List ReadyForAgentCandidate) (h g : Calls)
        → Advances candidates h (ok skipped) g
        → crossings g ≡ crossings h
    idled cs h g (idle same n) = same
    idled cs h g (takes_on c k i a same x) = skipped-stays c k (ok skipped) g x refl ∙ same

    -- The scan is followed by nothing, or by a diagnostic and a failure.
    after_scan-Advances :
        (candidates : List ReadyForAgentCandidate) (h : Calls) (s : Outcome)
        → Advances candidates h s.0 s.2
        → (let t = after_scan deps config candidates s in Advances candidates h t.0 t.2)
    unfolding after_scan
    after_scan-Advances cs h (ok skipped, k, g) a =
        elim (Bool-cases (nat_beq (length cs) phase53_candidate_scan_limit)) [
          | inl e ↦ let (same, n) = exhausted-crossings g in rw e (idle (same ∙ idled cs h g a) n)
          | inr e ↦ rw e a
        ]
    after_scan-Advances cs h (ok consumed, k, g) a = a
    after_scan-Advances cs h (err x, k, g) a = a

    -- A polling cycle that lists candidates takes on at most one of them, one of an allowed project,
    -- which leads to at most one execution or rejection, and that under the answers that admit it or
    -- turn it down.
    pub run_once-Advances :
        (held : HeldIssues) (h : Calls) (candidates : List ReadyForAgentCandidate)
        → deps.on_list h config.allowed_project_ids ready_for_agent_lifecycle
            phase53_candidate_scan_limit
          ≡ ok candidates
        → (let t = run_once deps config held h in
            Advances candidates
              (candidates_listed config.allowed_project_ids ready_for_agent_lifecycle
                  phase53_candidate_scan_limit
                ∷ h)
              t.0
              t.2)
    unfolding run_once poll_candidates
    run_once-Advances held h cs listed =
        elim (Bool-cases (ltb phase53_candidate_scan_limit (length cs))) [
          | inl e ↦
              let (same, n) =
                refused-crossings none
                  "candidate polling stopped: candidate source exceeded scan bound"
                  (candidates_listed config.allowed_project_ids ready_for_agent_lifecycle
                      phase53_candidate_scan_limit
                    ∷ h) in
              rw (listed, e) (idle same n)
          | inr e ↦
              rw (listed, e)
                (after_scan-Advances cs _ (scan_candidates deps config cs held _)
                  (scan_candidates-Advances cs held _))
        ]
