-- ===== src/Controller/Polling/Cycle.antt =====
-- What a whole polling cycle does to the lock, and how far it goes.
use ai_agent_runner.Base.{
  ℕ, ◌≡◌, refl, ap, ◌∙◌, Bool, true, false, List, [], ◌∷◌, inl, inr, nat_beq, ltb, Bool-cases,
}
use ai_agent_runner.Base.Lists.{length, includes}
use ai_agent_runner.Failure.{Failure, Result, ok, err}
use ai_agent_runner.Controller.Types.{ReadyForAgentCandidate}
use ai_agent_runner.Controller.Lock.{
  HeldIssues, try_acquire, release, release-try_acquire, try_acquire_refused,
  assert_positive_issue_id,
}
use ai_agent_runner.Controller.Calls.{Calls, ControllerDependencies}
use ai_agent_runner.Controller.Polling.{
  ControllerConfig, phase53_candidate_scan_limit, CandidateProcessingResult, skipped, consumed,
  outside_lock, process_locked, unlock, process_acquired, process_candidate, scan_on,
  scan_candidates, after_scan, poll_candidates, run_once,
}

module _ (deps : ControllerDependencies) where
  unlock-eq :
      {A : Type 0} (id : ℕ) (now held : HeldIssues) (s : Result A × Calls)
      → release id now ≡ ok held
      → unlock deps id now s ≡ outside_lock held s
  unfolding unlock
  unlock-eq id now held (r, h) e = rw e refl

  -- Either the body ran under the lock, which is free again, or nothing was called.
  pub data Processed (candidate : ReadyForAgentCandidate) (held : HeldIssues) (h : Calls)
      (s : Result CandidateProcessingResult × HeldIssues × Calls) : Type 0 where
    ran : s ≡ outside_lock held (process_locked deps candidate h) → Processed candidate held h s
    busy : s ≡ (ok skipped, held, h) → Processed candidate held h s
    not_positive : (x : Failure) → s ≡ (err x, held, h) → Processed candidate held h s

  process_acquired-Processed :
      (candidate : ReadyForAgentCandidate) (held : HeldIssues) (h : Calls)
      (taken : Result (Bool × HeldIssues))
      → try_acquire candidate.issue_id held ≡ taken
      → Processed candidate held h (process_acquired deps candidate held h taken)
  unfolding process_acquired
  process_acquired-Processed candidate held h (err x) e = not_positive x refl
  process_acquired-Processed candidate held h (ok (false, now)) e = busy (
      ap (λ (k : HeldIssues). (ok skipped, k, h))
        (try_acquire_refused candidate.issue_id held now e))
  process_acquired-Processed candidate held h (ok (true, now)) e = ran (
      unlock-eq candidate.issue_id now held (process_locked deps candidate h)
        (release-try_acquire candidate.issue_id held now e))

  pub process_candidate-Processed :
      (candidate : ReadyForAgentCandidate) (held : HeldIssues) (h : Calls)
      → Processed candidate held h (process_candidate deps candidate held h)
  unfolding process_candidate
  process_candidate-Processed candidate held h =
      process_acquired-Processed candidate held h (try_acquire candidate.issue_id held) refl

  Processed-held :
      (candidate : ReadyForAgentCandidate) (held : HeldIssues) (h : Calls)
      (s : Result CandidateProcessingResult × HeldIssues × Calls)
      → Processed candidate held h s
      → s.1 ≡ held
  Processed-held candidate held h s (ran e) =
      ap (λ (t : Result CandidateProcessingResult × HeldIssues × Calls). t.1) e
  Processed-held candidate held h s (busy e) =
      ap (λ (t : Result CandidateProcessingResult × HeldIssues × Calls). t.1) e
  Processed-held candidate held h s (not_positive x e) =
      ap (λ (t : Result CandidateProcessingResult × HeldIssues × Calls). t.1) e

  -- A candidate that another holder works on is skipped without any call.
  pub process_candidate_held :
      (candidate : ReadyForAgentCandidate) (held : HeldIssues) (h : Calls)
      → includes held candidate.issue_id ≡ true
      → assert_positive_issue_id candidate.issue_id ≡ ok tt
      → process_candidate deps candidate held h ≡ (ok skipped, held, h)
  unfolding process_candidate process_acquired try_acquire
  process_candidate_held candidate held h i p = rw (p, i)

  module _ (config : ControllerConfig) where
    scan_on-held :
        (rest : HeldIssues → Calls → Result CandidateProcessingResult × HeldIssues × Calls)
        (s : Result CandidateProcessingResult × HeldIssues × Calls) (held : HeldIssues)
        → ((k : HeldIssues) (g : Calls) → (rest k g).1 ≡ k)
        → s.1 ≡ held
        → (scan_on deps config rest s).1 ≡ held
    unfolding scan_on
    scan_on-held rest (ok skipped, k, g) held keeps e = keeps k g ∙ e
    scan_on-held rest (ok consumed, k, g) held keeps e = e
    scan_on-held rest (err x, k, g) held keeps e = e

    scan_candidates-held :
        (candidates : List ReadyForAgentCandidate) (held : HeldIssues) (h : Calls)
        → (scan_candidates deps config candidates held h).1 ≡ held
    unfolding scan_candidates
    scan_candidates-held [] held h = refl
    scan_candidates-held (c ∷ cs) held h =
        elim (Bool-cases (includes config.allowed_project_ids c.project_id)) [
          | inl e ↦ rw e (
              scan_on-held (scan_candidates deps config cs) (process_candidate deps c held h) held
                (scan_candidates-held cs)
                (Processed-held c held h _ (process_candidate-Processed c held h)))
          | inr e ↦ rw e refl
        ]

    after_scan-held :
        (candidates : List ReadyForAgentCandidate)
        (s : Result CandidateProcessingResult × HeldIssues × Calls)
        → (after_scan deps config candidates s).1 ≡ s.1
    unfolding after_scan
    after_scan-held cs (ok skipped, held, h) =
        elim (Bool-cases (nat_beq (length cs) phase53_candidate_scan_limit)) [
          | inl e ↦ rw e refl
          | inr e ↦ rw e refl
        ]
    after_scan-held cs (ok consumed, held, h) = refl
    after_scan-held cs (err x, held, h) = refl

    poll_candidates-held :
        (held : HeldIssues) (h : Calls) (listed : Result (List ReadyForAgentCandidate))
        → (poll_candidates deps config held h listed).1 ≡ held
    unfolding poll_candidates
    poll_candidates-held held h (err x) = refl
    poll_candidates-held held h (ok cs) =
        elim (Bool-cases (ltb phase53_candidate_scan_limit (length cs))) [
          | inl e ↦ rw e refl
          | inr e ↦ rw e (
              after_scan-held cs (scan_candidates deps config cs held h)
              ∙ scan_candidates-held cs held h)
        ]

    -- Whatever the dependencies answer or throw, after a polling cycle the lock holds the ids that it
    -- held before.
    pub run_once-held : (held : HeldIssues) (h : Calls) → (run_once deps config held h).1 ≡ held
    unfolding run_once
    run_once-held held h = poll_candidates-held held _ _
