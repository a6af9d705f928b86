-- ===== src/Controller/Run/Rounds.antt =====
-- The rounds of the outer loop of src/controller/controller.ts as steps, and how a run ends.
use ai_agent_runner.Base.{
  ℕ, zero, suc, ◌≡◌, refl, true, false, Bool-cases, inl, inr, ◌∷◌, ◌<◌, arith,
}
use ai_agent_runner.Failure.{Failure, Result, ok, err, Result-cases}
use ai_agent_runner.Controller.Lock.{HeldIssues}
use ai_agent_runner.Controller.Calls.{Calls, ControllerDependencies, reconciled, slept}
use ai_agent_runner.Controller.Polling.{ControllerConfig, CandidateProcessingResult, run_once}
use ai_agent_runner.Controller.Run.{
  RunStatus, stopped, out_of_rounds, after_sleep, after_cycle, run_rounds, after_reconciliation,
  run,
}

module _ (deps : ControllerDependencies) (config : ControllerConfig) where
  -- One whole round: the signal is not aborted before the cycle nor after it, the cycle returns, and
  -- so does the sleep behind it.
  pub record IsRound (held : HeldIssues) (h : Calls) (held' : HeldIssues) (h' : Calls)
      : Type 0 where
    pub running : deps.is_aborted h ≡ false
    pub outcome : CandidateProcessingResult
    pub after : Calls
    pub cycled : run_once deps config held h ≡ (ok outcome, held', after)
    pub still_running : deps.is_aborted after ≡ false
    pub rested : deps.on_sleep after config.poll_interval_ms ≡ ok tt
    pub calls : h' ≡ slept config.poll_interval_ms ∷ after

  -- A number of whole rounds.
  pub data Rounds : ℕ → HeldIssues → Calls → HeldIssues → Calls → Type 0 where
    none_yet : {held : HeldIssues} {h : Calls} → Rounds 0 held h held h
    one_more :
        {n : ℕ} {held now last : HeldIssues} {h g h' : Calls}
        → IsRound held h now g
        → Rounds n now g last h'
        → Rounds (suc n) held h last h'

  -- What ends a run between two rounds or in one: the signal before a cycle or behind it, or a cycle
  -- or a sleep that throws.
  pub data Halts (held : HeldIssues) (h : Calls)
      : Result RunStatus → HeldIssues → Calls → Type 0 where
    aborted_before : deps.is_aborted h ≡ true → Halts held h (ok stopped) held h
    cycle_threw :
        {x : Failure} {now : HeldIssues} {after : Calls}
        → deps.is_aborted h ≡ false
        → run_once deps config held h ≡ (err x, now, after)
        → Halts held h (err x) now after
    aborted_after :
        {outcome : CandidateProcessingResult} {now : HeldIssues} {after : Calls}
        → deps.is_aborted h ≡ false
        → run_once deps config held h ≡ (ok outcome, now, after)
        → deps.is_aborted after ≡ true
        → Halts held h (ok stopped) now after
    sleep_threw :
        {outcome : CandidateProcessingResult} {x : Failure} {now : HeldIssues} {after : Calls}
        → deps.is_aborted h ≡ false
        → run_once deps config held h ≡ (ok outcome, now, after)
        → deps.is_aborted after ≡ false
        → deps.on_sleep after config.poll_interval_ms ≡ err x
        → Halts held h (err x) now (slept config.poll_interval_ms ∷ after)

  -- The loop with that many rounds at most: it goes through all of them, or through fewer and halts.
  pub data Loops (rounds : ℕ) (held : HeldIssues) (h : Calls) (r : Result RunStatus)
      (held' : HeldIssues) (h' : Calls) : Type 0 where
    went_on : Rounds rounds held h held' h' → r ≡ ok out_of_rounds → Loops rounds held h r held' h'
    halted :
        (n : ℕ) (now : HeldIssues) (g : Calls)
        → n < rounds
        → Rounds n held h now g
        → Halts now g r held' h'
        → Loops rounds held h r held' h'

  later :
      (rounds : ℕ) {held now held' : HeldIssues} {h g h' : Calls} {r : Result RunStatus}
      → IsRound held h now g
      → Loops rounds now g r held' h'
      → Loops (suc rounds) held h r held' h'
  later rounds i (went_on steps e) = went_on (one_more i steps) e
  later rounds i (halted n now g less steps halts) =
      halted (suc n) now g (omega arith) (one_more i steps) halts

  cycled-Loops :
      (rounds : ℕ) (held : HeldIssues) (h : Calls)
      (s : Result CandidateProcessingResult × HeldIssues × Calls)
      → ((k : HeldIssues) (g : Calls)
          → (let t = run_rounds deps config rounds k g in Loops rounds k g t.0 t.1 t.2))
      → deps.is_aborted h ≡ false
      → run_once deps config held h ≡ s
      → (let t = after_cycle deps config (run_rounds deps config rounds) s in
          Loops (suc rounds) held h t.0 t.1 t.2)
  unfolding after_cycle after_sleep
  cycled-Loops rounds held h (err x, now, after) more go e =
      halted 0 held h (omega arith) none_yet (cycle_threw go e)
  cycled-Loops rounds held h (ok outcome, now, after) more go e =
      elim (Bool-cases (deps.is_aborted after)) [
        | inl q ↦ rw q (halted 0 held h (omega arith) none_yet (aborted_after go e q))
        | inr q ↦ elim (Result-cases (deps.on_sleep after config.poll_interval_ms)) [
          | inl (x, w) ↦ rw (q, w) (halted 0 held h (omega arith) none_yet (sleep_threw go e q w))
          | inr (u, w) ↦
              rw (q, w)
                (later rounds
                  (record {
                    running = go;
                    outcome = outcome;
                    after = after;
                    cycled = e;
                    still_running = q;
                    rested = w;
                    calls = refl;
                  })
                  (more now (slept config.poll_interval_ms ∷ after)))
        ]
      ]

  run_rounds-Loops :
      (rounds : ℕ) (held : HeldIssues) (h : Calls)
      → (let t = run_rounds deps config rounds held h in Loops rounds held h t.0 t.1 t.2)
  unfolding run_rounds
  run_rounds-Loops zero held h = went_on none_yet refl
  run_rounds-Loops (suc rounds) held h = elim (Bool-cases (deps.is_aborted h)) [
    | inl e ↦ rw e (halted 0 held h (omega arith) none_yet (aborted_before e))
    | inr e ↦
        rw e (
          cycled-Loops rounds held h (run_once deps config held h) (run_rounds-Loops rounds) e refl)
  ]

  -- How a run goes: its reconciliation throws, or it returns and the loop follows.
  pub data Runs (rounds : ℕ) (held : HeldIssues) (h : Calls) (r : Result RunStatus)
      (held' : HeldIssues) (h' : Calls) : Type 0 where
    not_reconciled :
        (x : Failure)
        → deps.on_reconcile h ≡ err x
        → r ≡ err x
        → held' ≡ held
        → h' ≡ reconciled ∷ h
        → Runs rounds held h r held' h'
    looped :
        deps.on_reconcile h ≡ ok tt
        → Loops rounds held (reconciled ∷ h) r held' h'
        → Runs rounds held h r held' h'

  -- A run reconciles first, and where that throws it polls nothing. Then it goes through whole rounds,
  -- each a cycle and a sleep that return with the signal not aborted before and after the cycle. It
  -- ends as stopped only on an aborted signal, before a cycle or behind one and before the sleep; a
  -- cycle or a sleep that throws ends it with what was thrown; and it runs out of its rounds only
  -- after that many whole ones.
  pub run-Runs :
      (rounds : ℕ) (held : HeldIssues) (h : Calls)
      → (let t = run deps config rounds held h in Runs rounds held h t.0 t.1 t.2)
  unfolding run after_reconciliation
  run-Runs rounds held h = elim (Result-cases (deps.on_reconcile h)) [
    | inl (x, e) ↦ rw e (not_reconciled x e refl refl refl)
    | inr (u, e) ↦ rw e (looped e (run_rounds-Loops rounds held (reconciled ∷ h)))
  ]
