-- ===== src/Controller/Run.antt =====
-- The outer loop: `run` of `AgentController` in src/controller/controller.ts. The source's loop ends
-- when its signal is aborted or a cycle throws; here it runs for a number of rounds at most, and says
-- whether it stopped or ran out of them. The signal is a function of the history.
pub mod Rounds
use ai_agent_runner.Base.{ℕ, zero, suc, ◌≡◌, refl, ◌∙◌, inl, inr, Bool-cases, if◌then◌else◌, ◌∷◌}
use ai_agent_runner.Failure.{Result, ok, err, Result-cases}
use ai_agent_runner.Controller.Lock.{HeldIssues}
use ai_agent_runner.Controller.Calls.{Calls, ControllerDependencies, reconciled, slept}
use ai_agent_runner.Controller.Polling.{ControllerConfig, CandidateProcessingResult, run_once}
use ai_agent_runner.Controller.Polling.Cycle.{run_once-held}

pub data RunStatus : Type 0 where
  stopped out_of_rounds : RunStatus

module _ (deps : ControllerDependencies) (config : ControllerConfig) where
  unfoldable pub after_sleep :
      (HeldIssues → Calls → Result RunStatus × HeldIssues × Calls)
      → Result (Unit {0})
      → HeldIssues
      → Calls
      → Result RunStatus × HeldIssues × Calls
  after_sleep rest (ok u) held h = rest held h
  after_sleep rest (err e) held h = (err e, held, h)

  -- The second test of the signal, and the sleep.
  unfoldable pub after_cycle :
      (HeldIssues → Calls → Result RunStatus × HeldIssues × Calls)
      → Result CandidateProcessingResult × HeldIssues × Calls
      → Result RunStatus × HeldIssues × Calls
  after_cycle rest (err e, held, h) = (err e, held, h)
  after_cycle rest (ok u, held, h) =
      if deps.is_aborted h
      then (ok stopped, held, h)
      else after_sleep rest (deps.on_sleep h config.poll_interval_ms) held
          (slept config.poll_interval_ms ∷ h)

  unfoldable pub run_rounds : ℕ → HeldIssues → Calls → Result RunStatus × HeldIssues × Calls
  run_rounds zero held h = (ok out_of_rounds, held, h)
  run_rounds (suc rounds) held h =
      let rest = run_rounds rounds in
      if deps.is_aborted h
      then (ok stopped, held, h)
      else after_cycle rest (run_once deps config held h)

  unfoldable pub after_reconciliation :
      ℕ → Result (Unit {0}) → HeldIssues → Calls → Result RunStatus × HeldIssues × Calls
  after_reconciliation rounds (err e) held h = (err e, held, h)
  after_reconciliation rounds (ok u) held h = run_rounds rounds held h

  unfoldable pub run : ℕ → HeldIssues → Calls → Result RunStatus × HeldIssues × Calls
  run rounds held h = after_reconciliation rounds (deps.on_reconcile h) held (reconciled ∷ h)

  after_sleep-held :
      (rest : HeldIssues → Calls → Result RunStatus × HeldIssues × Calls) (r : Result (Unit {0}))
      (held : HeldIssues) (h : Calls)
      → ((k : HeldIssues) (g : Calls) → (rest k g).1 ≡ k)
      → (after_sleep rest r held h).1 ≡ held
  unfolding after_sleep
  after_sleep-held rest (ok u) held h keeps = keeps held h
  after_sleep-held rest (err e) held h keeps = refl

  after_cycle-held :
      (rest : HeldIssues → Calls → Result RunStatus × HeldIssues × Calls)
      (s : Result CandidateProcessingResult × HeldIssues × Calls)
      → ((k : HeldIssues) (g : Calls) → (rest k g).1 ≡ k)
      → (after_cycle rest s).1 ≡ s.1
  unfolding after_cycle
  after_cycle-held rest (err e, held, h) keeps = refl
  after_cycle-held rest (ok u, held, h) keeps = elim (Bool-cases (deps.is_aborted h)) [
    | inl e ↦ rw e refl
    | inr e ↦ rw e (after_sleep-held rest _ held _ keeps)
  ]

  run_rounds-held :
      (rounds : ℕ) (held : HeldIssues) (h : Calls) → (run_rounds rounds held h).1 ≡ held
  unfolding run_rounds
  run_rounds-held zero held h = refl
  run_rounds-held (suc rounds) held h = elim (Bool-cases (deps.is_aborted h)) [
    | inl e ↦ rw e refl
    | inr e ↦ rw e (
        after_cycle-held (run_rounds rounds) (run_once deps config held h) (run_rounds-held rounds)
        ∙ run_once-held deps config held h)
  ]

  -- After any number of rounds, whatever the dependencies answer or throw, the lock holds the ids
  -- that it held at the start.
  pub run-held : (rounds : ℕ) (held : HeldIssues) (h : Calls) → (run rounds held h).1 ≡ held
  unfolding run after_reconciliation
  run-held rounds held h = elim (Result-cases (deps.on_reconcile h)) [
    | inl (x, e) ↦ rw e refl
    | inr (u, e) ↦ rw e (run_rounds-held rounds held (reconciled ∷ h))
  ]
