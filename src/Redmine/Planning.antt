-- ===== src/Redmine/Planning.antt =====
-- How the finalizers of src/redmine plan their writes: assert that the execution is active, read the
-- clock, write the time in its canonical form, and build the writes.
use ai_agent_runner.Base.{String, ◌≡◌, ap, sym, Option, ◌∷◌, arith}
use ai_agent_runner.Failure.{Failure, Result, ok, err}
use ai_agent_runner.Exec.{Exec, ◌>>=◌, lift, lift-eq-ok, call-eq-ok}
use ai_agent_runner.World.{Event, History, clock_read}
use ai_agent_runner.Redmine.Domain.{RedmineIssueRecord}
use ai_agent_runner.Redmine.Clock.{Clock, read_clock}
use ai_agent_runner.Redmine.Client.Trace.{Quiet, updates}

module _ {S P : Type 0} (clock : Clock) (assert : RedmineIssueRecord → Result S)
    (canonical : Option String → Result String)
    (build : RedmineIssueRecord → S → String → Result P) where
  unfoldable pub plan_with : RedmineIssueRecord → S → Option String → Exec Event P
  plan_with before active now = do
    finished ← lift (canonical now)
    lift (build before active finished)

  unfoldable pub plan_at_time : RedmineIssueRecord → Exec Event P
  plan_at_time before = do
    active ← lift (assert before)
    now ← read_clock clock
    plan_with before active now

  pub plan_at_time-Quiet : (before : RedmineIssueRecord) → Quiet (plan_at_time before)
  unfolding plan_at_time plan_with updates
  plan_at_time-Quiet before h = ground arith

  -- The parts of a plan that was made.
  pub plan_at_time_parts :
      (before : RedmineIssueRecord) (h h' : History) (plan : P)
      → plan_at_time before h ≡ (ok plan, h')
      → (active : S) × (finished : String) × (assert before ≡ ok active)
        × (canonical (clock h) ≡ ok finished)
        × (build before active finished ≡ ok plan)
        × (h' ≡ clock_read ∷ h)
  unfolding plan_at_time plan_with
  plan_at_time_parts before h h' plan e =
      let (active, asserted, r₁) =
        lift-eq-ok (λ active. read_clock clock >>= plan_with before active) (assert before) h e in
      let (now, answered, r₂) =
        call-eq-ok (plan_with before active) clock_read (λ g. ok (clock g)) h r₁ in
      let (finished, canon, r₃) =
        lift-eq-ok (λ finished. lift (build before active finished)) (canonical now)
          (clock_read ∷ h) r₂ in
      let same : ok (clock h) ≡ ok now = answered in
      (
        active,
        finished,
        asserted,
        cc (same, canon),
        ap (λ (t : Result P × History). t.0) r₃,
        sym (ap (λ (t : Result P × History). t.1) r₃),
      )

  pub plan_at_time-eq-ok :
      (before : RedmineIssueRecord) (h : History) (active : S) (finished : String) (plan : P)
      → assert before ≡ ok active
      → canonical (clock h) ≡ ok finished
      → build before active finished ≡ ok plan
      → plan_at_time before h ≡ (ok plan, clock_read ∷ h)
  unfolding plan_at_time plan_with
  plan_at_time-eq-ok before h active finished plan a c b = rw (a, c, b)

  pub plan_at_time_refused :
      (before : RedmineIssueRecord) (h : History) (x : Failure)
      → assert before ≡ err x
      → plan_at_time before h ≡ (err x, h)
  unfolding plan_at_time
  plan_at_time_refused before h x a = rw a
