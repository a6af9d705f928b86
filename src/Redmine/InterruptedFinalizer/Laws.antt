-- ===== src/Redmine/InterruptedFinalizer/Laws.antt =====
-- What the finalizer of interrupted executions confirms, and what it leaves alone.
use ai_agent_runner.Base.{
  ℕ, String, ◌≡◌, refl, sym, ap, subst, ◌∙◌, nat_beq, true, List, [], ◌∷◌, arith, inl, inr,
}
use ai_agent_runner.Base.Lists.{All, includes}
use ai_agent_runner.Failure.{
  Result, ok, ◌>>=◌, ◌>>◌, >>=-eq-ok, require, require-eq-ok, Result-cases,
}
use ai_agent_runner.World.{History, issue_read, issue_updated, clock_read}
use ai_agent_runner.Redmine.Domain.{
  RedmineIssueRecord, assert_scalar, assert_scalars, assert_all_written, assert_holds_written,
  scalar_of,
}
use ai_agent_runner.Redmine.FieldNames.{
  lifecycle, finished_at, outcome, artifact_reference, agent_running,
}
use ai_agent_runner.Redmine.Clock.{Clock}
use ai_agent_runner.Redmine.Client.{RedmineClient}
use ai_agent_runner.Redmine.Client.Trace.{WritesAtMostOnce}
use ai_agent_runner.Redmine.Scalars.{
  Holds, active_values, assert_scalar-eq-ok_iff, assert_scalars-eq-ok_iff, assert_all_written-Holds,
}
use ai_agent_runner.Redmine.Finalization.{
  IsFinalized, finalization-IsFinalized, finalization-WritesAtMostOnce, finalization_refused,
}
use ai_agent_runner.Redmine.InterruptedFinalizer.{
  mismatch, read_back_mismatch, DurableExecutionIdentity, read_values, identity_names,
  validate_identity, read_active_identity, assert_interrupted, InterruptedPlan, build_writes,
  interrupted_confirmed, assert_finalized, canonical_timestamp, plan_interrupted,
  finalize_interrupted,
}

read_values-Holds :
    (issue : RedmineIssueRecord) (names : List String) (values : List (String × String))
    → read_values issue names ≡ ok values
    → All (Holds issue) values
unfolding read_values
read_values-Holds issue [] [] h = tt
read_values-Holds issue [] (v ∷ vs) h = cc
read_values-Holds issue (name ∷ names) values h =
    let (value, read, r₁) =
      >>=-eq-ok (scalar_of issue name)
        (λ value. read_values issue names >>= λ rest. ok ((name, value) ∷ rest)) h in
    let (rest, more, r₂) =
      >>=-eq-ok (read_values issue names) (λ rest. ok ((name, value) ∷ rest)) r₁ in
    let same : (name, value) ∷ rest ≡ values = cc r₂ in
    subst (All (Holds issue)) same (read, read_values-Holds issue names rest more)

-- What an identity that was read says of its Issue.
pub record IsActiveIdentity (allowed : List ℕ) (issue : RedmineIssueRecord)
    (identity : DurableExecutionIdentity) : Type 0 where
  pub inside : includes allowed issue.project.id ≡ true
  pub running : All (Holds issue) active_values
  pub same_project : identity.project_id ≡ issue.project.id
  pub held : All (Holds issue) identity.values
  pub valid : validate_identity identity.values ≡ ok tt

read_active_identity-IsActiveIdentity :
    (allowed : List ℕ) (issue : RedmineIssueRecord) (identity : DurableExecutionIdentity)
    → read_active_identity allowed issue ≡ ok identity
    → IsActiveIdentity allowed issue identity
unfolding read_active_identity
read_active_identity-IsActiveIdentity allowed issue identity h =
    let (u₁, inside, r₁) = >>=-eq-ok (require (includes allowed issue.project.id) _) _ h in
    let (u₂, e₂, r₂) = >>=-eq-ok (assert_scalar mismatch issue lifecycle agent_running) _ r₁ in
    let (u₃, e₃, r₃) = >>=-eq-ok (assert_scalar mismatch issue finished_at "") _ r₂ in
    let (u₄, e₄, r₄) = >>=-eq-ok (assert_scalar mismatch issue outcome "") _ r₃ in
    let (u₅, e₅, r₅) = >>=-eq-ok (assert_scalar mismatch issue artifact_reference "") _ r₄ in
    let (values, e₆, r₆) =
      >>=-eq-ok (read_values issue identity_names)
        (λ values.
          validate_identity values
          >> ok (record { project_id = issue.project.id; values = values }))
        r₅ in
    let (u₇, e₇, r₇) =
      >>=-eq-ok (validate_identity values)
        (λ _. ok (record { project_id = issue.project.id; values = values })) r₆ in
    let made : record { project_id = issue.project.id; values = values } ≡ identity = cc r₇ in
    subst (IsActiveIdentity allowed issue) made (record {
      inside = require-eq-ok _ _ inside;
      running = (
        (assert_scalar-eq-ok_iff mismatch issue lifecycle agent_running).0 e₂,
        (
          (assert_scalar-eq-ok_iff mismatch issue finished_at "").0 e₃,
          (
            (assert_scalar-eq-ok_iff mismatch issue outcome "").0 e₄,
            ((assert_scalar-eq-ok_iff mismatch issue artifact_reference "").0 e₅, tt),
          ),
        ),
      );
      same_project = refl;
      held = read_values-Holds issue identity_names values e₆;
      valid = e₇;
    })

assert_interrupted-IsActiveIdentity :
    (issue_id : ℕ) (allowed : List ℕ) (issue : RedmineIssueRecord)
    (identity : DurableExecutionIdentity)
    → assert_interrupted issue_id allowed issue ≡ ok identity
    → IsActiveIdentity allowed issue identity
unfolding assert_interrupted
assert_interrupted-IsActiveIdentity issue_id allowed issue identity h =
    let (u, same, r) =
      >>=-eq-ok (require (nat_beq issue.id issue_id) _) (λ _. read_active_identity allowed issue)
        h in
    read_active_identity-IsActiveIdentity allowed issue identity r

assert_finalized-Holds :
    (issue_id : ℕ) (allowed : List ℕ) (plan : InterruptedPlan) (issue : RedmineIssueRecord)
    → assert_finalized issue_id allowed plan issue ≡ ok tt
    → All (Holds issue) plan.identity.values × All (Holds issue) interrupted_confirmed
unfolding assert_finalized
assert_finalized-Holds issue_id allowed plan issue h =
    let (u₁, e₁, r₁) = >>=-eq-ok (require (nat_beq issue.id issue_id) _) _ h in
    let (u₂, e₂, r₂) =
      >>=-eq-ok (require _ _)
        (λ _.
          assert_scalars mismatch issue plan.identity.values
          >> (assert_all_written read_back_mismatch issue plan.writes interrupted_confirmed
              >> assert_holds_written read_back_mismatch issue plan.writes finished_at))
        r₁ in
    let (u₃, same, r₃) = >>=-eq-ok (assert_scalars mismatch issue plan.identity.values) _ r₂ in
    let (u₄, wrote, r₄) =
      >>=-eq-ok (assert_all_written read_back_mismatch issue plan.writes interrupted_confirmed)
        (λ _. assert_holds_written read_back_mismatch issue plan.writes finished_at) r₃ in
    (
      (assert_scalars-eq-ok_iff mismatch issue plan.identity.values).0 same,
      assert_all_written-Holds read_back_mismatch issue plan.writes interrupted_confirmed wrote,
    )

build_writes-identity :
    (issue : RedmineIssueRecord) (identity : DurableExecutionIdentity) (finished : String)
    (plan : InterruptedPlan)
    → build_writes issue identity finished ≡ ok plan
    → plan.identity ≡ identity
unfolding build_writes
build_writes-identity issue identity finished plan h = ground arith

module _ (client : RedmineClient) (clock : Clock) (allowed : List ℕ) (issue_id : ℕ)
    (h : History) where
  finalize_interrupted-IsFinalized :
      (plan : InterruptedPlan) (h' : History)
      → finalize_interrupted client clock allowed issue_id h ≡ (ok plan, h')
      → IsFinalized client issue_id clock
          (assert_interrupted issue_id allowed)
          canonical_timestamp
          build_writes
          (λ (plan : InterruptedPlan). plan.writes)
          (assert_finalized issue_id allowed)
          h
          plan
          h'
  unfolding finalize_interrupted plan_interrupted
  finalize_interrupted-IsFinalized plan h' e =
      finalization-IsFinalized client issue_id clock (assert_interrupted issue_id allowed)
        canonical_timestamp build_writes (λ plan. plan.writes) (assert_finalized issue_id allowed) h
        plan h' e

  -- When the finalizer returns, the Issue that was read first was running in an allowed project with
  -- a valid identity, and the Issue read back holds every value of that identity with `Needs Human`,
  -- the outcome `interrupted` and an empty artifact reference.
  pub finalize_interrupted_confirmed :
      (plan : InterruptedPlan) (h' : History) (before after : RedmineIssueRecord)
      → finalize_interrupted client clock allowed issue_id h ≡ (ok plan, h')
      → client.on_get h issue_id ≡ ok before
      → client.on_get
          (issue_updated issue_id plan.writes ∷ clock_read ∷ issue_read issue_id ∷ h)
          issue_id
        ≡ ok after
      → IsActiveIdentity allowed before plan.identity
        × All (Holds after) plan.identity.values
        × All (Holds after) interrupted_confirmed
  finalize_interrupted_confirmed plan h' before after e b a =
      let f = finalize_interrupted-IsFinalized plan h' e in
      let was : ok f.before ≡ ok before = sym f.read_first ∙ b in
      let is : ok f.after ≡ ok after = sym f.read_back ∙ a in
      let identity = build_writes-identity f.before f.active f.finished plan f.built in
      let (same, finalized) =
        assert_finalized-Holds issue_id allowed plan after (cc (is, f.checked)) in
      (
        assert_interrupted-IsActiveIdentity issue_id allowed before plan.identity
            (cc (was, f.asserted, identity)),
        same,
        finalized,
      )

  -- Whatever Redmine answers, the finalizer updates at most once, and only its Issue.
  pub finalize_interrupted-WritesAtMostOnce :
      WritesAtMostOnce issue_id
        (λ (plan : InterruptedPlan). plan.writes)
        h
        (finalize_interrupted client clock allowed issue_id h).1
  unfolding finalize_interrupted plan_interrupted
  finalize_interrupted-WritesAtMostOnce =
      finalization-WritesAtMostOnce client issue_id clock (assert_interrupted issue_id allowed)
        canonical_timestamp build_writes (λ plan. plan.writes) (assert_finalized issue_id allowed) h

  -- An Issue that is not running, or that has an end, an outcome or an artifact, is read and left.
  pub finalize_interrupted_not_active :
      (before : RedmineIssueRecord)
      → client.on_get h issue_id ≡ ok before
      → ¬ All (Holds before) active_values
      → (finalize_interrupted client clock allowed issue_id h).1 ≡ issue_read issue_id ∷ h
  unfolding finalize_interrupted plan_interrupted
  finalize_interrupted_not_active before first ended =
      elim (Result-cases (assert_interrupted issue_id allowed before)) [
        | inl (x, e) ↦
            ap (λ (t : Result InterruptedPlan × History). t.1)
              (finalization_refused client issue_id clock (assert_interrupted issue_id allowed)
                canonical_timestamp build_writes (λ plan. plan.writes)
                (assert_finalized issue_id allowed) h before x first e)
        | inr (identity, e) ↦
            absurd (
              ended
                (assert_interrupted-IsActiveIdentity issue_id allowed before identity e).running)
      ]
