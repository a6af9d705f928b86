-- ===== src/Redmine/RejectionWriter/Laws.antt =====
-- What a rejection confirms, and what it leaves alone.
use ai_agent_runner.Base.{
  inl, inr, subst, ℕ, String, ◌≡◌, refl, sym, ap, ◌∙◌, eq_iff, ◌==◌, ◌&&◌, true, List, [], ◌∷◌,
  arith, nat_beq,
}
use ai_agent_runner.Base.Lists.{All, includes}
use ai_agent_runner.Failure.{Result, ok, >>=-eq-ok, require, require-eq-ok, Result-cases}
use ai_agent_runner.World.{History, issue_read, issue_updated, clock_read}
use ai_agent_runner.Redmine.Domain.{
  RedmineIssueRecord, CustomFieldWrite, find_unique_custom_field, scalar_custom_field_value,
  scalar_of,
}
use ai_agent_runner.Redmine.FieldNames.{
  lifecycle, rejected_at, rejection_outcome, rejection_diagnostic, needs_human,
  durable_execution_field_names,
}
use ai_agent_runner.Redmine.Client.{RedmineClient}
use ai_agent_runner.Redmine.Client.Trace.{WritesAtMostOnce}
use ai_agent_runner.Redmine.Clock.{Clock}
use ai_agent_runner.Redmine.Scalars.{Holds}
use ai_agent_runner.Redmine.Guard.{Binding, bind_pristine_durable_execution_fields}
use ai_agent_runner.Redmine.Guard.Laws.{IsPristineEntry, names_of, bind_pristine-eq-ok_iff}
use ai_agent_runner.Redmine.Finalization.{
  finalization-IsFinalized, finalization-WritesAtMostOnce, finalization_refused,
}
use ai_agent_runner.Redmine.RejectionWriter.{
  rejection_outcome_text, RejectionBasis, assert_rejectable, build_rejection_writes,
  read_back_values, read_back_written, assert_rejection_read_back, iso_string, reject,
}
use ai_agent_runner.Controller.Types.{PreExecutionRejectionOutcome}

read_back_values-Holds :
    (issue : RedmineIssueRecord) (writes : List CustomFieldWrite) (pairs : List (String × String))
    → read_back_values issue writes pairs ≡ ok tt
    → All (Holds issue) pairs
unfolding read_back_values scalar_of
read_back_values-Holds issue writes [] h = tt
read_back_values-Holds issue writes ((name, value) ∷ pairs) h =
    let (field, found, r₁) = >>=-eq-ok (find_unique_custom_field issue name) _ h in
    let (actual, read, r₂) = >>=-eq-ok (scalar_custom_field_value field) _ r₁ in
    let (u, same, r₃) = >>=-eq-ok (require _ _) (λ _. read_back_values issue writes pairs) r₂ in
    let test : (actual == value) ≡ true = ground (arith, require-eq-ok _ _ same) in
    (
      rw found (cc (read, (eq_iff actual value).0 test)),
      read_back_values-Holds issue writes pairs r₃,
    )

-- A record that a guard let through.
abbrev pub IsPristine : RedmineIssueRecord → Type 0
IsPristine issue = All (λ name. Holds issue (name, "")) durable_execution_field_names

pristine_names :
    (issue : RedmineIssueRecord) (fields : Binding)
    → All (IsPristineEntry issue) fields
    → All (λ name. Holds issue (name, "")) (names_of fields)
unfolding scalar_of
pristine_names issue [] h = tt
pristine_names issue ((name, field) ∷ fields) ((found, read), hs) =
    (rw (found, read) refl, pristine_names issue fields hs)

assert_rejectable-IsPristine :
    (sanitize : String → Result String) (allowed : List ℕ) (id : ℕ) (diagnostic : String)
    (issue : RedmineIssueRecord) (basis : RejectionBasis)
    → assert_rejectable sanitize allowed id diagnostic issue ≡ ok basis
    → IsPristine issue
unfolding assert_rejectable
assert_rejectable-IsPristine sanitize allowed id diagnostic issue basis h =
    let (u₁, e₁, r₁) = >>=-eq-ok (require (nat_beq issue.id id) _) _ h in
    let (u₂, e₂, r₂) = >>=-eq-ok (require (includes allowed issue.project.id) _) _ r₁ in
    let (fields, e₃, r₃) = >>=-eq-ok (bind_pristine_durable_execution_fields issue) _ r₂ in
    let (same, pristine, apart) = (bind_pristine-eq-ok_iff issue fields).0 e₃ in
    subst (All (λ name. Holds issue (name, ""))) same (pristine_names issue fields pristine)

assert_rejection_read_back-Holds :
    (allowed : List ℕ) (issue_id : ℕ) (reason : PreExecutionRejectionOutcome)
    (writes : List CustomFieldWrite) (issue : RedmineIssueRecord)
    → assert_rejection_read_back allowed issue_id reason writes issue ≡ ok tt
    → Holds issue (lifecycle, needs_human)
      × Holds issue (rejection_outcome, rejection_outcome_text reason)
unfolding assert_rejection_read_back
assert_rejection_read_back-Holds allowed issue_id reason writes issue h =
    let confirmed : List (String × String) =
      (lifecycle, needs_human) ∷ (rejection_outcome, rejection_outcome_text reason) ∷ [] in
    let (u₁, e₁, r₁) =
      >>=-eq-ok (require (nat_beq issue.id issue_id && includes allowed issue.project.id) _) _ h in
    let (u₂, values, r₂) =
      >>=-eq-ok (read_back_values issue writes confirmed)
        (λ _. read_back_written issue writes (rejected_at ∷ rejection_diagnostic ∷ [])) r₁ in
    let (needs, (outcome, end)) = read_back_values-Holds issue writes confirmed values in
    (needs, outcome)

module _ (client : RedmineClient) (clock : Clock) (sanitize : String → Result String)
    (allowed : List ℕ) (issue_id : ℕ) (reason : PreExecutionRejectionOutcome) (diagnostic : String)
    (h : History) where
  -- When a rejection returns, the Issue that was read first had an empty text in each of the
  -- fourteen durable fields, and the Issue read back holds `Needs Human` and the outcome of the
  -- rejection.
  pub reject_confirmed :
      (writes : List CustomFieldWrite) (h' : History) (before after : RedmineIssueRecord)
      → reject client clock sanitize allowed issue_id reason diagnostic h ≡ (ok writes, h')
      → client.on_get h issue_id ≡ ok before
      → client.on_get
          (issue_updated issue_id writes ∷ clock_read ∷ issue_read issue_id ∷ h)
          issue_id
        ≡ ok after
      → IsPristine before
        × Holds after (lifecycle, needs_human)
        × Holds after (rejection_outcome, rejection_outcome_text reason)
  unfolding reject
  reject_confirmed writes h' before after e b a =
      let f =
        finalization-IsFinalized client issue_id clock
          (assert_rejectable sanitize allowed issue_id diagnostic) iso_string
          (build_rejection_writes reason) (λ writes. writes)
          (assert_rejection_read_back allowed issue_id reason) h writes h' e in
      let was : ok f.before ≡ ok before = sym f.read_first ∙ b in
      let is : ok f.after ≡ ok after = sym f.read_back ∙ a in
      let (needs, outcome) =
        assert_rejection_read_back-Holds allowed issue_id reason writes f.after f.checked in
      (
        subst IsPristine (cc was) (
            assert_rejectable-IsPristine sanitize allowed issue_id diagnostic f.before f.active
              f.asserted),
        cc (needs, is),
        cc (outcome, is),
      )

  -- A rejection updates at most once, and only its Issue, whatever Redmine, the clock and the
  -- sanitizer answer.
  pub reject-WritesAtMostOnce :
      WritesAtMostOnce issue_id
        (λ (writes : List CustomFieldWrite). writes)
        h
        (reject client clock sanitize allowed issue_id reason diagnostic h).1
  unfolding reject
  reject-WritesAtMostOnce =
      finalization-WritesAtMostOnce client issue_id clock
        (assert_rejectable sanitize allowed issue_id diagnostic) iso_string
        (build_rejection_writes reason) (λ writes. writes)
        (assert_rejection_read_back allowed issue_id reason) h

  -- Where the durable record of the Issue is not pristine, a rejection reads the Issue and writes
  -- nothing.
  pub reject_not_pristine :
      (before : RedmineIssueRecord)
      → client.on_get h issue_id ≡ ok before
      → ¬ IsPristine before
      → (reject client clock sanitize allowed issue_id reason diagnostic h).1
        ≡ issue_read issue_id ∷ h
  unfolding reject
  reject_not_pristine before first dirty =
      elim (Result-cases (assert_rejectable sanitize allowed issue_id diagnostic before)) [
        | inl (x, e) ↦
            ap (λ (t : Result (List CustomFieldWrite) × History). t.1)
              (finalization_refused client issue_id clock
                (assert_rejectable sanitize allowed issue_id diagnostic) iso_string
                (build_rejection_writes reason) (λ writes. writes)
                (assert_rejection_read_back allowed issue_id reason) h before x first e)
        | inr (basis, e) ↦ absurd (
            dirty
              (assert_rejectable-IsPristine sanitize allowed issue_id diagnostic before basis e))
      ]
