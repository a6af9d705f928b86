-- ===== src/Redmine/Client/Trace.antt =====
-- What a confirmed update leaves in the history of calls.
use ai_agent_runner.Base.{ℕ, ◌≡◌, refl, ap, ◌∙◌, inl, inr, List, [], ◌∷◌, arith}
use ai_agent_runner.Failure.{Failure, Result, ok, err, Result-cases}
use ai_agent_runner.Exec.{Exec, pure, bind-eq-ok, call-eq-ok, lift-eq-ok, continue}
use ai_agent_runner.World.{Event, History, issue_read, issue_updated}
use ai_agent_runner.Redmine.Domain.{RedmineIssueRecord, CustomFieldWrite}
use ai_agent_runner.Redmine.Client.{
  RedmineClient, confirmed_update, plan_from, write_once, read_again, examine,
}

-- The writes to Issues in a history, the latest first.
unfoldable pub updates : History → List (ℕ × List CustomFieldWrite)
updates [] = []
updates (issue_updated id ws ∷ h) = (id, ws) ∷ updates h
updates (_ ∷ h) = updates h

-- The computation writes to no Issue.
abbrev pub Quiet : {A : Type 0} → Exec Event A → Type 0
Quiet m = (h : History) → updates (m h).1 ≡ updates h

-- At most one update more than before, and that to the Issue `id` with planned writes.
pub data WritesAtMostOnce {P : Type 0} (id : ℕ) (writes : P → List CustomFieldWrite)
    (h h' : History) : Type 0 where
  untouched : updates h' ≡ updates h → WritesAtMostOnce id writes h h'
  written :
      (plan : P) → updates h' ≡ (id, writes plan) ∷ updates h → WritesAtMostOnce id writes h h'

module _ {P : Type 0} (client : RedmineClient) (id : ℕ)
    (prepare : RedmineIssueRecord → Exec Event P) (writes : P → List CustomFieldWrite)
    (check : P → RedmineIssueRecord → Result (Unit {0})) where
  -- The calls behind a success: the Issue that was planned from, the history after planning, and
  -- the Issue that was read back and passed the check.
  pub record IsConfirmed (h : History) (plan : P) (h' : History) : Type 0 where
    pub before : RedmineIssueRecord
    pub planned : History
    pub after : RedmineIssueRecord
    pub read_first : client.on_get h id ≡ ok before
    pub prepared : prepare before (issue_read id ∷ h) ≡ (ok plan, planned)
    pub accepted : client.on_update planned id (writes plan) ≡ ok tt
    pub read_back : client.on_get (issue_updated id (writes plan) ∷ planned) id ≡ ok after
    pub checked : check plan after ≡ ok tt
    pub calls : h' ≡ issue_read id ∷ issue_updated id (writes plan) ∷ planned

  IsConfirmed-of_answers :
      (h planned : History) (before after : RedmineIssueRecord) (plan plan' : P) (h' : History)
      → client.on_get h id ≡ ok before
      → prepare before (issue_read id ∷ h) ≡ (ok plan', planned)
      → client.on_update planned id (writes plan') ≡ ok tt
      → client.on_get (issue_updated id (writes plan') ∷ planned) id ≡ ok after
      → check plan' after ≡ ok tt
      → pure plan' (issue_read id ∷ issue_updated id (writes plan') ∷ planned) ≡ (ok plan, h')
      → IsConfirmed h plan h'
  IsConfirmed-of_answers h planned before after plan plan' h' first prepared wrote second checked
        e =
      let same : plan' ≡ plan = cc e in
      record {
        before = before;
        planned = planned;
        after = after;
        read_first = first;
        prepared = rw (← same) prepared;
        accepted = rw (← same) wrote;
        read_back = rw (← same) second;
        checked = rw (← same) checked;
        calls = cc (e, same);
      }

  pub confirmed_update-IsConfirmed :
      (h : History) {plan : P} {h' : History}
      → confirmed_update client id prepare writes check h ≡ (ok plan, h')
      → IsConfirmed h plan h'
  unfolding confirmed_update plan_from write_once read_again examine
  confirmed_update-IsConfirmed h {plan} {h'} e =
      let (before, first, r₁) =
        call-eq-ok (plan_from client id prepare writes check) (issue_read id)
          (λ g. client.on_get g id) h e in
      let (plan', planned, prepared, r₂) =
        bind-eq-ok (prepare before) (write_once client id prepare writes check) (issue_read id ∷ h)
          r₁ in
      let (u, wrote, r₃) =
        call-eq-ok (read_again client id prepare writes check plan')
          (issue_updated id (writes plan')) (λ g. client.on_update g id (writes plan')) planned
          r₂ in
      let (after, second, r₄) =
        call-eq-ok (examine client id prepare writes check plan') (issue_read id)
          (λ g. client.on_get g id) (issue_updated id (writes plan') ∷ planned) r₃ in
      let (v, checked, r₅) =
        lift-eq-ok (λ (_ : Unit {0}). pure plan') (check plan' after)
          (issue_read id ∷ issue_updated id (writes plan') ∷ planned) r₄ in
      IsConfirmed-of_answers h planned before after plan plan' h' first prepared wrote second
        checked r₅

  write_once-updates :
      (plan : P) (h : History)
      → updates (write_once client id prepare writes check plan h).1 ≡ (id, writes plan) ∷ updates h
  unfolding write_once read_again examine updates
  write_once-updates plan h = ground arith

  planned_or_written :
      (h h₀ : History) (before : RedmineIssueRecord) (s : Result P × History)
      → updates (prepare before h₀).1 ≡ updates h
      → prepare before h₀ ≡ s
      → WritesAtMostOnce id writes h
          (continue (write_once client id prepare writes check) s.0 s.1).1
  planned_or_written h h₀ before (ok plan, h₁) q e =
      written plan
        (write_once-updates plan h₁ ∙ cc (q, ap (λ (t : Result P × History). updates t.1) e))
  planned_or_written h h₀ before (err x, h₁) q e =
      untouched (cc (q, ap (λ (t : Result P × History). updates t.1) e))

  pub confirmed_update-WritesAtMostOnce :
      ((i : RedmineIssueRecord) → Quiet (prepare i))
      → (h : History)
      → WritesAtMostOnce id writes h (confirmed_update client id prepare writes check h).1
  unfolding confirmed_update plan_from updates
  confirmed_update-WritesAtMostOnce quiet h = elim (Result-cases (client.on_get h id)) [
    | inl (x, e) ↦ rw e (untouched refl)
    | inr (before, e) ↦ rw e (
        planned_or_written h (issue_read id ∷ h) before (prepare before (issue_read id ∷ h))
          (quiet before (issue_read id ∷ h)) refl)
  ]

  -- A failing plan ends the computation before any write.
  pub confirmed_update_refused :
      (h h₁ : History) (before : RedmineIssueRecord) (x : Failure)
      → client.on_get h id ≡ ok before
      → prepare before (issue_read id ∷ h) ≡ (err x, h₁)
      → confirmed_update client id prepare writes check h ≡ (err x, h₁)
  unfolding confirmed_update plan_from
  confirmed_update_refused h h₁ before x first refused = rw first (
      ap (λ (t : Result P × History). continue (write_once client id prepare writes check) t.0 t.1)
        refused)

  -- Where the plan is made, the write accepted and the check passed, the computation succeeds.
  pub confirmed_update_succeeds :
      (h h₁ : History) (before after : RedmineIssueRecord) (plan : P)
      → client.on_get h id ≡ ok before
      → prepare before (issue_read id ∷ h) ≡ (ok plan, h₁)
      → client.on_update h₁ id (writes plan) ≡ ok tt
      → client.on_get (issue_updated id (writes plan) ∷ h₁) id ≡ ok after
      → check plan after ≡ ok tt
      → confirmed_update client id prepare writes check h
        ≡ (ok plan, issue_read id ∷ issue_updated id (writes plan) ∷ h₁)
  unfolding confirmed_update plan_from
  confirmed_update_succeeds h h₁ before after plan first planned wrote second checked = rw first (
      ap (λ (t : Result P × History). continue (write_once client id prepare writes check) t.0 t.1)
        planned
      ∙ (unfold write_once read_again examine in rw (wrote, second, checked)))
