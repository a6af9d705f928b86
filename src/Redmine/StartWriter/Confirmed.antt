-- ===== src/Redmine/StartWriter/Confirmed.antt =====
-- The start of an execution against any Redmine, whatever it answers and whoever else writes.
use ai_agent_runner.Base.{ℕ, String, ◌≡◌, ◌≢◌, [], inl, inr, refl, sym, ap, subst, ◌∙◌, List, ◌∷◌}
use ai_agent_runner.Base.Lists.{All, In}
use ai_agent_runner.Failure.{Failure, Result, ok, err, >>=-eq-ok, Result-cases}
use ai_agent_runner.Exec.{lift}
use ai_agent_runner.World.{History, issue_read, issue_updated}
use ai_agent_runner.Redmine.Domain.{
  RedmineCustomField, RedmineIssueRecord, CustomFieldWrite, find_unique_custom_field,
  scalar_custom_field_value,
}
use ai_agent_runner.Redmine.FieldNames.{durable_execution_field_names}
use ai_agent_runner.Redmine.Client.{RedmineClient}
use ai_agent_runner.Redmine.Client.Trace.{
  IsConfirmed, confirmed_update-IsConfirmed, WritesAtMostOnce, confirmed_update-WritesAtMostOnce,
  confirmed_update_refused,
}
use ai_agent_runner.Redmine.Guard.{Binding, bind_pristine_durable_execution_fields}
use ai_agent_runner.Redmine.Guard.Laws.{IsPristineEntry, names_of, bind_pristine-eq-ok_iff}
use ai_agent_runner.Redmine.StartWriter.{
  value_for, start_values, build_start_writes, assert_exact_start_read_back, plan_start,
  check_start, persist_and_confirm, assert_allowed_issue,
}
use ai_agent_runner.Redmine.StartWriter.Laws.{
  build_start_writes-IsStartPlan, start_fields_read_back-IsReadBack, confirmed_value,
}
use ai_agent_runner.Execution.Types.{PreparedExecution}

-- A bound field of a pristine binding holds the empty text.
pristine_value :
    (issue : RedmineIssueRecord) (fields : Binding) (name : String) (field : RedmineCustomField)
    → All (IsPristineEntry issue) fields
    → In name (names_of fields)
    → find_unique_custom_field issue name ≡ ok field
    → scalar_custom_field_value field ≡ ok ""
pristine_value issue [] name field h i found = elim i [ ]
pristine_value issue ((key, f) ∷ fields) name field ((bound, read), h) (inl e) found =
    cc (bound, read, e, found)
pristine_value issue ((key, f) ∷ fields) name field (entry, h) (inr i) found =
    pristine_value issue fields name field h i found

-- An Issue with a field of the record that is not empty is refused by the guard.
guard_refuses :
    (issue : RedmineIssueRecord) (name value : String) (field : RedmineCustomField)
    → In name durable_execution_field_names
    → find_unique_custom_field issue name ≡ ok field
    → scalar_custom_field_value field ≡ ok value
    → value ≢ ""
    → (x : Failure) × (bind_pristine_durable_execution_fields issue ≡ err x)
guard_refuses issue name value field i found read given =
    elim (Result-cases (bind_pristine_durable_execution_fields issue)) [
      | inl (x, e) ↦ (x, e)
      | inr (fields, e) ↦
          let (same, pristine, apart) = (bind_pristine-eq-ok_iff issue fields).0 e in
          let empty : scalar_custom_field_value field ≡ ok "" =
            pristine_value issue fields name field pristine (subst (In name) (sym same) i) found in
          absurd (given (cc (empty, read)))
    ]

module _ (client : RedmineClient) (allowed : List ℕ) (execution : PreparedExecution)
    (h : History) where
  abbrev StartConfirmedCalls : List CustomFieldWrite → History → Type 0
  StartConfirmedCalls =
      IsConfirmed client execution.input.issue_id
        (λ before. lift (plan_start allowed execution before)) (λ writes. writes)
        (check_start allowed execution) h

  persist_and_confirm-IsConfirmed :
      (writes : List CustomFieldWrite) (h' : History)
      → persist_and_confirm client allowed execution h ≡ (ok writes, h')
      → StartConfirmedCalls writes h'
  unfolding persist_and_confirm
  persist_and_confirm-IsConfirmed writes h' e =
      confirmed_update-IsConfirmed client execution.input.issue_id
        (λ before. lift (plan_start allowed execution before)) (λ writes. writes)
        (check_start allowed execution) h e

  -- A start that returns has made exactly one update, between two reads of its Issue.
  pub persist_and_confirm_calls :
      (writes : List CustomFieldWrite) (h' : History)
      → persist_and_confirm client allowed execution h ≡ (ok writes, h')
      → h'
        ≡ issue_read execution.input.issue_id
          ∷ issue_updated execution.input.issue_id writes
          ∷ issue_read execution.input.issue_id
          ∷ h
  persist_and_confirm_calls writes h' e =
      let c = persist_and_confirm-IsConfirmed writes h' e in
      cc (c.calls, ap (λ (t : Result (List CustomFieldWrite) × History). t.1) c.prepared)

  -- When a start returns, each of the fourteen durable fields that kept its id between the two
  -- reads holds, in the Issue that was read back, the value that the start projects for its name.
  pub persist_and_confirm_values :
      (writes : List CustomFieldWrite) (h' : History) (before after : RedmineIssueRecord)
      (name value : String) (old new : RedmineCustomField)
      → persist_and_confirm client allowed execution h ≡ (ok writes, h')
      → client.on_get h execution.input.issue_id ≡ ok before
      → client.on_get
          (issue_updated execution.input.issue_id writes ∷ issue_read execution.input.issue_id ∷ h)
          execution.input.issue_id
        ≡ ok after
      → In name durable_execution_field_names
      → value_for (start_values execution) name ≡ ok value
      → find_unique_custom_field before name ≡ ok old
      → find_unique_custom_field after name ≡ ok new
      → old.id ≡ new.id
      → scalar_custom_field_value new ≡ ok value
  unfolding plan_start check_start assert_exact_start_read_back
  persist_and_confirm_values writes h' before after name value old new e b a i projected o n same =
      let c = persist_and_confirm-IsConfirmed writes h' e in
      let was : ok c.before ≡ ok before = sym c.read_first ∙ b in
      let planned : issue_read execution.input.issue_id ∷ h ≡ c.planned =
        ap (λ (t : Result (List CustomFieldWrite) × History). t.1) c.prepared in
      let back : client.on_get
            (issue_updated execution.input.issue_id writes
              ∷ issue_read execution.input.issue_id
              ∷ h)
            execution.input.issue_id
          ≡ ok c.after =
        subst
          (λ g.
            client.on_get (issue_updated execution.input.issue_id writes ∷ g)
              execution.input.issue_id
            ≡ ok c.after)
          (sym planned) c.read_back in
      let is : ok c.after ≡ ok after = sym back ∙ a in
      let (u, allowed_before, built) =
        >>=-eq-ok (assert_allowed_issue allowed execution c.before)
          (λ _. build_start_writes c.before execution)
          (ap (λ (t : Result (List CustomFieldWrite) × History). t.0) c.prepared) in
      let (v, allowed_after, exact) =
        >>=-eq-ok (assert_allowed_issue allowed execution c.after)
          (λ _. assert_exact_start_read_back c.after writes) c.checked in
      confirmed_value c.before c.after execution writes name value old new
        (build_start_writes-IsStartPlan c.before execution writes built)
        (start_fields_read_back-IsReadBack c.after writes durable_execution_field_names name exact
          i)
        i projected (cc (was, o)) (cc (is, n)) same

  -- Whatever Redmine answers, a start updates at most once, and only the Issue of its execution.
  pub persist_and_confirm-WritesAtMostOnce :
      WritesAtMostOnce execution.input.issue_id
        (λ (writes : List CustomFieldWrite). writes)
        h
        (persist_and_confirm client allowed execution h).1
  unfolding persist_and_confirm
  persist_and_confirm-WritesAtMostOnce =
      confirmed_update-WritesAtMostOnce client execution.input.issue_id
        (λ before. lift (plan_start allowed execution before)) (λ writes. writes)
        (check_start allowed execution) (λ i g. refl) h

  -- A start on an Issue of an allowed project whose durable record the guard refuses throws what
  -- the guard throws, and its only call is the one read.
  persist_and_confirm_not_pristine :
      (before : RedmineIssueRecord) (x : Failure)
      → client.on_get h execution.input.issue_id ≡ ok before
      → assert_allowed_issue allowed execution before ≡ ok tt
      → bind_pristine_durable_execution_fields before ≡ err x
      → persist_and_confirm client allowed execution h
        ≡ (err x, issue_read execution.input.issue_id ∷ h)
  unfolding persist_and_confirm plan_start build_start_writes
  persist_and_confirm_not_pristine before x first inside refused =
      confirmed_update_refused client execution.input.issue_id _ _ (check_start allowed execution) h
        (issue_read execution.input.issue_id ∷ h) before x first (rw (inside, refused))

  -- A start on an Issue of which one of the fourteen durable fields, the rejection fields among them,
  -- holds a text that is not empty throws, and its only call is the one read: it updates nothing.
  pub persist_and_confirm_stale :
      (before : RedmineIssueRecord) (name value : String) (field : RedmineCustomField)
      → client.on_get h execution.input.issue_id ≡ ok before
      → In name durable_execution_field_names
      → find_unique_custom_field before name ≡ ok field
      → scalar_custom_field_value field ≡ ok value
      → value ≢ ""
      → (x : Failure) × (persist_and_confirm client allowed execution h
          ≡ (err x, issue_read execution.input.issue_id ∷ h))
  unfolding persist_and_confirm plan_start
  persist_and_confirm_stale before name value field first i found read given =
      elim (Result-cases (assert_allowed_issue allowed execution before)) [
        | inl (y, outside) ↦ (
          y,
          confirmed_update_refused client execution.input.issue_id _ _
              (check_start allowed execution) h (issue_read execution.input.issue_id ∷ h) before y
              first (rw outside),
        )
        | inr (u, inside) ↦
            let (x, refused) = guard_refuses before name value field i found read given in
            (x, persist_and_confirm_not_pristine before x first inside refused)
      ]
