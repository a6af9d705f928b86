-- ===== src/Redmine/Finalization.antt =====
-- What every finalizer of src/redmine has from its shape: a confirmed update whose plan is made at a
-- time of the clock.
use ai_agent_runner.Base.{ℕ, String, ◌≡◌, subst, Option, List, ◌∷◌}
use ai_agent_runner.Failure.{Failure, Result, ok, err}
use ai_agent_runner.World.{History, issue_read, issue_updated, clock_read}
use ai_agent_runner.Redmine.Domain.{RedmineIssueRecord, CustomFieldWrite}
use ai_agent_runner.Redmine.Clock.{Clock}
use ai_agent_runner.Redmine.Client.{RedmineClient, confirmed_update}
use ai_agent_runner.Redmine.Client.Trace.{
  confirmed_update-IsConfirmed, WritesAtMostOnce, confirmed_update-WritesAtMostOnce,
  confirmed_update_refused, confirmed_update_succeeds,
}
use ai_agent_runner.Redmine.Planning.{
  plan_at_time, plan_at_time-Quiet, plan_at_time_parts, plan_at_time-eq-ok, plan_at_time_refused,
}

module _ {S P : Type 0} (client : RedmineClient) (id : ℕ) (clock : Clock)
    (assert : RedmineIssueRecord → Result S) (canonical : Option String → Result String)
    (build : RedmineIssueRecord → S → String → Result P) (writes : P → List CustomFieldWrite)
    (check : P → RedmineIssueRecord → Result (Unit {0})) (h : History) where
  -- The parts of a finalization that returned.
  pub record IsFinalized (plan : P) (h' : History) : Type 0 where
    pub before : RedmineIssueRecord
    pub after : RedmineIssueRecord
    pub active : S
    pub finished : String
    pub read_first : client.on_get h id ≡ ok before
    pub asserted : assert before ≡ ok active
    pub timed : canonical (clock (issue_read id ∷ h)) ≡ ok finished
    pub built : build before active finished ≡ ok plan
    pub read_back :
        client.on_get (issue_updated id (writes plan) ∷ clock_read ∷ issue_read id ∷ h) id
        ≡ ok after
    pub checked : check plan after ≡ ok tt
    pub calls : h' ≡ issue_read id ∷ issue_updated id (writes plan) ∷ clock_read ∷ issue_read id ∷ h

  pub finalization-IsFinalized :
      (plan : P) (h' : History)
      → confirmed_update client id (plan_at_time clock assert canonical build) writes check h
        ≡ (ok plan, h')
      → IsFinalized plan h'
  finalization-IsFinalized plan h' e =
      let c =
        confirmed_update-IsConfirmed client id (plan_at_time clock assert canonical build) writes
          check h e in
      let (active, finished, asserted, timed, built, at) =
        plan_at_time_parts clock assert canonical build c.before (issue_read id ∷ h) c.planned plan
          c.prepared in
      record {
        before = c.before;
        after = c.after;
        active = active;
        finished = finished;
        read_first = c.read_first;
        asserted = asserted;
        timed = timed;
        built = built;
        read_back =
            subst (λ g. client.on_get (issue_updated id (writes plan) ∷ g) id ≡ ok c.after) at
              c.read_back;
        checked = c.checked;
        calls = cc (c.calls, at);
      }

  pub finalization-WritesAtMostOnce :
      WritesAtMostOnce id writes h
        (confirmed_update client id (plan_at_time clock assert canonical build) writes check h).1
  finalization-WritesAtMostOnce =
      confirmed_update-WritesAtMostOnce client id (plan_at_time clock assert canonical build) writes
        check (plan_at_time-Quiet clock assert canonical build) h

  pub finalization_refused :
      (before : RedmineIssueRecord) (x : Failure)
      → client.on_get h id ≡ ok before
      → assert before ≡ err x
      → confirmed_update client id (plan_at_time clock assert canonical build) writes check h
        ≡ (err x, issue_read id ∷ h)
  finalization_refused before x first refused =
      confirmed_update_refused client id (plan_at_time clock assert canonical build) writes check h
        (issue_read id ∷ h) before x first
        (plan_at_time_refused clock assert canonical build before (issue_read id ∷ h) x refused)

  pub finalization_succeeds :
      (before after : RedmineIssueRecord) (active : S) (finished : String) (plan : P)
      → client.on_get h id ≡ ok before
      → assert before ≡ ok active
      → canonical (clock (issue_read id ∷ h)) ≡ ok finished
      → build before active finished ≡ ok plan
      → client.on_update (clock_read ∷ issue_read id ∷ h) id (writes plan) ≡ ok tt
      → client.on_get (issue_updated id (writes plan) ∷ clock_read ∷ issue_read id ∷ h) id
        ≡ ok after
      → check plan after ≡ ok tt
      → confirmed_update client id (plan_at_time clock assert canonical build) writes check h
        ≡ (ok plan, issue_read id ∷ issue_updated id (writes plan) ∷ clock_read ∷ issue_read id ∷ h)
  finalization_succeeds before after active finished plan first a t b accepted second checked =
      confirmed_update_succeeds client id (plan_at_time clock assert canonical build) writes check h
        (clock_read ∷ issue_read id ∷ h) before after plan first
        (plan_at_time-eq-ok clock assert canonical build before (issue_read id ∷ h) active finished
          plan a t b)
        accepted second checked
