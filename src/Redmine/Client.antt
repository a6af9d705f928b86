-- ===== src/Redmine/Client.antt =====
-- The two calls of the Redmine client that change or confirm an execution record, and the shape that
-- every writer of src/redmine gives them: read the Issue, plan the writes from it, write once, read
-- again, check what was read.
-- The HTTP client of src/redmine/rest-client.ts is an argument: its answers are a function of the
-- history of calls.
pub mod Trace
pub mod Store
use ai_agent_runner.Base.{ℕ, List}
use ai_agent_runner.Failure.{Result}
use ai_agent_runner.Exec.{Exec, ◌>>=◌, ◌>>◌, pure, lift, call}
use ai_agent_runner.World.{Event, History, issue_read, issue_updated}
use ai_agent_runner.Redmine.Domain.{RedmineIssueRecord, CustomFieldWrite}

pub record RedmineClient : Type 0 where
  pub on_get : History → ℕ → Result RedmineIssueRecord
  pub on_update : History → ℕ → List CustomFieldWrite → Result (Unit {0})

abbrev pub get_issue : RedmineClient → ℕ → Exec Event RedmineIssueRecord
get_issue client id = call (issue_read id) (λ h. client.on_get h id)

abbrev pub update_issue_custom_fields :
    RedmineClient → ℕ → List CustomFieldWrite → Exec Event (Unit {0})
update_issue_custom_fields client id writes =
    call (issue_updated id writes) (λ h. client.on_update h id writes)

module _ {P : Type 0} (client : RedmineClient) (id : ℕ)
    (prepare : RedmineIssueRecord → Exec Event P) (writes : P → List CustomFieldWrite)
    (check : P → RedmineIssueRecord → Result (Unit {0})) where
  unfoldable pub examine : P → RedmineIssueRecord → Exec Event P
  examine plan after = do lift (check plan after); pure plan

  unfoldable pub read_again : P → Unit {0} → Exec Event P
  read_again plan done = do after ← get_issue client id; examine plan after

  unfoldable pub write_once : P → Exec Event P
  write_once plan = do
    done ← update_issue_custom_fields client id (writes plan)
    read_again plan done

  unfoldable pub plan_from : RedmineIssueRecord → Exec Event P
  plan_from before = do plan ← prepare before; write_once plan

  unfoldable pub confirmed_update : Exec Event P
  confirmed_update = do before ← get_issue client id; plan_from before
