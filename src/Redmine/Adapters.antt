-- ===== src/Redmine/Adapters.antt =====
-- What the controller reads from Redmine: `RedmineIssueReader` of src/redmine/adapters.ts, and the
-- tests of its `RedmineCandidateSource` on the items that the HTTP client answers with.
pub mod Laws
pub mod CandidateSource
use ai_agent_runner.Base.{
  ℕ, String, ◌==◌, ◌&&◌, ◌||◌, not, Bool, true, false, Option, none, some, List, [], ◌∷◌, ◌++◌, ◌-◌,
  nat_beq, ltb, leb, if◌then◌else◌,
}
use ai_agent_runner.Base.Lists.{length}
use ai_agent_runner.Failure.{Result, ok, err, error, ◌>>=◌, ◌>>◌, require}
use ai_agent_runner.Redmine.Domain.{RedmineIssueRecord, scalar_of, is_value}
use ai_agent_runner.Redmine.FieldNames.{lifecycle, durable_execution_field_names}
use ai_agent_runner.Controller.Types.{
  ready_for_agent_lifecycle, ReadyForAgentCandidate, PostLockCandidateState, ReFetchedIssue,
}

-- `every` over the names, which stops at the first field that is not empty.
unfoldable pub every_field_empty : RedmineIssueRecord → List String → Result Bool
every_field_empty issue [] = ok true
every_field_empty issue (name ∷ names) = do
  value ← scalar_of issue name
  if value == "" then every_field_empty issue names else ok false

unfoldable pub is_execution_record_pristine : RedmineIssueRecord → Result Bool
is_execution_record_pristine issue = every_field_empty issue durable_execution_field_names

abbrev pub brief_lifecycle : String
brief_lifecycle = "Agent Brief Lifecycle"

-- `getIssue`, from the Issue that the client returned.
unfoldable pub refetched_issue : RedmineIssueRecord → Result ReFetchedIssue
refetched_issue issue = do
  brief ← scalar_of issue brief_lifecycle
  execution_lifecycle ← scalar_of issue lifecycle
  pristine ← is_execution_record_pristine issue
  ok (record {
    issue_id = issue.id;
    project_id = issue.project.id;
    lifecycle = brief;
    post_lock_state = some (record {
      execution_lifecycle = execution_lifecycle;
      execution_record_pristine = pristine;
    });
    raw = issue;
  })

-- An item of the client's answer to `listReadyForAgentCandidates`; `null` is `none`.
pub record CandidateMatch : Type 0 where
  pub id : ℕ
  pub project_id : ℕ
  pub brief_lifecycle : Option String
  pub execution_lifecycle : Option String

abbrev pub satisfies_query : ℕ → String → CandidateMatch → Bool
satisfies_query project_id wanted item =
    nat_beq item.project_id project_id
    && (is_value item.brief_lifecycle wanted && is_value item.execution_lifecycle "")

-- The matches of one project: the candidates, or the first item that does not satisfy the query.
pub data MatchedCandidates : Type 0 where
  candidates_of : List ReadyForAgentCandidate → MatchedCandidates
  mismatch_of : ℕ → MatchedCandidates

abbrev pub prepend_candidate : ReadyForAgentCandidate → MatchedCandidates → MatchedCandidates
prepend_candidate candidate (candidates_of rest) = candidates_of (candidate ∷ rest)
prepend_candidate candidate (mismatch_of id) = mismatch_of id

unfoldable pub checked_matches : ℕ → String → List CandidateMatch → MatchedCandidates
checked_matches project_id wanted [] = candidates_of []
checked_matches project_id wanted (item ∷ items) =
    let rest = checked_matches project_id wanted items in
    if satisfies_query project_id wanted item
    then prepend_candidate (record { issue_id = item.id; project_id = item.project_id }) rest
    else mismatch_of item.id

-- The tests of the arguments of `listReadyForAgentCandidates`.
unfoldable pub assert_query : String → ℕ → Result (Unit {0})
assert_query wanted limit = do
  require (wanted == ready_for_agent_lifecycle) "candidate source only supports Ready for Agent"
  require (ltb 0 limit && leb limit 100) "candidate source limit must be between 1 and 100"
