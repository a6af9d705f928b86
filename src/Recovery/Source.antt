-- ===== src/Recovery/Source.antt =====
-- The running executions that Redmine lists: `RedmineAgentRunningExecutionSource` of
-- src/recovery/redmine-source.ts. The lists of the HTTP client are an argument.
use ai_agent_runner.Base.{
  subst, sym, ℕ, String, ◌≡◌, ◌&&◌, Option, some, List, [], ◌∷◌, ◌++◌, arith, nat_beq,
  if◌then◌else◌, inl, inr, Bool-cases,
}
use ai_agent_runner.Base.Lists.{All}
use ai_agent_runner.Failure.{Result, ok, err, query_predicate_mismatch_error, ◌>>=◌, >>=-eq-ok}
use ai_agent_runner.Redmine.Domain.{is_value}
use ai_agent_runner.Redmine.FieldNames.{agent_running}
use ai_agent_runner.Recovery.Calls.{AgentRunningExecutionCandidate}

-- An item of the client's answer to `listIssuesByCustomField`; `null` is `none`.
pub record ListedIssue : Type 0 where
  pub id : ℕ
  pub project_id : ℕ
  pub custom_field_value : Option String

unfoldable pub checked_running : ℕ → List ListedIssue → Result (List AgentRunningExecutionCandidate)
checked_running project_id [] = ok []
checked_running project_id (issue ∷ issues) =
    if nat_beq issue.project_id project_id && is_value issue.custom_field_value agent_running
    then (checked_running project_id issues >>= λ rest.
        ok (record { issue_id = issue.id; project_id = issue.project_id } ∷ rest))
    else err (
        query_predicate_mismatch_error
          "Agent Running query response did not satisfy the requested project and lifecycle predicate"
          (some issue.id))

-- The loop over the allowed projects: `answer` is the client's answer for each of them.
unfoldable pub list_agent_running :
    (ℕ → Result (List ListedIssue)) → List ℕ → Result (List AgentRunningExecutionCandidate)
list_agent_running answer [] = ok []
list_agent_running answer (project_id ∷ project_ids) = do
  issues ← answer project_id
  here ← checked_running project_id issues
  rest ← list_agent_running answer project_ids
  ok (here ++ rest)

All-++ : {A : Type 0} (P : A → Type 0) (xs ys : List A) → All P xs → All P ys → All P (xs ++ ys)
All-++ P [] ys a b = b
All-++ P (x ∷ xs) ys (p, a) b = (p, All-++ P xs ys a b)

checked_running-project :
    (project_id : ℕ) (issues : List ListedIssue) (found : List AgentRunningExecutionCandidate)
    → checked_running project_id issues ≡ ok found
    → All (λ (c : AgentRunningExecutionCandidate). c.project_id ≡ project_id) found
unfolding checked_running
checked_running-project project_id [] [] h = tt
checked_running-project project_id [] (c ∷ cs) h = cc
checked_running-project project_id (issue ∷ issues) found h =
    elim (Bool-cases
      (nat_beq issue.project_id project_id && is_value issue.custom_field_value agent_running)) [
        | inl e ↦
            let r =
              subst
                (λ b.
                  (if b
                    then (checked_running project_id issues >>= λ rest.
                        ok (record { issue_id = issue.id; project_id = issue.project_id } ∷ rest))
                    else err (
                        query_predicate_mismatch_error
                          "Agent Running query response did not satisfy the requested project and lifecycle predicate"
                          (some issue.id)))
                  ≡ ok found)
                e h in
            let (rest, more, made) =
              >>=-eq-ok (checked_running project_id issues)
                (λ rest. ok (record { issue_id = issue.id; project_id = issue.project_id } ∷ rest))
                r in
            let same : record { issue_id = issue.id; project_id = issue.project_id } ∷ rest
                ≡ found =
              cc made in
            subst (All (λ (c : AgentRunningExecutionCandidate). c.project_id ≡ project_id)) same
              (ground (arith, e), checked_running-project project_id issues rest more)
        | inr e ↦ absurd (ground (arith, e))
      ]

All-map :
    {A : Type 0} {P Q : A → Type 0} (xs : List A) → ((x : A) → P x → Q x) → All P xs → All Q xs
All-map [] f a = tt
All-map (x ∷ xs) f (p, a) = (f x p, All-map xs f a)

-- Every running execution that is listed is of one of the queried projects, whatever the client
-- answers: what holds of each of those projects holds of the project of each execution.
pub list_agent_running-project :
    (answer : ℕ → Result (List ListedIssue)) (P : ℕ → Type 0) (project_ids : List ℕ)
    (found : List AgentRunningExecutionCandidate)
    → All P project_ids
    → list_agent_running answer project_ids ≡ ok found
    → All (λ (c : AgentRunningExecutionCandidate). P c.project_id) found
unfolding list_agent_running
list_agent_running-project answer P [] [] a h = tt
list_agent_running-project answer P [] (c ∷ cs) a h = cc
list_agent_running-project answer P (id ∷ ids) found (p, a) h =
    let (issues, answered, r₁) = >>=-eq-ok (answer id) _ h in
    let (here, checked, r₂) = >>=-eq-ok (checked_running id issues) _ r₁ in
    let (rest, more, r₃) =
      >>=-eq-ok (list_agent_running answer ids) (λ rest. ok (here ++ rest)) r₂ in
    let same : here ++ rest ≡ found = cc r₃ in
    subst (All (λ (c : AgentRunningExecutionCandidate). P c.project_id)) same (
      All-++ (λ (c : AgentRunningExecutionCandidate). P c.project_id) here rest
        (All-map here (λ c e. subst P (sym e) p) (checked_running-project id issues here checked))
        (list_agent_running-project answer P ids rest a more))
