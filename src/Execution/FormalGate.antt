-- ===== src/Execution/FormalGate.antt =====
-- The last authorization before an execution: `Phase47FormalAuthorizationGate` of
-- src/execution/formal-gate.ts.
use ai_agent_runner.Base.{String, ◌≡◌, true, arith, inl, inr}
use ai_agent_runner.Base.Text.{is_git_oid}
use ai_agent_runner.Failure.{Result, ok, ◌>>=◌, source_resolution_failed, Result-cases}
use ai_agent_runner.Repository.Policy.{
  RepositoryAccessEntry, RepositoryAccessPolicy, authorize, demand,
}

unfoldable pub authorize_formally : RepositoryAccessPolicy → String → String → Result (Unit {0})
authorize_formally policy repository source_revision = do
  entry ← authorize policy repository
  demand (is_git_oid source_revision) source_resolution_failed
      "formal authorization requires an exact lowercase Git object ID"

-- What the gate lets through: a repository of the policy, and a full object id.
pub authorize_formally-eq-ok :
    (policy : RepositoryAccessPolicy) (repository source_revision : String)
    → authorize_formally policy repository source_revision ≡ ok tt
    → ((entry : RepositoryAccessEntry) × (authorize policy repository ≡ ok entry))
      × (is_git_oid source_revision ≡ true)
unfolding authorize_formally
authorize_formally-eq-ok policy repository source_revision h =
    elim (Result-cases (authorize policy repository)) [
      | inl (e, q) ↦ absurd (ground arith)
      | inr (entry, q) ↦ ((entry, q), ground arith)
    ]
