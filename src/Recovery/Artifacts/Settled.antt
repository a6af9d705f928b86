-- ===== src/Recovery/Artifacts/Settled.antt =====
-- How a running execution is settled, by what the artifact store answers.
use ai_agent_runner.Base.{ℕ, String, ◌≡◌, ◌≢◌, refl, List, [], ◌∷◌, inl, inr}
use ai_agent_runner.Failure.{
  Failure, Result, ok, err, s3_operation_error, not_found, conflict, access_denied, ambiguous,
  definitive, Result-cases,
}
use ai_agent_runner.Redmine.Domain.{RedmineIssueRecord}
use ai_agent_runner.Artifact.Types.{Phase49ArtifactIdentity}
use ai_agent_runner.Recovery.Artifacts.{
  Phase49RecoveredArtifact, read_agent_running_identity, ArtifactCalls, ArtifactPorts,
  issue_requested, recovery_requested, absence_finalized, success_finalized, recovery_failed,
  settle_recovery, recover_identity, finalize_fetched, finalize_interrupted,
}

-- The calls of the two finalizers, the latest first.
unfoldable pub settlements : ArtifactCalls → ArtifactCalls
settlements [] = []
settlements (absence_finalized id ∷ h) = absence_finalized id ∷ settlements h
settlements (success_finalized recovered ∷ h) = success_finalized recovered ∷ settlements h
settlements (_ ∷ h) = settlements h

module _ (ports : ArtifactPorts) (allowed : List ℕ) (id : ℕ) (h : ArtifactCalls) where
  -- The identity that is read from the Issue, and the history in which its artifact is asked for.
  pub record IsIdentified (identity : Phase49ArtifactIdentity) : Type 0 where
    pub issue : RedmineIssueRecord
    pub fetched : ports.on_issue h id ≡ ok issue
    pub read : read_agent_running_identity issue id allowed ≡ ok identity

  abbrev asked : Phase49ArtifactIdentity → Result Phase49RecoveredArtifact
  asked identity = ports.on_recover (issue_requested id ∷ h) identity

  -- How an execution is settled: not at all, as a success with the artifact that was recovered and
  -- verified, or as interrupted, after an explicit `not_found`.
  pub data Settles (r : Result (Unit {0})) (h' : ArtifactCalls) : Type 0 where
    left_running : settlements h' ≡ settlements h → r ≢ ok tt → Settles r h'
    succeeded :
        (identity : Phase49ArtifactIdentity) (recovered : Phase49RecoveredArtifact)
        → IsIdentified identity
        → asked identity ≡ ok recovered
        → settlements h' ≡ success_finalized recovered ∷ settlements h
        → Settles r h'
    interrupted_without_artifact :
        (identity : Phase49ArtifactIdentity) (message : String)
        → IsIdentified identity
        → asked identity ≡ err (s3_operation_error not_found message)
        → settlements h' ≡ absence_finalized id ∷ settlements h
        → Settles r h'

  recovery_failed-Settles :
      (identity : Phase49ArtifactIdentity) (x : Failure)
      → IsIdentified identity
      → asked identity ≡ err x
      → (let s =
            recovery_failed ports allowed id x
              (recovery_requested identity ∷ issue_requested id ∷ h) in
          Settles s.0 s.1)
  unfolding recovery_failed settlements
  recovery_failed-Settles identity (s3_operation_error not_found m) i e =
      interrupted_without_artifact identity m i e refl
  recovery_failed-Settles identity (s3_operation_error conflict m) i e = left_running refl cc
  recovery_failed-Settles identity (s3_operation_error access_denied m) i e = left_running refl cc
  recovery_failed-Settles identity (s3_operation_error ambiguous m) i e = left_running refl cc
  recovery_failed-Settles identity (s3_operation_error definitive m) i e = left_running refl cc
  recovery_failed-Settles identity (Failure.error m) i e = left_running refl cc
  recovery_failed-Settles identity (Failure.repository_access_error c m) i e = left_running refl cc
  recovery_failed-Settles identity (Failure.query_predicate_mismatch_error m j) i e =
      left_running refl cc
  recovery_failed-Settles identity (Failure.aggregate_error ms m) i e = left_running refl cc
  recovery_failed-Settles identity Failure.not_an_error i e = left_running refl cc

  settle_recovery-Settles :
      (identity : Phase49ArtifactIdentity) (answer : Result Phase49RecoveredArtifact)
      → IsIdentified identity
      → asked identity ≡ answer
      → (let s =
            settle_recovery ports allowed id answer
              (recovery_requested identity ∷ issue_requested id ∷ h) in
          Settles s.0 s.1)
  unfolding settle_recovery settlements
  settle_recovery-Settles identity (ok recovered) i e = succeeded identity recovered i e refl
  settle_recovery-Settles identity (err x) i e = recovery_failed-Settles identity x i e

  recover_identity-Settles :
      (issue : RedmineIssueRecord) (read : Result Phase49ArtifactIdentity)
      → ports.on_issue h id ≡ ok issue
      → read_agent_running_identity issue id allowed ≡ read
      → (let s = recover_identity ports allowed id read (issue_requested id ∷ h) in Settles s.0 s.1)
  unfolding recover_identity settlements
  recover_identity-Settles issue (err x) f e = left_running refl cc
  recover_identity-Settles issue (ok identity) f e =
      settle_recovery-Settles identity (asked identity)
        (record { issue = issue; fetched = f; read = e }) refl

  -- A running execution is left alone with a failure, or settled by one call: as a success with the
  -- artifact that the store recovered for the identity read from its Issue, or as interrupted where
  -- the store answered `not_found` for that identity. No other failure of the store settles it.
  pub finalize_interrupted-Settles :
      (let s = finalize_interrupted ports allowed id h in Settles s.0 s.1)
  unfolding finalize_interrupted finalize_fetched settlements
  finalize_interrupted-Settles = elim (Result-cases (ports.on_issue h id)) [
    | inl (x, e) ↦ rw e (left_running refl cc)
    | inr (issue, e) ↦
        rw e (recover_identity-Settles issue (read_agent_running_identity issue id allowed) e refl)
  ]
