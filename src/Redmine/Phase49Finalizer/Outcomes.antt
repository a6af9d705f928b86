-- ===== src/Redmine/Phase49Finalizer/Outcomes.antt =====
-- The two ends of an execution with an artifact, against any Redmine.
use Prim.Native.String
use ai_agent_runner.Base.{ℕ, ◌≡◌, refl, true, eq_iff, arith, List, ◌∷◌, inl, inr}
use ai_agent_runner.Base.Lists.{All}
use ai_agent_runner.Base.Text.{ends_with}
use ai_agent_runner.Failure.{Failure, Result, ok, err, Result-cases}
use ai_agent_runner.Exec.{Exec}
use ai_agent_runner.World.{Event, History, issue_read, issue_updated, clock_read}
use ai_agent_runner.Redmine.Domain.{RedmineIssueRecord}
use ai_agent_runner.Redmine.Clock.{Clock}
use ai_agent_runner.Redmine.Client.{RedmineClient}
use ai_agent_runner.Redmine.Client.Trace.{WritesAtMostOnce}
use ai_agent_runner.Redmine.Scalars.{Holds, active_values}
use ai_agent_runner.Artifact.Types.{
  Phase49BuiltArtifact, Phase49PersistedArtifact, Phase49DevelopmentHandoffInput,
  Phase49ArtifactFailureReason, canonical_artifact_failure_outcome,
}
use ai_agent_runner.Redmine.Phase49Finalizer.{
  ReferenceParser, assert_persisted_artifact_binding, identity_from_manifest, identity_from_handoff,
  success_values, artifact_failure_values, FinalizationPlan, finalize_with, when_ok,
  finalize_success, finalize_artifact_failure,
}
use ai_agent_runner.Redmine.Phase49Finalizer.Laws.{
  IsActive, IsFinal, finalize_with_confirmed, finalize_with-WritesAtMostOnce,
  finalize_with_not_active,
}
use ai_agent_runner.Redmine.Client.Trace.{untouched}

when_ok-eq-ok :
    {A : Type 0} (r : Result (Unit {0})) (m : Exec Event A) (h : History) (a : A) (h' : History)
    → when_ok r m h ≡ (ok a, h')
    → (r ≡ ok tt) × (m h ≡ (ok a, h'))
when_ok-eq-ok (ok u) m h a h' e = (refl, e)
when_ok-eq-ok (err x) m h a h' e = cc

-- The reference names the stored object, whose key is that of the artifact's execution.
pub record IsReferenceOf (parse : ReferenceParser) (artifact : Phase49BuiltArtifact)
    (persisted : Phase49PersistedArtifact) : Type 0 where
  pub named : parse persisted.artifact_reference ≡ ok (persisted.bucket, persisted.key)
  pub of_execution :
      ends_with persisted.key (String.◌++◌ "/" (String.◌++◌ artifact.manifest.execution_id ".json"))
      ≡ true

binding-IsReferenceOf :
    (parse : ReferenceParser) (artifact : Phase49BuiltArtifact)
    (persisted : Phase49PersistedArtifact)
    → assert_persisted_artifact_binding parse artifact persisted ≡ ok tt
    → IsReferenceOf parse artifact persisted
unfolding assert_persisted_artifact_binding
binding-IsReferenceOf parse artifact persisted h =
    elim (Result-cases (parse persisted.artifact_reference)) [
      | inl (x, q) ↦ absurd (ground arith)
      | inr (parsed, q) ↦
          let bucket : parsed.0 ≡ persisted.bucket =
            ground (arith, eq_iff parsed.0 persisted.bucket) in
          let key : parsed.1 ≡ persisted.key = ground (arith, eq_iff parsed.1 persisted.key) in
          record { named = cc; of_execution = ground arith }
    ]

module _ (parse : ReferenceParser) (client : RedmineClient) (clock : Clock) (allowed : List ℕ)
    (artifact : Phase49BuiltArtifact) (persisted : Phase49PersistedArtifact) (h : History) where
  -- When the success finalizer returns, the artifact reference is parsed as the bucket and the key of
  -- the stored object, that key ends in the id of the execution, the Issue that was read first was running under the identity of the manifest, and the Issue read back holds that
  -- identity and start with `Ready for Independent Verification`, the manifest's outcome, the
  -- artifact reference and the time.
  pub finalize_success_confirmed :
      (plan : FinalizationPlan) (h' : History) (before after : RedmineIssueRecord)
      → finalize_success parse client clock allowed artifact persisted h ≡ (ok plan, h')
      → client.on_get h artifact.manifest.issue_id ≡ ok before
      → client.on_get
          (issue_updated artifact.manifest.issue_id plan.writes
            ∷ clock_read
            ∷ issue_read artifact.manifest.issue_id
            ∷ h)
          artifact.manifest.issue_id
        ≡ ok after
      → IsReferenceOf parse artifact persisted
        × IsActive (identity_from_manifest artifact.manifest) allowed before plan.active
        × IsFinal
            (identity_from_manifest artifact.manifest)
            (success_values artifact.manifest.outcome persisted.artifact_reference)
            plan
            after
  unfolding finalize_success
  finalize_success_confirmed plan h' before after e b a =
      let values = success_values artifact.manifest.outcome persisted.artifact_reference in
      let (bound, rest) =
        when_ok-eq-ok (assert_persisted_artifact_binding parse artifact persisted)
          (finalize_with client clock allowed "successful finalization"
            (identity_from_manifest artifact.manifest) values)
          h plan h' e in
      let (was, is) =
        finalize_with_confirmed client clock allowed "successful finalization"
          (identity_from_manifest artifact.manifest) values h plan h' before after rest b a in
      (binding-IsReferenceOf parse artifact persisted bound, was, is)

  -- Whatever Redmine answers, the success finalizer updates at most once, and only the Issue of the
  -- manifest.
  pub finalize_success-WritesAtMostOnce :
      WritesAtMostOnce artifact.manifest.issue_id
        (λ (p : FinalizationPlan). p.writes)
        h
        (finalize_success parse client clock allowed artifact persisted h).1
  unfolding finalize_success
  finalize_success-WritesAtMostOnce =
      elim (Result-cases (assert_persisted_artifact_binding parse artifact persisted)) [
        | inl (x, e) ↦ rw e (untouched refl)
        | inr (u, e) ↦ rw e (
            finalize_with-WritesAtMostOnce client clock allowed "successful finalization"
              (identity_from_manifest artifact.manifest)
              (success_values artifact.manifest.outcome persisted.artifact_reference) h)
      ]

  -- With a reference that is not bound to the artifact the success finalizer makes no call.
  pub finalize_success_unbound :
      (x : Failure)
      → assert_persisted_artifact_binding parse artifact persisted ≡ err x
      → finalize_success parse client clock allowed artifact persisted h ≡ (err x, h)
  unfolding finalize_success
  finalize_success_unbound x e = rw e

module _ (client : RedmineClient) (clock : Clock) (allowed : List ℕ)
    (handoff : Phase49DevelopmentHandoffInput) (reason : Phase49ArtifactFailureReason)
    (h : History) where
  -- When the failure finalizer returns, the Issue that was read first was running under the identity
  -- of the handoff, and the Issue read back holds that identity and start with `Needs Human`, the
  -- outcome `artifact_persistence_failed` whatever the reason, no artifact reference and the time.
  pub finalize_artifact_failure_confirmed :
      (plan : FinalizationPlan) (h' : History) (before after : RedmineIssueRecord)
      → finalize_artifact_failure client clock allowed handoff reason h ≡ (ok plan, h')
      → client.on_get h handoff.issue_id ≡ ok before
      → client.on_get
          (issue_updated handoff.issue_id plan.writes
            ∷ clock_read
            ∷ issue_read handoff.issue_id
            ∷ h)
          handoff.issue_id
        ≡ ok after
      → IsActive (identity_from_handoff handoff) allowed before plan.active
        × IsFinal
            (identity_from_handoff handoff)
            (artifact_failure_values "artifact_persistence_failed")
            plan
            after
  unfolding finalize_artifact_failure
  finalize_artifact_failure_confirmed plan h' before after e b a =
      finalize_with_confirmed client clock allowed "artifact failure finalization"
        (identity_from_handoff handoff)
        (artifact_failure_values (canonical_artifact_failure_outcome reason)) h plan h' before after
        e b a

  -- Whatever Redmine answers, the failure finalizer updates at most once, and only the Issue of the
  -- handoff.
  pub finalize_artifact_failure-WritesAtMostOnce :
      WritesAtMostOnce handoff.issue_id
        (λ (p : FinalizationPlan). p.writes)
        h
        (finalize_artifact_failure client clock allowed handoff reason h).1
  unfolding finalize_artifact_failure
  finalize_artifact_failure-WritesAtMostOnce =
      finalize_with-WritesAtMostOnce client clock allowed "artifact failure finalization"
        (identity_from_handoff handoff)
        (artifact_failure_values (canonical_artifact_failure_outcome reason)) h

  -- An Issue that is not running, or that has an end, an outcome or an artifact, is read and left.
  pub finalize_artifact_failure_not_active :
      (before : RedmineIssueRecord)
      → client.on_get h handoff.issue_id ≡ ok before
      → ¬ All (Holds before) active_values
      → (finalize_artifact_failure client clock allowed handoff reason h).1
        ≡ issue_read handoff.issue_id ∷ h
  unfolding finalize_artifact_failure
  finalize_artifact_failure_not_active before first ended =
      finalize_with_not_active client clock allowed "artifact failure finalization"
        (identity_from_handoff handoff)
        (artifact_failure_values (canonical_artifact_failure_outcome reason)) h before first ended
