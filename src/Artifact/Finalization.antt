-- ===== src/Artifact/Finalization.antt =====
-- The order of a successful finalization: `Phase49SuccessfulFinalizationCoordinator` of
-- src/artifact/phase49-finalization.ts. The persistence and the finalizer are called through its
-- interfaces. The records that the finalizer returns are
-- passed through, and left out.
use ai_agent_runner.Base.{◌≡◌, refl, List, ◌∷◌, inl, inr}
use ai_agent_runner.Failure.{Failure, Result, ok, err, Result-cases}
use ai_agent_runner.Artifact.Types.{
  changes_ready, no_changes, Phase49ArtifactOutcome, Phase49BuiltArtifact,
  Phase49DevelopmentHandoffInput, Phase49PersistedArtifact, Phase49ArtifactFailureReason,
  storage_failure, result_validation_failure,
}
use ai_agent_runner.Artifact.Runtime.{Runtime}
use ai_agent_runner.Artifact.Contract.{build_phase49_artifact_from_development_handoff}
use ai_agent_runner.Artifact.NoChanges.{build_phase49_no_changes_artifact}

pub data FinalizationCall : Type 0 where
  persistence_requested : Phase49BuiltArtifact → FinalizationCall
  success_requested : Phase49BuiltArtifact → Phase49PersistedArtifact → FinalizationCall
  failure_requested :
      Phase49DevelopmentHandoffInput → Phase49ArtifactFailureReason → FinalizationCall

abbrev pub FinalizationCalls : Type 0
FinalizationCalls = List FinalizationCall

pub record FinalizationPorts : Type 0 where
  pub on_persist : FinalizationCalls → Phase49BuiltArtifact → Result Phase49PersistedArtifact
  pub on_success :
      FinalizationCalls → Phase49BuiltArtifact → Phase49PersistedArtifact → Result (Unit {0})
  pub on_failure :
      FinalizationCalls
      → Phase49DevelopmentHandoffInput
      → Phase49ArtifactFailureReason
      → Result (Unit {0})

-- `Phase49FinalizationResult`.
pub data FinalizationResult : Type 0 where
  ready_for_independent_verification : Phase49PersistedArtifact → FinalizationResult
  artifact_failure : FinalizationResult

abbrev returning : FinalizationResult → Result (Unit {0}) → Result FinalizationResult
returning result (ok u) = ok result
returning result (err e) = err e

module _ (runtime : Runtime) (ports : FinalizationPorts)
    (handoff : Phase49DevelopmentHandoffInput) where
  abbrev pub build_outcome : Phase49ArtifactOutcome → Result Phase49BuiltArtifact
  build_outcome no_changes = build_phase49_no_changes_artifact runtime handoff
  build_outcome changes_ready = build_phase49_artifact_from_development_handoff runtime handoff

  -- Both `catch` blocks.
  unfoldable pub fail_with :
      Phase49ArtifactFailureReason
      → FinalizationCalls
      → Result FinalizationResult × FinalizationCalls
  fail_with reason h = (
    returning artifact_failure (ports.on_failure h handoff reason),
    failure_requested handoff reason ∷ h,
  )

  unfoldable pub succeed_with :
      Phase49BuiltArtifact
      → Phase49PersistedArtifact
      → FinalizationCalls
      → Result FinalizationResult × FinalizationCalls
  succeed_with artifact persisted h = (
    returning (ready_for_independent_verification persisted)
        (ports.on_success h artifact persisted),
    success_requested artifact persisted ∷ h,
  )

  unfoldable pub after_persistence :
      Phase49BuiltArtifact
      → Result Phase49PersistedArtifact
      → FinalizationCalls
      → Result FinalizationResult × FinalizationCalls
  after_persistence artifact (err e) h = fail_with storage_failure h
  after_persistence artifact (ok persisted) h = succeed_with artifact persisted h

  unfoldable pub after_build :
      Result Phase49BuiltArtifact
      → FinalizationCalls
      → Result FinalizationResult × FinalizationCalls
  after_build (err e) h = fail_with result_validation_failure h
  after_build (ok artifact) h =
      after_persistence artifact (ports.on_persist h artifact) (persistence_requested artifact ∷ h)

  unfoldable pub finalize : FinalizationCalls → Result FinalizationResult × FinalizationCalls
  finalize h = after_build (build_outcome handoff.provisional_outcome) h

  -- The calls of a finalization, and what it returns.
  pub data Finalizes (h : FinalizationCalls) (r : Result FinalizationResult)
      (h' : FinalizationCalls) : Type 0 where
    not_built :
        (x : Failure)
        → build_outcome handoff.provisional_outcome ≡ err x
        → h' ≡ failure_requested handoff result_validation_failure ∷ h
        → r ≡ returning artifact_failure (ports.on_failure h handoff result_validation_failure)
        → Finalizes h r h'
    not_persisted :
        (artifact : Phase49BuiltArtifact) (x : Failure)
        → build_outcome handoff.provisional_outcome ≡ ok artifact
        → ports.on_persist h artifact ≡ err x
        → h' ≡ failure_requested handoff storage_failure ∷ persistence_requested artifact ∷ h
        → r
          ≡ returning artifact_failure
              (ports.on_failure (persistence_requested artifact ∷ h) handoff storage_failure)
        → Finalizes h r h'
    confirmed :
        (artifact : Phase49BuiltArtifact) (persisted : Phase49PersistedArtifact)
        → build_outcome handoff.provisional_outcome ≡ ok artifact
        → ports.on_persist h artifact ≡ ok persisted
        → h' ≡ success_requested artifact persisted ∷ persistence_requested artifact ∷ h
        → r
          ≡ returning
              (ready_for_independent_verification persisted)
              (ports.on_success (persistence_requested artifact ∷ h) artifact persisted)
        → Finalizes h r h'

  persisted-Finalizes :
      (h : FinalizationCalls) (artifact : Phase49BuiltArtifact)
      (answer : Result Phase49PersistedArtifact)
      → build_outcome handoff.provisional_outcome ≡ ok artifact
      → ports.on_persist h artifact ≡ answer
      → (let s = after_persistence artifact answer (persistence_requested artifact ∷ h) in
          Finalizes h s.0 s.1)
  unfolding after_persistence fail_with succeed_with
  persisted-Finalizes h artifact (err x) b e = not_persisted artifact x b e refl refl
  persisted-Finalizes h artifact (ok persisted) b e = confirmed artifact persisted b e refl refl

  -- A finalization ends in one call of the Redmine finalizer: the success, only for an artifact that
  -- was built and whose persistence was confirmed; or the artifact failure, where the build or the
  -- persistence threw. A success that throws is followed by no other call.
  pub finalize-Finalizes : (h : FinalizationCalls) → Finalizes h (finalize h).0 (finalize h).1
  unfolding finalize after_build fail_with
  finalize-Finalizes h = elim (Result-cases (build_outcome handoff.provisional_outcome)) [
    | inl (x, e) ↦ rw e (not_built x e refl refl)
    | inr (artifact, e) ↦ rw e (persisted-Finalizes h artifact (ports.on_persist h artifact) e refl)
  ]
