-- ===== src/Artifact/Provisional.antt =====
-- What follows a provisional success: `Phase49ProvisionalResultHandler` of
-- src/artifact/phase49-provisional-handler.ts, with the collection of Development/ChangeSet and the
-- coordinator of Artifact/Finalization behind its two interfaces. What a process of git answers
-- depends on the folder in which it runs.
use ai_agent_runner.Base.{ℕ, String, ◌==◌, ◌≡◌, refl, eq_iff, ◌&&◌, List, arith, inl, inr}
use ai_agent_runner.Failure.{Failure, Result, ok, err, Result-cases, ◌>>◌, require}
use ai_agent_runner.Execution.Types.{PreparedExecution}
use ai_agent_runner.Agent.Handler.{ProvisionalResult}
use ai_agent_runner.Sandbox.Capture.{CaptureSnapshot}
use ai_agent_runner.Sandbox.Handler.{RepositoryCheckoutResult}
use ai_agent_runner.Development.ChangeSet.Collect.{
  DevelopmentLocalChangeSet, GitRun, GitCalls, collect,
}
use ai_agent_runner.Artifact.Types.{Phase49DevelopmentHandoffInput, Phase49PatchCapture}
use ai_agent_runner.Artifact.Runtime.{Runtime}
use ai_agent_runner.Artifact.Finalization.{
  FinalizationPorts, FinalizationCalls, FinalizationResult, finalize, Finalizes, finalize-Finalizes,
}

-- What this handler reads of a `TaskWorkspace`.
pub record TaskWorkspace : Type 0 where
  pub execution_id : String
  pub path : String

-- The argument of `handle`.
pub record ProvisionalInput : Type 0 where
  pub execution : PreparedExecution
  pub result : ProvisionalResult
  pub workspace : TaskWorkspace
  pub checkout : RepositoryCheckoutResult

unfoldable pub assert_immutable_boundary : ProvisionalInput → Result (Unit {0})
assert_immutable_boundary input =
    let identity = input.execution.input in
    require (input.workspace.execution_id == identity.execution_id)
      "Phase 49 production handoff workspace identity mismatch"
    >> require
        ((input.checkout.repository == identity.repository)
          && ((input.checkout.source_revision == identity.source_revision)
              && ((input.checkout.head_revision == identity.source_revision)
                  && (input.checkout.target_dir == input.workspace.path))))
        "Phase 49 production handoff checkout identity mismatch"

abbrev patch_of : CaptureSnapshot → Phase49PatchCapture
patch_of patch = record {
  text = patch.text;
  captured_bytes = patch.captured_bytes;
  truncated = patch.truncated;
}

abbrev pub handoff_of :
    ProvisionalInput → DevelopmentLocalChangeSet → Phase49DevelopmentHandoffInput
handoff_of input change_set = record {
  execution_id = input.execution.input.execution_id;
  issue_id = input.execution.input.issue_id;
  repository = input.execution.input.repository;
  source_revision = input.execution.input.source_revision;
  brief_revision = input.execution.input.brief_revision;
  persisted_revision = input.execution.input.persisted_revision;
  requirements_fingerprint = input.execution.input.requirements_fingerprint;
  provisional_outcome = input.result.provisional_outcome;
  changed_files = change_set.changed_files;
  patch = patch_of change_set.patch;
}

abbrev pub ignoring : Result FinalizationResult → Result (Unit {0})
ignoring (ok result) = ok tt
ignoring (err e) = err e

-- The workspace and the checkout are those of the execution.
pub record IsBound (input : ProvisionalInput) : Type 0 where
  pub workspace_id : input.workspace.execution_id ≡ input.execution.input.execution_id
  pub repository : input.checkout.repository ≡ input.execution.input.repository
  pub source : input.checkout.source_revision ≡ input.execution.input.source_revision
  pub head : input.checkout.head_revision ≡ input.execution.input.source_revision
  pub target : input.checkout.target_dir ≡ input.workspace.path

assert_boundary-IsBound :
    (input : ProvisionalInput) → assert_immutable_boundary input ≡ ok tt → IsBound input
unfolding assert_immutable_boundary
assert_boundary-IsBound input h =
    let identity = input.execution.input in
    let checkout = input.checkout in
    record {
      workspace_id = ground (arith, eq_iff input.workspace.execution_id identity.execution_id);
      repository = ground (arith, eq_iff checkout.repository identity.repository);
      source = ground (arith, eq_iff checkout.source_revision identity.source_revision);
      head = ground (arith, eq_iff checkout.head_revision identity.source_revision);
      target = ground (arith, eq_iff checkout.target_dir input.workspace.path);
    }

module _ (runtime : Runtime) (ports : FinalizationPorts)
    (on_git : String → GitCalls → List String → GitRun) (patch_limit metadata_limit : ℕ)
    (input : ProvisionalInput) where
  abbrev pub collected : Result DevelopmentLocalChangeSet
  collected =
      collect runtime.encode runtime.decode runtime.locale_compare (on_git input.workspace.path)
        patch_limit metadata_limit input.workspace.path

  unfoldable pub after_collection :
      Result DevelopmentLocalChangeSet → FinalizationCalls → Result (Unit {0}) × FinalizationCalls
  after_collection (err e) h = (err e, h)
  after_collection (ok change_set) h =
      let ended = finalize runtime ports (handoff_of input change_set) h in
      (ignoring ended.0, ended.1)

  unfoldable pub after_boundary :
      Result (Unit {0}) → FinalizationCalls → Result (Unit {0}) × FinalizationCalls
  after_boundary (err e) h = (err e, h)
  after_boundary (ok u) h = after_collection collected h

  unfoldable pub handle : FinalizationCalls → Result (Unit {0}) × FinalizationCalls
  handle h = after_boundary (assert_immutable_boundary input) h

  -- What the handler does.
  pub data Continues (h : FinalizationCalls) (r : Result (Unit {0})) (h' : FinalizationCalls)
      : Type 0 where
    not_bound :
        (e : Failure)
        → assert_immutable_boundary input ≡ err e
        → r ≡ err e
        → h' ≡ h
        → Continues h r h'
    not_collected : (e : Failure) → collected ≡ err e → r ≡ err e → h' ≡ h → Continues h r h'
    finalized :
        (change_set : DevelopmentLocalChangeSet) (ended : Result FinalizationResult)
        → IsBound input
        → collected ≡ ok change_set
        → r ≡ ignoring ended
        → Finalizes runtime ports (handoff_of input change_set) h ended h'
        → Continues h r h'

  collected-Continues :
      (h : FinalizationCalls) (answer : Result DevelopmentLocalChangeSet)
      → IsBound input
      → collected ≡ answer
      → Continues h (after_collection answer h).0 (after_collection answer h).1
  unfolding after_collection
  collected-Continues h (err e) bound q = not_collected e q refl refl
  collected-Continues h (ok change_set) bound q =
      let handoff = handoff_of input change_set in
      finalized change_set (finalize runtime ports handoff h).0 bound q refl
        (finalize-Finalizes runtime ports handoff h)

  -- A provisional success is finalized only for a workspace and a checkout of its own execution and
  -- for the change set that was collected in that workspace; the finalization then runs to its one
  -- end, and its failure is the handler's. In every other case nothing is stored and nothing is
  -- written to Redmine, and the handler fails.
  pub handle-Continues : (h : FinalizationCalls) → Continues h (handle h).0 (handle h).1
  unfolding handle after_boundary
  handle-Continues h = elim (Result-cases (assert_immutable_boundary input)) [
    | inl (e, q) ↦ rw q (not_bound e q refl refl)
    | inr (u, q) ↦ rw q (collected-Continues h collected (assert_boundary-IsBound input q) refl)
  ]
