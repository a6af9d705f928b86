-- ===== src/Tests/Changes.antt =====
-- The changes of a workspace, and what follows them, at concrete inputs.
use Prim.Native.Nat.{Ordering}
use ai_agent_runner.Base.{String, ◌≡◌, refl, List, [], ◌∷◌, false, some}
use ai_agent_runner.Failure.{ok, err, error}
use ai_agent_runner.Artifact.Types.{modified, untracked, no_changes}
use ai_agent_runner.Base.Text.Parts.{join}
use ai_agent_runner.Development.ChangeSet.{
  is_absolute, is_relative_git_path, map_git_status, changed_files_of,
}
use ai_agent_runner.Development.ChangeSet.Files.{Listed, IsListed, changed_files_of-terminated}
use ai_agent_runner.Development.ChangeSet.Collect.{GitCalls, GitRun, closed}
use ai_agent_runner.Agent.Handler.{AgentExecutionCapture}
use ai_agent_runner.Artifact.Finalization.{FinalizationPorts}
use ai_agent_runner.Artifact.Provisional.{ProvisionalInput, handle, Continues, handle-Continues}
use ai_agent_runner.Tests.Sample.{sample_execution, sample_id, sample_revision}
use ai_agent_runner.Tests.Objects.{unchanged_runtime}

abbrev by_given : String → String → Ordering
by_given left right = Ordering.eq

abbrev tracked_file : Listed
tracked_file = record { letters = "M"; path = "a.txt" }

tracked_file-IsListed : IsListed tracked_file
unfolding is_absolute is_relative_git_path
tracked_file-IsListed = record {
  lettered = refl;
  letters_plain = refl;
  relative = refl;
  path_plain = refl;
}

changed_files_of-terminated_example :
    changed_files_of by_given "M\0a.txt\0" "b.txt\0"
    ≡ ok (
        record { path = "a.txt"; status = modified }
        ∷ record { path = "b.txt"; status = untracked }
        ∷ [])
unfolding is_absolute is_relative_git_path map_git_status join
changed_files_of-terminated_example =
    changed_files_of-terminated by_given (tracked_file ∷ []) ("b.txt" ∷ [])
      (tracked_file-IsListed, tt) ((refl, refl), tt) (refl, (refl, tt))

-- A workspace without changes: git writes nothing.
abbrev small_git : String → GitCalls → List String → GitRun
small_git folder h arguments = closed (some 0) [] []

abbrev provisional_ports : FinalizationPorts
provisional_ports = record {
  on_persist = λ h artifact. err (error "no store");
  on_success = λ h artifact persisted. ok tt;
  on_failure = λ h handoff reason. ok tt;
}

abbrev empty_capture : AgentExecutionCapture
empty_capture = record { text = ""; captured_bytes = 0; truncated = false }

abbrev small_provisional : ProvisionalInput
small_provisional = record {
  execution = sample_execution;
  result = record {
    provisional_outcome = no_changes;
    output = empty_capture;
    diagnostic = empty_capture;
  };
  workspace = record { execution_id = sample_id; path = "/work" };
  checkout = record {
    repository = sample_execution.input.repository;
    source_revision = sample_revision;
    target_dir = "/work";
    head_revision = sample_revision;
  };
}

handle-Continues_example :
    Continues unchanged_runtime provisional_ports small_git 4096 4096 small_provisional []
      (handle unchanged_runtime provisional_ports small_git 4096 4096 small_provisional []).0
      (handle unchanged_runtime provisional_ports small_git 4096 4096 small_provisional []).1
handle-Continues_example =
    handle-Continues unchanged_runtime provisional_ports small_git 4096 4096 small_provisional []
