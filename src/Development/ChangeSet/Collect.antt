-- ===== src/Development/ChangeSet/Collect.antt =====
-- The collection itself: `GitDevelopmentChangeSetCollector.collect` and `runGit` of
-- src/development/change-set.ts, with the bounded captures of Sandbox/Capture.
use Prim.Native.Nat.{Ordering}
use Prim.Native.String.{◌++◌}
use ai_agent_runner.Base.{
  ℕ, String, Bool, true, false, not, Option, none, some, List, [], ◌∷◌, if◌then◌else◌,
}
use ai_agent_runner.Base.Lists.{includes}
use ai_agent_runner.Base.Text.Decimal.{decimal}
use ai_agent_runner.Failure.{Result, ok, err, error, ◌>>=◌, ◌>>◌, require}
use ai_agent_runner.Artifact.Types.{Phase49ChangedFile, Phase49ChangedFileStatus, untracked}
use ai_agent_runner.Sandbox.Capture.{
  Bytes, Value, text_value, CaptureSnapshot, Capture, new_capture, append, append_all, snapshot,
}
use ai_agent_runner.Development.ChangeSet.{is_absolute, changed_files_of}

pub record GitObservation : Type 0 where
  pub exit_code : ℕ
  pub stdout : CaptureSnapshot
  pub stderr : CaptureSnapshot

pub record DevelopmentLocalChangeSet : Type 0 where
  pub changed_files : List Phase49ChangedFile
  pub patch : CaptureSnapshot

-- What a process of git does: it does not start, or it closes with a code, or with none, after it
-- wrote these chunks.
pub data GitRun : Type 0 where
  not_started : GitRun
  closed : Option ℕ → List Value → List Value → GitRun

-- The processes in their order, the latest first.
abbrev pub GitCalls : Type 0
GitCalls = List (List String)

abbrev pub diagnostic_capture_bytes : ℕ
diagnostic_capture_bytes = 65_536

abbrev pub exit_code_of : Option ℕ → ℕ
exit_code_of none = 1
exit_code_of (some code) = code

module _ (encode : String → Bytes) (decode : Bytes → String) where
  -- The streams are captured, and the code is compared.
  unfoldable pub observe_run : ℕ → List ℕ → GitRun → Result GitObservation
  observe_run limit accepted not_started =
      err (error "development git process could not be started")
  observe_run limit accepted (closed code out problems) = do
    stdout ← new_capture limit
    stderr ← new_capture diagnostic_capture_bytes
    require (includes accepted (exit_code_of code))
        ("development git operation failed with exit code " ++ decimal (exit_code_of code))
    ok (record {
      exit_code = exit_code_of code;
      stdout = snapshot encode decode (append_all encode decode stdout out);
      stderr = snapshot encode decode (append_all encode decode stderr problems);
    })

  unfoldable pub append_patch_capture : Capture → CaptureSnapshot → Capture
  append_patch_capture target source =
      let c = append encode decode target (text_value source.text) in
      if source.truncated then append encode decode c (text_value "\n") else c

  abbrev pub require_complete_metadata : GitObservation → String → Result (Unit {0})
  require_complete_metadata observation label =
      require (not observation.stdout.truncated)
        (label ++ " exceeded the development metadata capture boundary")

  abbrev is_untracked : Phase49ChangedFileStatus → Bool
  is_untracked untracked = true
  is_untracked _ = false

  module _ (locale_compare : String → String → Ordering) (on_git : GitCalls → List String → GitRun)
      (patch_limit metadata_limit : ℕ) where
    abbrev patch_arguments : String → List String
    patch_arguments path = "diff" ∷ "--no-index" ∷ "--binary" ∷ "--" ∷ "/dev/null" ∷ path ∷ []

    abbrev tracked_arguments : List String
    tracked_arguments = "diff" ∷ "--name-status" ∷ "-z" ∷ "--no-renames" ∷ "HEAD" ∷ "--" ∷ []

    abbrev untracked_arguments : List String
    untracked_arguments = "ls-files" ∷ "--others" ∷ "--exclude-standard" ∷ "-z" ∷ []

    abbrev diff_arguments : List String
    diff_arguments = "diff" ∷ "--binary" ∷ "--no-ext-diff" ∷ "--no-renames" ∷ "HEAD" ∷ "--" ∷ []

    -- The loop over the files, with what the capture holds so far.
    unfoldable pub append_untracked : GitCalls → Capture → List Phase49ChangedFile → Result Capture
    append_untracked h patch [] = ok patch
    append_untracked h patch (file ∷ files) = elim (is_untracked file.status) [
      | false ↦ append_untracked h patch files
      | true ↦ do
        observed ← observe_run patch_limit (0 ∷ 1 ∷ []) (on_git h (patch_arguments file.path))
        append_untracked (patch_arguments file.path ∷ h)
            (append_patch_capture patch observed.stdout) files
    ]

    unfoldable pub collect_patch : GitCalls → List Phase49ChangedFile → Result CaptureSnapshot
    collect_patch h files = do
      empty ← new_capture patch_limit
      observed ← observe_run patch_limit (0 ∷ []) (on_git h diff_arguments)
      full ←
          append_untracked (diff_arguments ∷ h) (append_patch_capture empty observed.stdout) files
      ok (snapshot encode decode full)

    unfoldable pub collect_files : Result (List Phase49ChangedFile)
    collect_files = do
      tracked ← observe_run metadata_limit (0 ∷ []) (on_git [] tracked_arguments)
      require_complete_metadata tracked "tracked changed-file list"
      others ←
          observe_run metadata_limit (0 ∷ []) (on_git (tracked_arguments ∷ []) untracked_arguments)
      require_complete_metadata others "untracked changed-file list"
      changed_files_of locale_compare tracked.stdout.text others.stdout.text

    -- `collect`; the two limits are checked where the collector is made.
    unfoldable pub collect : String → Result DevelopmentLocalChangeSet
    collect workspace_path = do
      require (is_absolute workspace_path) "development change-set workspace path must be absolute"
      files ← collect_files
      patch ← collect_patch (untracked_arguments ∷ tracked_arguments ∷ []) files
      ok (record { changed_files = files; patch = patch })
