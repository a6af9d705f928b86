-- ===== src/Development/ChangeSet.antt =====
-- The changed files and the patch of a workspace: src/development/change-set.ts. A `git` process is
-- an answer of the outside: its exit code with what it wrote to its two streams. Paths are those of
-- POSIX, and `localeCompare`, UTF-8 encoding and decoding are of the artifact runtime.
pub mod Files
pub mod Collect
use Prim.Native.Char.{Char, code}
use Prim.Native.Nat.{Ordering}
use Prim.Native.String.{◌++◌}
use ai_agent_runner.Base.{
  ℕ, String, ◌==◌, Bool, true, false, not, ◌&&◌, ◌||◌, List, [], ◌∷◌, ◌++◌ as ◌++ᴸ◌, map, nat_beq,
  ◌%◌, if◌then◌else◌,
}
use ai_agent_runner.Base.Lists.{length}
use ai_agent_runner.Base.Lists.Sort.{sort}
use ai_agent_runner.Base.Text.{codes}
use ai_agent_runner.Base.Text.Parts.{split, includes_text}
use ai_agent_runner.Failure.{Result, ok, err, error, ◌>>=◌, ◌>>◌, require}
use ai_agent_runner.Artifact.Types.{
  Phase49ChangedFile, Phase49ChangedFileStatus, added, modified, deleted, type_changed, unmerged,
  untracked, other,
}

abbrev pub nul : Char
nul = "\0"

-- `if (tokens[tokens.length - 1] === "") tokens.pop()`
abbrev pub without_last_empty : List String → List String
without_last_empty [] = []
without_last_empty (x ∷ []) = if x == "" then [] else x ∷ []
without_last_empty (x ∷ y ∷ rest) = x ∷ without_last_empty (y ∷ rest)

abbrev starts_with_slash : List ℕ → Bool
starts_with_slash [] = false
starts_with_slash (c ∷ cs) = nat_beq c 47

-- `path.startsWith("../")`
abbrev starts_above : List ℕ → Bool
starts_above (a ∷ b ∷ c ∷ rest) = nat_beq a b'.' && (nat_beq b b'.' && nat_beq c 47)
starts_above _ = false

unfoldable pub is_absolute : String → Bool
is_absolute path = starts_with_slash (codes path)

unfoldable pub is_relative_git_path : String → Bool
unfolding is_absolute
is_relative_git_path path = not (
    (path == "")
    || ((path == ".") || ((path == "..") || (is_absolute path || starts_above (codes path)))))

abbrev pub assert_relative_git_path : String → Result (Unit {0})
assert_relative_git_path path =
    require (is_relative_git_path path) "development changed-file path escaped the task workspace"

abbrev status_of : List ℕ → Phase49ChangedFileStatus
status_of [] = other
status_of (c ∷ cs) =
    if nat_beq c b'A'
    then added
    else if nat_beq c b'M'
    then modified
    else if nat_beq c b'D'
    then deleted
    else if nat_beq c b'T'
    then type_changed
    else if nat_beq c b'U'
    then unmerged
    else other

unfoldable pub map_git_status : String → Phase49ChangedFileStatus
map_git_status code = status_of (codes code)

-- The loop over pairs of a code and a path.
unfoldable pub parse_pairs : List String → Result (List Phase49ChangedFile)
parse_pairs [] = ok []
parse_pairs (code ∷ []) = err (error "git tracked changed-file output is incomplete")
parse_pairs (code ∷ path ∷ rest) = do
  require (not (code == "")) "git tracked changed-file output is incomplete"
  assert_relative_git_path path
  entries ← parse_pairs rest
  ok (record { path = path; status = map_git_status code } ∷ entries)

unfoldable pub parse_tracked_name_status : String → Result (List Phase49ChangedFile)
parse_tracked_name_status raw = do
  require (nat_beq (length (without_last_empty (split nul raw)) % 2) 0)
      "git tracked changed-file output is malformed"
  parse_pairs (without_last_empty (split nul raw))

unfoldable pub assert_relative_paths : List String → Result (Unit {0})
assert_relative_paths [] = ok tt
assert_relative_paths (path ∷ paths) = do assert_relative_git_path path; assert_relative_paths paths

unfoldable pub parse_nul_paths : String → Result (List String)
parse_nul_paths raw = do
  assert_relative_paths (without_last_empty (split nul raw))
  ok (without_last_empty (split nul raw))

abbrev pub as_untracked : List String → List Phase49ChangedFile
as_untracked paths = map (λ path. record { path = path; status = untracked }) paths

-- The loop over the entries, with the paths in the `Map` so far.
unfoldable pub assert_new_paths : List String → List Phase49ChangedFile → Result (Unit {0})
assert_new_paths seen [] = ok tt
assert_new_paths seen (entry ∷ entries) = do
  require (not (includes_text seen entry.path))
      ("development changed-file identity is duplicated: " ++ entry.path)
  assert_new_paths (entry.path ∷ seen) entries

module _ (locale_compare : String → String → Ordering) where
  abbrev pub path_le : Phase49ChangedFile → Phase49ChangedFile → Bool
  path_le left right = elim (locale_compare left.path right.path) [ Ordering.gt ↦ false | _ ↦ true ]

  unfoldable pub merge_changed_files :
      List Phase49ChangedFile → List Phase49ChangedFile → Result (List Phase49ChangedFile)
  merge_changed_files tracked other_files = do
    assert_new_paths [] (tracked ++ᴸ other_files)
    ok (sort path_le (tracked ++ᴸ other_files))

  -- The changed files of the two listings.
  unfoldable pub changed_files_of : String → String → Result (List Phase49ChangedFile)
  changed_files_of tracked_text untracked_text = do
    tracked ← parse_tracked_name_status tracked_text
    paths ← parse_nul_paths untracked_text
    merge_changed_files tracked (as_untracked paths)
