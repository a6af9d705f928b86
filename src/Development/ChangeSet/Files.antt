-- ===== src/Development/ChangeSet/Files.antt =====
-- The listings of git, in its format with NUL behind every token, are read as the files they list.
use Prim.Native.Nat.{Ordering}
use ai_agent_runner.Base.{
  String, ◌==◌, ◌≡◌, ◌≢◌, refl, ap, ◌∙◌, true, false, List, [], ◌∷◌, ◌++◌, map, nat_beq, arith, ◌%◌,
}
use ai_agent_runner.Base.Lists.{All, length}
use ai_agent_runner.Base.Lists.Sort.{sort}
use ai_agent_runner.Base.Text.Parts.{split, join, Lacks, split-join, includes_text}
use ai_agent_runner.Failure.{ok}
use ai_agent_runner.Artifact.Types.{Phase49ChangedFile}
use ai_agent_runner.Development.ChangeSet.{
  nul, without_last_empty, is_relative_git_path, map_git_status, parse_pairs,
  parse_tracked_name_status, assert_relative_paths, parse_nul_paths, as_untracked, assert_new_paths,
  path_le, merge_changed_files, changed_files_of,
}

-- A file of a listing of tracked files: the letters of its status and its path.
pub record Listed : Type 0 where
  pub letters : String
  pub path : String

abbrev pub tokens_of : List Listed → List String
tokens_of [] = []
tokens_of (l ∷ ls) = l.letters ∷ l.path ∷ tokens_of ls

-- Every token is ended by NUL.
abbrev pub terminated : List String → String
terminated tokens = join nul (tokens ++ "" ∷ [])

abbrev pub entry_of : Listed → Phase49ChangedFile
entry_of l = record { path = l.path; status = map_git_status l.letters }

-- What git lists: a status with letters, and paths inside the workspace without NUL.
pub record IsListed (l : Listed) : Type 0 where
  pub lettered : (l.letters == "") ≡ false
  pub letters_plain : Lacks nul l.letters
  pub relative : is_relative_git_path l.path ≡ true
  pub path_plain : Lacks nul l.path

abbrev pub IsPlainPath : String → Type 0
IsPlainPath path = (is_relative_git_path path ≡ true) × Lacks nul path

without_last-end : (tokens : List String) → without_last_empty (tokens ++ "" ∷ []) ≡ tokens
without_last-end [] = refl
without_last-end (x ∷ []) = refl
without_last-end (x ∷ y ∷ rest) = ap (λ ts. x ∷ ts) (without_last-end (y ∷ rest))

terminated-Lacks :
    (tokens : List String) → All (Lacks nul) tokens → All (Lacks nul) (tokens ++ "" ∷ [])
terminated-Lacks [] h = (refl, tt)
terminated-Lacks (x ∷ xs) (p, h) = (p, terminated-Lacks xs h)

end-ne : (tokens : List String) → tokens ++ "" ∷ [] ≢ []
end-ne [] e = cc
end-ne (x ∷ xs) e = cc

split-terminated :
    (tokens : List String)
    → All (Lacks nul) tokens
    → without_last_empty (split nul (terminated tokens)) ≡ tokens
split-terminated tokens h =
    ap without_last_empty
      (split-join nul (tokens ++ "" ∷ []) (end-ne tokens) (terminated-Lacks tokens h))
    ∙ without_last-end tokens

tokens-Lacks : (ls : List Listed) → All IsListed ls → All (Lacks nul) (tokens_of ls)
tokens-Lacks [] h = tt
tokens-Lacks (l ∷ ls) (p, h) = (p.letters_plain, (p.path_plain, tokens-Lacks ls h))

tokens-even : (ls : List Listed) → nat_beq (length (tokens_of ls) % 2) 0 ≡ true
tokens-even [] = refl
tokens-even (l ∷ ls) = ground (arith, tokens-even ls)

pairs-tokens :
    (ls : List Listed) → All IsListed ls → parse_pairs (tokens_of ls) ≡ ok (map entry_of ls)
unfolding parse_pairs
pairs-tokens [] h = refl
pairs-tokens (l ∷ ls) (p, h) = rw (p.lettered, p.relative, pairs-tokens ls h) refl

tracked-terminated :
    (ls : List Listed)
    → All IsListed ls
    → parse_tracked_name_status (terminated (tokens_of ls)) ≡ ok (map entry_of ls)
unfolding parse_tracked_name_status
tracked-terminated ls h =
    rw (split-terminated (tokens_of ls) (tokens-Lacks ls h), tokens-even ls, pairs-tokens ls h) refl

paths-relative : (paths : List String) → All IsPlainPath paths → assert_relative_paths paths ≡ ok tt
unfolding assert_relative_paths
paths-relative [] h = refl
paths-relative (p ∷ ps) ((r, q), h) = rw (r, paths-relative ps h) refl

paths-Lacks : (paths : List String) → All IsPlainPath paths → All (Lacks nul) paths
paths-Lacks [] h = tt
paths-Lacks (p ∷ ps) ((r, q), h) = (q, paths-Lacks ps h)

paths-terminated :
    (paths : List String) → All IsPlainPath paths → parse_nul_paths (terminated paths) ≡ ok paths
unfolding parse_nul_paths
paths-terminated paths h =
    rw (split-terminated paths (paths-Lacks paths h), paths-relative paths h) refl

-- No path stands twice in the entries, nor among the texts seen.
abbrev pub AreNew : List String → List Phase49ChangedFile → Type 0
AreNew seen [] = Unit
AreNew seen (e ∷ es) = (includes_text seen e.path ≡ false) × AreNew (e.path ∷ seen) es

new-eq-ok :
    (seen : List String) (es : List Phase49ChangedFile)
    → AreNew seen es
    → assert_new_paths seen es ≡ ok tt
unfolding assert_new_paths
new-eq-ok seen [] h = refl
new-eq-ok seen (e ∷ es) (p, h) = rw (p, new-eq-ok (e.path ∷ seen) es h) refl

-- The two listings of git, of files inside the workspace of which no path stands twice, are read as
-- all the files that they list, the tracked ones with their status and the others as untracked, in
-- the order of their paths.
pub changed_files_of-terminated :
    (locale_compare : String → String → Ordering) (ls : List Listed) (paths : List String)
    → All IsListed ls
    → All IsPlainPath paths
    → AreNew [] (map entry_of ls ++ as_untracked paths)
    → changed_files_of locale_compare (terminated (tokens_of ls)) (terminated paths)
      ≡ ok (sort (path_le locale_compare) (map entry_of ls ++ as_untracked paths))
unfolding changed_files_of merge_changed_files
changed_files_of-terminated locale_compare ls paths listed plain fresh =
    rw
      (
        tracked-terminated ls listed,
        paths-terminated paths plain,
        new-eq-ok [] (map entry_of ls ++ as_untracked paths) fresh,
      )
      refl
