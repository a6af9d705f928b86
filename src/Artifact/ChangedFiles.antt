-- ===== src/Artifact/ChangedFiles.antt =====
-- The changed files of an artifact in their canonical order: `normalizeChangedFiles` of
-- src/artifact/contract.ts. `localeCompare` of the runtime is an argument.
use Prim.Native.Nat.{Ordering}
use Prim.Native.String.{◌++◌}
use ai_agent_runner.Base.{
  String, ◌≡◌, refl, ◌==◌, Bool, true, false, not, List, [], ◌∷◌, nat_beq, arith,
}
use ai_agent_runner.Base.Lists.{any, All}
use ai_agent_runner.Base.Lists.Sort.{sort, sort-All, sort-sort}
use ai_agent_runner.Base.Text.{codes}
use ai_agent_runner.Failure.{Result, ok, ◌>>◌, require, >>=-eq-ok}
use ai_agent_runner.Artifact.Types.{
  Phase49ChangedFile, Phase49ChangedFileStatus, added, modified, deleted, type_changed, unmerged,
  untracked, other,
}

abbrev pub status_text : Phase49ChangedFileStatus → String
status_text added = "added"
status_text modified = "modified"
status_text deleted = "deleted"
status_text type_changed = "type_changed"
status_text unmerged = "unmerged"
status_text untracked = "untracked"
status_text other = "other"

-- `value.includes("\0")`
unfoldable pub includes_nul : String → Bool
includes_nul value = any (nat_beq 0) (codes value)

unfoldable pub assert_path : Phase49ChangedFile → Result (Unit {0})
assert_path entry = do
  require (not (entry.path == "")) "Phase 49 changed file path must not be empty"
  require (not (includes_nul entry.path)) "Phase 49 changed-file path contains NUL"

unfoldable pub assert_paths : List Phase49ChangedFile → Result (Unit {0})
assert_paths [] = ok tt
assert_paths (entry ∷ entries) = do assert_path entry; assert_paths entries

-- `previous.path === next.path` for neighbours.
unfoldable pub assert_distinct_neighbours : List Phase49ChangedFile → Result (Unit {0})
assert_distinct_neighbours [] = ok tt
assert_distinct_neighbours (x ∷ []) = ok tt
assert_distinct_neighbours (x ∷ y ∷ rest) = do
  require (not (x.path == y.path)) ("Phase 49 changed-file identity is duplicated: " ++ y.path)
  assert_distinct_neighbours (y ∷ rest)

HasPath : Phase49ChangedFile → Type 0
HasPath entry = assert_path entry ≡ ok tt

All_of_assert_paths : (xs : List Phase49ChangedFile) → assert_paths xs ≡ ok tt → All HasPath xs
unfolding assert_paths HasPath
All_of_assert_paths [] h = tt
All_of_assert_paths (x ∷ xs) h =
    let (u, p, rest) = >>=-eq-ok (assert_path x) _ h in (p, All_of_assert_paths xs rest)

assert_paths_of_All : (xs : List Phase49ChangedFile) → All HasPath xs → assert_paths xs ≡ ok tt
unfolding assert_paths HasPath
assert_paths_of_All [] h = refl
assert_paths_of_All (x ∷ xs) (p, h) = rw (p, assert_paths_of_All xs h) refl

module _ (locale_compare : String → String → Ordering) where
  abbrev at_most : Ordering → Bool
  at_most Ordering.gt = false
  at_most _ = true

  abbrev order_then : Ordering → Ordering → Ordering
  order_then Ordering.eq second = second
  order_then first second = first

  -- The comparison of `sort`, at most zero.
  abbrev pub entry_le : Phase49ChangedFile → Phase49ChangedFile → Bool
  entry_le left right = at_most (
      order_then (locale_compare left.path right.path)
        (locale_compare (status_text left.status) (status_text right.status)))

  unfoldable pub normalize_changed_files :
      List Phase49ChangedFile → Result (List Phase49ChangedFile)
  normalize_changed_files changed_files = do
    assert_paths changed_files
    assert_distinct_neighbours (sort entry_le changed_files)
    ok (sort entry_le changed_files)

  abbrev flipped : Ordering → Ordering
  flipped Ordering.lt = Ordering.gt
  flipped Ordering.eq = Ordering.eq
  flipped Ordering.gt = Ordering.lt

  -- `localeCompare` is antisymmetric.
  abbrev pub Flips : Type 0
  Flips = (a b : String) → locale_compare b a ≡ flipped (locale_compare a b)

  module _ (flips : Flips) where
    entry_le_total : (x y : Phase49ChangedFile) → entry_le x y ≡ false → entry_le y x ≡ true
    entry_le_total x y h =
        ground (arith, flips x.path y.path, flips (status_text x.status) (status_text y.status))

    -- What was normalized is normalized to itself.
    pub normalize-normalize :
        (xs ys : List Phase49ChangedFile)
        → normalize_changed_files xs ≡ ok ys
        → normalize_changed_files ys ≡ ok ys
    unfolding normalize_changed_files
    normalize-normalize xs ys h =
        let (u, paths, rest) = >>=-eq-ok (assert_paths xs) _ h in
        let (v, distinct, result) =
          >>=-eq-ok (assert_distinct_neighbours (sort entry_le xs)) _ rest in
        let same : sort entry_le xs ≡ ys = cc in
        let again : sort entry_le ys ≡ ys = rw (← same) (sort-sort entry_le entry_le_total xs) in
        let paths' : assert_paths ys ≡ ok tt = rw (← same) (
          assert_paths_of_All (sort entry_le xs)
            (sort-All entry_le HasPath xs (All_of_assert_paths xs paths))) in
        let distinct' : assert_distinct_neighbours ys ≡ ok tt = rw (← same) distinct in
        rw (again, paths', distinct') refl
