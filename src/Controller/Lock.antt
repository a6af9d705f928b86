-- ===== src/Controller/Lock.antt =====
-- The process-local lock on Issues: `InMemoryIssueLock` of src/controller/local-lock.ts. The `Set` of
-- held ids is a list without duplicates, and each operation returns the set after it.
use ai_agent_runner.Base.{
  ℕ, ◌≡◌, refl, Bool, true, false, not, ◌&&◌, List, [], ◌∷◌, arith, nat_beq, ltb, leb,
  if◌then◌else◌, inl, inr, Bool-cases,
}
use ai_agent_runner.Base.Lists.{includes, keep}
use ai_agent_runner.Base.Text.Decimal.{max_safe_integer}
use ai_agent_runner.Failure.{Result, ok, ◌>>◌, require, Result-cases}

abbrev pub HeldIssues : Type 0
HeldIssues = List ℕ

unfoldable pub assert_positive_issue_id : ℕ → Result (Unit {0})
assert_positive_issue_id issue_id =
    require (leb issue_id max_safe_integer && ltb 0 issue_id)
      "issueId must be a positive safe integer"

-- Whether the lock was taken, and the ids held then.
unfoldable pub try_acquire : ℕ → HeldIssues → Result (Bool × HeldIssues)
try_acquire issue_id held = do
  assert_positive_issue_id issue_id
  ok (if includes held issue_id then (false, held) else (true, issue_id ∷ held))

unfoldable pub release : ℕ → HeldIssues → Result HeldIssues
release issue_id held = do
  assert_positive_issue_id issue_id
  ok (keep (λ held_id. not (nat_beq issue_id held_id)) held)

unfoldable pub is_held : ℕ → HeldIssues → Result Bool
is_held issue_id held = do assert_positive_issue_id issue_id; ok (includes held issue_id)

keep-absent :
    (id : ℕ) (held : HeldIssues)
    → includes held id ≡ false
    → keep (λ held_id. not (nat_beq id held_id)) held ≡ held
keep-absent id [] h = refl
keep-absent id (k ∷ held) h = ground (arith, keep-absent id held)

module _ (id : ℕ) (held : HeldIssues) where
  -- A lock that was taken is given back by a release, which leaves the set of held ids as it was
  -- before.
  pub release-try_acquire :
      (now : HeldIssues) → try_acquire id held ≡ ok (true, now) → release id now ≡ ok held
  unfolding try_acquire release
  release-try_acquire now h = elim (Result-cases (assert_positive_issue_id id)) [
    | inl (x, e) ↦ absurd (ground (arith, keep-absent id held))
    | inr (tt, e) ↦ elim (Bool-cases (includes held id)) [
      | inl i ↦ absurd (ground (arith, keep-absent id held))
      | inr i ↦ ground (arith, keep-absent id held)
    ]
  ]

  -- A lock that is not taken leaves the set of held ids as it was.
  pub try_acquire_refused : (now : HeldIssues) → try_acquire id held ≡ ok (false, now) → now ≡ held
  unfolding try_acquire
  try_acquire_refused now h = elim (Result-cases (assert_positive_issue_id id)) [
    | inl (x, e) ↦ absurd (ground (arith, keep-absent id held))
    | inr (tt, e) ↦ elim (Bool-cases (includes held id)) [
      | inl i ↦ ground (arith, keep-absent id held)
      | inr i ↦ absurd (ground (arith, keep-absent id held))
    ]
  ]
