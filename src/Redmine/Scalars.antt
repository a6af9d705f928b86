-- ===== src/Redmine/Scalars.antt =====
-- What the assertions on scalar fields decide, and what the read-back loops confirm.
use ai_agent_runner.Base.{String, ◌≡◌, refl, ◌↔◌, eq_iff, ◌==◌, List, [], ◌∷◌}
use ai_agent_runner.Base.Lists.{All}
use ai_agent_runner.Failure.{ok, ◌>>=◌, >>=-eq-ok, require, require-eq-ok}
use ai_agent_runner.Redmine.FieldNames.{
  lifecycle, finished_at, outcome, artifact_reference, agent_running,
}
use ai_agent_runner.Redmine.Domain.{
  RedmineIssueRecord, CustomFieldWrite, find_unique_custom_field, scalar_custom_field_value,
  scalar_of, assert_scalar, assert_scalars, assert_written, assert_all_written,
}

-- The Issue has one field of that name, and its value is that text.
abbrev pub Holds : RedmineIssueRecord → String × String → Type 0
Holds issue (name, value) = scalar_of issue name ≡ ok value

pub assert_scalar-eq-ok_iff :
    (prefix : String) (issue : RedmineIssueRecord) (name value : String)
    → (assert_scalar prefix issue name value ≡ ok tt) ↔ Holds issue (name, value)
unfolding assert_scalar
assert_scalar-eq-ok_iff prefix issue name value = (
  λ h.
      let (actual, read, r) = >>=-eq-ok (scalar_of issue name) (λ a. require (a == value) _) h in
      cc (read, (eq_iff actual value).0 (require-eq-ok _ _ r)),
  λ h. rw (h, (eq_iff value value).1 refl),
)

pub assert_scalars-eq-ok_iff :
    (prefix : String) (issue : RedmineIssueRecord) (pairs : List (String × String))
    → (assert_scalars prefix issue pairs ≡ ok tt) ↔ All (Holds issue) pairs
unfolding assert_scalars
assert_scalars-eq-ok_iff prefix issue [] = (λ h. tt, λ h. refl)
assert_scalars-eq-ok_iff prefix issue ((name, value) ∷ pairs) = (
  λ h.
      let (u, here, later) =
        >>=-eq-ok (assert_scalar prefix issue name value) (λ _. assert_scalars prefix issue pairs)
          h in
      (
        (assert_scalar-eq-ok_iff prefix issue name value).0 here,
        (assert_scalars-eq-ok_iff prefix issue pairs).0 later,
      ),
  λ h.
      rw ((assert_scalar-eq-ok_iff prefix issue name value).1 h.0)
        ((assert_scalars-eq-ok_iff prefix issue pairs).1 h.1),
)

assert_written-Holds :
    (prefix : String) (issue : RedmineIssueRecord) (writes : List CustomFieldWrite)
    (name value : String)
    → assert_written prefix issue writes name value ≡ ok tt
    → Holds issue (name, value)
unfolding assert_written scalar_of
assert_written-Holds prefix issue writes name value h =
    let (target, found, r₁) = >>=-eq-ok (find_unique_custom_field issue name) _ h in
    let (u, wrote, r₂) =
      >>=-eq-ok (require _ _)
        (λ _. scalar_custom_field_value target >>= λ a. require (a == value) _) r₁ in
    let (actual, read, r₃) =
      >>=-eq-ok (scalar_custom_field_value target) (λ a. require (a == value) _) r₂ in
    rw found (cc (read, (eq_iff actual value).0 (require-eq-ok _ _ r₃)))

pub assert_all_written-Holds :
    (prefix : String) (issue : RedmineIssueRecord) (writes : List CustomFieldWrite)
    (pairs : List (String × String))
    → assert_all_written prefix issue writes pairs ≡ ok tt
    → All (Holds issue) pairs
unfolding assert_all_written
assert_all_written-Holds prefix issue writes [] h = tt
assert_all_written-Holds prefix issue writes ((name, value) ∷ pairs) h =
    let (u, here, later) =
      >>=-eq-ok (assert_written prefix issue writes name value)
        (λ _. assert_all_written prefix issue writes pairs) h in
    (
      assert_written-Holds prefix issue writes name value here,
      assert_all_written-Holds prefix issue writes pairs later,
    )

-- An execution that has started and not ended.
abbrev pub active_values : List (String × String)
active_values =
    (lifecycle, agent_running) ∷ (finished_at, "") ∷ (outcome, "") ∷ (artifact_reference, "") ∷ []
