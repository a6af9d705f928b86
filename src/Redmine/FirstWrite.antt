-- ===== src/Redmine/FirstWrite.antt =====
-- The check of a fixture Issue before the first production write:
-- `RedminePhase49FirstWriteCompatibilityVerifier` of src/redmine/phase49-first-write-verifier.ts.
use Prim.Native.String
use ai_agent_runner.Base.{
  ℕ, String, ◌≡◌, sym, ap, subst, ◌==◌, ◌&&◌, not, eq_iff, nat_beq_iff, arith, true, Option, none,
  some, List, [], ◌∷◌, nat_beq, ltb, leb,
}
use ai_agent_runner.Base.Lists.{includes, distinct}
use ai_agent_runner.Base.Text.{is_blank}
use ai_agent_runner.Base.Text.Decimal.{max_safe_integer}
use ai_agent_runner.Failure.{Result, ok, ◌>>=◌, ◌>>◌, require, >>=-eq-ok, require-eq-ok}
use ai_agent_runner.Exec.{Exec, lift, lift-eq-ok}
use ai_agent_runner.Exec
use ai_agent_runner.World.{Event, History, issue_read, issue_updated}
use ai_agent_runner.Redmine.Domain.{
  RedmineCustomField, RedmineIssueRecord, CustomFieldWrite, find_unique_custom_field,
  scalar_custom_field_value, expected_by_id, required,
}
use ai_agent_runner.Redmine.FieldNames.{
  lifecycle, outcome, artifact_reference, ready_for_independent_verification,
}
use ai_agent_runner.Redmine.Client.{RedmineClient, confirmed_update}
use ai_agent_runner.Redmine.StartWriter.Laws.{IsReadBack}
use ai_agent_runner.Redmine.Client.Trace.{IsConfirmed, confirmed_update-IsConfirmed}

unfoldable pub assert_fixture : List ℕ → ℕ → RedmineIssueRecord → Result (Unit {0})
assert_fixture allowed_project_ids expected_issue_id issue = do
  require (nat_beq issue.id expected_issue_id)
      "Phase 49 compatibility fixture Issue identity mismatch"
  require (includes allowed_project_ids issue.project.id)
      "Phase 49 compatibility fixture is outside allowed projects"

unfoldable pub build_verification_writes :
    RedmineIssueRecord → String → Result (List CustomFieldWrite)
build_verification_writes issue reference = do
  state ← find_unique_custom_field issue lifecycle
  result ← find_unique_custom_field issue outcome
  artifact ← find_unique_custom_field issue artifact_reference
  require (distinct (state.id ∷ result.id ∷ artifact.id ∷ []))
      "Phase 49 compatibility field binding contains duplicate IDs"
  ok (
      record { id = state.id; value = ready_for_independent_verification }
      ∷ record { id = result.id; value = "artifact_persistence_failed" }
      ∷ record { id = artifact.id; value = reference }
      ∷ [])

-- One round of the read-back loop.
unfoldable pub fixture_field_read_back :
    RedmineIssueRecord → List CustomFieldWrite → String → Result (Unit {0})
fixture_field_read_back issue writes name = do
  field ← find_unique_custom_field issue name
  expected ←
      required (String.◌++◌ "Phase 49 compatibility read-back field binding changed: " name)
        (expected_by_id writes field.id)
  actual ← scalar_custom_field_value field
  require (actual == expected) (String.◌++◌ "Phase 49 compatibility read-back mismatch: " name)

unfoldable pub assert_exact_read_back :
    RedmineIssueRecord → List CustomFieldWrite → Result (Unit {0})
assert_exact_read_back issue writes = do
  fixture_field_read_back issue writes lifecycle
  fixture_field_read_back issue writes outcome
  fixture_field_read_back issue writes artifact_reference

unfoldable pub plan_verification :
    List ℕ → ℕ → String → RedmineIssueRecord → Result (List CustomFieldWrite)
plan_verification allowed_project_ids issue_id reference before = do
  assert_fixture allowed_project_ids issue_id before
  build_verification_writes before reference

unfoldable pub check_verification :
    List ℕ → ℕ → List CustomFieldWrite → RedmineIssueRecord → Result (Unit {0})
check_verification allowed_project_ids issue_id writes after = do
  assert_fixture allowed_project_ids issue_id after
  assert_exact_read_back after writes

unfoldable pub assert_positive_integer : ℕ → String → Result (Unit {0})
assert_positive_integer value name =
    require (leb value max_safe_integer && ltb 0 value)
      (String.◌++◌ name " must be a positive safe integer")

unfoldable pub assert_verification_input : ℕ → String → Result (Unit {0})
assert_verification_input fixture_issue_id reference = do
  assert_positive_integer fixture_issue_id "fixtureIssueId"
  require (not (is_blank reference)) "representativeArtifactReference must not be blank"

-- `verify`, which returns the writes that it confirmed in place of nothing.
unfoldable pub verify : RedmineClient → List ℕ → ℕ → String → Exec Event (List CustomFieldWrite)
verify client allowed_project_ids fixture_issue_id reference =
    Exec.◌>>=◌ (lift (assert_verification_input fixture_issue_id reference)) (λ _.
      confirmed_update client fixture_issue_id
        (λ before. lift (plan_verification allowed_project_ids fixture_issue_id reference before))
        (λ writes. writes) (check_verification allowed_project_ids fixture_issue_id))

-- The fixture Issue, of an allowed project.
abbrev pub IsFixture : List ℕ → ℕ → RedmineIssueRecord → Type 0
IsFixture allowed id issue = (issue.id ≡ id) × (includes allowed issue.project.id ≡ true)

assert_fixture-IsFixture :
    (allowed : List ℕ) (id : ℕ) (issue : RedmineIssueRecord)
    → assert_fixture allowed id issue ≡ ok tt
    → IsFixture allowed id issue
unfolding assert_fixture
assert_fixture-IsFixture allowed id issue h =
    (ground (arith, nat_beq_iff issue.id id), ground arith)

-- The writes set the three fields of the Issue, whose ids are distinct.
pub record IsFixtureWrites (issue : RedmineIssueRecord) (reference : String)
    (writes : List CustomFieldWrite) : Type 0 where
  pub state : RedmineCustomField
  pub result : RedmineCustomField
  pub artifact : RedmineCustomField
  pub state_found : find_unique_custom_field issue lifecycle ≡ ok state
  pub result_found : find_unique_custom_field issue outcome ≡ ok result
  pub artifact_found : find_unique_custom_field issue artifact_reference ≡ ok artifact
  pub no_clash : distinct (state.id ∷ result.id ∷ artifact.id ∷ []) ≡ true
  pub made :
      writes
      ≡ record { id = state.id; value = "Ready for Independent Verification" }
        ∷ record { id = result.id; value = "artifact_persistence_failed" }
        ∷ record { id = artifact.id; value = reference }
        ∷ []

build-IsFixtureWrites :
    (issue : RedmineIssueRecord) (reference : String) (writes : List CustomFieldWrite)
    → build_verification_writes issue reference ≡ ok writes
    → IsFixtureWrites issue reference writes
unfolding build_verification_writes
build-IsFixtureWrites issue reference writes h =
    let (state, s, r₁) = >>=-eq-ok (find_unique_custom_field issue lifecycle) _ h in
    let (result, o, r₂) = >>=-eq-ok (find_unique_custom_field issue outcome) _ r₁ in
    let (artifact, a, r₃) = >>=-eq-ok (find_unique_custom_field issue artifact_reference) _ r₂ in
    let (u, apart, r₄) =
      >>=-eq-ok (require (distinct (state.id ∷ result.id ∷ artifact.id ∷ [])) _) _ r₃ in
    record {
      state = state;
      result = result;
      artifact = artifact;
      state_found = s;
      result_found = o;
      artifact_found = a;
      no_clash = require-eq-ok _ _ apart;
      made = cc r₄;
    }

required-eq-ok : (m : String) (o : Option String) (v : String) → required m o ≡ ok v → o ≡ some v
required-eq-ok m none v h = cc
required-eq-ok m (some w) v h = cc

fixture_field-IsReadBack :
    (issue : RedmineIssueRecord) (writes : List CustomFieldWrite) (name : String)
    → fixture_field_read_back issue writes name ≡ ok tt
    → IsReadBack issue writes name
unfolding fixture_field_read_back
fixture_field-IsReadBack issue writes name h =
    let (field, found, r₁) = >>=-eq-ok (find_unique_custom_field issue name) _ h in
    let (expected, wrote, r₂) = >>=-eq-ok (required _ (expected_by_id writes field.id)) _ r₁ in
    let (actual, read, r₃) = >>=-eq-ok (scalar_custom_field_value field) _ r₂ in
    record {
      field = field;
      expected = expected;
      found = found;
      written = required-eq-ok _ _ expected wrote;
      read = cc (read, (eq_iff actual expected).0 (require-eq-ok _ _ r₃));
    }

-- The Issue holds what was written to the ids of its three fields.
pub record AreReadBack (issue : RedmineIssueRecord) (writes : List CustomFieldWrite) : Type 0 where
  pub state_back : IsReadBack issue writes lifecycle
  pub result_back : IsReadBack issue writes outcome
  pub artifact_back : IsReadBack issue writes artifact_reference

exact-AreReadBack :
    (issue : RedmineIssueRecord) (writes : List CustomFieldWrite)
    → assert_exact_read_back issue writes ≡ ok tt
    → AreReadBack issue writes
unfolding assert_exact_read_back
exact-AreReadBack issue writes h =
    let (u, s, r₁) = >>=-eq-ok (fixture_field_read_back issue writes lifecycle) _ h in
    let (v, o, a) = >>=-eq-ok (fixture_field_read_back issue writes outcome) _ r₁ in
    record {
      state_back = fixture_field-IsReadBack issue writes lifecycle s;
      result_back = fixture_field-IsReadBack issue writes outcome o;
      artifact_back = fixture_field-IsReadBack issue writes artifact_reference a;
    }

module _ (client : RedmineClient) (allowed : List ℕ) (id : ℕ) (reference : String)
    (h : History) where
  verify-IsConfirmed :
      (writes : List CustomFieldWrite) (h' : History)
      → verify client allowed id reference h ≡ (ok writes, h')
      → IsConfirmed client id
          (λ before. lift (plan_verification allowed id reference before))
          (λ writes. writes)
          (check_verification allowed id)
          h
          writes
          h'
  unfolding verify
  verify-IsConfirmed writes h' e =
      let (u, given, r) =
        lift-eq-ok
          (λ _.
            confirmed_update client id
              (λ before. lift (plan_verification allowed id reference before)) (λ writes. writes)
              (check_verification allowed id))
          (assert_verification_input id reference) h e in
      confirmed_update-IsConfirmed client id
        (λ before. lift (plan_verification allowed id reference before)) (λ writes. writes)
        (check_verification allowed id) h r

  -- What a verification has confirmed: the two Issues read, the writes and what was read back.
  pub record IsVerified (writes : List CustomFieldWrite) (h' : History) : Type 0 where
    pub before : RedmineIssueRecord
    pub after : RedmineIssueRecord
    pub read_first : client.on_get h id ≡ ok before
    pub read_back : client.on_get (issue_updated id writes ∷ issue_read id ∷ h) id ≡ ok after
    pub fixture_before : IsFixture allowed id before
    pub fixture_after : IsFixture allowed id after
    pub planned : IsFixtureWrites before reference writes
    pub confirmed : AreReadBack after writes
    pub calls : h' ≡ issue_read id ∷ issue_updated id writes ∷ issue_read id ∷ h

  -- A verification that returns has made exactly one update, between two reads of its Issue; both
  -- reads gave the fixture Issue in an allowed project; the update set the lifecycle, the outcome and
  -- the artifact reference, by the distinct ids that their fields had in the first read, to
  -- `Ready for Independent Verification`, `artifact_persistence_failed` and the given reference; and
  -- in the second read the one field of each of the three names holds the value written to its id.
  pub verify_confirmed :
      (writes : List CustomFieldWrite) (h' : History)
      → verify client allowed id reference h ≡ (ok writes, h')
      → IsVerified writes h'
  unfolding plan_verification check_verification
  verify_confirmed writes h' e =
      let c = verify-IsConfirmed writes h' e in
      let planned : issue_read id ∷ h ≡ c.planned =
        ap (λ (t : Result (List CustomFieldWrite) × History). t.1) c.prepared in
      let (u, first, built) =
        >>=-eq-ok (assert_fixture allowed id c.before)
          (λ _. build_verification_writes c.before reference)
          (ap (λ (t : Result (List CustomFieldWrite) × History). t.0) c.prepared) in
      let (v, second, exact) =
        >>=-eq-ok (assert_fixture allowed id c.after) (λ _. assert_exact_read_back c.after writes)
          c.checked in
      record {
        before = c.before;
        after = c.after;
        read_first = c.read_first;
        read_back =
            subst (λ g. client.on_get (issue_updated id writes ∷ g) id ≡ ok c.after) (sym planned)
              c.read_back;
        fixture_before = assert_fixture-IsFixture allowed id c.before first;
        fixture_after = assert_fixture-IsFixture allowed id c.after second;
        planned = build-IsFixtureWrites c.before reference writes built;
        confirmed = exact-AreReadBack c.after writes exact;
        calls = cc (c.calls, planned);
      }
