-- ===== src/Redmine/StartWriter/Laws.antt =====
-- What the start projection writes, and what its read-back confirms.
use ai_agent_runner.Base.{
  String, ◌≡◌, refl, sym, subst, ◌∙◌, eq_iff, true, Option, none, some, List, [], ◌∷◌, arith, inl,
  inr,
}
use ai_agent_runner.Base.Lists.{All, In, distinct, keys_of, map_get, map_get_of_In}
use ai_agent_runner.Failure.{ok, ◌>>=◌, >>=-eq-ok, require-eq-ok}
use ai_agent_runner.Redmine.Domain.{
  RedmineCustomField, RedmineIssueRecord, CustomFieldWrite, find_unique_custom_field,
  scalar_custom_field_value, pairs_of, expected_by_id,
}
use ai_agent_runner.Redmine.FieldNames.{durable_execution_field_names}
use ai_agent_runner.Redmine.Guard.{
  Binding, bind_pristine_durable_execution_fields, field_ids, require_bound_durable_execution_field,
}
use ai_agent_runner.Redmine.Guard.Laws.{IsPristineEntry, names_of, bind_pristine-eq-ok_iff}
use ai_agent_runner.Redmine.StartWriter.{
  value_for, start_write, start_writes_for, start_values, build_start_writes, start_field_read_back,
  start_fields_read_back, expected_or,
}
use ai_agent_runner.Execution.Types.{PreparedExecution}

-- The write sets the one field of that name to the projected value.
pub record IsWriteOf (issue : RedmineIssueRecord) (values : List (String × String)) (name : String)
    (write : CustomFieldWrite) : Type 0 where
  pub target : RedmineCustomField
  pub found : find_unique_custom_field issue name ≡ ok target
  pub same_id : write.id ≡ target.id
  pub projected : value_for values name ≡ ok write.value

module _ (issue : RedmineIssueRecord) (values : List (String × String)) where
  -- One write for each name, in order.
  abbrev pub AreWritesOf : List String → List CustomFieldWrite → Type 0
  AreWritesOf [] [] = Unit
  AreWritesOf (name ∷ names) (write ∷ writes) =
      IsWriteOf issue values name write × AreWritesOf names writes
  AreWritesOf _ _ = ⊥

  require_bound-found :
      (fields : Binding) (name : String) (field : RedmineCustomField)
      → All (IsPristineEntry issue) fields
      → require_bound_durable_execution_field fields name ≡ ok field
      → find_unique_custom_field issue name ≡ ok field
  unfolding require_bound_durable_execution_field
  require_bound-found [] name field h e = cc
  require_bound-found ((key, f) ∷ fields) name field (h, hs) e =
      ground (arith, eq_iff key name, require_bound-found fields name field hs)

  start_write-IsWriteOf :
      (fields : Binding) (name : String) (write : CustomFieldWrite)
      → All (IsPristineEntry issue) fields
      → start_write values fields name ≡ ok write
      → IsWriteOf issue values name write
  unfolding start_write
  start_write-IsWriteOf fields name write h e =
      let (value, projected, r₁) = >>=-eq-ok (value_for values name) _ e in
      let (field, bound, r₂) = >>=-eq-ok (require_bound_durable_execution_field fields name) _ r₁ in
      let same : record { id = field.id; value = value } ≡ write = cc r₂ in
      record {
        target = field;
        found = require_bound-found fields name field h bound;
        same_id = cc;
        projected = cc projected;
      }

  start_writes_for-AreWritesOf :
      (fields : Binding) (names : List String) (writes : List CustomFieldWrite)
      → All (IsPristineEntry issue) fields
      → start_writes_for values fields names ≡ ok writes
      → AreWritesOf names writes
  unfolding start_writes_for
  start_writes_for-AreWritesOf fields [] [] h e = tt
  start_writes_for-AreWritesOf fields [] (w ∷ ws) h e = cc
  start_writes_for-AreWritesOf fields (name ∷ names) writes h e =
      let (write, made, r₁) =
        >>=-eq-ok (start_write values fields name)
          (λ w. start_writes_for values fields names >>= λ rest. ok (w ∷ rest)) e in
      let (rest, more, r₂) =
        >>=-eq-ok (start_writes_for values fields names) (λ rest. ok (write ∷ rest)) r₁ in
      let same : write ∷ rest ≡ writes = cc r₂ in
      subst (AreWritesOf (name ∷ names)) same (
        start_write-IsWriteOf fields name write h made,
        start_writes_for-AreWritesOf fields names rest h more,
      )

  -- The ids written are those of the bound fields.
  keys-pairs_of :
      (fields : Binding) (writes : List CustomFieldWrite)
      → All (IsPristineEntry issue) fields
      → AreWritesOf (names_of fields) writes
      → keys_of (pairs_of writes) ≡ field_ids fields
  keys-pairs_of [] [] h a = refl
  keys-pairs_of [] (w ∷ ws) h a = elim a [ ]
  keys-pairs_of (f ∷ fs) [] h a = elim a [ ]
  keys-pairs_of ((name, f) ∷ fs) (w ∷ ws) ((found, read), hs) (a, as') =
      let same : ok a.target ≡ ok f = sym a.found ∙ found in
      let ids : w.id ≡ f.id = cc (a.same_id, same) in cc (ids, keys-pairs_of fs ws hs as')

  -- The write for a listed name is among the pairs.
  written_for :
      (names : List String) (writes : List CustomFieldWrite) (name : String)
      → AreWritesOf names writes
      → In name names
      → (w : CustomFieldWrite) × IsWriteOf issue values name w
        × In (w.id, w.value) (pairs_of writes)
  written_for [] writes name a i = elim i [ ]
  written_for (n ∷ names) [] name a i = elim a [ ]
  written_for (n ∷ names) (w ∷ writes) name (a, as') (inl e) =
      (w, subst (λ m. IsWriteOf issue values m w) (sym e) a, inl refl)
  written_for (n ∷ names) (w ∷ writes) name (a, as') (inr i) =
      let (v, b, j) = written_for names writes name as' i in (v, b, inr j)

-- The plan of a start names every field of the record once, by the ids of the one field of each
-- name, which are distinct.
pub record IsStartPlan (issue : RedmineIssueRecord) (values : List (String × String))
    (writes : List CustomFieldWrite) : Type 0 where
  pub each : AreWritesOf issue values durable_execution_field_names writes
  pub no_clash : distinct (keys_of (pairs_of writes)) ≡ true

pub build_start_writes-IsStartPlan :
    (issue : RedmineIssueRecord) (execution : PreparedExecution) (writes : List CustomFieldWrite)
    → build_start_writes issue execution ≡ ok writes
    → IsStartPlan issue (start_values execution) writes
unfolding build_start_writes
build_start_writes-IsStartPlan issue execution writes h =
    let (fields, bound, r₁) =
      >>=-eq-ok (bind_pristine_durable_execution_fields issue)
        (λ fields. start_writes_for (start_values execution) fields durable_execution_field_names)
        h in
    let (same, pristine, apart) = (bind_pristine-eq-ok_iff issue fields).0 bound in
    let each =
      start_writes_for-AreWritesOf issue (start_values execution) fields
        durable_execution_field_names writes pristine r₁ in
    record {
      each = each;
      no_clash =
          rw
            (keys-pairs_of issue (start_values execution) fields writes pristine
              (subst (λ ns. AreWritesOf issue (start_values execution) ns writes) (sym same) each))
            apart;
    }

-- The field of that name holds the value that was written to its id.
pub record IsReadBack (issue : RedmineIssueRecord) (writes : List CustomFieldWrite) (name : String)
    : Type 0 where
  pub field : RedmineCustomField
  pub expected : String
  pub found : find_unique_custom_field issue name ≡ ok field
  pub written : expected_by_id writes field.id ≡ some expected
  pub read : scalar_custom_field_value field ≡ ok expected

expected_or-eq-ok :
    (m : String) (o : Option String) (v : String) → expected_or m o ≡ ok v → o ≡ some v
expected_or-eq-ok m none v h = cc
expected_or-eq-ok m (some w) v h = cc

start_field_read_back-IsReadBack :
    (issue : RedmineIssueRecord) (writes : List CustomFieldWrite) (name : String)
    → start_field_read_back issue writes name ≡ ok tt
    → IsReadBack issue writes name
unfolding start_field_read_back
start_field_read_back-IsReadBack issue writes name h =
    let (field, found, r₁) = >>=-eq-ok (find_unique_custom_field issue name) _ h in
    let (expected, wrote, r₂) = >>=-eq-ok (expected_or _ (expected_by_id writes field.id)) _ r₁ in
    let (actual, read, r₃) = >>=-eq-ok (scalar_custom_field_value field) _ r₂ in
    record {
      field = field;
      expected = expected;
      found = found;
      written = expected_or-eq-ok _ _ expected wrote;
      read = cc (read, (eq_iff actual expected).0 (require-eq-ok _ _ r₃));
    }

pub start_fields_read_back-IsReadBack :
    (issue : RedmineIssueRecord) (writes : List CustomFieldWrite) (names : List String)
    (name : String)
    → start_fields_read_back issue writes names ≡ ok tt
    → In name names
    → IsReadBack issue writes name
unfolding start_fields_read_back
start_fields_read_back-IsReadBack issue writes [] name h i = elim i [ ]
start_fields_read_back-IsReadBack issue writes (n ∷ names) name h (inl e) =
    let (u, here, later) =
      >>=-eq-ok (start_field_read_back issue writes n)
        (λ _. start_fields_read_back issue writes names) h in
    subst (IsReadBack issue writes) (sym e) (start_field_read_back-IsReadBack issue writes n here)
start_fields_read_back-IsReadBack issue writes (n ∷ names) name h (inr i) =
    let (u, here, later) =
      >>=-eq-ok (start_field_read_back issue writes n)
        (λ _. start_fields_read_back issue writes names) h in
    start_fields_read_back-IsReadBack issue writes names name later i

-- Where the field of a name keeps its id between the two reads, the confirmed value is the
-- projected one.
pub confirmed_value :
    (before after : RedmineIssueRecord) (execution : PreparedExecution)
    (writes : List CustomFieldWrite) (name value : String) (old new : RedmineCustomField)
    → IsStartPlan before (start_values execution) writes
    → IsReadBack after writes name
    → In name durable_execution_field_names
    → value_for (start_values execution) name ≡ ok value
    → find_unique_custom_field before name ≡ ok old
    → find_unique_custom_field after name ≡ ok new
    → old.id ≡ new.id
    → scalar_custom_field_value new ≡ ok value
confirmed_value before after execution writes name value old new plan back i projected o n same =
    let (w, made, at) =
      written_for before (start_values execution) durable_execution_field_names writes name
        plan.each i in
    let got : map_get (pairs_of writes) w.id ≡ some w.value =
      map_get_of_In (pairs_of writes) w.id w.value plan.no_clash at in
    let old_is : ok made.target ≡ ok old = sym made.found ∙ o in
    let new_is : ok back.field ≡ ok new = sym back.found ∙ n in
    let ids : back.field.id ≡ w.id = cc (old_is, new_is, same, made.same_id) in
    let fetched : map_get (pairs_of writes) back.field.id ≡ some w.value =
      subst (λ k. map_get (pairs_of writes) k ≡ some w.value) (sym ids) got in
    let want : some back.expected ≡ some w.value = sym back.written ∙ fetched in
    let val : ok w.value ≡ ok value = sym made.projected ∙ projected in
    cc (new_is, back.read, want, val)
