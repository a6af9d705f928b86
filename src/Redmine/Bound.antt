-- ===== src/Redmine/Bound.antt =====
-- Issues whose named fields are unique and have distinct ids, and what writes by those ids do to
-- their values.
use ai_agent_runner.Base.{
  String, ◌≡◌, refl, sym, ap, subst, ◌∙◌, ◌==◌, eq_iff, nat_beq, nat_beq_iff, true, Option, none,
  some, List, [], ◌∷◌, arith, inl, inr, if◌then◌else◌, Bool-cases,
}
use ai_agent_runner.Base.Lists.{All, In, distinct, includes, map_get}
use ai_agent_runner.Failure.{ok, ◌>>=◌, >>=-eq-ok}
use ai_agent_runner.Redmine.Domain.{
  RedmineCustomField, RedmineIssueRecord, CustomFieldWrite, find_unique_custom_field,
  scalar_custom_field_value, scalar_of, field_write, field_writes, pairs_of, assert_written,
  assert_holds_written,
}
use ai_agent_runner.Redmine.Guard.{Binding, field_ids}
use ai_agent_runner.Redmine.Client.Store.{
  written_issue, find_unique-written_issue, id-written_field, value-written_field, unwritten_field,
}
use ai_agent_runner.Redmine.Scalars.{Holds}

-- Every entry names the only field of its name.
abbrev pub AreBound : RedmineIssueRecord → Binding → Type 0
AreBound issue fields =
    All (λ (e : String × RedmineCustomField). find_unique_custom_field issue e.0 ≡ ok e.1) fields

-- The value that the last entry for a name gives it.
abbrev pub text_get : List (String × String) → String → Option String
text_get [] name = none
text_get ((key, value) ∷ rest) name = elim (text_get rest name) [
  | some w ↦ some w
  | none ↦ if key == name then some value else none
]

-- The field that a binding gives to a name.
abbrev pub IsIn : Binding → String → Type 0
IsIn fields name = (f : RedmineCustomField) × In (name, f) fields

includes_of_In :
    (fields : Binding) (name : String) (f : RedmineCustomField)
    → In (name, f) fields
    → includes (field_ids fields) f.id ≡ true
includes_of_In [] name f i = elim i [ ]
includes_of_In ((m, g) ∷ fields) name f (inl e) = ground arith
includes_of_In ((m, g) ∷ fields) name f (inr i) = ground (arith, includes_of_In fields name f i)

name_of_id :
    (fields : Binding) (n m : String) (f g : RedmineCustomField)
    → distinct (field_ids fields) ≡ true
    → In (n, f) fields
    → In (m, g) fields
    → f.id ≡ g.id
    → n ≡ m
name_of_id [] n m f g d i j e = elim i [ ]
name_of_id ((k, c) ∷ fields) n m f g d (inl p) (inl q) e = cc (
  ap (λ (t : String × RedmineCustomField). t.0) p,
  ap (λ (t : String × RedmineCustomField). t.0) q,
)
name_of_id ((k, c) ∷ fields) n m f g d (inl p) (inr j) e =
    ground (arith, includes_of_In fields m g j, ap (λ (t : String × RedmineCustomField). t.1.id) p)
name_of_id ((k, c) ∷ fields) n m f g d (inr i) (inl q) e =
    ground (arith, includes_of_In fields n f i, ap (λ (t : String × RedmineCustomField). t.1.id) q)
name_of_id ((k, c) ∷ fields) n m f g d (inr i) (inr j) e =
    name_of_id fields n m f g (ground arith) i j e

module _ (issue : RedmineIssueRecord) where
  found_of_In :
      (fields : Binding) (name : String) (f : RedmineCustomField)
      → AreBound issue fields
      → In (name, f) fields
      → find_unique_custom_field issue name ≡ ok f
  found_of_In [] name f b i = elim i [ ]
  found_of_In ((m, g) ∷ fields) name f (b, bs) (inl e) = cc (
    ap (λ (t : String × RedmineCustomField). t.0) e,
    ap (λ (t : String × RedmineCustomField). t.1) e,
    b,
  )
  found_of_In ((m, g) ∷ fields) name f (b, bs) (inr i) = found_of_In fields name f bs i

  -- Entries for bound names can be written.
  pub field_writes_total :
      (fields : Binding) (pairs : List (String × String))
      → AreBound issue fields
      → All (λ (p : String × String). IsIn fields p.0) pairs
      → (writes : List CustomFieldWrite) × (field_writes issue pairs ≡ ok writes)
  unfolding field_writes field_write
  field_writes_total fields [] b a = ([], refl)
  field_writes_total fields ((name, value) ∷ pairs) b ((f, i), as') =
      let (writes, e) = field_writes_total fields pairs b as' in
      (record { id = f.id; value = value } ∷ writes, rw (found_of_In fields name f b i, e))

  module _ (fields : Binding) (bound : AreBound issue fields)
      (apart : distinct (field_ids fields) ≡ true) where
    same_test :
        (n m : String) (f g : RedmineCustomField)
        → In (n, f) fields
        → In (m, g) fields
        → nat_beq f.id g.id ≡ (n == m)
    same_test n m f g i j = elim (Bool-cases (n == m)) [
      | inl e ↦
          let same : n ≡ m = (eq_iff n m).0 e in
          let fields_same : ok f ≡ ok g =
            sym (found_of_In fields n f bound i)
            ∙ (ap (find_unique_custom_field issue) same ∙ found_of_In fields m g bound j) in
          rw e ((nat_beq_iff f.id g.id).1 (cc fields_same))
      | inr e ↦ rw e (elim (Bool-cases (nat_beq f.id g.id)) [
        | inl q ↦ absurd (
            cc (
              e,
              (eq_iff n m).1 (name_of_id fields n m f g apart i j ((nat_beq_iff f.id g.id).0 q)),
            ))
        | inr q ↦ q
      ])
    ]

    -- By ids the writes give each bound name what the entries give it.
    pub map_get-field_writes :
        (pairs : List (String × String)) (writes : List CustomFieldWrite) (m : String)
        (g : RedmineCustomField)
        → All (λ (p : String × String). IsIn fields p.0) pairs
        → field_writes issue pairs ≡ ok writes
        → In (m, g) fields
        → map_get (pairs_of writes) g.id ≡ text_get pairs m
    unfolding field_writes field_write
    map_get-field_writes [] writes m g a h j =
        let none_written : [] ≡ writes = cc h in
        subst (λ (ws : List CustomFieldWrite). map_get (pairs_of ws) g.id ≡ none) none_written refl
    map_get-field_writes ((name, value) ∷ pairs) writes m g ((f, i), as') h j =
        let (w, wrote, r₁) =
          >>=-eq-ok (field_write issue name value)
            (λ w. field_writes issue pairs >>= λ ws. ok (w ∷ ws)) h in
        let (ws, more, r₂) = >>=-eq-ok (field_writes issue pairs) (λ ws. ok (w ∷ ws)) r₁ in
        let made : w ∷ ws ≡ writes = cc r₂ in
        let is : ok (record { id = f.id; value = value }) ≡ ok w =
          subst (λ r. (r >>= λ c. ok (record { id = c.id; value = value })) ≡ ok w)
            (found_of_In fields name f bound i) wrote in
        subst
          (λ (t : List CustomFieldWrite).
            map_get (pairs_of t) g.id ≡ text_get ((name, value) ∷ pairs) m)
          made
          (ground
            (arith, map_get-field_writes pairs ws m g as' more j, same_test name m f g i j, is))

    -- A bound name holds what was written for it.
    pub Holds-written :
        (pairs : List (String × String)) (writes : List CustomFieldWrite) (m v : String)
        → All (λ (p : String × String). IsIn fields p.0) pairs
        → field_writes issue pairs ≡ ok writes
        → IsIn fields m
        → text_get pairs m ≡ some v
        → Holds (written_issue writes issue) (m, v)
    unfolding scalar_of
    Holds-written pairs writes m v a h (g, j) got =
        rw (find_unique-written_issue writes issue m, found_of_In fields m g bound j)
          (value-written_field writes g v (map_get-field_writes pairs writes m g a h j ∙ got))

    -- A bound name that no entry names keeps its value.
    pub Holds-unwritten :
        (pairs : List (String × String)) (writes : List CustomFieldWrite) (m v : String)
        → All (λ (p : String × String). IsIn fields p.0) pairs
        → field_writes issue pairs ≡ ok writes
        → IsIn fields m
        → text_get pairs m ≡ none
        → Holds issue (m, v)
        → Holds (written_issue writes issue) (m, v)
    unfolding scalar_of
    Holds-unwritten pairs writes m v a h (g, j) got held =
        rw
          (
            find_unique-written_issue writes issue m,
            found_of_In fields m g bound j,
            unwritten_field writes g (map_get-field_writes pairs writes m g a h j ∙ got),
          )
          (subst (λ r. (r >>= scalar_custom_field_value) ≡ ok v) (found_of_In fields m g bound j)
            held)

    -- The read-back loop passes on the written Issue.
    pub assert_written-eq-ok :
        (prefix : String) (pairs : List (String × String)) (writes : List CustomFieldWrite)
        (m v : String)
        → All (λ (p : String × String). IsIn fields p.0) pairs
        → field_writes issue pairs ≡ ok writes
        → IsIn fields m
        → text_get pairs m ≡ some v
        → assert_written prefix (written_issue writes issue) writes m v ≡ ok tt
    unfolding assert_written scalar_custom_field_value
    assert_written-eq-ok prefix pairs writes m v a h (g, j) got =
        let wrote = map_get-field_writes pairs writes m g a h j ∙ got in
        rw (
          find_unique-written_issue writes issue m,
          found_of_In fields m g bound j,
          id-written_field writes g,
          wrote,
          (eq_iff v v).1 refl,
          value-written_field writes g v wrote,
          (eq_iff v v).1 refl,
        )

    pub assert_holds_written-eq-ok :
        (prefix : String) (pairs : List (String × String)) (writes : List CustomFieldWrite)
        (m v : String)
        → All (λ (p : String × String). IsIn fields p.0) pairs
        → field_writes issue pairs ≡ ok writes
        → IsIn fields m
        → text_get pairs m ≡ some v
        → assert_holds_written prefix (written_issue writes issue) writes m ≡ ok tt
    unfolding assert_holds_written scalar_custom_field_value
    assert_holds_written-eq-ok prefix pairs writes m v a h (g, j) got =
        let wrote = map_get-field_writes pairs writes m g a h j ∙ got in
        rw (
          find_unique-written_issue writes issue m,
          found_of_In fields m g bound j,
          id-written_field writes g,
          wrote,
          value-written_field writes g v wrote,
          (eq_iff v v).1 refl,
        )
