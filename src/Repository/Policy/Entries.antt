-- ===== src/Repository/Policy/Entries.antt =====
-- What the configuration of the allowlist means: its entries are usable, and printing them in its
-- format gives them back.
use Prim.Native.Char.{Char}
use text.Mathlib.TextLemmas.{append-ne-nil_of_right_ne-nil, cons-ne-nil}
use ai_agent_runner.Base.{
  ℕ, ◌+◌, ◌≢◌, String, ◌≡◌, refl, true, false, ◌==◌, eq_iff, Option, some, none, List, [], ◌∷◌, map,
  arith, inl, inr, Option-cases, Bool-cases,
}
use ai_agent_runner.Base.Lists.{All}
use ai_agent_runner.Base.Text.Parts.{split, join, Lacks, distinct_texts, split-join, join-Lacks}
use ai_agent_runner.Failure.{ok, ◌>>=◌, >>=-eq-ok, Result-cases}
use ai_agent_runner.Repository.Policy.{
  RepositoryAccessEntry, Url, UrlParser, repositories, trim, trim_ascii_edge_whitespace,
  is_env_name, is_source_ref, has_no_credentials, validate_source_ref, validate_credential_env_name,
  validate_remote_url, entry_of_parts, checked_entry, parse_parts, parse_records, checked_entries,
  parse_repository_access_entries,
}

-- `repository|remote_url|source_ref|username_env|password_env`
abbrev pub fields_of : RepositoryAccessEntry → List String
fields_of entry =
    entry.repository ∷ entry.remote_url ∷ entry.source_ref ∷ entry.username_env ∷ entry.password_env
    ∷ []

unfoldable pub print_entry : RepositoryAccessEntry → String
print_entry entry = join "|" (fields_of entry)

unfoldable pub print_entries : List RepositoryAccessEntry → String
print_entries entries = join ";" (map print_entry entries)

module _ (parse_url : UrlParser) where
  -- The rules of an entry.
  pub record IsUsable (entry : RepositoryAccessEntry) : Type 0 where
    pub named : (entry.repository == "") ≡ false
    pub url : Url
    pub url_parsed : parse_url entry.remote_url ≡ some url
    pub secure : (url.protocol == "https:") ≡ true
    pub no_credentials : has_no_credentials url ≡ true
    pub ref_form : is_source_ref entry.source_ref ≡ true
    pub username_form : is_env_name entry.username_env ≡ true
    pub password_form : is_env_name entry.password_env ≡ true

  -- Its texts stand in the configuration as they are.
  pub record IsPrintable (entry : RepositoryAccessEntry) : Type 0 where
    pub no_bars : All (Lacks "|") (fields_of entry)
    pub no_semicolons : All (Lacks ";") (fields_of entry)
    pub repository_trimmed : trim_ascii_edge_whitespace entry.repository ≡ entry.repository
    pub url_trimmed : trim entry.remote_url ≡ entry.remote_url
    pub ref_trimmed : trim entry.source_ref ≡ entry.source_ref
    pub username_trimmed : trim entry.username_env ≡ entry.username_env
    pub password_trimmed : trim entry.password_env ≡ entry.password_env

  checked_entry-eq-ok :
      (index : ℕ) (entry : RepositoryAccessEntry)
      → IsUsable entry
      → checked_entry parse_url index entry ≡ ok entry
  unfolding checked_entry validate_remote_url validate_source_ref validate_credential_env_name
  checked_entry-eq-ok index entry u =
      rw
        (
          u.named, u.url_parsed, u.secure, u.no_credentials, u.ref_form, u.username_form,
          u.password_form,
        )
        refl

  parse_parts-print :
      (index : ℕ) (entry : RepositoryAccessEntry)
      → IsUsable entry
      → IsPrintable entry
      → parse_parts parse_url index (split "|" (print_entry entry)) ≡ ok entry
  unfolding parse_parts print_entry
  parse_parts-print index entry u p =
      rw
        (
          split-join "|" (fields_of entry) (cc) p.no_bars,
          p.repository_trimmed,
          p.url_trimmed,
          p.ref_trimmed,
          p.username_trimmed,
          p.password_trimmed,
        )
        (checked_entry-eq-ok index entry u)

  parse_records-print :
      (index : ℕ) (entries : List RepositoryAccessEntry)
      → All IsUsable entries
      → All IsPrintable entries
      → parse_records parse_url index (map print_entry entries) ≡ ok entries
  unfolding parse_records
  parse_records-print index [] us ps = refl
  parse_records-print index (entry ∷ entries) (u, us) (p, ps) =
      rw (parse_parts-print index entry u p, parse_records-print (index + 1) entries us ps) refl

  checked_url :
      (index : ℕ) (text : String)
      → validate_remote_url parse_url text index ≡ ok tt
      → (url : Url) × (parse_url text ≡ some url)
        × ((url.protocol == "https:") ≡ true)
        × (has_no_credentials url ≡ true)
  unfolding validate_remote_url
  checked_url index text h = elim (Option-cases (parse_url text)) [
    | inl e ↦ absurd (ground arith)
    | inr (url, e) ↦ (url, e, ground arith, ground arith)
  ]

  -- What the tests of an entry let through.
  checked_entry-IsUsable :
      (index : ℕ) (entry e : RepositoryAccessEntry)
      → checked_entry parse_url index entry ≡ ok e
      → (e ≡ entry) × IsUsable entry
  unfolding checked_entry validate_source_ref validate_credential_env_name
  checked_entry-IsUsable index entry e h =
      let valid : validate_remote_url parse_url entry.remote_url index ≡ ok tt =
        elim (Result-cases (validate_remote_url parse_url entry.remote_url index)) [
          | inl (x, q) ↦ absurd (ground arith)
          | inr (u, q) ↦ q
        ] in
      let (url, parsed, https, clean) = checked_url index entry.remote_url valid in
      (
        ground arith,
        record {
          named = ground arith;
          url = url;
          url_parsed = parsed;
          secure = https;
          no_credentials = clean;
          ref_form = ground arith;
          username_form = ground arith;
          password_form = ground arith;
        },
      )

  parse_parts-IsUsable :
      (index : ℕ) (parts : List String) (e : RepositoryAccessEntry)
      → parse_parts parse_url index parts ≡ ok e
      → IsUsable e
  unfolding parse_parts
  parse_parts-IsUsable index (identity ∷ url ∷ ref ∷ name ∷ pass ∷ []) e h =
      let entry = entry_of_parts identity url ref name pass in
      let (same, u) = checked_entry-IsUsable index entry e h in rw same u
  parse_parts-IsUsable index _ e h = cc

  parse_records-IsUsable :
      (index : ℕ) (texts : List String) (entries : List RepositoryAccessEntry)
      → parse_records parse_url index texts ≡ ok entries
      → All IsUsable entries
  unfolding parse_records
  parse_records-IsUsable index [] [] h = tt
  parse_records-IsUsable index [] (e ∷ es) h = cc
  parse_records-IsUsable index (text ∷ texts) entries h =
      let (e, h₁, k₁) = >>=-eq-ok (parse_parts parse_url index (split "|" text)) _ h in
      let (es, h₂, k₂) = >>=-eq-ok (parse_records parse_url (index + 1) texts) _ k₁ in
      let same : e ∷ es ≡ entries = cc in
      rw (← same) (
        parse_parts-IsUsable index (split "|" text) e h₁,
        parse_records-IsUsable (index + 1) texts es h₂,
      )

  -- Every entry that the parser returns is usable: a nonempty identity, an https URL without
  -- credentials, query and fragment, a source ref and environment names of their forms; and the
  -- identities are pairwise distinct.
  pub parse-IsUsable :
      (raw : Option String) (entries : List RepositoryAccessEntry)
      → parse_repository_access_entries parse_url raw ≡ ok entries
      → All IsUsable entries × (distinct_texts (repositories entries) ≡ true)
  unfolding parse_repository_access_entries
  parse-IsUsable none entries h = cc
  parse-IsUsable (some raw) entries h = elim (Bool-cases (raw == "")) [
    | inl e ↦ let same : [] ≡ entries = ground arith in rw (← same) (tt, refl)
    | inr e ↦
        let h' : (parse_records parse_url 0 (split ";" raw) >>= λ es. checked_entries es)
            ≡ ok entries =
          ground arith in
        let (es, h₁, k) = >>=-eq-ok (parse_records parse_url 0 (split ";" raw)) _ h' in
        let same : es ≡ entries = ground arith in
        rw (← same) (parse_records-IsUsable 0 (split ";" raw) es h₁, ground arith)
  ]

  print_entry-Lacks :
      (entries : List RepositoryAccessEntry)
      → All IsPrintable entries
      → All (Lacks ";") (map print_entry entries)
  unfolding print_entry
  print_entry-Lacks [] ps = tt
  print_entry-Lacks (entry ∷ entries) (p, ps) =
      (join-Lacks ";" "|" (fields_of entry) refl p.no_semicolons, print_entry-Lacks entries ps)

  join-ne :
      (c : Char) (first next : String) (parts : List String) → join c (first ∷ next ∷ parts) ≢ ""
  unfolding join
  join-ne c first next parts = append-ne-nil_of_right_ne-nil first (cons-ne-nil c _)

  print-ne :
      (entry : RepositoryAccessEntry) (entries : List RepositoryAccessEntry)
      → print_entries (entry ∷ entries) ≢ ""
  unfolding print_entries print_entry
  print-ne entry [] =
      unfold join in append-ne-nil_of_right_ne-nil entry.repository (cons-ne-nil "|" _)
  print-ne entry (next ∷ entries) =
      join-ne ";" (print_entry entry) (print_entry next) (map print_entry entries)

  ne_test : (s : String) → s ≢ "" → (s == "") ≡ false
  ne_test s ne = elim (Bool-cases (s == "")) [ inl e ↦ absurd (ne ((eq_iff s "").0 e)) | inr e ↦ e ]

  -- Usable entries with distinct identities, printed in the format of the configuration, are parsed
  -- as they were, where their texts are trimmed and hold neither a bar nor a semicolon.
  pub parse-print_entries :
      (entries : List RepositoryAccessEntry)
      → All IsUsable entries
      → All IsPrintable entries
      → distinct_texts (repositories entries) ≡ true
      → parse_repository_access_entries parse_url (some (print_entries entries)) ≡ ok entries
  unfolding parse_repository_access_entries
  parse-print_entries [] us ps d = unfold print_entries join in refl
  parse-print_entries (entry ∷ entries) us ps d =
      let all_entries = entry ∷ entries in
      let parts : split ";" (print_entries all_entries) ≡ map print_entry all_entries =
        unfold print_entries in
        split-join ";" (map print_entry all_entries) (cc) (print_entry-Lacks all_entries ps) in
      rw
        (
          ne_test (print_entries all_entries) (print-ne entry entries),
          parts,
          parse_records-print 0 all_entries us ps,
          d,
        )
        refl
