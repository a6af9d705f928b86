-- ===== src/Repository/Policy/Authorized.antt =====
-- Which repositories a policy grants: at most one entry, by its exact identity.
use ai_agent_runner.Base.{
  ◌↔◌, String, ◌≡◌, refl, Bool, true, false, ◌==◌, eq_iff, List, [], ◌∷◌, arith, inl, inr,
  Bool-cases, if◌then◌else◌,
}
use ai_agent_runner.Base.Lists.{keep, In}
use ai_agent_runner.Base.Text.Parts.{includes_text, distinct_texts}
use ai_agent_runner.Failure.{ok}
use ai_agent_runner.Repository.Policy.{
  RepositoryAccessEntry, RepositoryAuthorizationConfiguration, configured, invalid, repositories,
  policy_of, only_match, authorize,
}

-- The configuration is valid, and the entry is the one with that identity.
abbrev pub Grants : RepositoryAuthorizationConfiguration → String → RepositoryAccessEntry → Type 0
Grants (invalid diagnostic) repository entry = ⊥
Grants (configured entries) repository entry =
    (distinct_texts (repositories entries) ≡ true)
    × In entry entries
    × (entry.repository ≡ repository)

module _ (repository : String) where
  abbrev named : RepositoryAccessEntry → Bool
  named entry = entry.repository == repository

  keep-absent :
      (es : List RepositoryAccessEntry)
      → includes_text (repositories es) repository ≡ false
      → keep named es ≡ []
  keep-absent [] h = refl
  keep-absent (e ∷ es) h = ground (arith, keep-absent es)

  includes_of_In :
      (es : List RepositoryAccessEntry) (e : RepositoryAccessEntry)
      → In e es
      → named e ≡ true
      → includes_text (repositories es) repository ≡ true
  includes_of_In [] e i h = elim i [ ]
  includes_of_In (d ∷ es) e (inl p) h = ground arith
  includes_of_In (d ∷ es) e (inr i) h = ground (arith, includes_of_In es e i h)

  keep_one :
      (es : List RepositoryAccessEntry) (e : RepositoryAccessEntry)
      → distinct_texts (repositories es) ≡ true
      → In e es
      → e.repository ≡ repository
      → keep named es ≡ e ∷ []
  keep_one [] e d i q = elim i [ ]
  keep_one (c ∷ es) e d (inl p) q =
      ground (arith, keep-absent es, (eq_iff e.repository repository).1 q)
  keep_one (c ∷ es) e d (inr i) q =
      let test : named e ≡ true = (eq_iff e.repository repository).1 q in
      ground (arith, keep_one es e, includes_of_In es e i test, (eq_iff c.repository repository).0)

  In-keep_cons :
      (c : RepositoryAccessEntry) (es : List RepositoryAccessEntry) (e : RepositoryAccessEntry)
      (b : Bool)
      → named c ≡ b
      → (In e (keep named es) → In e es × (named e ≡ true))
      → In e (if b then c ∷ keep named es else keep named es)
      → In e (c ∷ es) × (named e ≡ true)
  In-keep_cons c es e true q ih (inl p) = (inl p, rw p q)
  In-keep_cons c es e true q ih (inr i) = let (j, t) = ih i in (inr j, t)
  In-keep_cons c es e false q ih i = let (j, t) = ih i in (inr j, t)

  In-keep :
      (es : List RepositoryAccessEntry) (e : RepositoryAccessEntry)
      → In e (keep named es)
      → In e es × (named e ≡ true)
  In-keep [] e i = elim i [ ]
  In-keep (c ∷ es) e i = In-keep_cons c es e (named c) refl (In-keep es e) i

  only_match-eq-ok :
      (es : List RepositoryAccessEntry) (e : RepositoryAccessEntry) → only_match es ≡ ok e → In e es
  only_match-eq-ok [] e h = cc
  only_match-eq-ok (c ∷ []) e h = inl (cc)
  only_match-eq-ok (c ∷ d ∷ es) e h = cc

-- A policy authorizes a repository by exactly one entry: it returns an entry just when the
-- configuration is valid, its identities are pairwise distinct, and the entry is one of its entries
-- whose identity is the asked text exactly.
pub authorize-eq-ok_iff :
    (configuration : RepositoryAuthorizationConfiguration) (repository : String)
    (entry : RepositoryAccessEntry)
    → (authorize (policy_of configuration) repository ≡ ok entry)
      ↔ Grants configuration repository entry
unfolding authorize policy_of
authorize-eq-ok_iff (invalid diagnostic) repository entry = (λ h. cc, λ g. absurd g)
authorize-eq-ok_iff (configured entries) repository entry = (there, back)
  where
    there :
        authorize (policy_of (configured entries)) repository ≡ ok entry
        → Grants (configured entries) repository entry
    there h = elim (Bool-cases (distinct_texts (repositories entries))) [
      | inl d ↦
          let h' : only_match (keep (named repository) entries) ≡ ok entry = ground arith in
          let (i, t) = In-keep repository entries entry (only_match-eq-ok repository _ entry h') in
          (d, i, (eq_iff entry.repository repository).0 t)
      | inr d ↦ absurd (ground arith)
    ]

    back :
        Grants (configured entries) repository entry
        → authorize (policy_of (configured entries)) repository ≡ ok entry
    back (d, i, q) = rw (d, keep_one repository entries entry d i q) refl
