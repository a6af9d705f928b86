-- ===== src/Redmine/Adapters/CandidateSource.antt =====
-- The candidates that the controller polls: `listReadyForAgentCandidates` of
-- `RedmineCandidateSource` in src/redmine/adapters.ts. The HTTP client and the diagnostic sink answer
-- from the history of calls.
use ai_agent_runner.Base.{
  ℕ, suc, String, ◌≡◌, refl, sym, subst, ◌∙◌, ◌≤◌, ◌+◌, ◌-◌, true, false, List, [], ◌∷◌, ◌++◌,
  arith, nat_beq, if◌then◌else◌, inl, inr, Bool-cases,
}
use ai_agent_runner.Base.Lists.{length}
use ai_agent_runner.Failure.{Result, ok, error}
use ai_agent_runner.Exec.{
  Exec, ◌>>=◌, ◌>>◌, pure, throw, lift, call, catching, bind-eq-ok, call-eq-ok, lift-eq-ok,
}
use ai_agent_runner.Controller.Types.{ReadyForAgentCandidate}
use ai_agent_runner.Redmine.Adapters.{
  CandidateMatch, satisfies_query, MatchedCandidates, candidates_of, mismatch_of, prepend_candidate,
  checked_matches, assert_query,
}

-- A query names a project and a limit.
pub data SourceCall : Type 0 where
  matches_listed : ℕ → ℕ → SourceCall
  mismatch_recorded : ℕ → SourceCall

abbrev pub SourceCalls : Type 0
SourceCalls = List SourceCall

pub record SourcePorts : Type 0 where
  pub on_matches : SourceCalls → ℕ → ℕ → Result (List CandidateMatch)
  pub on_record : SourceCalls → ℕ → Result (Unit {0})

module _ (ports : SourcePorts) where
  -- A mismatch is recorded, and ends the polling.
  unfoldable pub accept_matches : MatchedCandidates → Exec SourceCall (List ReadyForAgentCandidate)
  accept_matches (candidates_of candidates) = pure candidates
  accept_matches (mismatch_of id) = do
    catching (call (mismatch_recorded id) (λ h. ports.on_record h id))
        (λ _. throw (error "candidate diagnostic sink failed; raw diagnostic content suppressed"))
    throw (error "candidate polling stopped: query predicate mismatch")

  abbrev query : ℕ → ℕ → Exec SourceCall (List CandidateMatch)
  query project_id remaining =
      call (matches_listed project_id remaining) (λ h. ports.on_matches h project_id remaining)

  abbrev and_rest :
      (ℕ → Exec SourceCall (List ReadyForAgentCandidate))
      → ℕ
      → List ReadyForAgentCandidate
      → Exec SourceCall (List ReadyForAgentCandidate)
  and_rest rest remaining here = do more ← rest (remaining - length here); pure (here ++ more)

  unfoldable pub list_project :
      (ℕ → Exec SourceCall (List ReadyForAgentCandidate))
      → String
      → ℕ
      → ℕ
      → Exec SourceCall (List ReadyForAgentCandidate)
  list_project rest wanted project_id remaining = do
    matches ← query project_id remaining
    here ← accept_matches (checked_matches project_id wanted matches)
    and_rest rest remaining here

  -- The loop over the projects, with what is left of the limit.
  unfoldable pub list_projects : String → List ℕ → ℕ → Exec SourceCall (List ReadyForAgentCandidate)
  list_projects wanted [] remaining = pure []
  list_projects wanted (project_id ∷ project_ids) remaining =
      let rest = list_projects wanted project_ids in
      if nat_beq remaining 0 then pure [] else list_project rest wanted project_id remaining

  unfoldable pub list_ready_for_agent_candidates :
      List ℕ → String → ℕ → Exec SourceCall (List ReadyForAgentCandidate)
  list_ready_for_agent_candidates project_ids wanted limit = do
    lift (assert_query wanted limit)
    list_projects wanted project_ids limit

  abbrev IsShort : ℕ → MatchedCandidates → Type 0
  IsShort n (candidates_of found) = length found ≤ n
  IsShort n (mismatch_of id) = Unit

  prepend_candidate-IsShort :
      (candidate : ReadyForAgentCandidate) (m : MatchedCandidates) (n : ℕ)
      → IsShort n m
      → IsShort (suc n) (prepend_candidate candidate m)
  prepend_candidate-IsShort candidate (candidates_of found) n h = omega arith
  prepend_candidate-IsShort candidate (mismatch_of id) n h = tt

  checked_matches-IsShort :
      (project_id : ℕ) (wanted : String) (items : List CandidateMatch)
      → IsShort (length items) (checked_matches project_id wanted items)
  unfolding checked_matches
  checked_matches-IsShort project_id wanted [] = omega arith
  checked_matches-IsShort project_id wanted (item ∷ items) =
      elim (Bool-cases (satisfies_query project_id wanted item)) [
        | inl e ↦ rw e (
            prepend_candidate-IsShort _ (checked_matches project_id wanted items) (length items)
              (checked_matches-IsShort project_id wanted items))
        | inr e ↦ rw e tt
      ]

  accept_matches-answer :
      (m : MatchedCandidates) (h h' : SourceCalls) (found : List ReadyForAgentCandidate)
      → accept_matches m h ≡ (ok found, h')
      → m ≡ candidates_of found
  unfolding accept_matches
  accept_matches-answer (candidates_of cs) h h' found p = cc
  accept_matches-answer (mismatch_of id) h h' found p = absurd (ground arith)

  length-++ : {A : Type 0} (xs ys : List A) → length (xs ++ ys) ≡ length xs + length ys
  length-++ [] ys = ground arith
  length-++ (x ∷ xs) ys = ground (arith, length-++ xs ys)

  -- The client answers with no more items than the limit of the query.
  abbrev pub RespectsLimit : Type 0
  RespectsLimit =
      (g : SourceCalls) (project_id limit : ℕ) (items : List CandidateMatch)
      → ports.on_matches g project_id limit ≡ ok items
      → length items ≤ limit

  module _ (wanted : String) (id : ℕ) (ids : List ℕ) (remaining : ℕ) (h : SourceCalls) where
    list_projects_full :
        nat_beq remaining 0 ≡ true → list_projects wanted (id ∷ ids) remaining h ≡ (ok [], h)
    unfolding list_projects
    list_projects_full e = rw e refl

    list_projects_open :
        nat_beq remaining 0 ≡ false
        → list_projects wanted (id ∷ ids) remaining h
          ≡ list_project (list_projects wanted ids) wanted id remaining h
    unfolding list_projects
    list_projects_open e = rw e refl

  module _ (limited : RespectsLimit) (wanted : String) where
    list_project-length :
        (rest : ℕ → Exec SourceCall (List ReadyForAgentCandidate)) (id remaining : ℕ)
        (h h' : SourceCalls) (found : List ReadyForAgentCandidate)
        → ((n : ℕ) (g g' : SourceCalls) (more : List ReadyForAgentCandidate)
            → rest n g ≡ (ok more, g')
            → length more ≤ n)
        → list_project rest wanted id remaining h ≡ (ok found, h')
        → length found ≤ remaining
    unfolding list_project
    list_project-length rest id remaining h h' found bounded p =
        let (items, answered, q) =
          call-eq-ok
            (λ matches.
              accept_matches (checked_matches id wanted matches) >>= and_rest rest remaining)
            (matches_listed id remaining) (λ g. ports.on_matches g id remaining) h p in
        let (here, g, accepted, r) =
          bind-eq-ok (accept_matches (checked_matches id wanted items)) (and_rest rest remaining)
            (matches_listed id remaining ∷ h) q in
        let (more, g', listed, s) =
          bind-eq-ok (rest (remaining - length here)) (λ more. pure (here ++ more)) g r in
        let few : length items ≤ remaining = limited h id remaining items answered in
        let short : length here ≤ length items =
          subst (IsShort (length items))
            (accept_matches-answer (checked_matches id wanted items)
              (matches_listed id remaining ∷ h) g here accepted)
            (checked_matches-IsShort id wanted items) in
        let tail : length more ≤ remaining - length here =
          bounded (remaining - length here) g g' more listed in
        let made : here ++ more ≡ found = cc s in
        subst (λ (t : List ReadyForAgentCandidate). length t ≤ remaining) made
          (rw (length-++ here more) (omega arith))

    list_projects-length :
        (project_ids : List ℕ) (remaining : ℕ) (h h' : SourceCalls)
        (found : List ReadyForAgentCandidate)
        → list_projects wanted project_ids remaining h ≡ (ok found, h')
        → length found ≤ remaining
    unfolding list_projects
    list_projects-length [] remaining h h' found p =
        let made : [] ≡ found = cc p in
        subst (λ (t : List ReadyForAgentCandidate). length t ≤ remaining) made (omega arith)
    list_projects-length (id ∷ ids) remaining h h' found p =
        elim (Bool-cases (nat_beq remaining 0)) [
          | inl e ↦
              let made : [] ≡ found = cc (list_projects_full wanted id ids remaining h e, p) in
              subst (λ (t : List ReadyForAgentCandidate). length t ≤ remaining) made (omega arith)
          | inr e ↦
              list_project-length (list_projects wanted ids) id remaining h h' found
                (λ n g g' more l. list_projects-length ids n g g' more l)
                (sym (list_projects_open wanted id ids remaining h e) ∙ p)
        ]

    -- Where the client answers no query with more items than its limit, the candidates of all projects
    -- together are at most as many as the limit of the list.
    pub list_ready-length :
        (project_ids : List ℕ) (limit : ℕ) (h h' : SourceCalls)
        (found : List ReadyForAgentCandidate)
        → list_ready_for_agent_candidates project_ids wanted limit h ≡ (ok found, h')
        → length found ≤ limit
    unfolding list_ready_for_agent_candidates
    list_ready-length project_ids limit h h' found p =
        let (u, asked, q) =
          lift-eq-ok (λ _. list_projects wanted project_ids limit) (assert_query wanted limit) h
            p in
        list_projects-length project_ids limit h h' found q
