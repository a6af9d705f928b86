-- ===== src/Repository/Handler.antt =====
-- From an eligible candidate to its exact source: `Phase48_2EligibleCandidateHandler` of
-- src/repository/phase48-2-handler.ts. Its collaborators are called through their interfaces.
use Prim.Native.String.{◌++◌}
use ai_agent_runner.Base.{ℕ, String, ◌≡◌, ◌≢◌, refl, List, ◌∷◌, inl, inr}
use ai_agent_runner.Failure.{
  Failure, Result, ok, err, Result-cases, repository_access_error, AccessCode,
  authorization_configuration_invalid, repository_unauthorized, credential_unavailable,
  source_resolution_failed, checkout_failed, error, s3_operation_error,
  query_predicate_mismatch_error, aggregate_error, not_an_error,
}
use ai_agent_runner.Exec.{Exec, call}
use ai_agent_runner.Controller.Types.{
  ReFetchedIssue, ValidatedHandoff, PreExecutionRejectionOutcome, eligibility_failed,
}
use ai_agent_runner.Repository.Types.{ResolvedSource, ExactSourceResolvedInput}

pub data SourceCall : Type 0 where
  source_requested : String → SourceCall
  rejected : ℕ → PreExecutionRejectionOutcome → String → SourceCall
  continued : ExactSourceResolvedInput → SourceCall

abbrev pub SourceCalls : Type 0
SourceCalls = List SourceCall

pub record SourcePorts : Type 0 where
  pub on_resolve : SourceCalls → String → Result ResolvedSource
  pub on_reject : SourceCalls → ℕ → PreExecutionRejectionOutcome → String → Result (Unit {0})
  pub on_next : SourceCalls → ExactSourceResolvedInput → Result (Unit {0})

unfoldable pub access_code_text : AccessCode → String
access_code_text authorization_configuration_invalid = "authorization_configuration_invalid"
access_code_text repository_unauthorized = "repository_unauthorized"
access_code_text credential_unavailable = "credential_unavailable"
access_code_text source_resolution_failed = "source_resolution_failed"
access_code_text checkout_failed = "checkout_failed"

-- `sourceResolutionDiagnostic`: the code alone, never a message.
unfoldable pub source_resolution_diagnostic : Failure → String
source_resolution_diagnostic (repository_access_error code message) =
    "repository source preparation failed: " ++ access_code_text code
source_resolution_diagnostic _ = "repository source preparation failed"

-- The diagnostic of a failure: it shows its code, where it has one, and nothing else.
pub data Diagnoses : Failure → String → Type 0 where
  with_code :
      {code : AccessCode} {message : String}
      → Diagnoses
          (repository_access_error code message)
          ("repository source preparation failed: " ++ access_code_text code)
  without_code :
      {e : Failure}
      → ((code : AccessCode) (message : String) → e ≢ repository_access_error code message)
      → Diagnoses e "repository source preparation failed"

source_resolution-Diagnoses : (e : Failure) → Diagnoses e (source_resolution_diagnostic e)
unfolding source_resolution_diagnostic
source_resolution-Diagnoses (repository_access_error code message) = with_code
source_resolution-Diagnoses (error m) = without_code (λ code message q. cc)
source_resolution-Diagnoses (s3_operation_error kind m) = without_code (λ code message q. cc)
source_resolution-Diagnoses (query_predicate_mismatch_error m id) =
    without_code (λ code message q. cc)
source_resolution-Diagnoses (aggregate_error ms m) = without_code (λ code message q. cc)
source_resolution-Diagnoses not_an_error = without_code (λ code message q. cc)

-- The input of the next handler.
abbrev pub resolved_input :
    ReFetchedIssue → ValidatedHandoff → String → ResolvedSource → ExactSourceResolvedInput
resolved_input issue handoff fingerprint resolved = record {
  issue = issue;
  handoff = handoff;
  current_requirements_fingerprint = fingerprint;
  repository = resolved.repository;
  source_revision = resolved.source_revision;
}

module _ (ports : SourcePorts) (issue : ReFetchedIssue) (handoff : ValidatedHandoff)
    (fingerprint : String) where
  unfoldable pub after_resolution : Result ResolvedSource → Exec SourceCall (Unit {0})
  after_resolution (err e) =
      let diagnostic = source_resolution_diagnostic e in
      call (rejected issue.issue_id eligibility_failed diagnostic)
        (λ h. ports.on_reject h issue.issue_id eligibility_failed diagnostic)
  after_resolution (ok resolved) =
      let input = resolved_input issue handoff fingerprint resolved in
      call (continued input) (λ h. ports.on_next h input)

  unfoldable pub handle : Exec SourceCall (Unit {0})
  handle h =
      after_resolution (ports.on_resolve h handoff.repository)
        (source_requested handoff.repository ∷ h)

  module _ (h : SourceCalls) where
    -- How a candidate leaves the handler.
    pub data Leaves (r : Result (Unit {0})) (h' : SourceCalls) : Type 0 where
      unresolved :
          (e : Failure) (diagnostic : String)
          → ports.on_resolve h handoff.repository ≡ err e
          → Diagnoses e diagnostic
          → h'
            ≡ rejected issue.issue_id eligibility_failed diagnostic
              ∷ source_requested handoff.repository
              ∷ h
          → r
            ≡ ports.on_reject
                (source_requested handoff.repository ∷ h)
                issue.issue_id
                eligibility_failed
                diagnostic
          → Leaves r h'
      resolved :
          (s : ResolvedSource)
          → ports.on_resolve h handoff.repository ≡ ok s
          → h'
            ≡ continued (resolved_input issue handoff fingerprint s)
              ∷ source_requested handoff.repository
              ∷ h
          → r
            ≡ ports.on_next
                (source_requested handoff.repository ∷ h)
                (resolved_input issue handoff fingerprint s)
          → Leaves r h'

    -- A candidate whose source cannot be resolved is rejected once, with a diagnostic that shows the
    -- code of the failure where it has one and nothing else of it; one whose source is resolved is handed on once with that source;
    -- never both, and the result is that of the one call made.
    pub handle-Leaves : Leaves (handle h).0 (handle h).1
    unfolding handle after_resolution
    handle-Leaves = elim (Result-cases (ports.on_resolve h handoff.repository)) [
      | inl (e, q) ↦ rw q (
          unresolved e (source_resolution_diagnostic e) q (source_resolution-Diagnoses e) refl refl)
      | inr (s, q) ↦ rw q (resolved s q refl refl)
    ]
