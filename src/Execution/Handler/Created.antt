-- ===== src/Execution/Handler/Created.antt =====
-- What the checks before a start make of an execution: a well-formed one, of the input's identity.
use ai_agent_runner.Base.{
  String, ◌≡◌, ◌≤◌, ◌<◌, refl, eq_iff, true, false, Option, none, some, arith, inl, inr,
  Option-cases, nat_beq_iff,
}
use ai_agent_runner.Base.Text.{is_uuid_v4, is_fingerprint, is_rfc3339, is_blank}
use ai_agent_runner.Base.Text.Decimal.{max_safe_integer}
use ai_agent_runner.Failure.{ok, Result-cases}
use ai_agent_runner.Controller.Types.{ValidatedHandoffApproval}
use ai_agent_runner.Repository.Types.{ExactSourceResolvedInput}
use ai_agent_runner.Repository.Policy.{RepositoryAccessPolicy}
use ai_agent_runner.Execution.Types.{ApprovedBriefExecutionReference, PreparedExecution}
use ai_agent_runner.Execution.FormalGate.{authorize_formally, authorize_formally-eq-ok}
use ai_agent_runner.Execution.Preparation.{
  reference_of, require_approved_brief_reference, input_of, create_immutable_execution_input,
  create_logical_execution_record, canonical_started_at, create_execution,
}
use ai_agent_runner.Recovery.Artifacts.Identity.{IsWellFormed}

-- What an accepted input says.
pub record IsConsistent (input : ExactSourceResolvedInput)
    (reference : ApprovedBriefExecutionReference) : Type 0 where
  pub same_issue : input.issue.issue_id ≡ input.handoff.issue_id
  pub same_repository : input.repository ≡ input.handoff.repository
  pub approval : ValidatedHandoffApproval
  pub given : input.handoff.approval ≡ some approval
  pub reference_made : reference ≡ reference_of input approval
  pub revision_positive : 0 < reference.brief_revision
  pub revision_safe : reference.brief_revision ≤ max_safe_integer
  pub persisted_form : is_blank reference.persisted_revision ≡ false
  pub fingerprint_same :
      input.current_requirements_fingerprint ≡ input.handoff.approved_requirements_fingerprint
  pub fingerprint_form : is_fingerprint input.current_requirements_fingerprint ≡ true

pub require_reference-IsConsistent :
    (input : ExactSourceResolvedInput) (reference : ApprovedBriefExecutionReference)
    → require_approved_brief_reference input ≡ ok reference
    → IsConsistent input reference
unfolding require_approved_brief_reference
require_reference-IsConsistent input reference h = elim (Option-cases input.handoff.approval) [
  | inl q ↦ absurd (ground arith)
  | inr (approval, q) ↦ record {
    same_issue = ground (arith, nat_beq_iff input.issue.issue_id input.handoff.issue_id);
    same_repository = ground (arith, eq_iff input.repository input.handoff.repository);
    approval = approval;
    given = q;
    reference_made = ground arith;
    revision_positive = ground arith;
    revision_safe = ground arith;
    persisted_form = ground arith;
    fingerprint_same = ground (
      arith,
      eq_iff input.current_requirements_fingerprint input.handoff.approved_requirements_fingerprint,
    );
    fingerprint_form = ground arith;
  }
]

started-is_rfc3339 :
    (now : Option String) (started : String)
    → canonical_started_at now ≡ ok started
    → is_rfc3339 started ≡ true
unfolding canonical_started_at
started-is_rfc3339 none started h = cc
started-is_rfc3339 (some output) started h = ground arith

-- The execution that was created, with its parts.
record IsMade (input : ExactSourceResolvedInput) (reference : ApprovedBriefExecutionReference)
    (id : String) (execution : PreparedExecution) : Type 0 where
  pub id_form : is_uuid_v4 id ≡ true
  pub input_made : execution.input ≡ input_of input id reference
  pub time_form : is_rfc3339 execution.record_of.started_at ≡ true

create_execution-IsMade :
    (input : ExactSourceResolvedInput) (reference : ApprovedBriefExecutionReference) (id : String)
    (now : Option String) (execution : PreparedExecution)
    → create_execution input reference id now ≡ ok execution
    → IsMade input reference id execution
unfolding create_execution create_immutable_execution_input create_logical_execution_record
create_execution-IsMade input reference id now execution h =
    elim (Result-cases (canonical_started_at now)) [
      | inl (e, q) ↦ absurd (ground arith)
      | inr (started, q) ↦
          let form : is_rfc3339 started ≡ true = started-is_rfc3339 now started q in
          record { id_form = ground arith; input_made = ground arith; time_form = ground arith }
    ]

-- An execution that is created from an accepted input, past the formal gate of a policy and for a
-- repository whose name is not blank, has texts and numbers of the forms that a restart checks, and
-- its identity is that of the input: its id is the allocated one, and its Issue, repository, exact
-- source revision and fingerprint are the input's.
pub create_execution-IsWellFormed :
    (policy : RepositoryAccessPolicy) (input : ExactSourceResolvedInput)
    (reference : ApprovedBriefExecutionReference) (id : String) (now : Option String)
    (execution : PreparedExecution)
    → require_approved_brief_reference input ≡ ok reference
    → authorize_formally policy input.repository input.source_revision ≡ ok tt
    → is_blank input.repository ≡ false
    → create_execution input reference id now ≡ ok execution
    → IsWellFormed execution
      × (execution.input.execution_id ≡ id)
      × (execution.input.issue_id ≡ input.issue.issue_id)
      × (execution.input.repository ≡ input.repository)
      × (execution.input.source_revision ≡ input.source_revision)
      × (execution.input.requirements_fingerprint ≡ input.current_requirements_fingerprint)
create_execution-IsWellFormed policy input reference id now execution r g b c =
    let consistent = require_reference-IsConsistent input reference r in
    let made = create_execution-IsMade input reference id now execution c in
    let (entry, oid) = authorize_formally-eq-ok policy input.repository input.source_revision g in
    let same = made.input_made in
    (
      record {
        id_form = rw same made.id_form;
        revision_positive = rw same consistent.revision_positive;
        revision_safe = rw same consistent.revision_safe;
        persisted_form = rw same consistent.persisted_form;
        fingerprint_form = rw (same, ← consistent.fingerprint_same) consistent.fingerprint_form;
        repository_form = rw same b;
        source_form = rw same oid;
        time_form = made.time_form;
      },
      rw same refl,
      rw same refl,
      rw same refl,
      rw same refl,
      rw (same, consistent.fingerprint_same) refl,
    )
