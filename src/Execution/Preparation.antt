-- ===== src/Execution/Preparation.antt =====
-- The checks and the data of an execution that is prepared: the functions of
-- src/execution/preparation.ts.
use Prim.Native.String.{◌++◌}
use ai_agent_runner.Base.{
  String, ◌==◌, not, ◌&&◌, Option, none, some, nat_beq, leb, ltb, if◌then◌else◌,
}
use ai_agent_runner.Base.Text.{is_uuid_v4, is_fingerprint, is_blank}
use ai_agent_runner.Base.Text.Decimal.{max_safe_integer}
use ai_agent_runner.Failure.{Failure, Result, ok, err, error, ◌>>=◌, ◌>>◌, require, message_of}
use ai_agent_runner.Redmine.Clock.{canonical_date}
use ai_agent_runner.Controller.Types.{ValidatedHandoffApproval}
use ai_agent_runner.Repository.Types.{ExactSourceResolvedInput}
use ai_agent_runner.Execution.Types.{
  ApprovedBriefExecutionReference, ImmutableExecutionInput, LogicalExecutionRecord,
  PreparedExecution,
}

-- `UuidV4ExecutionIdAllocator` on what `randomUUID()` gives.
unfoldable pub allocate : String → Result String
allocate random_uuid = do
  require (is_uuid_v4 random_uuid) "execution_id allocator produced a non-canonical UUIDv4"
  ok random_uuid

abbrev pub reference_of :
    ExactSourceResolvedInput → ValidatedHandoffApproval → ApprovedBriefExecutionReference
reference_of input approval = record {
  repository = input.repository;
  issue_id = input.issue.issue_id;
  brief_revision = approval.brief_revision;
  persisted_revision = approval.persisted_revision;
}

abbrev require_approval : Option ValidatedHandoffApproval → Result ValidatedHandoffApproval
require_approval none = err (error "validated handoff does not expose approved Brief identity")
require_approval (some approval) = ok approval

unfoldable pub require_approved_brief_reference :
    ExactSourceResolvedInput → Result ApprovedBriefExecutionReference
require_approved_brief_reference input = do
  require (nat_beq input.issue.issue_id input.handoff.issue_id)
      "validated handoff Issue identity changed before execution preparation"
  require (input.repository == input.handoff.repository)
      "validated handoff repository identity changed before formal authorization"
  approval ← require_approval input.handoff.approval
  require (ltb 0 approval.brief_revision && leb approval.brief_revision max_safe_integer)
      "validated handoff Brief revision is invalid"
  require (not (is_blank approval.persisted_revision))
      "validated handoff persisted revision is blank"
  require
      ((input.current_requirements_fingerprint == input.handoff.approved_requirements_fingerprint)
        && is_fingerprint input.current_requirements_fingerprint)
      "validated handoff requirements fingerprint is inconsistent"
  ok (reference_of input approval)

abbrev pub input_of :
    ExactSourceResolvedInput → String → ApprovedBriefExecutionReference → ImmutableExecutionInput
input_of input id reference = record {
  execution_id = id;
  issue_id = input.issue.issue_id;
  repository = input.repository;
  source_revision = input.source_revision;
  brief_revision = reference.brief_revision;
  persisted_revision = reference.persisted_revision;
  requirements_fingerprint = input.handoff.approved_requirements_fingerprint;
  approved_brief_reference = reference;
}

unfoldable pub create_immutable_execution_input :
    ExactSourceResolvedInput
    → String
    → ApprovedBriefExecutionReference
    → Result ImmutableExecutionInput
create_immutable_execution_input input id reference = do
  require (is_uuid_v4 id) "execution_id must be a canonical lowercase UUIDv4"
  ok (input_of input id reference)

unfoldable pub create_logical_execution_record :
    ImmutableExecutionInput → String → LogicalExecutionRecord
create_logical_execution_record snapshot started = record {
  execution_id = snapshot.execution_id;
  issue_id = snapshot.issue_id;
  brief_revision = snapshot.brief_revision;
  persisted_revision = snapshot.persisted_revision;
  requirements_fingerprint = snapshot.requirements_fingerprint;
  repository = snapshot.repository;
  source_revision = snapshot.source_revision;
  started_at = started;
}

unfoldable pub canonical_started_at : Option String → Result String
unfolding canonical_date
canonical_started_at now =
    canonical_date "execution start clock returned an invalid timestamp"
      "execution start timestamp is outside the Redmine contract" now

-- The message of an error behind a prefix, where it has one that is not blank.
abbrev pub with_message : String → Option String → String
with_message base none = base
with_message base (some message) = if is_blank message then base else base ++ ": " ++ message

unfoldable pub handoff_invariant_diagnostic : Failure → String
handoff_invariant_diagnostic e =
    with_message "execution preparation eligibility failed" (message_of e)

unfoldable pub formal_gate_diagnostic : Failure → String
formal_gate_diagnostic e = with_message "formal Phase 47 authorization failed" (message_of e)

-- An id, a clock's answer and the reference make an execution.
unfoldable pub create_execution :
    ExactSourceResolvedInput
    → ApprovedBriefExecutionReference
    → String
    → Option String
    → Result PreparedExecution
create_execution input reference id now = do
  started ← canonical_started_at now
  snapshot ← create_immutable_execution_input input id reference
  ok (record {
    issue = input.issue;
    handoff = input.handoff;
    input = snapshot;
    record_of = create_logical_execution_record snapshot started;
  })
