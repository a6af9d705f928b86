-- ===== src/Redmine/FieldNames.antt =====
-- The exact names of the custom fields and the values that the runner gives them: the `FIELD_NAMES`
-- tables of src/redmine and `DURABLE_EXECUTION_FIELD_NAMES` of src/redmine/durable-state-guard.ts.
use ai_agent_runner.Base.{String, List, [], ◌∷◌}

abbrev pub lifecycle : String
lifecycle = "Agent Execution Lifecycle"

abbrev pub execution_id : String
execution_id = "Agent Execution ID"

abbrev pub brief_revision : String
brief_revision = "Agent Exec Brief Revision"

abbrev pub persisted_revision : String
persisted_revision = "Agent Exec Persisted Revision"

abbrev pub requirements_fingerprint : String
requirements_fingerprint = "Agent Exec Req Fingerprint"

abbrev pub repository : String
repository = "Agent Execution Repository"

abbrev pub source_revision : String
source_revision = "Agent Exec Source Revision"

abbrev pub started_at : String
started_at = "Agent Execution Started At"

abbrev pub finished_at : String
finished_at = "Agent Execution Finished At"

abbrev pub outcome : String
outcome = "Agent Execution Outcome"

abbrev pub artifact_reference : String
artifact_reference = "Agent Artifact Reference"

abbrev pub rejected_at : String
rejected_at = "Agent Rejection At"

abbrev pub rejection_outcome : String
rejection_outcome = "Agent Rejection Outcome"

abbrev pub rejection_diagnostic : String
rejection_diagnostic = "Agent Rejection Diagnostic"

abbrev pub durable_execution_field_names : List String
durable_execution_field_names =
    lifecycle ∷ execution_id ∷ brief_revision ∷ persisted_revision ∷ requirements_fingerprint
    ∷ repository ∷ source_revision ∷ started_at ∷ finished_at ∷ outcome ∷ artifact_reference
    ∷ rejected_at ∷ rejection_outcome ∷ rejection_diagnostic ∷ []

abbrev pub agent_running : String
agent_running = "Agent Running"

abbrev pub needs_human : String
needs_human = "Needs Human"

abbrev pub ready_for_independent_verification : String
ready_for_independent_verification = "Ready for Independent Verification"
