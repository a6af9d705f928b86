-- ===== src/Repository/Types.antt =====
-- The values that pass between the handlers of a start: src/repository/types.ts.
use ai_agent_runner.Base.{String}
use ai_agent_runner.Controller.Types.{ReFetchedIssue, ValidatedHandoff}

pub record ResolvedSource : Type 0 where
  pub repository : String
  pub source_revision : String

pub record ExactSourceResolvedInput : Type 0 where
  pub issue : ReFetchedIssue
  pub handoff : ValidatedHandoff
  pub current_requirements_fingerprint : String
  pub repository : String
  pub source_revision : String
