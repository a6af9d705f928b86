-- ===== src/Tests.antt =====
-- Sample values and the theorems at concrete inputs.
pub mod Sample
mod Start
mod Ends
mod Artifacts
mod Polls
mod Restarts
mod Handlers
mod Sources
mod Agents
mod Codec
pub mod Objects
mod Changes
