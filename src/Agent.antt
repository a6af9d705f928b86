-- ===== src/Agent.antt =====
-- What an agent's run means for its execution: src/agent.
pub mod Handler
