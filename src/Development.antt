-- ===== src/Development.antt =====
-- What an agent's run changed in its workspace: src/development.
pub mod ChangeSet
