-- ===== src/Agents.antt =====
-- internal/agents/agents.go: the agents of a project, and what each of them runs.
pub mod Agent
pub mod List
pub mod Lookup
mod Tests
