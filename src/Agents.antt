-- ===== src/Agents.antt =====
-- brain/src/agents
pub mod FixedTime
