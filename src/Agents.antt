-- ===== src/Agents.antt =====
-- The code that the agents share (agents/shared).
pub mod JobLock
