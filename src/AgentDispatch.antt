-- ===== src/AgentDispatch.antt =====
-- backend/internal/agentdispatch: what the agent does with the commands of the control plane.
pub mod Snippets
