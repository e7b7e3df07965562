-- ===== src/Agent.antt =====
-- packages/agent_runtime: the planner, the checkpoints and the graph of an Agent run.
pub mod State
pub mod Planner
pub mod Checkpoint
pub mod Graph
mod Examples
