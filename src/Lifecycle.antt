-- ===== src/Lifecycle.antt =====
-- packages/agent_runtime/state_machines.py: the three lifecycles, one module each, and `transition`,
-- which dispatches on the lifecycle of its arguments.
pub mod Job
pub mod Run
pub mod ToolCall
pub mod Decision
pub mod Transition
pub mod Traces
mod Examples
