-- ===== src/Lifecycle/Transition.antt =====
-- `transition` of packages/agent_runtime/state_machines.py: the dispatch on the lifecycle.
use evidenceclass_agent.Base.{Option}
use evidenceclass_agent.Lifecycle.Decision.{ReviewDecision, Result, ok, err, type_error}
use evidenceclass_agent.Lifecycle.Job.{JobState, JobEvent, job_transition}
use evidenceclass_agent.Lifecycle.Run.{AgentRunState, AgentRunEvent, agent_run_transition}
use evidenceclass_agent.Lifecycle.ToolCall.{ToolCallState, ToolCallEvent, tool_call_transition}

-- a value of `StateT`
pub data State : Type 0 where
  job : JobState → State
  run : AgentRunState → State
  tool_call : ToolCallState → State

pub data Event : Type 0 where
  job_event : JobEvent → Event
  run_event : AgentRunEvent → Event
  tool_call_event : ToolCallEvent → Event

abbrev wrap : {A : Type 0} → (A → State) → Result A → Result State
wrap f (ok a) = ok (f a)
wrap f (err e) = err e

unfoldable pub transition : State → Event → Option ReviewDecision → Result State
unfolding job_transition agent_run_transition tool_call_transition
transition (job s) (job_event e) decision = wrap job (job_transition s e decision)
transition (run s) (run_event e) decision = wrap run (agent_run_transition s e decision)
transition (tool_call s) (tool_call_event e) decision = wrap tool_call (tool_call_transition s e)
transition _ _ _ = err type_error
