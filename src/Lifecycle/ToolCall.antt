-- ===== src/Lifecycle/ToolCall.antt =====
-- The lifecycle of a tool call: `ToolCallState`, `ToolCallEvent`, `TOOL_CALL_TRANSITIONS` and the
-- third branch of `transition` in packages/agent_runtime/state_machines.py.
use evidenceclass_agent.Base.{Bool, true, false, ◌&&◌, Option, none, some, if◌then◌else◌}
use evidenceclass_agent.Lifecycle.Decision.{Result, ok, found}

pub data ToolCallState : Type 0 where
  pending started retrying succeeded failed timed_out cancelled : ToolCallState

pub data ToolCallEvent : Type 0 where
  start retry succeed fail time_out cancel : ToolCallEvent

-- TOOL_CALL_TRANSITIONS
abbrev pub tool_call_transitions : ToolCallState → ToolCallEvent → Option ToolCallState
tool_call_transitions pending start = some started
tool_call_transitions started retry = some retrying
tool_call_transitions retrying start = some started
tool_call_transitions started succeed = some succeeded
tool_call_transitions started fail = some failed
tool_call_transitions started time_out = some timed_out
tool_call_transitions _ _ = none

abbrev is_cancel : ToolCallEvent → Bool
is_cancel cancel = true
is_cancel _ = false

-- the states in which a call may be cancelled
abbrev pub is_open : ToolCallState → Bool
is_open pending = true
is_open started = true
is_open retrying = true
is_open _ = false

unfoldable pub tool_call_transition : ToolCallState → ToolCallEvent → Result ToolCallState
tool_call_transition current event =
    if is_cancel event && is_open current
    then ok cancelled
    else found (tool_call_transitions current event)
