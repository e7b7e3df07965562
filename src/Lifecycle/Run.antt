-- ===== src/Lifecycle/Run.antt =====
-- The lifecycle of an Agent run: `AgentRunState`, `AgentRunEvent`, `AGENT_RUN_TRANSITIONS` and the
-- second branch of `transition` in packages/agent_runtime/state_machines.py.
use evidenceclass_agent.Base.{Bool, true, false, not, ◌&&◌, Option, none, some, if◌then◌else◌}
use evidenceclass_agent.Lifecycle.Decision.{
  ReviewDecision, rejected, Result, ok, err, invalid_transition, found, is_approving,
}

pub data AgentRunState : Type 0 where
  initializing inspecting planning executing verifying waiting_human completed errored :
      AgentRunState

pub data AgentRunEvent : Type 0 where
  inspect plan execute verify request_review resume complete error : AgentRunEvent

-- AGENT_RUN_TRANSITIONS
abbrev pub agent_run_transitions : AgentRunState → AgentRunEvent → Option AgentRunState
agent_run_transitions initializing inspect = some inspecting
agent_run_transitions inspecting plan = some planning
agent_run_transitions planning execute = some executing
agent_run_transitions executing verify = some verifying
agent_run_transitions executing request_review = some waiting_human
agent_run_transitions verifying request_review = some waiting_human
agent_run_transitions verifying complete = some completed
agent_run_transitions _ _ = none

abbrev pub is_closed : AgentRunState → Bool
is_closed completed = true
is_closed errored = true
is_closed _ = false

abbrev is_error : AgentRunEvent → Bool
is_error error = true
is_error _ = false

abbrev is_waiting_human : AgentRunState → Bool
is_waiting_human waiting_human = true
is_waiting_human _ = false

abbrev is_resume : AgentRunEvent → Bool
is_resume resume = true
is_resume _ = false

abbrev is_rejected : Option ReviewDecision → Bool
is_rejected (some rejected) = true
is_rejected _ = false

-- the answer to RESUME while a human decision is awaited
abbrev pub resume_with : Option ReviewDecision → Result AgentRunState
resume_with decision =
    if is_approving decision
    then ok executing
    else if is_rejected decision
    then ok errored
    else err invalid_transition

unfoldable pub agent_run_transition :
    AgentRunState → AgentRunEvent → Option ReviewDecision → Result AgentRunState
agent_run_transition current event decision =
    if is_error event && not (is_closed current)
    then ok errored
    else if is_waiting_human current && is_resume event
    then resume_with decision
    else found (agent_run_transitions current event)
