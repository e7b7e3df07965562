-- ===== src/Lifecycle/Traces.antt =====
-- What holds of whole histories of the lifecycles of packages/agent_runtime/state_machines.py: a
-- history is a list of events, each with the review decision that came with it, and an event that
-- raises leaves the state as it was.
use evidenceclass_agent.Base.{
  ◌≡◌, refl, inl, inr, Bool-cases, Bool, true, false, not, ◌&&◌, ◌||◌, List, [], ◌∷◌, Option, none,
  some, arith,
}
use evidenceclass_agent.Lifecycle.Decision.{ReviewDecision, approved, Result, ok, err, is_approving}
use evidenceclass_agent.Lifecycle.Transition.{
  State, job, run, tool_call, Event, job_event, run_event, tool_call_event, transition,
}
use evidenceclass_agent.Lifecycle.Job
use evidenceclass_agent.Lifecycle.Run
use evidenceclass_agent.Lifecycle.ToolCall

abbrev pub Occurrence : Type 0
Occurrence = Event × Option ReviewDecision

-- the state that a caller of `transition` keeps: unchanged if it raises
abbrev pub settle : State → Result State → State
settle s (ok t) = t
settle s (err e) = s

unfoldable pub after : State → List Occurrence → State
after s [] = s
after s ((e, d) ∷ rest) = after (settle s (transition s e d)) rest

abbrev pub is_finished : State → Bool
is_finished (job s) = Job.is_final s
is_finished (run s) = Run.is_closed s
is_finished (tool_call s) = not (ToolCall.is_open s)

step_finished :
    (s : State) (e : Event) (d : Option ReviewDecision)
    → is_finished s ≡ true
    → settle s (transition s e d) ≡ s
unfolding transition
step_finished (job s) (job_event e) d h = ground arith
step_finished (run s) (run_event e) d h = ground arith
step_finished (tool_call s) (tool_call_event e) d h = ground arith
step_finished _ _ d h = refl

-- A finished job, run or tool call never changes again: whatever events of any lifecycle follow, in
-- any order and with any review decisions, its state stays what it is.
after-finished :
    (s : State) (history : List Occurrence) → is_finished s ≡ true → after s history ≡ s
unfolding after
after-finished s [] h = refl
after-finished s ((e, d) ∷ rest) h = rw (step_finished s e d h) (after-finished s rest h)

-- an approval by a reviewer, of a job or of a run
abbrev pub is_approval : Event → Option ReviewDecision → Bool
is_approval (job_event Job.JobEvent.review_approved) d = is_approving d
is_approval (run_event Run.AgentRunEvent.resume) d = is_approving d
is_approval _ d = false

abbrev pub has_approval : List Occurrence → Bool
has_approval [] = false
has_approval ((e, d) ∷ rest) = is_approval e d || has_approval rest

-- the states from which only a reviewer lets the work go on
abbrev pub is_gated : State → Bool
is_gated (job Job.JobState.needs_review) = true
is_gated (run Run.AgentRunState.waiting_human) = true
is_gated _ = false

abbrev pub is_success : State → Bool
is_success (job Job.JobState.succeeded) = true
is_success (run Run.AgentRunState.completed) = true
is_success (tool_call ToolCall.ToolCallState.succeeded) = true
is_success _ = false

-- gated, or stopped without success
abbrev is_blocked : State → Bool
is_blocked s = is_gated s || (is_finished s && not (is_success s))

step_blocked :
    (s : State) (e : Event) (d : Option ReviewDecision)
    → is_blocked s ≡ true
    → is_approval e d ≡ false
    → is_blocked (settle s (transition s e d)) ≡ true
unfolding transition
step_blocked (job s) (job_event e) d h n = ground arith
step_blocked (run s) (run_event e) d h n = ground arith
step_blocked (tool_call s) (tool_call_event e) d h n = ground arith
step_blocked _ _ d h n = h

after-blocked :
    (s : State) (history : List Occurrence)
    → is_blocked s ≡ true
    → has_approval history ≡ false
    → is_blocked (after s history) ≡ true
unfolding after
after-blocked s [] h n = h
after-blocked s ((e, d) ∷ rest) h n =
    after-blocked (settle s (transition s e d)) rest (step_blocked s e d h (ground arith))
      (ground arith)

blocked_not_success : (s : State) → is_blocked s ≡ true → is_success s ≡ true → ⊥
blocked_not_success (job s) h k = ground arith
blocked_not_success (run s) h k = ground arith
blocked_not_success (tool_call s) h k = ground arith

-- From NEEDS_REVIEW a job reaches SUCCEEDED, and from WAITING_HUMAN a run reaches COMPLETED, only by
-- a history that holds an approval: REVIEW_APPROVED or RESUME with a decision APPROVED or MODIFIED.
pub success_needs_approval :
    (s : State) (history : List Occurrence)
    → is_gated s ≡ true
    → is_success (after s history) ≡ true
    → has_approval history ≡ true
success_needs_approval s history g k = elim (Bool-cases (has_approval history)) [
  | inl there ↦ there
  | inr missing ↦ absurd (blocked_not_success _ (after-blocked s history (ground arith) missing) k)
]

abbrev plain : Event → List Occurrence → List Occurrence
plain e rest = (e, none) ∷ rest

abbrev run_plan : Run.AgentRunState → List Occurrence
run_plan Run.AgentRunState.verifying = plain (run_event Run.AgentRunEvent.complete) []
run_plan Run.AgentRunState.executing =
    plain (run_event Run.AgentRunEvent.verify) (plain (run_event Run.AgentRunEvent.complete) [])
run_plan Run.AgentRunState.planning =
    plain (run_event Run.AgentRunEvent.execute)
      (plain (run_event Run.AgentRunEvent.verify) (plain (run_event Run.AgentRunEvent.complete) []))
run_plan Run.AgentRunState.inspecting = plain (run_event Run.AgentRunEvent.plan) (
    plain (run_event Run.AgentRunEvent.execute) (
      plain (run_event Run.AgentRunEvent.verify) (plain (run_event Run.AgentRunEvent.complete) [])))
run_plan Run.AgentRunState.waiting_human =
    (run_event Run.AgentRunEvent.resume, some approved)
    ∷ plain (run_event Run.AgentRunEvent.verify) (plain (run_event Run.AgentRunEvent.complete) [])
run_plan _ = plain (run_event Run.AgentRunEvent.inspect) (
    plain (run_event Run.AgentRunEvent.plan) (
      plain (run_event Run.AgentRunEvent.execute) (
        plain (run_event Run.AgentRunEvent.verify)
          (plain (run_event Run.AgentRunEvent.complete) []))))

-- the events that bring unfinished work to success, with an approval at each gate
abbrev pub plan : State → List Occurrence
plan (job Job.JobState.created) =
    plain (job_event Job.JobEvent.start)
      (plain (job_event Job.JobEvent.worker_started) (plain (job_event Job.JobEvent.succeed) []))
plan (job Job.JobState.uploading) =
    plain (job_event Job.JobEvent.finish_upload)
      (plain (job_event Job.JobEvent.worker_started) (plain (job_event Job.JobEvent.succeed) []))
plan (job Job.JobState.queued) =
    plain (job_event Job.JobEvent.worker_started) (plain (job_event Job.JobEvent.succeed) [])
plan (job Job.JobState.needs_review) =
    (job_event Job.JobEvent.review_approved, some approved)
    ∷ plain (job_event Job.JobEvent.succeed) []
plan (job _) = plain (job_event Job.JobEvent.succeed) []
plan (run s) = run_plan s
plan (tool_call ToolCall.ToolCallState.started) =
    plain (tool_call_event ToolCall.ToolCallEvent.succeed) []
plan (tool_call _) =
    plain (tool_call_event ToolCall.ToolCallEvent.start)
      (plain (tool_call_event ToolCall.ToolCallEvent.succeed) [])

-- No work is stuck: from every unfinished state of a job, a run or a tool call, the events of `plan`
-- lead to success.
plan-success : (s : State) → is_finished s ≡ false → is_success (after s (plan s)) ≡ true
unfolding after transition
plan-success (job s) h = ground arith
plan-success (run s) h = ground arith
plan-success (tool_call s) h = ground arith
