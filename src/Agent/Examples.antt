-- ===== src/Agent/Examples.antt =====
-- Plans, checkpoints and runs of packages/agent_runtime at concrete inputs.
use evidenceclass_agent.Base.{
  ◌≤◌, ◌≡◌, refl, true, false, not, ◌||◌, Option, none, some, List, [], ◌∷◌, ◌++◌, length,
}
use evidenceclass_agent.Base.Dict.{lookup, insert}
use evidenceclass_agent.Budget.{BudgetLimits, before_step, before_repair}
use evidenceclass_agent.Lifecycle.Decision.{rejected}
use evidenceclass_agent.Agent.State.{
  Node-discrete, AgentState, Context, AnalysisPlan, video, compute_metrics, new_state, Step,
  inspect_media, extract_frames, transcribe_audio_step, observe_media_step, retrieve_knowledge,
}
use evidenceclass_agent.Agent.Planner.{
  MediaCapabilities, default_policy, plan, all_of, steps_of, needs_tool, report_steps,
}
use evidenceclass_agent.Agent.Planner.Policy.{plan-IsSound}
use evidenceclass_agent.Agent.Checkpoint.{CheckpointStore, save, restore}
use evidenceclass_agent.Agent.Graph.{AgentGraph, is_in, handle}
use evidenceclass_agent.Agent.Graph.Run.{Machine, Ending, returned, step, loop, run}
use evidenceclass_agent.Agent.Graph.Run.Success.{IsSound, run-IsSound}
use evidenceclass_agent.Agent.Graph.Run.Repairs.{run-repairs}
use evidenceclass_agent.Agent.Graph.Run.Resumes.{run-restore}

-- a video with sound, whose observations need a repair and whose report needs a revision
abbrev lesson : Context
lesson = record {
  asset_valid = true;
  transcript_only = false;
  has_audio = true;
  rubric_available = true;
  requested_identity = false;
  requested_full_frame = true;
  duration_seconds = 600;
  high_risk = false;
  validation_error = true;
  numeric_inconsistent = true;
  verifier_failures = 0;
  vlm_calls = 0;
  review_decision = none;
  resume_node = compute_metrics;
}

abbrev capabilities : MediaCapabilities
capabilities = record {
  mode = video;
  has_audio = true;
  has_video = true;
  transcript_only = false;
  rubric_available = true;
  requested_identity = false;
  requested_full_frame = true;
  duration_seconds = 600;
}

abbrev lesson_plan : AnalysisPlan
lesson_plan = record {
  steps = steps_of capabilities;
  deadline_seconds = 900;
  tools =
      inspect_media ∷ extract_frames ∷ transcribe_audio_step ∷ observe_media_step
      ∷ retrieve_knowledge ∷ [];
}

plan-IsSound_example :
    (all_of default_policy.allowed_steps lesson_plan.steps ≡ true)
    × (length lesson_plan.steps ≤ 12)
    × ((first : List Step) × (lesson_plan.steps ≡ first ++ report_steps))
    × (all_of (λ step. not (needs_tool step) || needs_tool step) lesson_plan.steps ≡ true)
    × (false ≡ false)
unfolding plan
plan-IsSound_example = plan-IsSound default_policy capabilities needs_tool lesson_plan refl

abbrev limits : BudgetLimits
limits = record {
  max_steps = 30;
  max_model_calls = 10;
  max_tool_retries = 2;
  max_input_tokens = 1000;
  max_output_tokens = 1000;
  max_cost = 100;
  max_repair_rounds = 2;
  deadline_at = none;
}

abbrev graph : AgentGraph
graph = record { policy = default_policy; budget_limits = limits }

abbrev no_checkpoints : CheckpointStore
no_checkpoints = record { records = [] }

abbrev lesson_run : Machine × Option Ending
lesson_run = run graph none (λ turn. turn) no_checkpoints (new_state 7 video) lesson

-- the same lesson by its transcript
abbrev spoken : Context
spoken = record lesson { transcript_only = true; numeric_inconsistent = false; high_risk = true }

abbrev spoken_run : Machine × Option Ending
spoken_run = run graph none (λ turn. turn) no_checkpoints (new_state 7 video) spoken

abbrev ended : Option Ending → AgentState
ended (some (returned s)) = s
ended _ = new_state 0 video

run-IsSound_example : IsSound graph spoken (ended spoken_run.1)
unfolding run loop step handle is_in plan before_step before_repair save lookup insert Node-discrete
run-IsSound_example =
    run-IsSound graph none (λ turn. turn) no_checkpoints 7 video spoken (ended spoken_run.1) refl
      refl

run-repairs_example : lesson_run.0.state.repair_rounds ≤ 2
run-repairs_example =
    run-repairs graph none (λ turn. turn) no_checkpoints (new_state 7 video) lesson

run-restore_example : restore spoken_run.0.checkpoints 7 ≡ some (ended spoken_run.1)
unfolding run loop step handle is_in plan before_step before_repair save lookup insert Node-discrete
run-restore_example =
    run-restore graph none (λ turn. turn) no_checkpoints (new_state 7 video) spoken
      (ended spoken_run.1) refl

abbrev risky : Context
risky = record lesson { high_risk = true }

abbrev risky_run : Machine × Option Ending
risky_run = run graph none (λ turn. turn) no_checkpoints (new_state 7 video) risky

abbrev rejecting : Context
rejecting = record risky { review_decision = some rejected }
