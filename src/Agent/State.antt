-- ===== src/Agent/State.antt =====
-- The part of packages/agent_runtime/state.py that the graph reads or writes, and the context that a
-- caller hands to a run. Strings that name a node, a status or a trace line are constructors.
use evidenceclass_agent.Base.{ℕ, Bool, false, Option, none, List, []}
use evidenceclass_agent.Budget.{BudgetError}
use evidenceclass_agent.Lifecycle.Decision.{ReviewDecision}

pub data Mode : Type 0 where
  image video structured : Mode

pub data Node : Type 0 where
  initialize inspect_assets capability_router : Node
  plan_image_analysis plan_video_analysis plan_transcript : Node
  transcribe_audio observe_media observe_image ingest_transcript : Node
  validate_observations repair_observations create_review_items : Node
  compute_metrics narrate_report verify_claims revise_report publish_report fail_job : Node
  -- any other string
  unknown_node : Node

unfoldable pub Node-discrete : Discrete Node
Node-discrete = hlevel

pub data FinalStatus : Type 0 where
  succeeded failed needs_review budget_exceeded : FinalStatus

-- the steps that a plan may name
pub data Step : Type 0 where
  inspect_media extract_frames transcribe_audio_step ingest_transcript_step : Step
  observe_image_step observe_media_step retrieve_knowledge validate_observations_step : Step
  repair_observations_step compute_metrics_step narrate_report_step verify_claims_step : Step
  publish_report_step : Step

pub data PlannerError : Type 0 where
  identity_recognition full_frame_budget steps_not_permitted plan_too_long tools_missing :
      PlannerError

pub data TraceLine : Type 0 where
  initialized asset_inspection_failed assets_inspected capabilities_routed : TraceLine
  planner_rejected : PlannerError → TraceLine
  plan_accepted audio_transcribed media_observed transcript_ingested : TraceLine
  observations_validated observations_repaired review_requested metrics_computed : TraceLine
  report_narrated claims_verified report_revised publication_blocked report_published : TraceLine
  job_failed review_rejected : TraceLine
  out_of_budget : BudgetError → TraceLine

pub record AnalysisPlan : Type 0 where
  pub steps : List Step
  pub deadline_seconds : ℕ
  pub tools : List Step

pub record AgentState : Type 0 where
  pub run_id : ℕ
  pub mode : Mode
  pub plan : Option AnalysisPlan
  pub requires_review : Bool
  pub final_status : Option FinalStatus
  pub current_node : Node
  pub completed_nodes : List Node
  pub trace : List TraceLine
  pub checkpoint_id : Option ℕ
  pub tool_calls : ℕ
  pub repair_rounds : ℕ

-- the state of a run that has not begun
abbrev pub new_state : ℕ → Mode → AgentState
new_state run_id mode = record {
  run_id = run_id;
  mode = mode;
  plan = none;
  requires_review = false;
  final_status = none;
  current_node = initialize;
  completed_nodes = [];
  trace = [];
  checkpoint_id = none;
  tool_calls = 0;
  repair_rounds = 0;
}

-- The keys of the context; `context.get` with its default is the field.
pub record Context : Type 0 where
  pub asset_valid : Bool
  pub transcript_only : Bool
  pub has_audio : Bool
  pub rubric_available : Bool
  pub requested_identity : Bool
  pub requested_full_frame : Bool
  pub duration_seconds : ℕ
  pub high_risk : Bool
  pub validation_error : Bool
  pub numeric_inconsistent : Bool
  pub verifier_failures : ℕ
  pub vlm_calls : ℕ
  pub review_decision : Option ReviewDecision
  pub resume_node : Node
