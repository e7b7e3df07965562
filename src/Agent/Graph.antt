-- ===== src/Agent/Graph.antt =====
-- packages/agent_runtime/graph.py: the Agent graph and its loop. Here the
-- edges, and what each node does; the loop is in Graph/Run.
pub mod Run
use evidenceclass_agent.Base.{
  ℕ, zero, suc, ◌+◌, Bool, true, false, not, ◌&&◌, ◌||◌, Option, none, some, List, [], ◌∷◌, ◌++◌,
  ltb, if◌then◌else◌,
}
use evidenceclass_agent.Base.Outcome.{Outcome, ok, err}
use evidenceclass_agent.Budget.{
  BudgetError, BudgetLimits, BudgetTracker, new_tracker, before_step, before_repair,
}
use evidenceclass_agent.Lifecycle.Decision.{ReviewDecision, approved, rejected, modified}
use evidenceclass_agent.Agent.State.{
  AgentState, Context, Mode, image, video, structured, FinalStatus, succeeded, failed, needs_review,
  Node, Node-discrete, initialize, inspect_assets, capability_router, plan_image_analysis,
  plan_video_analysis, plan_transcript, transcribe_audio, observe_media, observe_image,
  ingest_transcript, validate_observations, repair_observations, create_review_items,
  compute_metrics, narrate_report, verify_claims, revise_report, publish_report, fail_job,
  unknown_node, TraceLine, initialized, asset_inspection_failed, assets_inspected,
  capabilities_routed, planner_rejected, plan_accepted, audio_transcribed, media_observed,
  transcript_ingested, observations_validated, observations_repaired, review_requested,
  metrics_computed, report_narrated, claims_verified, report_revised, publication_blocked,
  report_published, job_failed,
}
use evidenceclass_agent.Agent.Planner.{MediaCapabilities, PlannerPolicy, plan}
use evidenceclass_agent.Agent.Checkpoint.{
  Checkpoint, CheckpointStore, save_started, save_succeeded, restore,
}

pub record AgentGraph : Type 0 where
  pub policy : PlannerPolicy
  pub budget_limits : BudgetLimits

abbrev pub is_node : Node → Node → Bool
is_node a b = elim (Node-discrete a b) [ yes e ↦ true | no ne ↦ false ]

-- `node in completed`
unfoldable pub is_in : Node → List Node → Bool
is_in node [] = false
is_in node (n ∷ rest) = is_node n node || is_in node rest

-- `_update`, whose keyword values the caller has set in the state
abbrev pub update : AgentState → Node → TraceLine → AgentState
update s node trace = record s {
  current_node = node;
  completed_nodes =
      if is_in node s.completed_nodes then s.completed_nodes else s.completed_nodes ++ node ∷ [];
  trace = s.trace ++ trace ∷ [];
}

-- what a node does: the loop goes on to the next node, returns a state that it has saved, catches an
-- exceeded budget, or raises
pub data Move : Type 0 where
  go : AgentState → Context → BudgetTracker → Node → Move
  stop : AgentState → Move
  exceeded : BudgetError → Move
  broken : Move

module _ (g : AgentGraph) where
  -- `route`; `none` is the error for a node without an edge
  abbrev pub route : AgentState → Context → Node → Option Node
  route s c inspect_assets = some (if c.asset_valid then capability_router else fail_job)
  route s c capability_router = some (elim s.mode [
    | image ↦ plan_image_analysis
    | video ↦ if c.transcript_only then plan_transcript else plan_video_analysis
    | structured ↦ if c.transcript_only then plan_transcript else plan_video_analysis
  ])
  route s c plan_transcript = some ingest_transcript
  route s c plan_image_analysis =
      some (if c.transcript_only then ingest_transcript else observe_image)
  route s c plan_video_analysis = some (
      if c.transcript_only then ingest_transcript else elim s.mode [
        | image ↦ observe_media
        | video ↦ if c.has_audio then transcribe_audio else observe_media
        | structured ↦ observe_media
      ])
  route s c transcribe_audio = some observe_media
  route s c ingest_transcript = some narrate_report
  route s c observe_image = some validate_observations
  route s c observe_media = some validate_observations
  route s c validate_observations = some (
      if c.high_risk
      then create_review_items
      else if c.validation_error && ltb s.repair_rounds g.budget_limits.max_repair_rounds
      then repair_observations
      else compute_metrics)
  route s c repair_observations = some validate_observations
  route s c compute_metrics = some narrate_report
  route s c narrate_report = some verify_claims
  route s c verify_claims = some (
      if c.numeric_inconsistent || ltb 0 c.verifier_failures
      then if ltb s.repair_rounds g.budget_limits.max_repair_rounds
        then revise_report
        else create_review_items
      else publish_report)
  route s c revise_report = some narrate_report
  route s c _ = none

  -- `next_node = self.route(state, context)`; the state has been updated to be at the node
  abbrev go_route : AgentState → Context → BudgetTracker → Move
  go_route s c t = elim (route s c s.current_node) [ none ↦ broken | some next ↦ go s c t next ]

  abbrev is_video : Mode → Bool
  is_video video = true
  is_video _ = false

  abbrev pub capabilities_of : AgentState → Context → Node → MediaCapabilities
  capabilities_of s c node = record {
    mode = if is_node node plan_image_analysis then image else video;
    has_audio = c.has_audio;
    has_video = is_video s.mode;
    transcript_only = c.transcript_only;
    rubric_available = c.rubric_available;
    requested_identity = c.requested_identity;
    requested_full_frame = c.requested_full_frame;
    duration_seconds = c.duration_seconds;
  }

  -- the three plan nodes
  abbrev pub handle_plan : AgentState → Context → BudgetTracker → Node → Move
  handle_plan s c t node = elim (plan g.policy (capabilities_of s c node) none) [
    | err e ↦
        go (update (record s { final_status = some failed }) node (planner_rejected e)) c t fail_job
    | ok p ↦ go_route (update (record s { plan = some p }) node plan_accepted) c t
  ]

  -- a round of repair or revision, if the tracker grants it
  abbrev pub handle_repair : AgentState → Context → BudgetTracker → Node → TraceLine → Node → Move
  handle_repair s c t node trace next = elim (before_repair t) [
    | err e ↦ exceeded e
    | ok t' ↦ go (update (record s { repair_rounds = s.repair_rounds + 1 }) node trace) c t' next
  ]

  abbrev handle_observe : AgentState → Context → BudgetTracker → Node → Move
  handle_observe s c t node =
      go (update (record s { tool_calls = s.tool_calls + 1 }) node media_observed)
        (record c { vlm_calls = c.vlm_calls + 1 }) t validate_observations

  -- the chain of tests on the node
  unfoldable pub handle : AgentState → Context → BudgetTracker → Node → Move
  handle s c t initialize = go (update s initialize initialized) c t inspect_assets
  handle s c t inspect_assets =
      if c.asset_valid
      then go (update s inspect_assets assets_inspected) c t capability_router
      else go
          (update (record s { final_status = some failed }) inspect_assets asset_inspection_failed)
          c t fail_job
  handle s c t capability_router = go_route (update s capability_router capabilities_routed) c t
  handle s c t plan_image_analysis = handle_plan s c t plan_image_analysis
  handle s c t plan_video_analysis = handle_plan s c t plan_video_analysis
  handle s c t plan_transcript = handle_plan s c t plan_transcript
  handle s c t transcribe_audio = go (update s transcribe_audio audio_transcribed) c t observe_media
  handle s c t observe_media = handle_observe s c t observe_media
  handle s c t observe_image = handle_observe s c t observe_image
  handle s c t ingest_transcript =
      go (update s ingest_transcript transcript_ingested) c t narrate_report
  handle s c t validate_observations =
      go_route (update s validate_observations observations_validated) c t
  handle s c t repair_observations =
      handle_repair s (record c { validation_error = false }) t repair_observations
        observations_repaired validate_observations
  handle s c t create_review_items = stop (
      update (record s { requires_review = true; final_status = some needs_review })
        create_review_items review_requested)
  handle s c t compute_metrics = go (update s compute_metrics metrics_computed) c t narrate_report
  handle s c t narrate_report = go (update s narrate_report report_narrated) c t verify_claims
  handle s c t verify_claims = go_route (update s verify_claims claims_verified) c t
  handle s c t revise_report =
      handle_repair s (record c { numeric_inconsistent = false; verifier_failures = 0 }) t
        revise_report report_revised narrate_report
  handle s c t publish_report =
      if s.requires_review
      then stop (
          update (record s { final_status = some needs_review }) publish_report publication_blocked)
      else stop
          (update (record s { final_status = some succeeded }) publish_report report_published)
  handle s c t fail_job =
      stop (update (record s { final_status = some failed }) fail_job job_failed)
  handle s c t unknown_node = broken
