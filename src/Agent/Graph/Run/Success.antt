-- ===== src/Agent/Graph/Run/Success.antt =====
-- What a report of `AgentGraph.run` of packages/agent_runtime/graph.py has been through before it
-- succeeds.
use evidenceclass_agent.Base.{
  ℕ, zero, suc, ◌+◌, ◌≡◌, Bool, true, false, not, ◌&&◌, ◌||◌, Option, none, some, List, [], ◌∷◌,
  ◌++◌, arith, ltb, inl, inr,
}
use evidenceclass_agent.Base.Outcome.{ok, Outcome-cases}
use evidenceclass_agent.Budget.{BudgetTracker, before_step}
use evidenceclass_agent.Agent.State.{
  AgentState, Context, Mode, Node, initialize, inspect_assets, capability_router,
  plan_image_analysis, plan_video_analysis, plan_transcript, transcribe_audio, observe_media,
  observe_image, validate_observations, create_review_items, verify_claims, publish_report,
  fail_job, succeeded, new_state, TraceLine, AnalysisPlan, Node-discrete, plan_accepted,
  claims_verified, report_published,
}
use evidenceclass_agent.Agent.Planner.{PlannerPolicy, plan}
use evidenceclass_agent.Agent.Checkpoint.{CheckpointStore}
use evidenceclass_agent.Agent.Graph.{
  AgentGraph, Move, go, stop, exceeded, broken, handle, handle_plan, is_in, is_node, update,
  capabilities_of, go_route,
}
use evidenceclass_agent.Agent.Graph.Run.{
  Machine, Ending, returned, Verdict, finish, continue, apply, step, follow, loop, start, run,
}

-- a run may get to these nodes without valid assets
abbrev before_assets : Node → Bool
before_assets initialize = true
before_assets inspect_assets = true
before_assets fail_job = true
before_assets _ = false

-- a run may get to these nodes without an accepted plan
abbrev before_plan : Node → Bool
before_plan capability_router = true
before_plan plan_image_analysis = true
before_plan plan_video_analysis = true
before_plan plan_transcript = true
before_plan node = before_assets node

-- a run over media may get to these nodes before it has validated the observations
abbrev before_validation : Node → Bool
before_validation transcribe_audio = true
before_validation observe_media = true
before_validation observe_image = true
before_validation validate_observations = true
before_validation create_review_items = true
before_validation plan_transcript = false
before_validation node = before_plan node

-- what the planner permits, whatever the mode
abbrev pub allows : PlannerPolicy → Context → Bool
allows p c =
    not (c.requested_identity && not p.allow_identity)
    && not (c.requested_full_frame && ltb p.max_full_frame_seconds c.duration_seconds)

-- what holds when the run of a context gets to a node
abbrev Passed : AgentGraph → Context → Node → Type 0
Passed g c node =
    (before_assets node ≡ false → c.asset_valid ≡ true)
    × (before_plan node ≡ false → allows g.policy c ≡ true)
    × (before_validation node ≡ false → c.high_risk ≡ true → c.transcript_only ≡ true)

-- a report is published behind its verification
abbrev Verified : AgentState → Node → Type 0
Verified s publish_report = is_in verify_claims s.completed_nodes ≡ true
Verified s _ = Unit

-- a report that succeeds has been verified, waits for no review, and its run has passed the checks
abbrev pub IsSound : AgentGraph → Context → AgentState → Type 0
IsSound g c s =
    (s.requires_review ≡ false)
    × (is_in verify_claims s.completed_nodes ≡ true)
    × (c.asset_valid ≡ true)
    × (allows g.policy c ≡ true)
    × (c.high_risk ≡ true → c.transcript_only ≡ true)

-- the parts of the context that no node changes
abbrev Same : Context → Context → Type 0
Same c d =
    (c.asset_valid ≡ d.asset_valid)
    × (c.transcript_only ≡ d.transcript_only)
    × (c.requested_identity ≡ d.requested_identity)
    × (c.requested_full_frame ≡ d.requested_full_frame)
    × (c.duration_seconds ≡ d.duration_seconds)
    × (c.high_risk ≡ d.high_risk)

is_in-append :
    (n : Node) (l : List Node) (k : Node) → is_in n (l ++ k ∷ []) ≡ (is_in n l || is_node k n)
unfolding is_in
is_in-append n [] k = ground arith
is_in-append n (m ∷ l) k = ground (arith, is_in-append n l k)

-- the nodes that have been completed stay so, and a node that is handled is completed
is_in-update :
    (s : AgentState) (k : Node) (line : TraceLine) (n : Node)
    → is_in n (update s k line).completed_nodes ≡ (is_in n s.completed_nodes || is_node k n)
is_in-update s k line n = elim (Node-discrete k n) [
  | yes e ↦ ground (arith, e, is_in-append n s.completed_nodes k)
  | no ne ↦ ground (arith, is_in-append n s.completed_nodes k)
]

module _ (g : AgentGraph) where
  plan_allows :
      (s : AgentState) (c : Context) (node : Node) (p : AnalysisPlan)
      → plan g.policy (capabilities_of g s c node) none ≡ ok p
      → allows g.policy c ≡ true
  unfolding plan
  plan_allows s c node p e = ground arith

  -- what a node's move keeps
  abbrev Keeps : Context → Move → Type 0
  Keeps c (go s d t next) = Same d c × Passed g c next × Verified s next
  Keeps c (stop s) = s.final_status ≡ some succeeded → IsSound g c s
  Keeps c _ = Unit

  handle_plan-Keeps :
      (s : AgentState) (c : Context) (t : BudgetTracker) (node : Node)
      → ((q : AnalysisPlan)
          → allows g.policy c ≡ true
          → Keeps c (go_route g (update (record s { plan = some q }) node plan_accepted) c t))
      → Keeps c (handle_plan g s c t node)
  handle_plan-Keeps s c t node h =
      elim (Outcome-cases (plan g.policy (capabilities_of g s c node) none)) [
        | inr (e, f) ↦ rw (f, handle_plan) (ground arith)
        | inl (q, f) ↦ rw (f, handle_plan) (h q (plan_allows s c node q f))
      ]

  handle-Keeps :
      (s : AgentState) (c : Context) (t : BudgetTracker) (node : Node)
      → Passed g c node
      → Verified s node
      → Keeps c (handle g s c t node)
  unfolding handle
  handle-Keeps s c t plan_image_analysis p v =
      handle_plan-Keeps s c t plan_image_analysis (λ q a. ground arith)
  handle-Keeps s c t plan_video_analysis p v =
      handle_plan-Keeps s c t plan_video_analysis (λ q a. ground arith)
  handle-Keeps s c t plan_transcript p v =
      handle_plan-Keeps s c t plan_transcript (λ q a. ground arith)
  handle-Keeps s c t verify_claims p v =
      ground (arith, is_in-update s verify_claims claims_verified verify_claims)
  handle-Keeps s c t publish_report p v =
      ground (arith, is_in-update s publish_report report_published verify_claims)
  handle-Keeps s c t node p v = ground arith

  -- the invariant of the loop, for the context that the run began with
  abbrev Inv : Context → Machine → Type 0
  Inv c m =
      Same m.context c × Passed g c m.state.current_node × Verified m.state m.state.current_node

  abbrev EndingOk : Context → Ending → Type 0
  EndingOk c (returned s) = s.final_status ≡ some succeeded → IsSound g c s
  EndingOk c _ = Unit

  abbrev KeepsOn : Context → Machine × Verdict → Type 0
  KeepsOn c (m, finish e) = EndingOk c e
  KeepsOn c (m, continue) = Inv c m

  Keeps-Same : (c d : Context) (move : Move) → Same d c → Keeps d move → Keeps c move
  Keeps-Same c d (go s b t next) e k = ground arith
  Keeps-Same c d (stop s) e k = ground arith
  Keeps-Same c d (exceeded error) e k = tt
  Keeps-Same c d broken e k = tt

  apply-KeepsOn :
      (crash_after : Option Node) (c : Context) (m : Machine) (move : Move)
      → Keeps c move
      → KeepsOn c (apply crash_after m move)
  apply-KeepsOn crash_after c m (go s d t next) k = ground arith
  apply-KeepsOn crash_after c m (stop s) k = k
  apply-KeepsOn crash_after c m (exceeded error) k = ground arith
  apply-KeepsOn crash_after c m broken k = tt

  step-KeepsOn :
      (crash_after : Option Node) (now : ℕ) (c : Context) (m : Machine)
      → Inv c m
      → KeepsOn c (step g crash_after now m)
  unfolding step
  step-KeepsOn crash_after now c m (e, p, v) = elim (Outcome-cases (before_step m.tracker now)) [
    | inr (error, f) ↦ rw (f, step) (ground arith)
    | inl (tracker, f) ↦
        rw (f, step)
          (apply-KeepsOn crash_after c _ _ (
            Keeps-Same c m.context _ e
              (handle-Keeps m.state m.context tracker m.state.current_node (ground arith) v)))
  ]

  module _ (crash_after : Option Node) (clock : ℕ → ℕ) where
    abbrev OutcomeOk : Context → Option Ending → Type 0
    OutcomeOk c none = Unit
    OutcomeOk c (some e) = EndingOk c e

    follow-OutcomeOk :
        (next : Machine → Machine × Option Ending) (c : Context) (s : Machine × Verdict)
        → ((m : Machine) → Inv c m → OutcomeOk c (next m).1)
        → KeepsOn c s
        → OutcomeOk c (follow next s).1
    follow-OutcomeOk next c (m, finish e) ih k = k
    follow-OutcomeOk next c (m, continue) ih k = ih m k

    loop-OutcomeOk :
        (fuel turn : ℕ) (c : Context) (m : Machine)
        → Inv c m
        → OutcomeOk c (loop g crash_after clock fuel turn m).1
    unfolding loop
    loop-OutcomeOk zero turn c m i = tt
    loop-OutcomeOk (suc fuel) turn c m i =
        follow-OutcomeOk (loop g crash_after clock fuel (turn + 1)) c _
          (λ m' i'. loop-OutcomeOk fuel (turn + 1) c m' i')
          (step-KeepsOn crash_after (clock turn) c m i)

    -- A run that begins at the first node and returns a state with the status `SUCCEEDED` has
    -- verified its claims and waits for no review; its assets were valid, it asked for nothing that
    -- the planner's policy forbids, and if its context is of high risk then it worked on a
    -- transcript only.
    pub run-IsSound :
        (checkpoints : CheckpointStore) (run_id : ℕ) (mode : Mode) (c : Context) (s : AgentState)
        → (run g crash_after clock checkpoints (new_state run_id mode) c).1 ≡ some (returned s)
        → s.final_status ≡ some succeeded
        → (s.requires_review ≡ false)
          × (is_in verify_claims s.completed_nodes ≡ true)
          × (c.asset_valid ≡ true)
          × (allows g.policy c ≡ true)
          × (c.high_risk ≡ true → c.transcript_only ≡ true)
    unfolding run
    run-IsSound checkpoints run_id mode c s e = rw e at (
        loop-OutcomeOk (g.budget_limits.max_steps + 1) 0 c
          (start g checkpoints (new_state run_id mode) c) (ground arith))
