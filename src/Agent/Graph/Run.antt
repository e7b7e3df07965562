-- ===== src/Agent/Graph/Run.antt =====
-- `AgentGraph.run` of packages/agent_runtime/graph.py. The clock gives the reading that the budget
-- check of each turn takes. The loop takes fuel, one unit a turn; `run` gives it one more than the
-- steps of the budget. The context that the caller handed over is changed in place.
pub mod Ends
pub mod Success
pub mod Resumes
pub mod Repairs
use evidenceclass_agent.Base.{
  ℕ, zero, suc, ◌+◌, Bool, true, false, Option, none, some, List, [], ◌∷◌, if◌then◌else◌,
}
use evidenceclass_agent.Base.Outcome.{ok, err}
use evidenceclass_agent.Budget.{BudgetTracker, BudgetError, new_tracker, before_step}
use evidenceclass_agent.Lifecycle.Decision.{
  ReviewDecision, approved, modified, rejected, materials_requested,
}
use evidenceclass_agent.Agent.State.{
  AgentState, Context, Node, fail_job, TraceLine, out_of_budget, review_rejected, budget_exceeded,
  failed,
}
use evidenceclass_agent.Agent.Checkpoint.{CheckpointStore, save_started, save_succeeded, restore}
use evidenceclass_agent.Agent.Graph.{
  AgentGraph, Move, go, stop, exceeded, broken, handle, is_node, update,
}

-- the variables of the loop
pub record Machine : Type 0 where
  pub state : AgentState
  pub context : Context
  pub tracker : BudgetTracker
  pub checkpoints : CheckpointStore

-- how a run ends
pub data Ending : Type 0 where
  returned : AgentState → Ending
  interrupted graph_error no_checkpoint : Ending

pub data Verdict : Type 0 where
  finish : Ending → Verdict
  continue : Verdict

abbrev pub last : List TraceLine → Option TraceLine
last [] = none
last (line ∷ []) = some line
last (line ∷ next ∷ rest) = last (next ∷ rest)

-- the `except` clause
abbrev pub give_up : Machine → BudgetError → Machine × Verdict
give_up m e =
    let state =
      update (record m.state { final_status = some budget_exceeded }) m.state.current_node
        (out_of_budget e) in
    (
      record m {
        state = state;
        checkpoints = (save_succeeded m.checkpoints state m.state.current_node none).0;
      },
      finish (returned state),
    )

-- the statements behind the tests on the node; the state is still at the node that was handled
abbrev advance : Option Node → Machine → Node → Node → Machine × Verdict
advance crash_after m node next =
    let state = record m.state { current_node = next; checkpoint_id = none } in
    let (checkpoints, checkpoint) = save_succeeded m.checkpoints state node (last state.trace) in
    (
      record m {
        state = record state { checkpoint_id = some checkpoint.checkpoint_id };
        checkpoints = checkpoints;
      },
      elim crash_after [
        | none ↦ continue
        | some crash ↦ if is_node crash node then finish interrupted else continue
      ],
    )

-- what the loop makes of a node's move
abbrev pub apply : Option Node → Machine → Move → Machine × Verdict
apply crash_after m (go state context tracker next) =
    advance crash_after (record m { state = state; context = context; tracker = tracker })
      m.state.current_node next
apply crash_after m (stop state) = (
  record m {
    state = state;
    checkpoints = (save_succeeded m.checkpoints state m.state.current_node none).0;
  },
  finish (returned state),
)
apply crash_after m (exceeded e) = give_up m e
apply crash_after m broken = (m, finish graph_error)

-- one turn of the loop
unfoldable pub step : AgentGraph → Option Node → ℕ → Machine → Machine × Verdict
step g crash_after now m = elim (before_step m.tracker now) [
  | err e ↦ give_up m e
  | ok tracker ↦
      apply crash_after
        (record m {
          tracker = tracker;
          checkpoints = save_started m.checkpoints m.state m.state.current_node;
        })
        (handle g m.state m.context tracker m.state.current_node)
]

abbrev pub follow :
    (Machine → Machine × Option Ending) → Machine × Verdict → Machine × Option Ending
follow next (m, finish e) = (m, some e)
follow next (m, continue) = next m

-- `tracker = BudgetTracker(self.budget_limits)`, in front of the loop
abbrev pub start : AgentGraph → CheckpointStore → AgentState → Context → Machine
start g checkpoints state context = record {
  state = state;
  context = context;
  tracker = new_tracker g.budget_limits;
  checkpoints = checkpoints;
}

module _ (g : AgentGraph) (crash_after : Option Node) (clock : ℕ → ℕ) where
  -- the loop, after `turn` turns; `none` means that the fuel ran out
  unfoldable pub loop : ℕ → ℕ → Machine → Machine × Option Ending
  loop zero turn m = (m, none)
  loop (suc fuel) turn m = follow (loop fuel (turn + 1)) (step g crash_after (clock turn) m)

  unfoldable pub run : CheckpointStore → AgentState → Context → Machine × Option Ending
  run checkpoints state context =
      loop (g.budget_limits.max_steps + 1) 0 (start g checkpoints state context)

  -- `"REJECTED"`
  abbrev pub reject : CheckpointStore → AgentState → CheckpointStore × Option Ending
  reject checkpoints state =
      let state' = update (record state { final_status = some failed }) fail_job review_rejected in
      ((save_succeeded checkpoints state' fail_job none).0, some (returned state'))

  -- `"APPROVED"` or `"MODIFIED"`: the run goes on from the node that the caller names
  abbrev go_on : CheckpointStore → AgentState → Context → CheckpointStore × Option Ending
  go_on checkpoints state context =
      let (m, ending) =
        run checkpoints
          (record state {
            requires_review = false;
            final_status = none;
            current_node = context.resume_node;
          })
          context in
      (m.checkpoints, ending)

  -- a restored state that waits for a review
  abbrev pub resume_review :
      CheckpointStore
      → AgentState
      → Context
      → Option ReviewDecision
      → CheckpointStore × Option Ending
  resume_review checkpoints state context none = (checkpoints, some (returned state))
  resume_review checkpoints state context (some approved) = go_on checkpoints state context
  resume_review checkpoints state context (some modified) = go_on checkpoints state context
  resume_review checkpoints state context (some rejected) = reject checkpoints state
  resume_review checkpoints state context (some materials_requested) =
      (checkpoints, some (returned state))

  -- a restored state
  abbrev pub resume_from : CheckpointStore → AgentState → Context → CheckpointStore × Option Ending
  resume_from checkpoints state context =
      if state.requires_review
      then resume_review checkpoints state context context.review_decision
      else (let (m, ending) = run checkpoints state context in (m.checkpoints, ending))

  -- `run` with `resume=True`
  unfoldable pub resume : CheckpointStore → ℕ → Context → CheckpointStore × Option Ending
  resume checkpoints run_id context = elim (restore checkpoints run_id) [
    | none ↦ (checkpoints, some no_checkpoint)
    | some state ↦ resume_from checkpoints state context
  ]
