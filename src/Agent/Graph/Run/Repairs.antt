-- ===== src/Agent/Graph/Run/Repairs.antt =====
-- How often `AgentGraph.run` of packages/agent_runtime/graph.py repairs or revises.
use evidenceclass_agent.Base.{ℕ, zero, suc, ◌+◌, ◌≤◌, ◌≡◌, Option, arith, inl, inr}
use evidenceclass_agent.Base.Outcome.{ok, Outcome-cases}
use evidenceclass_agent.Budget.{BudgetTracker, before_step, before_repair}
use evidenceclass_agent.Agent.State.{AgentState, Context, Node}
use evidenceclass_agent.Agent.Checkpoint.{CheckpointStore}
use evidenceclass_agent.Agent.Graph.{
  AgentGraph, Move, go, stop, exceeded, broken, handle, handle_plan,
}
use evidenceclass_agent.Agent.Graph.Run.{
  Machine, Ending, Verdict, finish, continue, apply, step, follow, loop, start, run,
}

-- the rounds that a state counts are those that the tracker has granted, behind `n` earlier ones
abbrev Granted : AgentGraph → ℕ → AgentState → BudgetTracker → Type 0
Granted g n s t =
    (s.repair_rounds ≡ n + t.usage.repair_rounds)
    × (t.usage.repair_rounds ≤ g.budget_limits.max_repair_rounds)
    × (t.limits.max_repair_rounds ≡ g.budget_limits.max_repair_rounds)

abbrev GrantedMove : AgentGraph → ℕ → Move → Type 0
GrantedMove g n (go s c t next) = Granted g n s t
GrantedMove g n (stop s) = s.repair_rounds ≤ n + g.budget_limits.max_repair_rounds
GrantedMove g n _ = Unit

module _ (g : AgentGraph) (n : ℕ) where
  handle_plan-Granted :
      (s : AgentState) (c : Context) (t : BudgetTracker) (node : Node)
      → Granted g n s t
      → GrantedMove g n (handle_plan g s c t node)
  handle_plan-Granted s c t node h = ground arith

  handle-Granted :
      (s : AgentState) (c : Context) (t : BudgetTracker) (node : Node)
      → Granted g n s t
      → GrantedMove g n (handle g s c t node)
  unfolding handle before_repair
  handle-Granted s c t node h = ground arith

  -- what the loop keeps
  abbrev Inv : Machine → Type 0
  Inv m = Granted g n m.state m.tracker

  abbrev IsWithin : Machine → Type 0
  IsWithin m = m.state.repair_rounds ≤ n + g.budget_limits.max_repair_rounds

  abbrev KeepsOn : Machine × Verdict → Type 0
  KeepsOn (m, finish e) = IsWithin m
  KeepsOn (m, continue) = Inv m

  apply-KeepsOn :
      (crash_after : Option Node) (m : Machine) (move : Move)
      → Inv m
      → GrantedMove g n move
      → KeepsOn (apply crash_after m move)
  apply-KeepsOn crash_after m (go s d t next) i k = ground arith
  apply-KeepsOn crash_after m (stop s) i k = k
  apply-KeepsOn crash_after m (exceeded error) i k = ground arith
  apply-KeepsOn crash_after m broken i k = ground arith

  before_step-Granted :
      (s : AgentState) (t : BudgetTracker) (now : ℕ) (u : BudgetTracker)
      → before_step t now ≡ ok u
      → Granted g n s t
      → Granted g n s u
  unfolding before_step
  before_step-Granted s t now u e h = ground arith

  step-KeepsOn :
      (crash_after : Option Node) (now : ℕ) (m : Machine)
      → Inv m
      → KeepsOn (step g crash_after now m)
  unfolding step
  step-KeepsOn crash_after now m i = elim (Outcome-cases (before_step m.tracker now)) [
    | inr (error, f) ↦ rw (f, step) (ground arith)
    | inl (tracker, f) ↦
        let j = before_step-Granted m.state m.tracker now tracker f i in
        rw (f, step)
          (apply-KeepsOn crash_after _ _ j
            (handle-Granted m.state m.context tracker m.state.current_node j))
  ]

  module _ (crash_after : Option Node) (clock : ℕ → ℕ) where
    follow-IsWithin :
        (next : Machine → Machine × Option Ending) (s : Machine × Verdict)
        → ((m : Machine) → Inv m → IsWithin (next m).0)
        → KeepsOn s
        → IsWithin (follow next s).0
    follow-IsWithin next (m, finish e) ih k = k
    follow-IsWithin next (m, continue) ih k = ih m k

    loop-IsWithin :
        (fuel turn : ℕ) (m : Machine) → Inv m → IsWithin (loop g crash_after clock fuel turn m).0
    unfolding loop
    loop-IsWithin zero turn m i = ground arith
    loop-IsWithin (suc fuel) turn m i =
        follow-IsWithin (loop g crash_after clock fuel (turn + 1)) _
          (λ m' j. loop-IsWithin fuel (turn + 1) m' j) (step-KeepsOn crash_after (clock turn) m i)

-- However a run goes, from any state, it adds at most `max_repair_rounds` rounds of repair and
-- revision together to those that the state has counted.
pub run-repairs :
    (g : AgentGraph) (crash_after : Option Node) (clock : ℕ → ℕ) (checkpoints : CheckpointStore)
    (state : AgentState) (context : Context)
    → (run g crash_after clock checkpoints state context).0.state.repair_rounds
      ≤ state.repair_rounds + g.budget_limits.max_repair_rounds
unfolding run
run-repairs g crash_after clock checkpoints state context =
    loop-IsWithin g state.repair_rounds crash_after clock (g.budget_limits.max_steps + 1) 0
      (start g checkpoints state context) (omega arith)
