-- ===== src/Agent/Graph/Run/Ends.antt =====
-- The loop of `AgentGraph.run` in packages/agent_runtime/graph.py ends, whatever the route.
use evidenceclass_agent.Base.{ℕ, zero, suc, ◌+◌, ◌≤◌, ◌<◌, ◌≡◌, refl, Option, some, arith, inl, inr}
use evidenceclass_agent.Base.Outcome.{ok, Outcome-cases}
use evidenceclass_agent.Budget.{BudgetTracker, before_step, before_repair}
use evidenceclass_agent.Agent.State.{AgentState, Context, Node}
use evidenceclass_agent.Agent.Checkpoint.{CheckpointStore}
use evidenceclass_agent.Agent.Graph.{AgentGraph, Move, go, handle, handle_plan}
use evidenceclass_agent.Agent.Graph.Run.{
  Machine, Ending, Verdict, finish, continue, apply, step, follow, loop, run,
}

-- a node charges no steps of its own
abbrev KeepsSteps : BudgetTracker → Move → Type 0
KeepsSteps t (go s c u next) = (u.usage.steps ≡ t.usage.steps) × (u.limits ≡ t.limits)
KeepsSteps t _ = Unit

module _ (g : AgentGraph) where
  handle_plan-KeepsSteps :
      (s : AgentState) (c : Context) (t : BudgetTracker) (node : Node)
      → KeepsSteps t (handle_plan g s c t node)
  handle_plan-KeepsSteps s c t node = ground arith

  handle-KeepsSteps :
      (s : AgentState) (c : Context) (t : BudgetTracker) (node : Node)
      → KeepsSteps t (handle g s c t node)
  unfolding handle before_repair
  handle-KeepsSteps s c t node = ground arith

  before_step_charge :
      (t : BudgetTracker) (now : ℕ) (u : BudgetTracker)
      → before_step t now ≡ ok u
      → (u.usage.steps ≡ t.usage.steps + 1)
        × (u.limits ≡ t.limits)
        × (t.usage.steps < t.limits.max_steps)
  unfolding before_step
  before_step_charge t now u e = ground arith

  -- A turn that goes on has charged one step, which the limit allowed.
  abbrev Charges : Machine → Machine × Verdict → Type 0
  Charges m (m', finish e) = Unit
  Charges m (m', continue) =
      (m'.tracker.usage.steps ≡ m.tracker.usage.steps + 1)
      × (m'.tracker.limits ≡ m.tracker.limits)
      × (m.tracker.usage.steps < m.tracker.limits.max_steps)

  apply-Charges :
      (crash_after : Option Node) (m : Machine) (move : Move)
      → KeepsSteps m.tracker move
      → (m₀ : Machine) → m.tracker.usage.steps ≡ m₀.tracker.usage.steps + 1
      → m.tracker.limits ≡ m₀.tracker.limits
      → m₀.tracker.usage.steps < m₀.tracker.limits.max_steps
      → Charges m₀ (apply crash_after m move)
  apply-Charges crash_after m move k m₀ e l h = grind arith

  step-Charges :
      (crash_after : Option Node) (now : ℕ) (m : Machine) → Charges m (step g crash_after now m)
  unfolding step
  step-Charges crash_after now m = elim (Outcome-cases (before_step m.tracker now)) [
    | inr (error, e) ↦ rw (e, step) tt
    | inl (tracker, e) ↦
        let (n, l, b) = before_step_charge m.tracker now tracker e in
        rw (e, step)
          (apply-Charges crash_after _ _
            (handle-KeepsSteps m.state m.context tracker m.state.current_node) m n l b)
  ]

  module _ (crash_after : Option Node) (clock : ℕ → ℕ) where
    -- the machines whose steps `fuel` turns can serve
    abbrev Serves : ℕ → Machine → Type 0
    Serves fuel m =
        (m.tracker.usage.steps ≤ m.tracker.limits.max_steps)
        × (m.tracker.limits.max_steps < fuel + m.tracker.usage.steps)

    follow-Ends :
        (fuel : ℕ) (next : Machine → Machine × Option Ending) (m : Machine) (s : Machine × Verdict)
        → ((m' : Machine) → Serves fuel m' → (e : Ending) × ((next m').1 ≡ some e))
        → Charges m s
        → Serves (suc fuel) m
        → (e : Ending) × ((follow next s).1 ≡ some e)
    follow-Ends fuel next m (m', finish e) ih c h = (e, refl)
    follow-Ends fuel next m (m', continue) ih (c, l, b) h = ih m' (ground (arith, l))

    loop-Ends :
        (fuel turn : ℕ) (m : Machine)
        → Serves fuel m
        → (e : Ending) × ((loop g crash_after clock fuel turn m).1 ≡ some e)
    unfolding loop
    loop-Ends zero turn m h = absurd (omega arith)
    loop-Ends (suc fuel) turn m h =
        follow-Ends fuel (loop g crash_after clock fuel (turn + 1)) m _
          (λ m'. loop-Ends fuel (turn + 1) m') (step-Charges crash_after (clock turn) m) h

    pub run-Ends :
        (checkpoints : CheckpointStore) (state : AgentState) (context : Context)
        → (e : Ending) × ((run g crash_after clock checkpoints state context).1 ≡ some e)
    unfolding run
    run-Ends checkpoints state context = loop-Ends (g.budget_limits.max_steps + 1) 0 _ (omega arith)
