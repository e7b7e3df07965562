-- ===== src/Budget/Examples.antt =====
-- The budget of packages/agent_runtime/budget.py at concrete limits.
use evidenceclass_agent.Base.{◌≡◌, List, [], ◌∷◌, none}
use evidenceclass_agent.Base.Int.{pos, negsuc}
use evidenceclass_agent.Budget.{BudgetLimits, ok, new_tracker, check_available}
use evidenceclass_agent.Budget.Bounds.{
  Call, step, model_call, model_output, tool_retry, repair, IsWithin, after,
  after-new_tracker-IsWithin, check_available-is_past,
}

abbrev small : BudgetLimits
small = record {
  max_steps = 2;
  max_model_calls = 1;
  max_tool_retries = 0;
  max_input_tokens = 100;
  max_output_tokens = 50;
  max_cost = 7;
  max_repair_rounds = 1;
  deadline_at = none;
}

abbrev calls : List Call
calls =
    step 1
    ∷ model_call 2 (pos 90)
    ∷ model_output (pos 10) (pos 9)
    ∷ tool_retry
    ∷ step 3
    ∷ step 4
    ∷ model_call 5 (negsuc 0)
    ∷ repair
    ∷ repair
    ∷ []

after-new_tracker-IsWithin_example : IsWithin (after (new_tracker small) calls)
after-new_tracker-IsWithin_example = after-new_tracker-IsWithin small calls

-- every step and the only model call are used up, and the deadline is ahead
check_available-is_past_example : check_available (after (new_tracker small) calls) 9 ≡ ok tt
check_available-is_past_example = check_available-is_past small calls 9
