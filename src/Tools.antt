-- ===== src/Tools.antt =====
-- packages/agent_runtime/tools.py: the registry of tools. What a tool's models and its handler do is a
-- parameter: the check of a payload, the workspace that a checked payload names, and what the handler
-- answers at each attempt, within its time or not. A thread pool runs one handler at a time, so it is a
-- call. An empty idempotency key is no key.
pub mod Calls
mod Examples
use evidenceclass_agent.Base.{
  ℕ, zero, suc, ◌+◌, String, Bool, true, false, not, ◌&&◌, ◌||◌, Option, none, some, [], ltb, leb,
  if◌then◌else◌, String_eq, pair_eq, ◌==◌,
}
use evidenceclass_agent.Base.Dict.{Items, lookup, insert}
use evidenceclass_agent.Base.Outcome.{Outcome, ok, err, ◌>>=◌, ◌>>◌, raise_if}
use evidenceclass_agent.Budget.{BudgetTracker, BudgetError, check_available, before_tool_retry}

pub data ToolError : Type 0 where
  already_registered not_positive unregistered not_allowed invalid_input : ToolError
  crosses_workspace timed_out failed : ToolError
  over_budget : BudgetError → ToolError

-- an output that its model accepts; no answer in time; any other exception
pub data Reply (Output : Type 0) : Type 0 where
  output : Output → Reply Output
  late raised : Reply Output

pub record ToolSpec (Payload Input Output : Type 0) : Type 0 where
  pub version : String
  pub validate : Payload → Option Input
  pub workspace_id : Input → Option String
  pub handler : Input → ℕ → Reply Output
  pub timeout_seconds : ℕ
  pub max_attempts : ℕ
  pub idempotent : Bool

pub record ToolCallResult (Output : Type 0) : Type 0 where
  pub tool_name : String
  pub version : String
  pub output : Output
  pub cached : Bool
  pub attempts : ℕ

-- the cache by the tool's name and the key
pub record ToolRegistry (Payload Input Output : Type 0) : Type 0 where
  pub tools : Items String (ToolSpec Payload Input Output)
  pub cache : Items (String × String) Output

-- what one attempt leads to: the end of the loop, or the next attempt with its tracker
pub data Turn (Output : Type 0) : Type 0 where
  done : Outcome ToolError (Output × ℕ) → Turn Output
  again : Option BudgetTracker → Turn Output

abbrev pub Attempts : Type 0 → Type 0
Attempts Output = Option BudgetTracker × Outcome ToolError (Output × ℕ)

abbrev pub follow :
    {Output : Type 0}
    → (Option BudgetTracker → Attempts Output)
    → Option BudgetTracker
    → Turn Output
    → Attempts Output
follow next budget (done r) = (budget, r)
follow next budget (again charged) = next charged

-- the arguments of `invoke` behind the payload
pub record Caller : Type 0 where
  pub workspace_id : String
  pub allowed_tools : Option (String → Bool)
  pub budget : Option BudgetTracker
  pub idempotency_key : Option String
  pub now : ℕ

pub record Called (Payload Input Output : Type 0) : Type 0 where
  pub registry : ToolRegistry Payload Input Output
  pub budget : Option BudgetTracker
  pub outcome : Outcome ToolError (ToolCallResult Output)

abbrev pub find :
    {Output : Type 0} → Option (String × String) → Items (String × String) Output → Option Output
find none cache = none
find (some key) cache = lookup key cache

abbrev pub put :
    {Output : Type 0}
    → Option (String × String)
    → Output
    → Items (String × String) Output
    → Items (String × String) Output
put none o cache = cache
put (some key) o cache = insert key o cache

module _ {Payload Input Output : Type 0} where
  unfoldable pub register :
      ToolRegistry Payload Input Output
      → String
      → ToolSpec Payload Input Output
      → Outcome ToolError (ToolRegistry Payload Input Output)
  register r name spec = elim (lookup name r.tools) [
    | some known ↦ err already_registered
    | none ↦
        raise_if (leb spec.timeout_seconds 0 || leb spec.max_attempts 0) not_positive
        >> ok (record r { tools = insert name spec r.tools })
  ]

  -- the statements behind the `try`
  abbrev pub retry : ToolSpec Payload Input Output → ℕ → Option BudgetTracker → Turn Output
  retry spec attempt none = again none
  retry spec attempt (some tracker) =
      if ltb (attempt + 1) spec.max_attempts
      then elim (before_tool_retry tracker) [
        | err e ↦ done (err (over_budget e))
        | ok charged ↦ again (some charged)
      ]
      else again (some tracker)

  abbrev pub attempt_once :
      ToolSpec Payload Input Output → Input → ℕ → Option BudgetTracker → Turn Output
  attempt_once spec model attempt budget = elim (spec.handler model attempt) [
    | output o ↦ done (ok (o, attempt + 1))
    | late ↦
        if leb spec.max_attempts (attempt + 1)
        then done (err timed_out)
        else retry spec attempt budget
    | raised ↦ retry spec attempt budget
  ]

  -- the attempts that are left, of `max_attempts`
  unfoldable pub attempts_from :
      ToolSpec Payload Input Output → Input → ℕ → ℕ → Option BudgetTracker → Attempts Output
  attempts_from spec model zero attempt budget = (budget, err failed)
  attempts_from spec model (suc left) attempt budget =
      follow (attempts_from spec model left (attempt + 1)) budget
        (attempt_once spec model attempt budget)

  -- `cache_key`, for the tools that use the cache
  abbrev pub cache_key :
      String → ToolSpec Payload Input Output → Option String → Option (String × String)
  cache_key name spec none = none
  cache_key name spec (some key) =
      if key == "" then none else (if spec.idempotent then some (name, key) else none)

  -- the checks in front of the cache, in the order of the source
  abbrev pub checked :
      String
      → Option (ToolSpec Payload Input Output)
      → Payload
      → Caller
      → Outcome ToolError (ToolSpec Payload Input Output × Input)
  checked name none payload c = err unregistered
  checked name (some spec) payload c = do
    raise_if (elim c.allowed_tools [ none ↦ false | some allowed ↦ not (allowed name) ]) not_allowed
    elim c.budget [
      | none ↦ ok tt
      | some tracker ↦ elim (check_available tracker c.now) [
        | err e ↦ err (over_budget e)
        | ok u ↦ ok tt
      ]
    ]
    model ← elim (spec.validate payload) [ none ↦ err invalid_input | some model ↦ ok model ]
    raise_if (elim (spec.workspace_id model) [ none ↦ false | some w ↦ not (w == c.workspace_id) ])
        crosses_workspace
    ok (spec, model)

  -- the result of the attempts, with its output in the cache
  abbrev finish :
      ToolRegistry Payload Input Output
      → String
      → ToolSpec Payload Input Output
      → Option (String × String)
      → Attempts Output
      → Called Payload Input Output
  finish r name spec key (budget, err e) = record { registry = r; budget = budget; outcome = err e }
  finish r name spec key (budget, ok (o, n)) = record {
    registry = record r { cache = put key o r.cache };
    budget = budget;
    outcome = ok (record {
      tool_name = name;
      version = spec.version;
      output = o;
      cached = false;
      attempts = n;
    });
  }

  -- the cache, and then the attempts
  abbrev pub perform :
      ToolRegistry Payload Input Output
      → String
      → ToolSpec Payload Input Output
      → Input
      → Caller
      → Called Payload Input Output
  perform r name spec model c = elim (find (cache_key name spec c.idempotency_key) r.cache) [
    | some o ↦ record {
      registry = r;
      budget = c.budget;
      outcome = ok (record {
        tool_name = name;
        version = spec.version;
        output = o;
        cached = true;
        attempts = 1;
      });
    }
    | none ↦
        finish r name spec (cache_key name spec c.idempotency_key)
          (attempts_from spec model spec.max_attempts 0 c.budget)
  ]

  unfoldable pub invoke :
      ToolRegistry Payload Input Output → String → Payload → Caller → Called Payload Input Output
  invoke r name payload c = elim (checked name (lookup name r.tools) payload c) [
    | err e ↦ record { registry = r; budget = c.budget; outcome = err e }
    | ok (spec, model) ↦ perform r name spec model c
  ]
