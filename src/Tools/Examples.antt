-- ===== src/Tools/Examples.antt =====
-- The registry of packages/agent_runtime/tools.py at concrete calls.
use evidenceclass_agent.Base.{
  ℕ, zero, suc, ◌+◌, ◌≡◌, refl, String, String_eq, pair_eq, true, false, some, none, List, [], ◌∷◌,
}
use evidenceclass_agent.Base.Dict.{lookup, insert}
use evidenceclass_agent.Base.Outcome.{ok}
use evidenceclass_agent.Tools.{
  ToolSpec, ToolRegistry, ToolCallResult, Reply, output, raised, Caller, attempts_from, invoke,
}
use evidenceclass_agent.Tools.Calls.Kept.{Use, add, call, after, invoke_again}

-- it fails once, and then doubles the number
abbrev reply : ℕ → ℕ → Reply ℕ
reply n zero = raised
reply n (suc attempt) = output (n + n)

-- a payload is a workspace and a number
abbrev doubling : ToolSpec (String × ℕ) (String × ℕ) ℕ
doubling = record {
  version = "1";
  validate = λ p. some p;
  workspace_id = λ p. some p.0;
  handler = λ p attempt. reply p.1 attempt;
  timeout_seconds = 30;
  max_attempts = 2;
  idempotent = true;
}

abbrev tools : ToolRegistry (String × ℕ) (String × ℕ) ℕ
tools = record { tools = ("double", doubling) ∷ []; cache = [] }

abbrev caller : String → Caller
caller workspace = record {
  workspace_id = workspace;
  allowed_tools = none;
  budget = none;
  idempotency_key = some "k";
  now = 0;
}

abbrev first_result : ToolCallResult ℕ
first_result = record {
  tool_name = "double";
  version = "1";
  output = 6;
  cached = false;
  attempts = 2;
}

-- another tool is registered, and this one called with another key, before the second caller comes
abbrev between : List (Use (String × ℕ) (String × ℕ) ℕ)
between =
    add "again" doubling
    ∷ call "double" ("a", 4) (record (caller "a") { idempotency_key = some "l" })
    ∷ []

-- the second caller is of another workspace, and gets the output of the first
invoke_again_example :
    (invoke
      (after (invoke tools "double" ("a", 3) (caller "a")).registry between)
      "double"
      ("b", 100)
      (caller "b")).outcome
    ≡ ok (record { tool_name = "double"; version = "1"; output = 6; cached = true; attempts = 1 })
unfolding invoke lookup insert attempts_from
invoke_again_example =
    invoke_again tools "double" "k" doubling ("a", 3) ("b", 100) (caller "a") (caller "b") ("a", 3)
      ("b", 100) first_result between refl refl refl refl refl refl
