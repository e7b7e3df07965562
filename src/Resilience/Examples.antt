-- ===== src/Resilience/Examples.antt =====
-- The policies of packages/model_gateway/resilience.py at concrete calls.
use evidenceclass_agent.Base.{
  length, ◌≤◌, ℕ, zero, suc, ◌≡◌, refl, Bool, true, false, some, [], ◌∷◌, arith,
}
use evidenceclass_agent.Base.Dict.{lookup, insert}
use evidenceclass_agent.Resilience.Errors.{
  Result, ok, err, is_ok, model_timeout, schema_parse_failed, permission_denied,
}
use evidenceclass_agent.Resilience.RateLimiter.{new_limiter, acquire, expire}
use evidenceclass_agent.Resilience.RateLimiter.Window
use evidenceclass_agent.Resilience.RateLimiter.Window.{acquire_exact}
use evidenceclass_agent.Resilience.CircuitBreaker.{
  CircuitBreaker, before_call, record_success, record_failure, new_breaker,
}
use evidenceclass_agent.Resilience.CircuitBreaker.Trips
use evidenceclass_agent.Resilience.CircuitBreaker.Trips.{
  Signal, calls, success, failure, IsSound, fails, after-new_breaker-IsSound,
}
use evidenceclass_agent.Resilience.JobBudget.{CallEstimate, JobModelBudget, begin_call, settle_call}
use evidenceclass_agent.Resilience.JobBudget.Bounds.{IsWithin}
use evidenceclass_agent.Resilience.Executor.{
  RetryPolicy, World, Machine, CapabilityResult, step, loop, execute,
}
use evidenceclass_agent.Resilience.Executor.Termination.{execute-Ends}
use evidenceclass_agent.Resilience.Executor.Outcomes.{execute-IsWithin}

-- the third call of "m" within ten ticks is refused, though the first has just left the window
acquire_exact_example :
    is_ok
      (acquire
        (Window.after (new_limiter 2 10, []) (("m", 0) ∷ ("m", 4) ∷ ("q", 5) ∷ ("m", 10) ∷ [])).0
        "m"
        12).1
    ≡ false
unfolding Window.after acquire expire lookup insert
acquire_exact_example =
    acquire_exact 2 10 (("m", 0) ∷ ("m", 4) ∷ ("q", 5) ∷ ("m", 10) ∷ []) "m" 12 (omega arith)
      (omega arith)

abbrev breaker : CircuitBreaker
breaker = record { threshold = 2; cooldown = 30; states = [] }

after-new_breaker-IsSound_example :
    IsSound (Trips.after breaker (("m", failure 1) ∷ ("m", calls 2) ∷ ("q", failure 3) ∷ []))
unfolding new_breaker
after-new_breaker-IsSound_example =
    after-new_breaker-IsSound 2 30 breaker
      (("m", failure 1) ∷ ("m", calls 2) ∷ ("q", failure 3) ∷ []) refl

abbrev policy : RetryPolicy
policy = record { max_retries = 2; max_schema_repairs = 1; base_delay = 250; max_delay = 4000 }

abbrev estimate : CallEstimate
estimate = record { max_total_tokens = 100; max_cost_usd = some 7 }

abbrev budget : JobModelBudget
budget = record {
  limits = record {
    max_model_calls = 9;
    max_total_tokens = 500;
    max_cost_usd = 50;
    max_wall_seconds = 1000;
  };
  started = 0;
  calls = 0;
  tokens = 0;
  cost = 0;
}

abbrev result : CapabilityResult
result = record {
  usage = record { input_tokens = 30; output_tokens = 12; cost_usd = some 5 };
  value = 1;
}

-- a timeout, then an answer that does not parse, then the repaired one
abbrev outcomes : ℕ → Bool → Result CapabilityResult
outcomes n true = ok result
outcomes zero false = err model_timeout
outcomes (suc zero) false = err model_timeout
outcomes (suc (suc n)) false = err schema_parse_failed

abbrev world : World
world = record {
  turn = λ n. record { before_at = n; acquire_at = n; begin_at = n; settle_at = n; failure_at = n };
  operation = outcomes;
}

abbrev machine : Machine
machine = record { breaker = breaker; limiter = new_limiter 60 60; budget = budget; records = [] }

repaired : (execute policy world "p:m" estimate machine).1 ≡ some (ok result)
unfolding execute loop step before_call acquire expire begin_call settle_call record_failure
    record_success lookup insert
repaired = refl

execute-Ends_example :
    (r : Result CapabilityResult) × ((execute policy world "p:m" estimate machine).1 ≡ some r)
    × (length (execute policy world "p:m" estimate machine).0.records ≤ 4)
execute-Ends_example = execute-Ends policy world "p:m" estimate machine

execute-IsWithin_example : IsWithin (execute policy world "p:m" estimate machine).0.budget
execute-IsWithin_example = execute-IsWithin policy world "p:m" estimate machine (omega arith)

abbrev denied : World
denied = record world { operation = λ n repairing. err permission_denied }
