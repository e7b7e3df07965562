-- ===== src/Resilience/CircuitBreaker.antt =====
-- `CircuitBreaker` of packages/model_gateway/resilience.py. Times are clock readings in ticks. A key
-- that the `defaultdict` has not seen has the fresh state.
pub mod Trips
use evidenceclass_agent.Base.{
  ℕ, ◌+◌, ◌-◌, String, Bool, Option, none, some, List, [], ◌∷◌, ltb, leb, String_eq, if◌then◌else◌,
}
use evidenceclass_agent.Base.Dict.{lookup, insert}
use evidenceclass_agent.Resilience.Errors.{Result, ok, err, circuit_open}

-- `_CircuitState`
pub record CircuitState : Type 0 where
  pub failures : ℕ
  pub opened_at : Option ℕ

abbrev pub fresh : CircuitState
fresh = record { failures = 0; opened_at = none }

pub record CircuitBreaker : Type 0 where
  pub threshold : ℕ
  pub cooldown : ℕ
  pub states : List (String × CircuitState)

abbrev pub or_fresh : Option CircuitState → CircuitState
or_fresh none = fresh
or_fresh (some s) = s

abbrev pub state_of : CircuitBreaker → String → CircuitState
state_of b key = or_fresh (lookup key b.states)

abbrev pub with_state : CircuitBreaker → String → CircuitState → CircuitBreaker
with_state b key s = record b { states = insert key s b.states }

-- the constructor, which refuses a threshold of 0
unfoldable pub new_breaker : ℕ → ℕ → Option CircuitBreaker
new_breaker threshold cooldown =
    if leb threshold 0
    then none
    else some (record { threshold = threshold; cooldown = cooldown; states = [] })

-- after `opened_at` and the test of the cooldown: half open, one failure from open
abbrev pub half_open : CircuitBreaker → CircuitState
half_open b = record { failures = b.threshold - 1; opened_at = none }

-- `state = self._states[key]` creates the state of a new key
unfoldable pub before_call : CircuitBreaker → String → ℕ → CircuitBreaker × Result (Unit {0})
before_call b key now =
    let state = state_of b key in
    elim state.opened_at [
      | none ↦ (with_state b key state, ok tt)
      | some opened ↦
          if ltb now (opened + b.cooldown)
          then (with_state b key state, err circuit_open)
          else (with_state b key (half_open b), ok tt)
    ]

unfoldable pub record_success : CircuitBreaker → String → CircuitBreaker
record_success b key = with_state b key fresh

abbrev pub fail_once : CircuitBreaker → CircuitState → ℕ → CircuitState
fail_once b state now =
    let failures = state.failures + 1 in
    record {
      failures = failures;
      opened_at = if leb b.threshold failures then some now else state.opened_at;
    }

unfoldable pub record_failure : CircuitBreaker → String → ℕ → CircuitBreaker
record_failure b key now = with_state b key (fail_once b (state_of b key) now)
