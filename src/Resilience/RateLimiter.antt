-- ===== src/Resilience/RateLimiter.antt =====
-- `SlidingWindowRateLimiter` of packages/model_gateway/resilience.py. Times are clock readings in
-- ticks; `now - events[0] >= window` is written with the subtraction on the other side.
pub mod Window
use evidenceclass_agent.Base.{
  ℕ, ◌+◌, String, Bool, Option, none, some, List, [], ◌∷◌, ◌++◌, leb, String_eq, if◌then◌else◌,
  length,
}
use evidenceclass_agent.Base.Dict.{lookup, insert}
use evidenceclass_agent.Resilience.Errors.{Result, ok, err, local_rate_limit}

pub record SlidingWindowRateLimiter : Type 0 where
  pub max_calls : ℕ
  pub window : ℕ
  -- the `defaultdict(deque)`
  pub events : List (String × List ℕ)

abbrev pub new_limiter : ℕ → ℕ → SlidingWindowRateLimiter
new_limiter max_calls window = record { max_calls = max_calls; window = window; events = [] }

abbrev pub or_empty : Option (List ℕ) → List ℕ
or_empty none = []
or_empty (some events) = events

abbrev pub events_of : SlidingWindowRateLimiter → String → List ℕ
events_of r key = or_empty (lookup key r.events)

-- an event that has left the window
abbrev pub is_old : ℕ → ℕ → ℕ → Bool
is_old window now event = leb (event + window) now

-- the loop: events leave from the front
unfoldable pub expire : ℕ → ℕ → List ℕ → List ℕ
expire window now [] = []
expire window now (event ∷ rest) =
    let later = expire window now rest in if is_old window now event then later else event ∷ rest

abbrev pub with_events : SlidingWindowRateLimiter → String → List ℕ → SlidingWindowRateLimiter
with_events r key events = record r { events = insert key events r.events }

-- The pruned deque stays when the call raises.
unfoldable pub acquire :
    SlidingWindowRateLimiter → String → ℕ → SlidingWindowRateLimiter × Result (Unit {0})
acquire r key now =
    let events = expire r.window now (events_of r key) in
    if leb r.max_calls (length events)
    then (with_events r key events, err local_rate_limit)
    else (with_events r key (events ++ now ∷ []), ok tt)
