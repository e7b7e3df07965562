-- ===== src/Stream/Examples.antt =====
-- The theorems about apps/api/sse.py at concrete inputs.
use evidenceclass_agent.Base.{ℕ, ◌≡◌, refl, Bool, true, none, List, [], ◌∷◌, ◌++◌, length, arith}
use evidenceclass_agent.Base.Int.{pos}
use evidenceclass_agent.Persistence.Events.{NewEvent, matching, append, list_after}
use evidenceclass_agent.Persistence.Events.Replay.{after}
use evidenceclass_agent.Stream.{Moment, appended, quiet, woken, follow, open_stream}
use evidenceclass_agent.Stream.Order.{events_of}
use evidenceclass_agent.Stream.Delivered.{streamed, stream_in_order, woken-catches_up}

abbrev progress : NewEvent
progress = record {
  job_id = 7;
  run_id = none;
  event_type = "job.progress";
  stage = none;
  progress = pos 10;
  message = "on its way";
}

abbrev stays : ℕ → Bool
stays n = true

-- two events before the client comes, and three more while it listens, one of another job
abbrev earlier : List NewEvent
earlier = progress ∷ progress ∷ []

abbrev moments : List Moment
moments =
    quiet
    ∷ appended (record progress { job_id = 8 })
    ∷ appended progress
    ∷ woken
    ∷ appended (record progress { event_type = "job.succeeded" })
    ∷ []

stream_in_order_example :
    events_of (streamed stays 7 1 earlier moments).1.sent
      ++ matching 7
          (streamed stays 7 1 earlier moments).1.last_id
          (streamed stays 7 1 earlier moments).0.rows
    ≡ matching 7 1 (streamed stays 7 1 earlier moments).0.rows
stream_in_order_example = stream_in_order stays 7 1 earlier moments

-- the event behind the wake-up
one_left :
    length (
      matching 7
        (streamed stays 7 1 earlier moments).1.last_id
        (streamed stays 7 1 earlier moments).0.rows)
    ≡ 1
unfolding follow open_stream after matching append list_after
one_left = refl

still_open : (streamed stays 7 1 earlier moments).1.is_open ≡ true
unfolding follow open_stream after matching append list_after
still_open = refl

woken-catches_up_example :
    events_of (follow 7 (woken ∷ []) (streamed stays 7 1 earlier moments)).1.sent
    ≡ matching 7 1 (streamed stays 7 1 earlier moments).0.rows
woken-catches_up_example =
    woken-catches_up stays 7 1 earlier moments still_open (omega (arith, one_left))
