-- ===== src/Stream/Delivered.antt =====
-- What a client of apps/api/sse.py gets.

use evidenceclass_agent.Base.{
  ℕ, zero, suc, ◌≤◌, ◌≡◌, refl, sym, ap, ◌∙◌, inl, Bool, true, List, [], ◌∷◌, ◌++◌, arith, ℕ_eq,
  drop, length, if◌then◌else◌,
}
use mathlib.Core.List.{append-nil}
use evidenceclass_agent.Persistence.Events.{EventTable, NewEvent, matching}
use evidenceclass_agent.Persistence.Events.Replay.{last_id, after, no_events, after-IsLog}
use evidenceclass_agent.Stream.Order.{
  events_of, IsInOrder, send_rows-IsInOrder, IsInOrder-any, replay_rows-IsInOrder, page_first,
  follow-IsInOrder,
}
use evidenceclass_agent.Stream.{
  Stream, page, close_behind, send_rows, open_stream, Moment, woken, turn, follow,
}

-- the stream of a client that has asked for what is behind an identifier, and the log, behind some moments
abbrev pub streamed : (ℕ → Bool) → ℕ → ℕ → List NewEvent → List Moment → EventTable × Stream
streamed connected job_id last_event_id earlier moments =
    let table = after no_events earlier in
    follow job_id moments (table, open_stream connected job_id last_event_id table)

streamed-IsInOrder :
    (connected : ℕ → Bool) (job_id last_event_id : ℕ) (earlier : List NewEvent)
    (moments : List Moment)
    → IsInOrder job_id last_event_id
        (streamed connected job_id last_event_id earlier moments).0
        (streamed connected job_id last_event_id earlier moments).1
unfolding open_stream close_behind events_of last_id
streamed-IsInOrder connected job last earlier moments =
    let table = after no_events earlier in
    let fresh : Stream = record { last_id = last; sent = []; is_open = true } in
    let start : IsInOrder job last table fresh = record {
      log = after-IsLog no_events earlier (tt, omega arith);
      order = refl;
      from = inl (refl, refl);
    } in
    follow-IsInOrder job last moments table (open_stream connected job last table) (
      IsInOrder-any job last table _ _ (
        replay_rows-IsInOrder job last connected 0 table (page job last table) _ fresh
          (page_first job last last table) start))

-- For every sequence of events appended before a client connects, and every sequence of later appends,
-- wake-ups, heartbeats and disconnections: the events that the stream has sent, followed by the events
-- of the job in the log behind the cursor of the stream, are the events of the job in the log
-- behind the identifier that the client gave. So none is sent twice, out of order or of another
-- job, and none is left out before one that is sent.
pub stream_in_order :
    (connected : ℕ → Bool) (job_id last_event_id : ℕ) (earlier : List NewEvent)
    (moments : List Moment)
    → events_of (streamed connected job_id last_event_id earlier moments).1.sent
        ++ matching job_id
            (streamed connected job_id last_event_id earlier moments).1.last_id
            (streamed connected job_id last_event_id earlier moments).0.rows
      ≡ matching job_id last_event_id
          (streamed connected job_id last_event_id earlier moments).0.rows
stream_in_order connected job last earlier moments =
    (streamed-IsInOrder connected job last earlier moments).order

drop-none : {A : Type 0} (n : ℕ) (xs : List A) → length xs ≤ n → drop n xs ≡ []
drop-none zero [] h = refl
drop-none zero (x ∷ xs) h = absurd (omega (arith, h))
drop-none (suc n) [] h = refl
drop-none (suc n) (x ∷ xs) h = drop-none n xs (omega (arith, h))

-- For every sequence of events appended before a client connects, and every sequence of later appends,
-- wake-ups, heartbeats and disconnections behind which the generator has not returned: where at most
-- 100 events of the job are in the log behind the cursor of the stream, a wake-up as the next moment
-- makes what it has sent all events of the job that the log holds behind the identifier that the
-- client gave, each once and in their order.
pub woken-catches_up :
    (connected : ℕ → Bool) (job_id last_event_id : ℕ) (earlier : List NewEvent)
    (moments : List Moment)
    → (streamed connected job_id last_event_id earlier moments).1.is_open ≡ true
    → length (
        matching job_id
          (streamed connected job_id last_event_id earlier moments).1.last_id
          (streamed connected job_id last_event_id earlier moments).0.rows)
      ≤ 100
    → events_of
        (follow job_id
          (woken ∷ [])
          (streamed connected job_id last_event_id earlier moments)).1.sent
      ≡ matching job_id last_event_id
          (streamed connected job_id last_event_id earlier moments).0.rows
unfolding follow turn close_behind
woken-catches_up connected job last earlier moments running few =
    let (table, s) = streamed connected job last earlier moments in
    let (i, left) =
      send_rows-IsInOrder job last table (page job s.last_id table) _ s
        (page_first job last s.last_id table)
        (streamed-IsInOrder connected job last earlier moments) in
    let nothing = left ∙ drop-none 100 (matching job s.last_id table.rows) few in
    let sent = events_of (send_rows (page job s.last_id table) s).sent in
    ap (λ b. events_of (if b then turn job woken table s else s).sent) running
    ∙ (sym (append-nil sent) ∙ ap (λ xs. sent ++ xs) (sym nothing) ∙ i.order)
