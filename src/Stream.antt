-- ===== src/Stream.antt =====
-- `stream_job_events` of apps/api/sse.py over the events of packages/persistence/events.py, as the
-- generator goes from one of its waits to the next. A frame is kept as the row that it renders.
pub mod Order
pub mod Delivered
mod Examples
use evidenceclass_agent.Base.{
  ℕ, ◌+◌, max, String, Bool, true, false, not, ◌&&◌, ◌||◌, List, [], ◌∷◌, ◌++◌, if◌then◌else◌,
  String_eq,
}
use evidenceclass_agent.Base.Members.{contains}
use evidenceclass_agent.Persistence.Events.{
  JobEventRecord, EventTable, NewEvent, append, list_after,
}

abbrev pub terminal_event_types : List String
terminal_event_types = "job.succeeded" ∷ "job.failed" ∷ "job.cancelled" ∷ "job.needs_review" ∷ []

pub data Frame : Type 0 where
  event : JobEventRecord → Frame
  heartbeat : Frame

-- the variables of a generator, what it has yielded, and whether it has not returned
pub record Stream : Type 0 where
  pub last_id : ℕ
  pub sent : List Frame
  pub is_open : Bool

-- the default limit of `list_after`
abbrev pub page : ℕ → ℕ → EventTable → List JobEventRecord
page job_id last_event_id table = list_after job_id last_event_id 100 table

-- `yield frame(row)` and the cursor behind it
abbrev pub send : JobEventRecord → Stream → Stream
send row s = record s { sent = s.sent ++ event row ∷ []; last_id = max s.last_id row.event_id }

abbrev pub closed : Stream → Stream
closed s = record s { is_open = false }

-- `any(row["type"] in TERMINAL_EVENT_TYPES …)`
unfoldable has_terminal : List JobEventRecord → Bool
unfolding contains
has_terminal [] = false
has_terminal (row ∷ rows) = contains terminal_event_types row.event_type || has_terminal rows

-- `return` behind a page with such an event
unfoldable pub close_behind : List JobEventRecord → Stream → Stream
unfolding has_terminal
close_behind rows s = record s { is_open = s.is_open && not (has_terminal rows) }

-- the first loop, where `connected n` is what the n-th call of `is_disconnected` denies
unfoldable pub replay_rows : (ℕ → Bool) → ℕ → List JobEventRecord → Stream → Stream
replay_rows connected n [] s = s
replay_rows connected n (row ∷ rows) s =
    let rest = replay_rows connected (n + 1) rows (send row s) in
    if connected n then rest else closed s

-- the second loop
unfoldable pub send_rows : List JobEventRecord → Stream → Stream
send_rows [] s = s
send_rows (row ∷ rows) s = send_rows rows (send row s)

-- up to the first wait
unfoldable pub open_stream : (ℕ → Bool) → ℕ → ℕ → EventTable → Stream
unfolding replay_rows close_behind
open_stream connected job_id last_event_id table =
    let rows = page job_id last_event_id table in
    close_behind rows
      (replay_rows connected 0 rows (record { last_id = last_event_id; sent = []; is_open = true }))

-- What happens next: an event is appended to the log, or the generator finds the client gone, waits
-- until its time is out, or is woken.
pub data Moment : Type 0 where
  appended : NewEvent → Moment
  disconnected quiet woken : Moment

-- a turn of `while True`
unfoldable pub turn : ℕ → Moment → EventTable → Stream → Stream
unfolding send_rows close_behind
turn job_id (appended e) table s = s
turn job_id disconnected table s = closed s
turn job_id quiet table s = record s { sent = s.sent ++ heartbeat ∷ [] }
turn job_id woken table s =
    let rows = page job_id s.last_id table in close_behind rows (send_rows rows s)

unfoldable pub table_after : Moment → EventTable → EventTable
unfolding append
table_after (appended e) table = append table e
table_after moment table = table

-- the log and the stream behind some moments; a generator that has returned does nothing more
unfoldable pub follow : ℕ → List Moment → EventTable × Stream → EventTable × Stream
unfolding turn table_after
follow job_id [] (table, s) = (table, s)
follow job_id (moment ∷ moments) (table, s) =
    follow job_id moments
      (table_after moment table, if s.is_open then turn job_id moment table s else s)
