-- ===== src/Persistence/Outbox.antt =====
-- `OutboxPublisher` of packages/persistence/outbox.py, as the only publisher while it runs. Sending is
-- the caller's: for the event with an identifier it gives the text of the exception, or none. Rows with
-- one time of creation keep their order. A limit is a number; a negative one is as 0.
pub mod Delivery
pub mod Selection
use evidenceclass_agent.Base.{
  ℕ, zero, suc, ◌+◌, min, max, String, Bool, true, false, Option, none, some, List, [], ◌∷◌, leb,
  take, map, if◌then◌else◌, ◌==◌, ℕ_eq,
}
use evidenceclass_agent.Base.Dict.{Items, lookup, insert}
use evidenceclass_agent.Base.Text.{clip}
use evidenceclass_agent.Persistence.Tables.{
  OutboxEvent, OutboxStatus, Topic, pending, publishing, published,
}

abbrev pub is_pending : OutboxStatus → Bool
is_pending pending = true
is_pending _ = false

-- `.where(OutboxEvent.status == "PENDING")`
unfoldable pub pending_rows : Items ℕ OutboxEvent → Items ℕ OutboxEvent
pending_rows [] = []
pending_rows (row ∷ rows) =
    let rest = pending_rows rows in if is_pending row.1.status then row ∷ rest else rest

-- `.order_by(OutboxEvent.created_at.asc())`
unfoldable pub place : ℕ × OutboxEvent → Items ℕ OutboxEvent → Items ℕ OutboxEvent
place row [] = row ∷ []
place row (next ∷ rows) =
    let rest = place row rows in
    if leb row.1.created_at next.1.created_at then row ∷ next ∷ rows else next ∷ rest

unfoldable pub by_time : Items ℕ OutboxEvent → Items ℕ OutboxEvent
by_time [] = []
by_time (row ∷ rows) = place row (by_time rows)

-- the first query of `publish_pending`
abbrev pub selected : ℕ → Items ℕ OutboxEvent → Items ℕ OutboxEvent
selected limit rows = take (max 1 (min limit 500)) (by_time (pending_rows rows))

-- `Callable[[str, UUID, dict[str, Any]], None]`: the text of the exception that it raises, or none
abbrev pub Send : Type 0
Send = (event_id : ℕ) → Topic → (aggregate_id : ℕ) → Option String

-- the claim of an event
abbrev pub claimed : OutboxEvent → OutboxEvent
claimed event = record event { status = publishing; attempts = event.attempts + 1 }

-- the statements behind a failed and behind a successful send
abbrev pub returned : String → OutboxEvent → OutboxEvent
returned text event = record event { status = pending; last_error = some (clip 1000 text) }

abbrev pub delivered : ℕ → OutboxEvent → OutboxEvent
delivered now event = record event { status = published; published_at = some now }

-- `event = session.get(OutboxEvent, event_id)` and a change of the row, where there is one
abbrev pub change : ℕ → (OutboxEvent → OutboxEvent) → Items ℕ OutboxEvent → Items ℕ OutboxEvent
change event_id f rows = elim (lookup event_id rows) [
  | none ↦ rows
  | some event ↦ insert event_id (f event) rows
]

-- the send of an event that has been claimed
abbrev pub send_event :
    Send → ℕ → ℕ → OutboxEvent → Items ℕ OutboxEvent → Items ℕ OutboxEvent × Bool
send_event send now event_id event rows = elim (send event_id event.topic event.aggregate_id) [
  | some text ↦ (change event_id (returned text) rows, false)
  | none ↦ (change event_id (delivered now) rows, true)
]

-- one turn of the loop: the rows, and whether the event has been published
unfoldable pub publish_event : Send → ℕ → ℕ → Items ℕ OutboxEvent → Items ℕ OutboxEvent × Bool
publish_event send now event_id rows = elim (lookup event_id rows) [
  | none ↦ (rows, false)
  | some event ↦
      if is_pending event.status
      then send_event send now event_id event (insert event_id (claimed event) rows)
      else (rows, false)
]

-- the loop: the rows, and the events that have been published
unfoldable pub publish_events :
    Send → ℕ → List ℕ → Items ℕ OutboxEvent → Items ℕ OutboxEvent × List ℕ
publish_events send now [] rows = (rows, [])
publish_events send now (event_id ∷ ids) rows =
    let (next, sent) = publish_event send now event_id rows in
    let (last, done) = publish_events send now ids next in
    (last, if sent then event_id ∷ done else done)

unfoldable pub publish_pending : Send → ℕ → ℕ → Items ℕ OutboxEvent → Items ℕ OutboxEvent × List ℕ
publish_pending send now limit rows =
    publish_events send now (map (λ row. row.0) (selected limit rows)) rows
