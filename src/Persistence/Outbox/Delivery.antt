-- ===== src/Persistence/Outbox/Delivery.antt =====
-- What `publish_pending` of packages/persistence/outbox.py makes of each event.
use evidenceclass_agent.Base.{
  ℕ, ◌≡◌, refl, Bool, true, false, ◌&&◌, Option, none, some, List, [], ◌∷◌, arith, if◌then◌else◌,
  ◌==◌, ℕ_eq, same_iff, Option-cases, inl, inr, ◌||◌,
}
use evidenceclass_agent.Base.Dict.{Items, lookup, insert, lookup-insert}
use evidenceclass_agent.Persistence.Tables.{OutboxEvent}
use evidenceclass_agent.Persistence.Outbox.{
  is_pending, Send, claimed, returned, delivered, change, send_event, publish_event, publish_events,
}

-- the row of a pending event behind its turn, by what sending it gives
abbrev pub settled : Send → ℕ → ℕ → OutboxEvent → OutboxEvent
settled send now event_id event = elim (send event_id event.topic event.aggregate_id) [
  | some text ↦ returned text (claimed event)
  | none ↦ delivered now (claimed event)
]

-- the row of any event behind its turn
abbrev pub attempted : Send → ℕ → ℕ → OutboxEvent → OutboxEvent
attempted send now event_id event =
    if is_pending event.status then settled send now event_id event else event

abbrev pub attempt : Send → ℕ → ℕ → Option OutboxEvent → Option OutboxEvent
attempt send now event_id none = none
attempt send now event_id (some event) = some (attempted send now event_id event)

lookup-change :
    (i : ℕ) (f : OutboxEvent → OutboxEvent) (event : OutboxEvent) (rows : Items ℕ OutboxEvent)
    (k : ℕ)
    → lookup k (change i f (insert i event rows))
      ≡ (if i == k then some (f event) else lookup k rows)
lookup-change i f event rows k = ground (
  arith,
  lookup-insert rows i event i,
  lookup-insert rows i event k,
  lookup-insert (insert i event rows) i (f event) k,
  same_iff i i,
  same_iff i k,
)

lookup-send_event :
    (send : Send) (now i : ℕ) (event : OutboxEvent) (rows : Items ℕ OutboxEvent) (k : ℕ)
    → lookup k (send_event send now i event (insert i (claimed event) rows)).0
      ≡ (if i == k then some (settled send now i event) else lookup k rows)
lookup-send_event send now i event rows k =
    elim (Option-cases (send i event.topic event.aggregate_id)) [
      | inl e ↦ rw (e, send_event, settled) (lookup-change i (delivered now) (claimed event) rows k)
      | inr (text, e) ↦
          rw (e, send_event, settled) (lookup-change i (returned text) (claimed event) rows k)
    ]

lookup-publish_event :
    (send : Send) (now i : ℕ) (rows : Items ℕ OutboxEvent) (k : ℕ)
    → lookup k (publish_event send now i rows).0
      ≡ (if i == k then attempt send now i (lookup i rows) else lookup k rows)
unfolding publish_event
lookup-publish_event send now i rows k = elim (Option-cases (lookup i rows)) [
  | inl e ↦ ground (arith, same_iff i k)
  | inr (event, e) ↦ ground (arith, same_iff i k, lookup-send_event send now i event rows k)
]

-- whether the turn of an event publishes it
abbrev pub publishes : Send → ℕ → Option OutboxEvent → Bool
publishes send i none = false
publishes send i (some event) =
    is_pending event.status
    && elim (send i event.topic event.aggregate_id) [ none ↦ true | some text ↦ false ]

publish_event-publishes :
    (send : Send) (now i : ℕ) (rows : Items ℕ OutboxEvent)
    → (publish_event send now i rows).1 ≡ publishes send i (lookup i rows)
unfolding publish_event
publish_event-publishes send now i rows = ground arith

abbrev pub mem : ℕ → List ℕ → Bool
mem k [] = false
mem k (i ∷ ids) = i == k || mem k ids

abbrev pub Distinct : List ℕ → Type 0
Distinct [] = Unit
Distinct (i ∷ ids) = (mem i ids ≡ false) × Distinct ids

pub lookup-publish_events :
    (send : Send) (now : ℕ) (ids : List ℕ) (rows : Items ℕ OutboxEvent) (k : ℕ)
    → Distinct ids
    → lookup k (publish_events send now ids rows).0
      ≡ (if mem k ids then attempt send now k (lookup k rows) else lookup k rows)
unfolding publish_events
lookup-publish_events send now [] rows k d = refl
lookup-publish_events send now (i ∷ ids) rows k (n, d) = ground (
  arith,
  same_iff i k,
  lookup-publish_event send now i rows k,
  lookup-publish_events send now ids (publish_event send now i rows).0 k d,
)

pub mem-publish_events :
    (send : Send) (now : ℕ) (ids : List ℕ) (rows : Items ℕ OutboxEvent) (k : ℕ)
    → Distinct ids
    → mem k (publish_events send now ids rows).1 ≡ (mem k ids && publishes send k (lookup k rows))
unfolding publish_events
mem-publish_events send now [] rows k d = refl
mem-publish_events send now (i ∷ ids) rows k (n, d) = ground (
  arith,
  same_iff i k,
  lookup-publish_event send now i rows k,
  publish_event-publishes send now i rows,
  mem-publish_events send now ids (publish_event send now i rows).0 k d,
)
