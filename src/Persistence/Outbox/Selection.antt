-- ===== src/Persistence/Outbox/Selection.antt =====
-- The rows that `publish_pending` of packages/persistence/outbox.py selects, and what it makes of them.
use evidenceclass_agent.Base.{
  ℕ, zero, suc, ◌≡◌, refl, ◌∙◌, Bool, true, false, Option, none, some, [], ◌∷◌, arith, leb, take,
  map, if◌then◌else◌, ◌==◌, ℕ_eq, same_iff, min, max, Option-cases, inl, inr, Bool-cases,
}
use evidenceclass_agent.Base.Dict.{Items, lookup}
use evidenceclass_agent.Persistence.Tables.{OutboxEvent}
use evidenceclass_agent.Persistence.Tables.Queries.{IsTable}
use evidenceclass_agent.Persistence.Outbox.{
  is_pending, pending_rows, place, by_time, selected, Send, publish_pending,
}
use evidenceclass_agent.Persistence.Outbox.Delivery.{
  mem, Distinct, settled, lookup-publish_events, mem-publish_events,
}

abbrev pending_part : Option OutboxEvent → Option OutboxEvent
pending_part none = none
pending_part (some event) = if is_pending event.status then some event else none

lookup-pending_rows :
    (rows : Items ℕ OutboxEvent) (k : ℕ)
    → IsTable rows
    → lookup k (pending_rows rows) ≡ pending_part (lookup k rows)
unfolding pending_rows lookup
lookup-pending_rows [] k t = refl
lookup-pending_rows ((i, e) ∷ rows) k (n, t) =
    ground (arith, lookup-pending_rows rows k t, same_iff i k)

pending_rows-IsTable : (rows : Items ℕ OutboxEvent) → IsTable rows → IsTable (pending_rows rows)
unfolding pending_rows
pending_rows-IsTable [] t = tt
pending_rows-IsTable ((i, e) ∷ rows) (n, t) = elim (Bool-cases (is_pending e.status)) [
  | inl a ↦
      rw (a, if◌then◌else◌)
        (ground (arith, lookup-pending_rows rows i t), pending_rows-IsTable rows t)
  | inr a ↦ rw (a, if◌then◌else◌) (pending_rows-IsTable rows t)
]

lookup-place :
    (row : ℕ × OutboxEvent) (rows : Items ℕ OutboxEvent) (k : ℕ)
    → lookup row.0 rows ≡ none
    → lookup k (place row rows) ≡ (if row.0 == k then some row.1 else lookup k rows)
unfolding place lookup
lookup-place row [] k n = refl
lookup-place row ((i, e) ∷ rows) k n =
    ground (arith, lookup-place row rows k, same_iff row.0 k, same_iff i k, same_iff i row.0)

place-IsTable :
    (row : ℕ × OutboxEvent) (rows : Items ℕ OutboxEvent)
    → lookup row.0 rows ≡ none
    → IsTable rows
    → IsTable (place row rows)
unfolding place lookup
place-IsTable row [] n t = (refl, tt)
place-IsTable row ((i, e) ∷ rows) n (m, t) = elim (Bool-cases (leb row.1.created_at e.created_at)) [
  | inl a ↦ rw (a, if◌then◌else◌) (n, (m, t))
  | inr a ↦
      rw (a, if◌then◌else◌)
        (
          ground (arith, lookup-place row rows i, same_iff row.0 i, same_iff i row.0),
          place-IsTable row rows (ground (arith, same_iff i row.0)) t,
        )
]

lookup-by_time :
    (rows : Items ℕ OutboxEvent) (k : ℕ) → IsTable rows → lookup k (by_time rows) ≡ lookup k rows
unfolding by_time lookup
lookup-by_time [] k t = refl
lookup-by_time ((i, e) ∷ rows) k (n, t) =
    ground (
      arith,
      lookup-by_time rows k t,
      lookup-by_time rows i t,
      lookup-place (i, e) (by_time rows) k,
    )

by_time-IsTable : (rows : Items ℕ OutboxEvent) → IsTable rows → IsTable (by_time rows)
unfolding by_time
by_time-IsTable [] t = tt
by_time-IsTable ((i, e) ∷ rows) (n, t) =
    place-IsTable (i, e) (by_time rows) (lookup-by_time rows i t ∙ n) (by_time-IsTable rows t)

-- a prefix of a table
lookup-take :
    (n : ℕ) (rows : Items ℕ OutboxEvent) (k : ℕ) (e : OutboxEvent)
    → lookup k (take n rows) ≡ some e
    → lookup k rows ≡ some e
unfolding lookup
lookup-take zero rows k e h = cc
lookup-take (suc n) [] k e h = cc
lookup-take (suc n) ((i, f) ∷ rows) k e h = ground (arith, lookup-take n rows k e)

lookup-take-none :
    (n : ℕ) (rows : Items ℕ OutboxEvent) (k : ℕ)
    → lookup k rows ≡ none
    → lookup k (take n rows) ≡ none
unfolding lookup
lookup-take-none zero rows k h = refl
lookup-take-none (suc n) [] k h = refl
lookup-take-none (suc n) ((i, f) ∷ rows) k h = ground (arith, lookup-take-none n rows k)

take-IsTable : (n : ℕ) (rows : Items ℕ OutboxEvent) → IsTable rows → IsTable (take n rows)
take-IsTable zero rows t = tt
take-IsTable (suc n) [] t = tt
take-IsTable (suc n) ((i, f) ∷ rows) (m, t) = (lookup-take-none n rows i m, take-IsTable n rows t)

abbrev found : {A : Type 0} → Option A → Bool
found none = false
found (some a) = true

mem-ids :
    (rows : Items ℕ OutboxEvent) (k : ℕ) → mem k (map (λ row. row.0) rows) ≡ found (lookup k rows)
unfolding lookup
mem-ids [] k = refl
mem-ids ((i, e) ∷ rows) k = ground (arith, mem-ids rows k)

ids-Distinct : (rows : Items ℕ OutboxEvent) → IsTable rows → Distinct (map (λ row. row.0) rows)
ids-Distinct [] t = tt
ids-Distinct ((i, e) ∷ rows) (n, t) = (ground (arith, mem-ids rows i), ids-Distinct rows t)

module _ (limit : ℕ) (rows : Items ℕ OutboxEvent) (t : IsTable rows) where
  selected-IsTable : IsTable (selected limit rows)
  selected-IsTable =
      take-IsTable (max 1 (min limit 500)) (by_time (pending_rows rows))
        (by_time-IsTable (pending_rows rows) (pending_rows-IsTable rows t))

  -- a selected row is a pending row of the table
  selected-lookup :
      (k : ℕ) (e : OutboxEvent)
      → lookup k (selected limit rows) ≡ some e
      → (lookup k rows ≡ some e) × (is_pending e.status ≡ true)
  selected-lookup k e h = ground (
    arith,
    lookup-take (max 1 (min limit 500)) (by_time (pending_rows rows)) k e h,
    lookup-by_time (pending_rows rows) k (pending_rows-IsTable rows t),
    lookup-pending_rows rows k t,
  )

-- `publish_pending` on a table whose rows have distinct identifiers, for every sender: an event that the
-- first query selects is published with the time when its send succeeds, and is pending again with the
-- clipped text of the exception when it fails, one attempt more either way; every other event is as it
-- was. The answer lists exactly the events whose send succeeded.
pub publish_each :
    (send : Send) (now limit : ℕ) (rows : Items ℕ OutboxEvent) (event_id : ℕ)
    → IsTable rows
    → (lookup event_id (publish_pending send now limit rows).0
        ≡ elim (lookup event_id (selected limit rows)) [
          | none ↦ lookup event_id rows
          | some event ↦ some (settled send now event_id event)
        ])
      × (mem event_id (publish_pending send now limit rows).1
          ≡ elim (lookup event_id (selected limit rows)) [
            | none ↦ false
            | some event ↦ elim (send event_id event.topic event.aggregate_id) [
              | none ↦ true
              | some text ↦ false
            ]
          ])
unfolding publish_pending
publish_each send now limit rows k t =
    let chosen = selected limit rows in
    let d = ids-Distinct chosen (selected-IsTable limit rows t) in
    let row = lookup-publish_events send now (map (λ row. row.0) chosen) rows k d in
    let listed = mem-publish_events send now (map (λ row. row.0) chosen) rows k d in
    elim (Option-cases (lookup k chosen)) [
      | inl e ↦ (rw (row, mem-ids chosen k, e) refl, rw (listed, mem-ids chosen k, e) refl)
      | inr (event, e) ↦
          let (known, p) = selected-lookup limit rows t k event e in
          (
            rw (row, mem-ids chosen k, e, known, p) refl,
            rw (listed, mem-ids chosen k, e, known, p) refl,
          )
    ]
