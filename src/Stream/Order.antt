-- ===== src/Stream/Order.antt =====
-- The order in which apps/api/sse.py sends the events of a job.
use mathlib.Core.Path.{subst}
use evidenceclass_agent.Base.{
  ℕ, ◌+◌, ◌≤◌, ◌<◌, max, ◌≡◌, refl, sym, ap, ◌∙◌, ◌⊎◌, inl, inr, Bool, false, ◌&&◌, List, [], ◌∷◌,
  ◌++◌, arith, if◌then◌else◌, if_intro, Bool-cases, ltb, ◌==◌, ℕ_eq, drop, take-append-drop,
}
use mathlib.Core.List.{append_assoc, append-nil}
use evidenceclass_agent.Persistence.Events.{
  JobEventRecord, EventTable, NewEvent, append, row_of, matching, list_after,
}
use evidenceclass_agent.Persistence.Events.Replay.{
  Ascends, last_id, IsLog, matching_behind, matching-beyond, beyond_page, beyond, append-Ascends,
}
use evidenceclass_agent.Stream.{
  Frame, event, heartbeat, Stream, page, send, close_behind, replay_rows, send_rows, Moment,
  appended, disconnected, quiet, woken, turn, table_after, follow,
}

-- the rows among the frames
unfoldable pub events_of : List Frame → List JobEventRecord
events_of [] = []
events_of (event row ∷ frames) = row ∷ events_of frames
events_of (heartbeat ∷ frames) = events_of frames

events_of-append : (xs ys : List Frame) → events_of (xs ++ ys) ≡ events_of xs ++ events_of ys
unfolding events_of
events_of-append [] ys = refl
events_of-append (event row ∷ xs) ys = ap (λ zs. row ∷ zs) (events_of-append xs ys)
events_of-append (heartbeat ∷ xs) ys = events_of-append xs ys

last_id-le : (n : ℕ) (rows : List JobEventRecord) → Ascends n rows → n ≤ last_id n rows
unfolding last_id
last_id-le n [] a = omega arith
last_id-le n (row ∷ rows) (l, a) = omega (arith, last_id-le row.event_id rows a)

-- a matching row is one of the log
matching-le :
    (job last n : ℕ) (rows left : List JobEventRecord) (row : JobEventRecord)
    → Ascends n rows
    → matching job last rows ≡ row ∷ left
    → row.event_id ≤ last_id n rows
unfolding matching last_id
matching-le job last n [] left row a e = absurd (ground arith)
matching-le job last n (r ∷ rows) left row (l, a) e =
    ground (arith, matching-le job last r.event_id rows left row a, last_id-le r.event_id rows a)

matching-append :
    (job last : ℕ) (rows : List JobEventRecord) (row : JobEventRecord)
    → matching job last (rows ++ row ∷ []) ≡ matching job last rows ++ matching job last (row ∷ [])
unfolding matching
matching-append job last [] row = refl
matching-append job last (r ∷ rows) row =
    elim (Bool-cases (r.job_id == job && ltb last r.event_id)) [
      | inl h ↦ rw (h, if◌then◌else◌) (ap (λ xs. r ∷ xs) (matching-append job last rows row))
      | inr h ↦ rw (h, if◌then◌else◌) (matching-append job last rows row)
    ]

module _ (job last : ℕ) where
  -- a new row is behind both cursors
  new_row :
      {cursor : ℕ} (row : JobEventRecord)
      → last < cursor
      → cursor < row.event_id
      → matching job cursor (row ∷ []) ≡ matching job last (row ∷ [])
  unfolding matching
  new_row row more less = ground arith

  -- What is sent, and what of the log is behind the cursor, is together what the client has asked for.
  pub record IsInOrder (table : EventTable) (s : Stream) : Type 0 where
    pub log : IsLog table
    pub order : events_of s.sent ++ matching job s.last_id table.rows ≡ matching job last table.rows
    pub from :
        ((s.last_id ≡ last) × (events_of s.sent ≡ []))
        ⊎ ((last < s.last_id) × (s.last_id < table.next_id))

  append-IsInOrder :
      (table : EventTable) (s : Stream) (e : NewEvent)
      → IsInOrder table s
      → IsInOrder (append table e) s
  unfolding append
  append-IsInOrder table s e i =
      let row = row_of table.next_id e in
      let (a, l) = append-Ascends 0 table.next_id table.rows e i.log.0 i.log.1 in
      record {
        log = (a, omega (arith, l));
        order = elim i.from [
          | inl (same, none_sent) ↦ rw (none_sent, same) refl
          | inr (more, less) ↦
              let new : matching job s.last_id (row ∷ []) ≡ matching job last (row ∷ []) =
                new_row row more less in
              ap (λ xs. events_of s.sent ++ xs) (matching-append job s.last_id table.rows row)
              ∙ sym (append_assoc (events_of s.sent) _ _)
              ∙ ap (λ xs. xs ++ matching job s.last_id (row ∷ [])) i.order
              ∙ ap (λ xs. matching job last table.rows ++ xs) new
              ∙ sym (matching-append job last table.rows row)
        ];
        from = elim i.from [ inl first ↦ inl first | inr (more, less) ↦ inr (more, omega arith) ];
      }

  send-IsInOrder :
      (table : EventTable) (s : Stream) (row : JobEventRecord) (left : List JobEventRecord)
      → matching job s.last_id table.rows ≡ row ∷ left
      → IsInOrder table s
      → IsInOrder table (send row s) × (matching job (send row s).last_id table.rows ≡ left)
  unfolding events_of last_id
  send-IsInOrder table s row left e i =
      let up : Ascends s.last_id (row ∷ left) =
        subst (Ascends s.last_id) e (matching_behind job s.last_id 0 table.rows i.log.0) in
      let below = matching-le job s.last_id 0 table.rows left row i.log.0 e in
      let cursor : max s.last_id row.event_id ≡ row.event_id = omega (arith, up.0) in
      let rest : matching job row.event_id table.rows ≡ left =
        matching-beyond job s.last_id row.event_id table.rows (omega (arith, up.0))
        ∙ ap (beyond row.event_id) e
        ∙ beyond_page s.last_id 1 (row ∷ left) up in
      let sent : events_of (s.sent ++ event row ∷ []) ≡ events_of s.sent ++ row ∷ [] =
        events_of-append s.sent (event row ∷ []) in
      let moved : matching job (max s.last_id row.event_id) table.rows ≡ left = rw cursor rest in
      (
        record {
          log = i.log;
          order =
              rw (sent, moved)
                (append_assoc (events_of s.sent) (row ∷ []) left
                  ∙ ap (λ xs. events_of s.sent ++ xs) (sym e)
                  ∙ i.order);
          from = inr (elim i.from [
            | inl first ↦ (omega (arith, up.0, first.0), omega (arith, below, i.log.1))
            | inr further ↦
                (omega (arith, up.0, further.0), omega (arith, below, i.log.1, further.1))
          ]);
        },
        moved,
      )

  pub send_rows-IsInOrder :
      (table : EventTable) (rows left : List JobEventRecord) (s : Stream)
      → matching job s.last_id table.rows ≡ rows ++ left
      → IsInOrder table s
      → IsInOrder table (send_rows rows s)
        × (matching job (send_rows rows s).last_id table.rows ≡ left)
  unfolding send_rows
  send_rows-IsInOrder table [] left s e i = (i, e)
  send_rows-IsInOrder table (row ∷ rows) left s e i =
      let (j, moved) = send-IsInOrder table s row (rows ++ left) e i in
      send_rows-IsInOrder table rows left (send row s) moved j

  -- whether a stream has returned is no matter of order
  pub IsInOrder-any :
      (table : EventTable) (s : Stream) (b : Bool)
      → IsInOrder table s
      → IsInOrder table (record s { is_open = b })
  IsInOrder-any table s b i = record { log = i.log; order = i.order; from = i.from }

  pub replay_rows-IsInOrder :
      (connected : ℕ → Bool) (n : ℕ) (table : EventTable) (rows left : List JobEventRecord)
      (s : Stream)
      → matching job s.last_id table.rows ≡ rows ++ left
      → IsInOrder table s
      → IsInOrder table (replay_rows connected n rows s)
  unfolding replay_rows
  replay_rows-IsInOrder connected n table [] left s e i = i
  replay_rows-IsInOrder connected n table (row ∷ rows) left s e i =
      let (j, moved) = send-IsInOrder table s row (rows ++ left) e i in
      if_intro (IsInOrder table) (connected n) _ _
        (replay_rows-IsInOrder connected (n + 1) table rows left (send row s) moved j)
        (IsInOrder-any table s false i)

  pub page_first :
      (cursor : ℕ) (table : EventTable)
      → matching job cursor table.rows
        ≡ page job cursor table ++ drop 100 (matching job cursor table.rows)
  unfolding list_after
  page_first cursor table = sym (take-append-drop 100 (matching job cursor table.rows))

  turn-IsInOrder :
      (moment : Moment) (table : EventTable) (s : Stream)
      → IsInOrder table s
      → IsInOrder (table_after moment table) (turn job moment table s)
  unfolding turn table_after close_behind events_of
  turn-IsInOrder (appended e) table s i = append-IsInOrder table s e i
  turn-IsInOrder disconnected table s i = IsInOrder-any table s false i
  turn-IsInOrder quiet table s i =
      let none : events_of (s.sent ++ heartbeat ∷ []) ≡ events_of s.sent =
        events_of-append s.sent (heartbeat ∷ []) ∙ append-nil (events_of s.sent) in
      record {
        log = i.log;
        order = rw none i.order;
        from = elim i.from [
          | inl first ↦ inl (first.0, none ∙ first.1)
          | inr further ↦ inr further
        ];
      }
  turn-IsInOrder woken table s i =
      IsInOrder-any table _ _
        (send_rows-IsInOrder table (page job s.last_id table) _ s (page_first s.last_id table) i).0

  idle-IsInOrder :
      (moment : Moment) (table : EventTable) (s : Stream)
      → IsInOrder table s
      → IsInOrder (table_after moment table) s
  unfolding table_after
  idle-IsInOrder (appended e) table s i = append-IsInOrder table s e i
  idle-IsInOrder disconnected table s i = i
  idle-IsInOrder quiet table s i = i
  idle-IsInOrder woken table s i = i

  pub follow-IsInOrder :
      (moments : List Moment) (table : EventTable) (s : Stream)
      → IsInOrder table s
      → IsInOrder (follow job moments (table, s)).0 (follow job moments (table, s)).1
  unfolding follow
  follow-IsInOrder [] table s i = i
  follow-IsInOrder (moment ∷ moments) table s i =
      follow-IsInOrder moments (table_after moment table) _ (
        if_intro (IsInOrder (table_after moment table)) s.is_open _ _
          (turn-IsInOrder moment table s i) (idle-IsInOrder moment table s i))
