-- ===== src/Persistence/Events/Replay.antt =====
-- A client that reads the events of packages/persistence/events.py page by page.
use evidenceclass_agent.Base.{
  ℕ, zero, suc, ◌+◌, ◌≤◌, ◌<◌, ◌≡◌, refl, ◌∙◌, ap, min, max, ◌&&◌, List, [], ◌∷◌, ◌++◌, arith, ltb,
  take, drop, length, if◌then◌else◌, ◌==◌, ℕ_eq, take-append-drop, length-drop, length-append_one,
  if_cases,
}
use evidenceclass_agent.Persistence.Events.{
  JobEventRecord, EventTable, NewEvent, append, matching, list_after, row_of,
}

-- the identifiers go up, from behind a number
abbrev pub Ascends : ℕ → List JobEventRecord → Type 0
Ascends n [] = Unit
Ascends n (row ∷ rows) = (n < row.event_id) × Ascends row.event_id rows

-- the rows behind an identifier
unfoldable pub beyond : ℕ → List JobEventRecord → List JobEventRecord
beyond last [] = []
beyond last (row ∷ rows) =
    let rest = beyond last rows in if ltb last row.event_id then row ∷ rest else rest

-- the identifier of the last row of a page
unfoldable pub last_id : ℕ → List JobEventRecord → ℕ
last_id last [] = last
last_id last (row ∷ rows) = last_id row.event_id rows

Ascends-weaken : (n m : ℕ) (rows : List JobEventRecord) → n ≤ m → Ascends m rows → Ascends n rows
Ascends-weaken n m [] h a = tt
Ascends-weaken n m (row ∷ rows) h (l, a) = (omega (arith, h, l), a)

beyond-Ascends :
    (last n : ℕ) (rows : List JobEventRecord) → last ≤ n → Ascends n rows → beyond last rows ≡ rows
unfolding beyond
beyond-Ascends last n [] h a = refl
beyond-Ascends last n (row ∷ rows) h (l, a) =
    ground (arith, beyond-Ascends last row.event_id rows (omega (arith, h, l)) a)

matching-Ascends :
    (job last n : ℕ) (rows : List JobEventRecord)
    → Ascends n rows
    → Ascends n (matching job last rows)
unfolding matching
matching-Ascends job last n [] a = tt
matching-Ascends job last n (row ∷ rows) (l, a) =
    let rest = matching-Ascends job last row.event_id rows a in
    if_cases (Ascends n) (row.job_id == job && ltb last row.event_id) _ _ (λ h. (l, rest))
      (λ h. Ascends-weaken n row.event_id _ (omega (arith, l)) rest)

pub matching_behind :
    (job last n : ℕ) (rows : List JobEventRecord)
    → Ascends n rows
    → Ascends last (matching job last rows)
unfolding matching
matching_behind job last n [] a = tt
matching_behind job last n (row ∷ rows) (l, a) =
    if_cases (Ascends last) (row.job_id == job && ltb last row.event_id) _ _
      (λ h. (ground arith, matching-Ascends job last row.event_id rows a))
      (λ h. matching_behind job last row.event_id rows a)

pub matching-beyond :
    (job last next : ℕ) (rows : List JobEventRecord)
    → last ≤ next
    → matching job next rows ≡ beyond next (matching job last rows)
unfolding matching beyond
matching-beyond job last next [] h = refl
matching-beyond job last next (row ∷ rows) h = ground (arith, matching-beyond job last next rows h)

pub last_id_bound :
    (n k : ℕ) (rows : List JobEventRecord) → Ascends n rows → n ≤ last_id n (take k rows)
unfolding last_id
last_id_bound n zero rows a = omega arith
last_id_bound n (suc k) [] a = omega arith
last_id_bound n (suc k) (row ∷ rows) (l, a) = omega (arith, l, last_id_bound row.event_id k rows a)

-- what is behind a page of ascending rows is the rest of them
pub beyond_page :
    (last k : ℕ) (rows : List JobEventRecord)
    → Ascends last rows
    → beyond (last_id last (take k rows)) rows ≡ drop k rows
unfolding beyond last_id
beyond_page last zero rows a = beyond-Ascends last last rows (omega arith) a
beyond_page last (suc k) [] a = refl
beyond_page last (suc k) (row ∷ rows) (l, a) =
    ground (arith, beyond_page row.event_id k rows a, last_id_bound row.event_id k rows a)

-- the client asks again from the last identifier that it has got
unfoldable pub replay :
    (job_id limit : ℕ) → EventTable → (polls last_event_id : ℕ) → List JobEventRecord
replay job limit t zero last = []
replay job limit t (suc n) last =
    let page = list_after job last limit t in page ++ replay job limit t n (last_id last page)

unfoldable pub after : EventTable → List NewEvent → EventTable
after t [] = t
after t (e ∷ events) = after (append t e) events

abbrev pub no_events : EventTable
no_events = record { rows = []; next_id = 1 }

-- rows up to the next identifier
abbrev pub IsLog : EventTable → Type 0
IsLog t = Ascends 0 t.rows × (last_id 0 t.rows < t.next_id)

pub append-Ascends :
    (n next : ℕ) (rows : List JobEventRecord) (e : NewEvent)
    → Ascends n rows
    → last_id n rows < next
    → Ascends n (rows ++ row_of next e ∷ []) × (last_id n (rows ++ row_of next e ∷ []) ≡ next)
unfolding last_id
append-Ascends n next [] e a l = ((l, tt), refl)
append-Ascends n next (row ∷ rows) e (m, a) l =
    let (b, q) = append-Ascends row.event_id next rows e a l in ((m, b), q)

pub after-IsLog : (t : EventTable) (events : List NewEvent) → IsLog t → IsLog (after t events)
unfolding after append
after-IsLog t [] v = v
after-IsLog t (e ∷ events) (a, l) =
    let (b, q) = append-Ascends 0 t.next_id t.rows e a l in
    after-IsLog (append t e) events (b, omega (arith, q))

replay-Ascends :
    (job limit : ℕ) (t : EventTable) (n last : ℕ)
    → Ascends 0 t.rows
    → length (matching job last t.rows) ≤ n
    → replay job limit t n last ≡ matching job last t.rows
unfolding replay list_after
replay-Ascends job limit t zero last a h = no_rows (matching job last t.rows) h
  where
    no_rows : (rows : List JobEventRecord) → length rows ≤ 0 → [] ≡ rows
    no_rows [] h = refl
    no_rows (row ∷ rows) h = absurd (omega (arith, h))
replay-Ascends job limit t (suc n) last a h =
    let size = max 1 (min limit 500) in
    let rows = matching job last t.rows in
    let next = last_id last (take size rows) in
    let up = matching_behind job last 0 t.rows a in
    let rest =
      matching-beyond job last next t.rows (last_id_bound last size rows up)
      ∙ beyond_page last size rows up in
    let fewer : length (matching job next t.rows) ≤ n =
      rw rest (omega (arith, h, length-drop size rows)) in
    ap (λ x. take size rows ++ x) (replay-Ascends job limit t n next a fewer ∙ rest)
    ∙ take-append-drop size rows

length-matching :
    (job last : ℕ) (rows : List JobEventRecord) → length (matching job last rows) ≤ length rows
unfolding matching
length-matching job last [] = omega arith
length-matching job last (row ∷ rows) = ground (arith, length-matching job last rows)

length-after :
    (t : EventTable) (events : List NewEvent)
    → length (after t events).rows ≡ length t.rows + length events
unfolding after append
length-after t [] = omega arith
length-after t (e ∷ events) =
    omega (arith, length-after (append t e) events, length-append_one t.rows (row_of t.next_id e))

-- Behind any number of `append`s on an empty table, a client that calls `list_after` as often as there
-- are events, each time from the identifier of the last row that it has got, gets with every limit all
-- rows of the job behind the identifier that it began with, each once and in their order.
pub replay_complete :
    (events : List NewEvent) (job_id limit polls last_event_id : ℕ)
    → length events ≤ polls
    → replay job_id limit (after no_events events) polls last_event_id
      ≡ matching job_id last_event_id (after no_events events).rows
unfolding last_id
replay_complete events job limit polls last h =
    let t = after no_events events in
    replay-Ascends job limit t polls last (after-IsLog no_events events (tt, omega arith)).0
      (omega (arith, h, length-matching job last t.rows, length-after no_events events))
