-- ===== src/Persistence/Tables/Queries.antt =====
-- How a write to the table of the runs changes what the queries of packages/persistence give.
use evidenceclass_agent.Base.{
  ℕ, ◌+◌, ◌≤◌, ◌≡◌, refl, Bool, true, false, none, some, [], ◌∷◌, arith, if◌then◌else◌, ◌==◌, ℕ_eq,
  same_iff, inl, inr, Bool-cases, Option-cases,
}
use evidenceclass_agent.Base.Dict.{Items, lookup, insert, lookup-insert}
use evidenceclass_agent.Persistence.Tables.{AgentRun, holds_slot, active_run, count_active, latest}

abbrev pub slots : Bool → ℕ
slots b = if b then 1 else 0

-- a changed row
pub count_active-insert :
    (j i : ℕ) (runs : Items ℕ AgentRun) (old new : AgentRun)
    → lookup i runs ≡ some old
    → count_active j (insert i new runs) + slots (holds_slot j old)
      ≡ count_active j runs + slots (holds_slot j new)
unfolding count_active lookup insert
count_active-insert j i [] old new h = cc
count_active-insert j i ((k, r) ∷ runs) old new h =
    ground (arith, count_active-insert j i runs old new, same_iff k i)

-- a new row
pub count_active-insert_new :
    (j i : ℕ) (runs : Items ℕ AgentRun) (new : AgentRun)
    → lookup i runs ≡ none
    → count_active j (insert i new runs) ≡ count_active j runs + slots (holds_slot j new)
unfolding count_active lookup insert
count_active-insert_new j i [] new h = ground arith
count_active-insert_new j i ((k, r) ∷ runs) new h =
    ground (arith, count_active-insert_new j i runs new, same_iff k i)

-- a row that holds a slot is counted
pub count_active-lookup :
    (j i : ℕ) (runs : Items ℕ AgentRun) (r : AgentRun)
    → lookup i runs ≡ some r
    → slots (holds_slot j r) ≤ count_active j runs
unfolding count_active lookup
count_active-lookup j i [] r h = cc
count_active-lookup j i ((k, s) ∷ runs) r h =
    ground (arith, count_active-lookup j i runs r, same_iff k i)

-- the query finds no row exactly when none is counted
pub active_run-none :
    (j : ℕ) (runs : Items ℕ AgentRun) → active_run j runs ≡ none → count_active j runs ≡ 0
unfolding active_run count_active
active_run-none j [] h = refl
active_run-none j ((k, r) ∷ runs) h = ground (arith, active_run-none j runs)

pub active_run-some :
    (j : ℕ) (runs : Items ℕ AgentRun) (row : ℕ × AgentRun)
    → active_run j runs ≡ some row
    → (holds_slot j row.1 ≡ true) × (1 ≤ count_active j runs)
unfolding active_run count_active
active_run-some j [] row h = cc
active_run-some j ((k, r) ∷ runs) row h = ground (arith, active_run-some j runs row)

-- each identifier has one row: the primary key
abbrev pub IsTable : {A : Type 0} → Items ℕ A → Type 0
IsTable [] = Unit
IsTable ((k, v) ∷ rows) = (lookup k rows ≡ none) × IsTable rows

lookup-insert_other :
    (i k : ℕ) (rows : Items ℕ AgentRun) (v : AgentRun)
    → (k == i) ≡ false
    → lookup k rows ≡ none
    → lookup k (insert i v rows) ≡ none
lookup-insert_other i k rows v n h =
    ground (arith, lookup-insert rows i v k, same_iff i k, same_iff k i)

pub insert-IsTable :
    (i : ℕ) (v : AgentRun) (rows : Items ℕ AgentRun) → IsTable rows → IsTable (insert i v rows)
unfolding insert lookup
insert-IsTable i v [] t = (refl, tt)
insert-IsTable i v ((k, w) ∷ rows) (n, t) = elim (Bool-cases (k == i)) [
  | inl e ↦ rw (e, if◌then◌else◌) (n, t)
  | inr e ↦ rw (e, if◌then◌else◌) (lookup-insert_other i k rows v e n, insert-IsTable i v rows t)
]

-- the rows that the queries find
pub active_run-lookup :
    (j : ℕ) (runs : Items ℕ AgentRun) (i : ℕ) (r : AgentRun)
    → IsTable runs
    → active_run j runs ≡ some (i, r)
    → lookup i runs ≡ some r
unfolding active_run lookup
active_run-lookup j [] i r t h = cc
active_run-lookup j ((k, s) ∷ runs) i r (n, t) h =
    ground (arith, active_run-lookup j runs i r t, same_iff k i)

pub latest-lookup :
    (time : AgentRun → ℕ) (j : ℕ) (runs : Items ℕ AgentRun) (i : ℕ) (r : AgentRun)
    → IsTable runs
    → latest time j runs ≡ some (i, r)
    → (lookup i runs ≡ some r) × (r.job_id ≡ j)
unfolding latest lookup
latest-lookup time j [] i r t h = cc
latest-lookup time j ((k, s) ∷ runs) i r (n, t) h = elim (Option-cases (latest time j runs)) [
  | inl f ↦ ground (arith, same_iff k i, same_iff s.job_id j)
  | inr ((b, x), f) ↦
      ground
        (arith, latest-lookup time j runs b x t, same_iff k i, same_iff k b, same_iff s.job_id j)
]
