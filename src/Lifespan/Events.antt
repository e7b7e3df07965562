-- ===== src/Lifespan/Events.antt =====
-- `apply_job_event` and `apply_run_event` of packages/persistence/jobs.py, where they leave the slots of
-- the jobs as they are, or where one of each ends a run and its job.
use evidenceclass_agent.Base.{
  ℕ, ◌≡◌, refl, ◌⊎◌, true, Option, some, arith, ℕ_eq, same_iff, ◌==◌, inl, inr, Option-cases,
  Bool-cases, if_cases, ap, ◌∙◌, sym, none, false,
}
use evidenceclass_agent.Base.Dict.{Items, lookup, insert, lookup-insert}
use evidenceclass_agent.Base.Outcome.{Outcome-cases}
use evidenceclass_agent.Lifecycle.Decision.{ReviewDecision}
use evidenceclass_agent.Lifecycle.Job.{JobState, JobEvent}
use evidenceclass_agent.Lifecycle.Run.{AgentRunState, AgentRunEvent}
use evidenceclass_agent.Persistence.Tables.{AnalysisJob, AgentRun, Database}
use evidenceclass_agent.Persistence.Tables.Queries.{insert-IsTable, count_active-insert}
use evidenceclass_agent.Persistence.Jobs.{set_job, set_run, move_job, move_run}
use evidenceclass_agent.Persistence.Jobs.Decisions.{
  apply_job_event, apply_run_event, recorded_approval, recorded_decision, moved_run,
}
use evidenceclass_agent.Lifespan.{
  step, settle, is_balanced, is_kept, job_event, run_event, both_events, is_given_back, job_of,
}
use evidenceclass_agent.Lifespan.Invariant.{Inv, DbInv, write-Inv}

module _ {jobs : Items ℕ AnalysisJob} {runs : Items ℕ AgentRun} (v : Inv jobs runs) where
  -- a write of a job that keeps its slot and does not queue it
  job-Inv :
      (j : ℕ) (old job : AnalysisJob)
      → lookup j jobs ≡ some old
      → is_balanced (some old) (some job) ≡ true
      → Inv (insert j job jobs) runs
  job-Inv j old job e b = record {
    table = v.table;
    count = λ k. ground (arith, v.count k, lookup-insert jobs j job k, same_iff j k);
    ready = λ i r h a.
        ground (arith, v.ready i r h a, lookup-insert jobs j job r.job_id, same_iff j r.job_id);
  }

  -- a write of a run that keeps its slot, where its job is not queued
  run-Inv :
      (i : ℕ) (old r : AgentRun) (reviewed : Database)
      → reviewed.jobs ≡ jobs
      → lookup i runs ≡ some old
      → r.job_id ≡ old.job_id
      → is_kept (some old) (some r) reviewed ≡ true
      → Inv jobs (insert i r runs)
  run-Inv i old r db same e o b = record {
    table = insert-IsTable i r runs v.table;
    count = λ k. ground (
      arith,
      v.count k,
      count_active-insert k i runs old r e,
      same_iff r.job_id k,
      same_iff old.job_id k,
    );
    ready = λ k s h a. ground (arith, v.ready k s, lookup-insert runs i r k, same_iff i k, same);
  }

-- an event of a job raises, or writes the state of its row
job_written :
    (db : Database) (w j : ℕ) (event : JobEvent) (decision : Option ReviewDecision)
    → (settle db (apply_job_event w j event decision db) ≡ db)
      ⊎ ((job : AnalysisJob) × (next : JobState) × (lookup j db.jobs ≡ some job)
          × (settle db (apply_job_event w j event decision db)
              ≡ set_job db j (record job { status = next })))
unfolding apply_job_event
job_written db w j event decision = elim (Option-cases (lookup j db.jobs)) [
  | inl e ↦ inl (rw (e, apply_job_event) refl)
  | inr (job, e) ↦ elim (Bool-cases (job.workspace_id == w)) [
    | inr other ↦ inl (rw (e, other, apply_job_event) refl)
    | inl mine ↦
        elim (Outcome-cases (move_job job.status event (recorded_approval db j event decision))) [
          | inr (error, raised) ↦ inl (rw (e, mine, raised, apply_job_event) refl)
          | inl (next, moved) ↦ inr (job, next, e, rw (e, mine, moved, apply_job_event) refl)
        ]
  ]
]

run_written :
    (db : Database) (i now : ℕ) (event : AgentRunEvent) (decision : Option ReviewDecision)
    → (settle db (apply_run_event i now event decision db) ≡ db)
      ⊎ ((run : AgentRun) × (next : AgentRunState) × (lookup i db.runs ≡ some run)
          × (settle db (apply_run_event i now event decision db)
              ≡ set_run db i (moved_run run next now)))
unfolding apply_run_event
run_written db i now event decision = elim (Option-cases (lookup i db.runs)) [
  | inl e ↦ inl (rw (e, apply_run_event) refl)
  | inr (run, e) ↦
      elim (Outcome-cases
        (move_run run.status event (recorded_decision db run.job_id event decision))) [
          | inr (error, raised) ↦ inl (rw (e, raised, apply_run_event) refl)
          | inl (next, moved) ↦ inr (run, next, e, rw (e, moved, apply_run_event) refl)
        ]
]

lookup_written :
    {A : Type 0} (k : ℕ) (row : A) (rows : Items ℕ A) → lookup k (insert k row rows) ≡ some row
lookup_written k row rows = ground (arith, lookup-insert rows k row k, same_iff k k)

pub job_event-Inv :
    (db : Database) (w j : ℕ) (event : JobEvent) (decision : Option ReviewDecision)
    → DbInv db
    → DbInv (step db (job_event w j event decision))
unfolding step
job_event-Inv db w j event decision v = elim (job_written db w j event decision) [
  | inl e ↦
      rw e
        (if_cases DbInv (is_balanced (lookup j db.jobs) (lookup j db.jobs)) _ _ (λ t. v) (λ f. v))
  | inr (job, next, known, e) ↦
      let row = record job { status = next } in
      rw e (
        if_cases DbInv (is_balanced (lookup j db.jobs) (lookup j (insert j row db.jobs))) _ _
          (λ t. job-Inv v j job row known (rw (known, lookup_written j row db.jobs) at t)) (λ f. v))
]

pub run_event-Inv :
    (db : Database) (i now : ℕ) (event : AgentRunEvent) (decision : Option ReviewDecision)
    → DbInv db
    → DbInv (step db (run_event i now event decision))
unfolding step
run_event-Inv db i now event decision v = elim (run_written db i now event decision) [
  | inl e ↦
      rw e (if_cases DbInv (is_kept (lookup i db.runs) (lookup i db.runs) db) _ _ (λ t. v) (λ f. v))
  | inr (run, next, known, e) ↦
      let row = moved_run run next now in
      rw e (
        if_cases DbInv (is_kept (lookup i db.runs) (lookup i (insert i row db.runs)) db) _ _
          (λ t.
            run-Inv v i run row db refl known refl (rw (known, lookup_written i row db.runs) at t))
          (λ f. v))
]

-- two events that end a run and its job
ended-Inv :
    (db : Database) (i : ℕ) (run row : AgentRun) (job last : AnalysisJob)
    → DbInv db
    → lookup i db.runs ≡ some run
    → row.job_id ≡ run.job_id
    → lookup run.job_id db.jobs ≡ some job
    → is_given_back (some run) (some row) (some job) (some last) ≡ true
    → DbInv (set_job (set_run db i row) run.job_id last)
ended-Inv db i run row job last v known same found back =
    write-Inv v run.job_id i last row same (rw known refl)
      (rw known (ground (arith, v.count run.job_id))) (λ q. absurd (ground arith))

job_kept :
    (before closed : Option AgentRun) (job : Option AnalysisJob)
    → is_given_back before closed job job ≡ false
job_kept before closed job = ground arith

run_kept :
    (run : Option AgentRun) (before ended : Option AnalysisJob)
    → is_given_back run run before ended ≡ false
run_kept run before ended = ground arith

-- a step that writes both rows, or that the guard stops
written_both-Inv :
    (db : Database) (i j : ℕ) (run row : AgentRun) (moved next : Database) (w : ℕ)
    (ending : JobEvent)
    → DbInv db
    → lookup i db.runs ≡ some run
    → row.job_id ≡ run.job_id
    → moved ≡ set_run db i row
    → j ≡ run.job_id
    → next ≡ settle moved (apply_job_event w j ending none moved)
    → is_given_back (lookup i db.runs) (lookup i next.runs) (lookup j db.jobs) (lookup j next.jobs)
      ≡ true
    → DbInv next
written_both-Inv db i j run row moved next w ending v known same e o n back =
    elim (job_written moved w j ending none) [
      | inl unchanged ↦
          let whole : next ≡ set_run db i row = n ∙ unchanged ∙ e in
          absurd (ground (arith, job_kept _ _ _, rw whole at back))
      | inr (job, ended, found, written) ↦
          let last = record job { status = ended } in
          let kept : lookup j db.jobs ≡ some job = ap (λ d. lookup j d.jobs) (sym e) ∙ found in
          let whole : next ≡ set_job (set_run db i row) j last =
            n ∙ written ∙ ap (λ d. set_job d j last) e in
          let given : is_given_back (some run) (some row) (some job) (some last) ≡ true =
            rw (whole, known, kept, lookup_written i row db.runs, lookup_written j last db.jobs) at
              back in
          rw (whole, o) (ended-Inv db i run row job last v known same (rw o at kept) given)
    ]

both_events_inv :
    (db : Database) (i now : ℕ) (event : AgentRunEvent) (w : ℕ) (ending : JobEvent) (j : ℕ)
    (moved next : Database)
    → DbInv db
    → j ≡ job_of (lookup i db.runs)
    → moved ≡ settle db (apply_run_event i now event none db)
    → next ≡ settle moved (apply_job_event w j ending none moved)
    → is_given_back (lookup i db.runs) (lookup i next.runs) (lookup j db.jobs) (lookup j next.jobs)
      ≡ true
    → DbInv next
both_events_inv db i now event w ending j moved next v o m n back =
    elim (run_written db i now event none) [
      | inl unchanged ↦ elim (job_written moved w j ending none) [
        | inl stays ↦ rw (n ∙ stays ∙ m ∙ unchanged) v
        | inr (job, ended, found, written) ↦
            let whole : next ≡ set_job db j (record job { status = ended }) =
              n ∙ written ∙ ap (λ d. set_job d j (record job { status = ended })) (m ∙ unchanged) in
            absurd (ground (arith, run_kept _ _ _, rw whole at back))
      ]
      | inr (run, status, known, written) ↦
          written_both-Inv db i j run (moved_run run status now) moved next w ending v known refl
            (m ∙ written) (o ∙ ap job_of known) n back
    ]

pub both_events-Inv :
    (db : Database) (i now : ℕ) (event : AgentRunEvent) (w : ℕ) (ending : JobEvent)
    → DbInv db
    → DbInv (step db (both_events i now event w ending))
unfolding step
both_events-Inv db i now event w ending v =
    let j = job_of (lookup i db.runs) in
    let moved = settle db (apply_run_event i now event none db) in
    let next = settle moved (apply_job_event w j ending none moved) in
    if_cases DbInv
      (is_given_back (lookup i db.runs) (lookup i next.runs) (lookup j db.jobs)
        (lookup j next.jobs))
      _ _ (λ back. both_events_inv db i now event w ending j moved next v refl refl refl back)
      (λ kept. v)
