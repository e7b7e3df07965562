-- ===== src/Lifespan/Invariant.antt =====
-- What ties the jobs to the runs of packages/persistence, and the writes that keep it.
use evidenceclass_agent.Base.{
  ℕ, ◌+◌, ◌≡◌, Bool, true, false, Option, none, some, arith, ℕ_eq, same_iff, inl, inr, Option-cases,
}
use evidenceclass_agent.Base.Dict.{Items, lookup, insert, lookup-insert}
use evidenceclass_agent.Lifecycle.Job.{JobState, queued, running}
use evidenceclass_agent.Lifecycle.Run.{AgentRunState, initializing}
use evidenceclass_agent.Persistence.Tables.{AnalysisJob, AgentRun, Database, count_active}
use evidenceclass_agent.Persistence.Tables.Queries.{
  slots, IsTable, insert-IsTable, count_active-insert, count_active-insert_new, count_active-lookup,
}

abbrev pub is_queued : JobState → Bool
is_queued queued = true
is_queued _ = false

-- the slots that the runs of a job hold together
abbrev pub slots_of : Option AnalysisJob → ℕ
slots_of none = 0
slots_of (some job) = elim job.status [ queued ↦ 1 | running ↦ 1 | _ ↦ 0 ]

-- an active run of a queued job can be claimed
abbrev pub Ready : Option AnalysisJob → AgentRunState → Type 0
Ready none status = Unit
Ready (some job) status = is_queued job.status ≡ true → status ≡ initializing

pub record Inv (jobs : Items ℕ AnalysisJob) (runs : Items ℕ AgentRun) : Type 0 where
  pub table : IsTable runs
  pub count : (j : ℕ) → count_active j runs ≡ slots_of (lookup j jobs)
  pub ready :
      (i : ℕ) (r : AgentRun)
      → lookup i runs ≡ some r
      → r.active ≡ true
      → Ready (lookup r.job_id jobs) r.status

abbrev pub DbInv : Database → Type 0
DbInv db = Inv db.jobs db.runs

abbrev pub IsOf : ℕ → Option AgentRun → Type 0
IsOf j none = Unit
IsOf j (some r) = r.job_id ≡ j

abbrev pub held : Option AgentRun → ℕ
held none = 0
held (some r) = slots r.active

module _ {jobs : Items ℕ AnalysisJob} {runs : Items ℕ AgentRun} (v : Inv jobs runs) where
  -- a write of a job and of one of its runs
  module _ (j i : ℕ) (job : AnalysisJob) (r : AgentRun) (of_job : r.job_id ≡ j)
      (old : IsOf j (lookup i runs))
      (balance : count_active j runs + slots r.active ≡ slots_of (some job) + held (lookup i runs))
      (starts : is_queued job.status ≡ true
        → (count_active j runs ≡ 0) × (r.active ≡ true → r.status ≡ initializing)) where
    write-count :
        (k : ℕ) → count_active k (insert i r runs) ≡ slots_of (lookup k (insert j job jobs))
    write-count k = elim (Option-cases (lookup i runs)) [
      | inl e ↦ ground (
        arith,
        v.count k,
        count_active-insert_new k i runs r e,
        lookup-insert jobs j job k,
        same_iff j k,
        same_iff r.job_id k,
        same_iff r.job_id j,
      )
      | inr (o, e) ↦ ground (
        arith,
        v.count k,
        count_active-insert k i runs o r e,
        lookup-insert jobs j job k,
        same_iff j k,
        same_iff r.job_id k,
        same_iff o.job_id k,
      )
    ]

    write-Ready :
        (k : ℕ) (s : AgentRun)
        → lookup k (insert i r runs) ≡ some s
        → s.active ≡ true
        → Ready (lookup s.job_id (insert j job jobs)) s.status
    write-Ready k s h a = ground (
      arith,
      lookup-insert runs i r k,
      lookup-insert jobs j job s.job_id,
      same_iff i k,
      same_iff j s.job_id,
      same_iff s.job_id j,
      v.ready k s,
      count_active-lookup j k runs s,
    )

    pub write-Inv : Inv (insert j job jobs) (insert i r runs)
    write-Inv = record {
      table = insert-IsTable i r runs v.table;
      count = write-count;
      ready = write-Ready;
    }

  -- a new job has no run
  pub create-Inv :
      (j : ℕ) (job : AnalysisJob)
      → lookup j jobs ≡ none
      → slots_of (some job) ≡ 0
      → Inv (insert j job jobs) runs
  create-Inv j job e n = record {
    table = v.table;
    count = λ k. ground (arith, v.count k, v.count j, lookup-insert jobs j job k, same_iff j k);
    ready = λ i r h a. ground (
      arith,
      v.ready i r h a,
      v.count j,
      lookup-insert jobs j job r.job_id,
      same_iff j r.job_id,
      same_iff r.job_id j,
      count_active-lookup j i runs r h,
    );
  }
