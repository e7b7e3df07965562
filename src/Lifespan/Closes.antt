-- ===== src/Lifespan/Closes.antt =====
-- The transactions that end runs, and the ones that follow a review, keep what ties jobs to runs.
use evidenceclass_agent.Base.{
  ℕ, ◌≡◌, refl, String, Bool, true, false, ◌&&◌, Option, none, some, [], ◌∷◌, arith, if◌then◌else◌,
  ◌==◌, ℕ_eq, same_iff, inl, inr, Option-cases, if_intro, if_cases,
}
use mathlib.Core.Path.{subst, sym}
use evidenceclass_agent.Base.Dict.{Items, lookup, insert, lookup-insert}
use evidenceclass_agent.Lifecycle.Decision.{}
use evidenceclass_agent.Lifecycle.Job.{running}
use evidenceclass_agent.Lifecycle.Run.{AgentRunState, inspecting, errored}
use evidenceclass_agent.Agent.State.{FinalStatus}
use evidenceclass_agent.Persistence.Tables.{AnalysisJob, AgentRun, Database, count_active}
use evidenceclass_agent.Persistence.Tables.Queries.{IsTable, count_active-lookup}
use evidenceclass_agent.Persistence.Tables.Safe.{Safe, commits, Safe->>=}
use evidenceclass_agent.Persistence.Jobs.{find_job, cancel_job, stop_runs}
use evidenceclass_agent.Persistence.Jobs.Decisions.{}
use evidenceclass_agent.Worker.{
  claim, claim_job, finish, fail, is_cancelled_job, is_queued, is_initializing, closed, kind_of,
  run_status, job_after, failed_job, Kind,
}
use evidenceclass_agent.Lifespan.Invariant.{Inv, DbInv, slots_of, write-Inv}

count_active-stop_runs :
    (k j now : ℕ) (runs : Items ℕ AgentRun)
    → count_active k (stop_runs j now runs) ≡ (if j == k then 0 else count_active k runs)
unfolding count_active stop_runs
count_active-stop_runs k j now [] = ground arith
count_active-stop_runs k j now ((i, r) ∷ runs) = ground (
  arith,
  count_active-stop_runs k j now runs,
  same_iff r.job_id j,
  same_iff r.job_id k,
  same_iff j k,
)

-- a run that is still active has not been touched
lookup-stop_runs :
    (i j now : ℕ) (runs : Items ℕ AgentRun) (r : AgentRun)
    → lookup i (stop_runs j now runs) ≡ some r
    → r.active ≡ true
    → (lookup i runs ≡ some r) × ((r.job_id == j) ≡ false)
unfolding lookup stop_runs
lookup-stop_runs i j now [] r h a = cc
lookup-stop_runs i j now ((k, s) ∷ runs) r h a =
    ground (arith, lookup-stop_runs i j now runs r, same_iff k i)

lookup-stop_runs-none :
    (i j now : ℕ) (runs : Items ℕ AgentRun)
    → lookup i runs ≡ none
    → lookup i (stop_runs j now runs) ≡ none
unfolding lookup stop_runs
lookup-stop_runs-none i j now [] h = refl
lookup-stop_runs-none i j now ((k, s) ∷ runs) h = ground (arith, lookup-stop_runs-none i j now runs)

stop_runs-IsTable :
    (j now : ℕ) (runs : Items ℕ AgentRun) → IsTable runs → IsTable (stop_runs j now runs)
unfolding stop_runs
stop_runs-IsTable j now [] t = tt
stop_runs-IsTable j now ((k, s) ∷ runs) (n, t) =
    (lookup-stop_runs-none k j now runs n, stop_runs-IsTable j now runs t)

module _ (db : Database) (v : DbInv db) where
  cancelled-Inv :
      (j now : ℕ) (job : AnalysisJob)
      → slots_of (some job) ≡ 0
      → Inv (insert j job db.jobs) (stop_runs j now db.runs)
  cancelled-Inv j now job n = record {
    table = stop_runs-IsTable j now db.runs v.table;
    count = λ k. ground (
      arith,
      v.count k,
      count_active-stop_runs k j now db.runs,
      lookup-insert db.jobs j job k,
      same_iff j k,
    );
    ready = λ i r h a.
        let (e, o) = lookup-stop_runs i j now db.runs r h a in
        ground (
          arith,
          v.ready i r e a,
          lookup-insert db.jobs j job r.job_id,
          same_iff j r.job_id,
          same_iff r.job_id j,
        );
  }

  pub cancel_job-Inv : (w j now : ℕ) → Safe DbInv (cancel_job w j now db)
  unfolding cancel_job
  cancel_job-Inv w j now =
      Safe->>= (find_job db w j) _ (λ job f. commits _ _ (cancelled-Inv j now _ (ground arith)))

  -- an active run is one of a queued or a running job
  active_job :
      (i : ℕ) (r : AgentRun)
      → lookup i db.runs ≡ some r
      → r.active ≡ true
      → (count_active r.job_id db.runs ≡ 1) × (slots_of (lookup r.job_id db.jobs) ≡ 1)
  active_job i r e a = ground (
    arith,
    v.count r.job_id,
    count_active-lookup r.job_id i db.runs r e,
    same_iff r.job_id r.job_id,
  )

  -- a held run gives its slot back, and its job leaves the states that need one
  close-Inv :
      (i now : ℕ) (r : AgentRun) (job : AnalysisJob) (status : AgentRunState)
      → lookup i db.runs ≡ some r
      → r.active ≡ true
      → slots_of (some job) ≡ 0
      → Inv (insert r.job_id job db.jobs) (insert i (closed r status now) db.runs)
  close-Inv i now r job status e a n =
      let (c, s) = active_job i r e a in
      write-Inv v r.job_id i job (closed r status now) refl (rw e refl) (rw (e, c, a, n) refl)
        (λ q. absurd (ground arith))

  -- the job of a held run has not been cancelled, and is there
  held_job :
      (i : ℕ) (r : AgentRun)
      → lookup i db.runs ≡ some r
      → r.active ≡ true
      → (job : AnalysisJob) × (lookup r.job_id db.jobs ≡ some job)
        × (is_cancelled_job job.status ≡ false)
  held_job i r e a =
      let (c, s) = active_job i r e a in
      elim (Option-cases (lookup r.job_id db.jobs)) [
        | inl f ↦ absurd (ground arith)
        | inr (job, f) ↦ (job, f, ground arith)
      ]

  claim_job-Inv :
      (i now : ℕ) (r : AgentRun) (job : AnalysisJob)
      → lookup i db.runs ≡ some r
      → r.active ≡ true
      → is_cancelled_job job.status ≡ false
      → DbInv (claim_job db i r (some job) now).0
  claim_job-Inv i now r job e a n =
      let (c, s) = active_job i r e a in
      rw (n, if◌then◌else◌)
        (if_intro (λ (x : Database × Bool). DbInv x.0)
          (is_initializing r.status && is_queued job.status) _ _
          (write-Inv v r.job_id i (record job { status = running; progress = 5 })
            (record r { status = inspecting; updated_at = now }) refl (rw e refl) (rw (e, c) refl)
            (λ q. cc))
          v)

  held_claim :
      (i now : ℕ) (r : AgentRun)
      → lookup i db.runs ≡ some r
      → r.active ≡ true
      → DbInv (claim_job db i r (lookup r.job_id db.jobs) now).0
  held_claim i now r e a =
      let (job, f, n) = held_job i r e a in
      subst (λ (o : Option AnalysisJob). DbInv (claim_job db i r o now).0) (sym f)
        (claim_job-Inv i now r job e a n)

  pub claim-Inv : (i now : ℕ) → DbInv (claim i now db).0
  unfolding claim
  claim-Inv i now = elim (Option-cases (lookup i db.runs)) [
    | inl e ↦ rw (e, claim) v
    | inr (r, e) ↦
        rw (e, claim)
          (if_cases (λ (x : Database × Bool). DbInv x.0) r.active _ _ (held_claim i now r e)
            (λ a. v))
  ]

  finish_kind-Inv :
      (i now : ℕ) (final : Option FinalStatus) (kind : Kind) (r : AgentRun) (job : AnalysisJob)
      → lookup i db.runs ≡ some r
      → r.active ≡ true
      → Inv
          (insert r.job_id (job_after job kind final) db.jobs)
          (insert i (closed r (run_status kind) now) db.runs)
  finish_kind-Inv i now final kind r job e a =
      close-Inv i now r (job_after job kind final) (run_status kind) e a (ground arith)

  pub finish-Inv :
      (i now : ℕ) (final : Option FinalStatus) (requires : Bool) (r : AgentRun)
      → lookup i db.runs ≡ some r
      → r.active ≡ true
      → DbInv (finish i now final requires db).0
  unfolding finish
  finish-Inv i now final requires r e a =
      let (job, f, n) = held_job i r e a in
      rw (e, f, n, finish) (finish_kind-Inv i now final (kind_of final requires) r job e a)

  pub fail-Inv :
      (i now : ℕ) (code : String) (r : AgentRun)
      → lookup i db.runs ≡ some r
      → r.active ≡ true
      → DbInv (fail i now code db).0
  unfolding fail
  fail-Inv i now code r e a =
      let (job, f, n) = held_job i r e a in
      rw (e, f, fail) (close-Inv i now r (failed_job job code) errored e a (ground arith))
