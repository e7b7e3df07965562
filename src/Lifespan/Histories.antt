-- ===== src/Lifespan/Histories.antt =====
-- What holds of the database of packages/persistence behind every history of transactions.
use evidenceclass_agent.Base.{
  ℕ, ◌≡◌, refl, true, none, some, List, [], ◌∷◌, arith, ℕ_eq, inl, inr, Option-cases, if_cases,
}
use evidenceclass_agent.Base.Dict.{Items, lookup}
use evidenceclass_agent.Persistence.Tables.{AgentRun, Database, Result, count_active}
use evidenceclass_agent.Persistence.Tables.Safe.{Safe, raises, commits}
use evidenceclass_agent.Lifespan.{
  Step, create, start, retry, rerun, cancel, resume, review, claims, finishes, fails, job_event,
  run_event, both_events, settle, is_new, is_held, step, empty, after,
}
use evidenceclass_agent.Lifespan.Invariant.{DbInv}
use evidenceclass_agent.Lifespan.Keeps.{create_job-Inv, start_job-Inv, retry_job-Inv, rerun_job-Inv}
use evidenceclass_agent.Lifespan.Closes.{cancel_job-Inv, claim-Inv, finish-Inv, fail-Inv}
use evidenceclass_agent.Lifespan.Events.{job_event-Inv, run_event-Inv, both_events-Inv}
use evidenceclass_agent.Lifespan.Resumes.{resume_after_review-Inv}

settle-Inv :
    {A : Type 0} (db : Database) (r : Result (Database × A))
    → DbInv db
    → Safe DbInv r
    → DbInv (settle db r)
settle-Inv db r v (raises e) = v
settle-Inv db r v (commits next a n) = n

is_new-none : {A : Type 0} (i : ℕ) (rows : Items ℕ A) → is_new i rows ≡ true → lookup i rows ≡ none
is_new-none i rows h = ground arith

is_held-run :
    (i : ℕ) (db : Database)
    → is_held i db ≡ true
    → (r : AgentRun) × (lookup i db.runs ≡ some r) × (r.active ≡ true)
is_held-run i db h = elim (Option-cases (lookup i db.runs)) [
  | inl e ↦ absurd (ground arith)
  | inr (r, e) ↦ (r, e, ground arith)
]

step-Inv : (db : Database) (s : Step) → DbInv db → DbInv (step db s)
unfolding step
step-Inv db (create w mode j) v =
    if_cases DbInv (is_new j db.jobs) _ _
      (λ n. settle-Inv db _ v (create_job-Inv db w mode j (is_new-none j db.jobs n) v)) (λ n. v)
step-Inv db (start w j d) v =
    if_cases DbInv (is_new d.run_id db.runs) _ _
      (λ n. settle-Inv db _ v (start_job-Inv db v w j _ d (is_new-none d.run_id db.runs n)))
      (λ n. v)
step-Inv db (retry w j d) v = settle-Inv db _ v (retry_job-Inv db v w j d)
step-Inv db (rerun w j d) v =
    if_cases DbInv (is_new d.run_id db.runs) _ _
      (λ n. settle-Inv db _ v (rerun_job-Inv db v w j _ d (is_new-none d.run_id db.runs n)))
      (λ n. v)
step-Inv db (cancel w j now) v = settle-Inv db _ v (cancel_job-Inv db v w j now)
step-Inv db (resume w i decision d) v =
    settle-Inv db _ v (resume_after_review-Inv db v w i decision d)
step-Inv db (review items) v = v
step-Inv db (claims i now) v = claim-Inv db v i now
step-Inv db (finishes i now final requires) v =
    if_cases DbInv (is_held i db) _ _
      (λ h. let (r, e, a) = is_held-run i db h in finish-Inv db v i now final requires r e a)
      (λ h. v)
step-Inv db (fails i now code) v =
    if_cases DbInv (is_held i db) _ _
      (λ h. let (r, e, a) = is_held-run i db h in fail-Inv db v i now code r e a) (λ h. v)
step-Inv db (job_event w j event decision) v = job_event-Inv db w j event decision v
step-Inv db (run_event i now event decision) v = run_event-Inv db i now event decision v
step-Inv db (both_events i now event w ending) v = both_events-Inv db i now event w ending v

pub after-Inv : (db : Database) (steps : List Step) → DbInv db → DbInv (after db steps)
unfolding after
after-Inv db [] v = v
after-Inv db (s ∷ steps) v = after-Inv (step db s) steps (step-Inv db s v)

pub empty-Inv : DbInv empty
unfolding count_active lookup
empty-Inv = record { table = tt; count = λ j. refl; ready = λ i r e. absurd (ground arith) }
