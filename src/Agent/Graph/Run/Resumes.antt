-- ===== src/Agent/Graph/Run/Resumes.antt =====
-- Checkpoints and reviews of `AgentGraph.run` in packages/agent_runtime/graph.py.
use evidenceclass_agent.Base.{
  ℕ, zero, suc, ◌+◌, ◌≡◌, refl, true, Option, none, some, Option-cases, if_intro, arith, inl, inr,
  ℕ_eq, same_iff,
}
use evidenceclass_agent.Base.Outcome.{Outcome-cases}
use evidenceclass_agent.Budget.{before_step}
use evidenceclass_agent.Lifecycle.Decision.{
  ReviewDecision, approved, modified, rejected, materials_requested,
}
use evidenceclass_agent.Agent.State.{AgentState, Context, Node, failed, TraceLine}
use evidenceclass_agent.Agent.Checkpoint.{CheckpointStore, save_succeeded, restore}
use evidenceclass_agent.Agent.Checkpoint.Restores.{restore-save}
use evidenceclass_agent.Agent.Graph.{AgentGraph, Move, go, stop, exceeded, broken}
use evidenceclass_agent.Agent.Graph.Run.{
  Machine, Ending, returned, Verdict, finish, continue, apply, step, follow, loop, start, run,
  resume, resume_from, resume_review, reject, no_checkpoint,
}
use evidenceclass_agent.Agent.Graph.Run.Ends.{run-Ends}

restore-saved :
    (s : CheckpointStore) (state : AgentState) (node : Node) (output : Option TraceLine)
    → restore (save_succeeded s state node output).0 state.run_id ≡ some state
restore-saved s state node output =
    ground
      (arith, restore-save s state node output state.run_id, same_iff state.run_id state.run_id)

-- a state that is returned is the one that the checkpoints restore
abbrev IsSaved : CheckpointStore → Option Ending → Type 0
IsSaved s (some (returned state)) = restore s state.run_id ≡ some state
IsSaved s _ = Unit

abbrev SavesOn : Machine × Verdict → Type 0
SavesOn (m, finish e) = IsSaved m.checkpoints (some e)
SavesOn (m, continue) = Unit

module _ (g : AgentGraph) (crash_after : Option Node) where
  apply-SavesOn : (m : Machine) (move : Move) → SavesOn (apply crash_after m move)
  apply-SavesOn m (go s d t next) = ground arith
  apply-SavesOn m (stop s) = restore-saved _ s _ _
  apply-SavesOn m (exceeded error) = restore-saved _ _ _ _
  apply-SavesOn m broken = tt

  step-SavesOn : (now : ℕ) (m : Machine) → SavesOn (step g crash_after now m)
  unfolding step
  step-SavesOn now m = elim (Outcome-cases (before_step m.tracker now)) [
    | inr (error, f) ↦ rw (f, step) (restore-saved _ _ _ _)
    | inl (tracker, f) ↦ rw (f, step) (apply-SavesOn _ _)
  ]

  module _ (clock : ℕ → ℕ) where
    follow-IsSaved :
        (next : Machine → Machine × Option Ending) (s : Machine × Verdict)
        → ((m : Machine) → IsSaved (next m).0.checkpoints (next m).1)
        → SavesOn s
        → IsSaved (follow next s).0.checkpoints (follow next s).1
    follow-IsSaved next (m, finish e) ih k = k
    follow-IsSaved next (m, continue) ih k = ih m

    loop-IsSaved :
        (fuel turn : ℕ) (m : Machine)
        → IsSaved
            (loop g crash_after clock fuel turn m).0.checkpoints
            (loop g crash_after clock fuel turn m).1
    unfolding loop
    loop-IsSaved zero turn m = tt
    loop-IsSaved (suc fuel) turn m =
        follow-IsSaved (loop g crash_after clock fuel (turn + 1)) _
          (λ m'. loop-IsSaved fuel (turn + 1) m') (step-SavesOn (clock turn) m)

    -- When a run returns a state, however it ended, the checkpoints restore that very state.
    pub run-restore :
        (checkpoints : CheckpointStore) (state : AgentState) (context : Context) (s : AgentState)
        → (run g crash_after clock checkpoints state context).1 ≡ some (returned s)
        → restore (run g crash_after clock checkpoints state context).0.checkpoints s.run_id
          ≡ some s
    unfolding run
    run-restore checkpoints state context s e =
        rw e at (loop-IsSaved (g.budget_limits.max_steps + 1) 0 (start g checkpoints state context))

    -- a run from a restored state, with any decision
    resume_from-Ends :
        (checkpoints : CheckpointStore) (state : AgentState) (context : Context)
        → (e : Ending) × ((resume_from g crash_after clock checkpoints state context).1 ≡ some e)
    resume_from-Ends checkpoints state context =
        if_intro (λ (r : CheckpointStore × Option Ending). (e : Ending) × (r.1 ≡ some e))
          state.requires_review _ _ (decided context.review_decision)
          (run-Ends g crash_after clock checkpoints state context)
      where
        decided :
            (decision : Option ReviewDecision)
            → (e : Ending) × ((resume_review g crash_after clock checkpoints state context
                  decision).1
                ≡ some e)
        decided none = (_, refl)
        decided (some approved) = run-Ends g crash_after clock checkpoints _ context
        decided (some modified) = run-Ends g crash_after clock checkpoints _ context
        decided (some rejected) = (_, refl)
        decided (some materials_requested) = (_, refl)

    -- Whatever the checkpoints, the run and the context are, a resumed run ends too.
    resume-Ends :
        (checkpoints : CheckpointStore) (run_id : ℕ) (context : Context)
        → (e : Ending) × ((resume g crash_after clock checkpoints run_id context).1 ≡ some e)
    unfolding resume
    resume-Ends checkpoints run_id context = elim (Option-cases (restore checkpoints run_id)) [
      | inl e ↦ rw (e, resume) (no_checkpoint, refl)
      | inr (state, e) ↦ rw (e, resume) (resume_from-Ends checkpoints state context)
    ]

    resume-pending :
        (checkpoints : CheckpointStore) (run_id : ℕ) (later : Context) (s : AgentState)
        → restore checkpoints run_id ≡ some s
        → s.requires_review ≡ true
        → later.review_decision ≡ none
        → resume g crash_after clock checkpoints run_id later ≡ (checkpoints, some (returned s))
    unfolding resume
    resume-pending checkpoints run_id later s k r d = ground arith

    resume-rejected :
        (checkpoints : CheckpointStore) (later : Context) (s : AgentState)
        → restore checkpoints s.run_id ≡ some s
        → s.requires_review ≡ true
        → later.review_decision ≡ some rejected
        → resume g crash_after clock checkpoints s.run_id later
          ≡ reject g crash_after clock checkpoints s
    unfolding resume
    resume-rejected checkpoints later s k r d = ground arith

    -- A run that has returned a state which waits for a review, and is resumed: without a decision it
    -- returns the same state and saves nothing. With a rejection it returns a state with the status
    -- `FAILED`, and that is the state which is restored from then on.
    resume_reviewed :
        (checkpoints : CheckpointStore) (state : AgentState) (context later : Context)
        (s : AgentState)
        → (run g crash_after clock checkpoints state context).1 ≡ some (returned s)
        → s.requires_review ≡ true
        → (later.review_decision ≡ none
            → resume g crash_after clock
                (run g crash_after clock checkpoints state context).0.checkpoints
                s.run_id
                later
              ≡ (
                (run g crash_after clock checkpoints state context).0.checkpoints,
                some (returned s),
              ))
          × (later.review_decision ≡ some rejected
              → (t : AgentState) × ((resume g crash_after clock
                    (run g crash_after clock checkpoints state context).0.checkpoints
                    s.run_id
                    later).1
                  ≡ some (returned t))
                × (t.final_status ≡ some failed)
                × (restore
                      (resume g crash_after clock
                        (run g crash_after clock checkpoints state context).0.checkpoints
                        s.run_id
                        later).0
                      s.run_id
                    ≡ some t))
    resume_reviewed checkpoints state context later s e r =
        let k = run-restore checkpoints state context s e in
        (
          resume-pending _ s.run_id later s k r,
          λ d. rw (resume-rejected _ later s k r d) (_, refl, refl, restore-saved _ _ _ _),
        )
