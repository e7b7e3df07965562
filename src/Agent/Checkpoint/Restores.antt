-- ===== src/Agent/Checkpoint/Restores.antt =====
-- What `CheckpointStore.restore` of packages/agent_runtime/checkpoint.py gives after a save.
use evidenceclass_agent.Base.{
  ℕ, ◌≡◌, refl, Option, none, some, List, [], ◌∷◌, ◌++◌, arith, ℕ_eq, same_iff, ◌==◌, if◌then◌else◌,
}
use evidenceclass_agent.Base.Dict.{lookup-insert}
use evidenceclass_agent.Agent.State.{Node, AgentState, TraceLine}
use evidenceclass_agent.Agent.Checkpoint.{
  Checkpoint, CheckpointStatus, started, succeeded, CheckpointStore, records_of, save, save_started,
  save_succeeded, last_success, latest_success, restore,
}

records_of-save :
    (s : CheckpointStore) (state : AgentState) (node : Node) (status : CheckpointStatus)
    (output : Option TraceLine) (run_id : ℕ)
    → records_of (save s state node status output).0 run_id ≡ (
        if state.run_id == run_id
        then records_of s run_id ++ (save s state node status output).1 ∷ []
        else records_of s run_id)
unfolding save
records_of-save s state node status output run_id =
    rw (save, records_of, lookup-insert) (ground (arith, same_iff state.run_id run_id))

last_success-append :
    (found : Option Checkpoint) (l : List Checkpoint) (c : Checkpoint)
    → last_success found (l ++ c ∷ [])
      ≡ elim c.status [ started ↦ last_success found l | succeeded ↦ some c ]
last_success-append found [] c = refl
last_success-append found (d ∷ l) c =
    last_success-append (elim d.status [ started ↦ found | succeeded ↦ some d ]) l c

abbrev state_of : Option Checkpoint → Option AgentState
state_of none = none
state_of (some c) = some c.state

restore-records_of :
    (s : CheckpointStore) (run_id : ℕ)
    → restore s run_id ≡ state_of (last_success none (records_of s run_id))
unfolding restore latest_success
restore-records_of s run_id = ground arith

-- a checkpoint at the end of the list of its run
restore-end :
    (s : CheckpointStore) (state : AgentState) (node : Node) (status : CheckpointStatus)
    (output : Option TraceLine) (l : List Checkpoint)
    → state_of (last_success none (l ++ (save s state node status output).1 ∷ []))
      ≡ elim status [ started ↦ state_of (last_success none l) | succeeded ↦ some state ]
unfolding save
restore-end s state node started output l = rw last_success-append refl
restore-end s state node succeeded output l = rw last_success-append refl

restore-save_any :
    (s : CheckpointStore) (state : AgentState) (node : Node) (status : CheckpointStatus)
    (output : Option TraceLine) (run_id : ℕ)
    → restore (save s state node status output).0 run_id ≡ (
        if state.run_id == run_id
        then elim status [ started ↦ restore s run_id | succeeded ↦ some state ]
        else restore s run_id)
restore-save_any s state node status output run_id = ground (
  arith,
  restore-records_of (save s state node status output).0 run_id,
  restore-records_of s run_id,
  records_of-save s state node status output run_id,
  restore-end s state node status output (records_of s run_id),
)

-- The latest success of a run, after a save: a started node changes nothing, a success is restored by
-- its own run, and the other runs restore what they did.
pub restore-save :
    (s : CheckpointStore) (state : AgentState) (node : Node) (output : Option TraceLine)
    (run_id : ℕ)
    → (restore (save_started s state node) run_id ≡ restore s run_id)
      × (restore (save_succeeded s state node output).0 run_id
          ≡ (if state.run_id == run_id then some state else restore s run_id))
restore-save s state node output run_id = ground (
  arith,
  restore-save_any s state node started none run_id,
  restore-save_any s state node succeeded output run_id,
)
