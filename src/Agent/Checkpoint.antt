-- ===== src/Agent/Checkpoint.antt =====
-- packages/agent_runtime/checkpoint.py: the saved states of each run. The identifier of a checkpoint
-- is its number in its run, and the hash of an output is the output.
pub mod Restores
use evidenceclass_agent.Base.{
  ℕ, ◌+◌, ◌≡◌, refl, Bool, Option, none, some, List, [], ◌∷◌, ◌++◌, ℕ_eq, length, if◌then◌else◌,
}
use evidenceclass_agent.Base.Dict.{lookup, insert}
use evidenceclass_agent.Agent.State.{Node, AgentState, TraceLine}

pub data CheckpointStatus : Type 0 where
  started succeeded : CheckpointStatus

pub record Checkpoint : Type 0 where
  pub checkpoint_id : ℕ
  pub run_id : ℕ
  pub node : Node
  pub status : CheckpointStatus
  pub state : AgentState
  pub output : Option TraceLine

pub record CheckpointStore : Type 0 where
  pub records : List (ℕ × List Checkpoint)

abbrev pub records_of : CheckpointStore → ℕ → List Checkpoint
records_of s run_id = elim (lookup run_id s.records) [ none ↦ [] | some l ↦ l ]

-- `_save`: the checkpoint is appended to those of its run
unfoldable pub save :
    CheckpointStore
    → AgentState
    → Node
    → CheckpointStatus
    → Option TraceLine
    → CheckpointStore × Checkpoint
save s state node status output =
    let known = records_of s state.run_id in
    let checkpoint : Checkpoint = record {
      checkpoint_id = length known + 1;
      run_id = state.run_id;
      node = node;
      status = status;
      state = state;
      output = output;
    } in
    (record { records = insert state.run_id (known ++ checkpoint ∷ []) s.records }, checkpoint)

abbrev pub save_started : CheckpointStore → AgentState → Node → CheckpointStore
save_started s state node = (save s state node started none).0

abbrev pub save_succeeded :
    CheckpointStore → AgentState → Node → Option TraceLine → CheckpointStore × Checkpoint
save_succeeded s state node output = save s state node succeeded output

-- the search from the end, as the last success of a walk from the front
abbrev pub last_success : Option Checkpoint → List Checkpoint → Option Checkpoint
last_success found [] = found
last_success found (c ∷ rest) =
    last_success (elim c.status [ started ↦ found | succeeded ↦ some c ]) rest

unfoldable pub latest_success : CheckpointStore → ℕ → Option Checkpoint
latest_success s run_id = last_success none (records_of s run_id)

-- `none` is the `KeyError`
unfoldable pub restore : CheckpointStore → ℕ → Option AgentState
unfolding latest_success
restore s run_id = elim (latest_success s run_id) [ none ↦ none | some c ↦ some c.state ]
