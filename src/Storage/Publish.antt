-- ===== src/Storage/Publish.antt =====
-- `publish_artifacts` of packages/object_storage/service.py. The contents come as `sorted` gives them,
-- each with the identifier that is drawn for it.
pub mod Writes
pub mod Atomic
use Prim.Native.String.{◌++◌ as ◌<>◌}
use evidenceclass_agent.Base.{
  ℕ, ◌+◌, String, Bool, true, false, not, ◌&&◌, ◌||◌, Option, none, some, List, [], ◌∷◌, ◌++◌,
  length, if◌then◌else◌, ◌==◌, ℕ_eq, String_eq,
}
use evidenceclass_agent.Base.Dict.{Items, insert}
use evidenceclass_agent.Base.Outcome.{Outcome, ok, err}
use evidenceclass_agent.Storage.Effects.{
  StorageError, validation_error, value_error, unavailable, Artifact, World, Faults, Run, return,
  raise_if, ◌>>=◌, ◌>>◌, try_except, perform, put, copy, remove_all, find_job,
}
use evidenceclass_agent.Storage.Formats.{Decoders, is_allowed, looks_like}

-- an item of `contents`
pub record Content : Type 0 where
  pub kind : String
  pub mime : String
  pub data_bytes : List ℕ
  pub artifact_id : String

-- the arguments, with the token and the identifier of the manifest that are drawn
pub record Publication : Type 0 where
  pub workspace_id : String
  pub job_id : String
  pub version : String
  pub contents : List Content
  pub token : String
  pub manifest_id : String

-- the library's hash, and its text of the manifest
pub record Encoders : Type 0 where
  pub sha256 : List ℕ → String
  pub dump_manifest : Publication → List (String × Artifact) → List ℕ

abbrev pub temporary_key : Publication → String → String
temporary_key p artifact_id =
    "temporary/" <> p.workspace_id <> "/" <> p.job_id <> "/artifacts/" <> p.token <> "/"
    <> artifact_id

abbrev pub final_key : Publication → String → String
final_key p artifact_id =
    "workspaces/" <> p.workspace_id <> "/jobs/" <> p.job_id <> "/artifacts/" <> p.version <> "/"
    <> artifact_id

abbrev pub manifest_key : Publication → String
manifest_key p =
    "workspaces/" <> p.workspace_id <> "/jobs/" <> p.job_id <> "/artifacts/" <> p.version <> "/"
    <> p.token <> ".manifest.json"

abbrev pub artifact_of : Encoders → Publication → String → String → List ℕ → String → Artifact
artifact_of encoders p kind key data_bytes mime = record {
  job_id = p.job_id;
  kind = kind;
  object_key = key;
  sha256 = encoders.sha256 data_bytes;
  version = p.version;
  size_bytes = length data_bytes;
  mime = mime;
}

-- `temporary_keys.append`, `final_keys.append`
abbrev pub note_temporary : String → Run (Unit {0})
note_temporary key world =
    (record world { temporary_keys = world.temporary_keys ++ key ∷ [] }, ok tt)

abbrev pub note_final : String → Run (Unit {0})
note_final key world = (record world { final_keys = world.final_keys ++ key ∷ [] }, ok tt)

module _ (decoders : Decoders) (encoders : Encoders) (faults : Faults) (p : Publication) where
  -- the test at the head of the loop
  abbrev pub check_content : Content → Run (Unit {0})
  check_content c =
      raise_if (not (is_allowed c.mime) || not (looks_like decoders c.data_bytes c.mime))
        validation_error

  -- the statements of the loop that write the temporary object, and those that copy it
  abbrev pub store_temporary : Content → Run (Unit {0})
  store_temporary c =
      put faults (temporary_key p c.artifact_id) c.data_bytes c.mime
      >> note_temporary (temporary_key p c.artifact_id)

  abbrev pub store_final : Content → Run (Unit {0})
  store_final c =
      copy faults (temporary_key p c.artifact_id) (final_key p c.artifact_id)
      >> note_final (final_key p c.artifact_id)

  -- one turn of the loop over the contents: the artifact with its identifier
  unfoldable pub publish_content : Content → Run (String × Artifact)
  publish_content c =
      check_content c
      >> (store_temporary c
          >> (store_final c
              >> return (
                c.artifact_id,
                artifact_of encoders p c.kind (final_key p c.artifact_id) c.data_bytes c.mime,
              )))

  unfoldable pub publish_contents : List Content → Run (List (String × Artifact))
  publish_contents [] = return []
  publish_contents (c ∷ contents) =
      publish_content c >>= λ a. publish_contents contents >>= λ rest. return (a ∷ rest)

  -- `session.add` for each artifact, in one transaction
  abbrev pub add_artifacts :
      List (String × Artifact) → Items String Artifact → Items String Artifact
  add_artifacts [] rows = rows
  add_artifacts (a ∷ published) rows = add_artifacts published (insert a.0 a.1 rows)

  abbrev pub recorded : List (String × Artifact) → World → World
  recorded published world = record world { artifacts = add_artifacts published world.artifacts }

  abbrev pub manifest_of : List ℕ → String × Artifact
  manifest_of data_bytes = (
    p.manifest_id,
    artifact_of encoders p "manifest" (manifest_key p) data_bytes "application/json",
  )

  -- the body of `try`, up to the end of the transaction: the manifest is written last
  abbrev pub all_artifacts : List (String × Artifact) → List (String × Artifact)
  all_artifacts published = published ++ manifest_of (encoders.dump_manifest p published) ∷ []

  abbrev pub store_manifest : List (String × Artifact) → Run (Unit {0})
  store_manifest published =
      put faults (manifest_key p) (encoders.dump_manifest p published) "application/json"
      >> note_final (manifest_key p)

  abbrev pub write_artifacts : Run (List (String × Artifact))
  write_artifacts = publish_contents p.contents >>= λ published.
      store_manifest published
      >> (perform faults.commits (recorded (all_artifacts published)) >> return published)

  -- the loop at the end of the body of `try`
  abbrev pub remove_temporary : Run (Unit {0})
  remove_temporary world = remove_all faults world.temporary_keys world

  -- the loop of the handler
  abbrev pub remove_written : Run (Unit {0})
  remove_written world = remove_all faults (world.temporary_keys ++ world.final_keys) world

  abbrev pub forget_keys : Run (Unit {0})
  forget_keys world = (record world { temporary_keys = []; final_keys = [] }, ok tt)

  -- `not contents or "manifest" in contents`
  abbrev pub has_manifest : List Content → Bool
  has_manifest [] = false
  has_manifest (c ∷ contents) = c.kind == "manifest" || has_manifest contents

  abbrev pub is_refused : List Content → Bool
  is_refused [] = true
  is_refused contents = has_manifest contents

  -- the `try` statement around what it writes: the published artifacts, and the key of the manifest
  abbrev pub undo_on_error :
      Run (List (String × Artifact)) → Run (List (String × Artifact) × String)
  undo_on_error body =
      try_except (body >>= λ published. remove_temporary >> return (published, manifest_key p))
        remove_written

  unfoldable pub publish_artifacts : Run (List (String × Artifact) × String)
  publish_artifacts = find_job p.workspace_id p.job_id >>= λ job.
      raise_if (is_refused p.contents) value_error >> (forget_keys >> undo_on_error write_artifacts)
