-- ===== src/Storage/Examples.antt =====
-- The storage service of packages/object_storage at concrete calls.
use evidenceclass_agent.Base.{
  if◌then◌else◌, ◌≡◌, ◌≤◌, refl, true, false, none, some, [], ◌∷◌, ◌==◌, ℕ_eq, String_eq, length,
}
use evidenceclass_agent.Base.Dict.{lookup, insert, remove}
use evidenceclass_agent.Base.Outcome.{ok}
use evidenceclass_agent.Storage.Effects.{
  unavailable, StoredObject, StorageJob, World, Faults, MediaAsset,
}
use evidenceclass_agent.Storage.Formats.{Decoders, looks_like}
use evidenceclass_agent.Storage.Publish.{
  Publication, Encoders, publish_artifacts, publish_contents, publish_content,
}
use evidenceclass_agent.Storage.Publish.Atomic.{publish_undone}
use evidenceclass_agent.Storage.Upload.{
  UploadTicket, Texts, Completion, complete_upload, read_asset,
}
use evidenceclass_agent.Storage.Upload.Readback.{upload_readback}
use evidenceclass_agent.Storage.Retention.{purge_due_jobs, purge_jobs, due_jobs, list_keys}
use evidenceclass_agent.Storage.Retention.Purged.{is_of, purge_exact}

abbrev decoders : Decoders
decoders = record { json_loads = λ bytes. true; utf8 = λ bytes. true }

abbrev encoders : Encoders
encoders = record { sha256 = λ bytes. "h"; dump_manifest = λ p published. 123 ∷ 125 ∷ [] }

-- the second copy raises, or nothing does
abbrev second_copy : Faults
second_copy = record {
  puts = λ n. false;
  copies = λ n. n == 3;
  removes = λ n. false;
  commits = λ n. false;
}

abbrev no_faults : Faults
no_faults = record {
  puts = λ n. false;
  copies = λ n. false;
  removes = λ n. false;
  commits = λ n. false;
}

abbrev job : StorageJob
job = record {
  workspace_id = "w";
  is_deleted = false;
  purge_after = none;
  objects_purged_at = none;
}

abbrev upload : StoredObject
upload = record { data_bytes = 104 ∷ 105 ∷ []; content_type = "text/plain" }

abbrev world : World
world = record {
  objects = ("temporary/w/j/uploads/t", upload) ∷ [];
  jobs = ("j", job) ∷ [];
  assets = [];
  artifacts = [];
  calls = 0;
  temporary_keys = [];
  final_keys = [];
}

abbrev report : Publication
report = record {
  workspace_id = "w";
  job_id = "j";
  version = "v1";
  contents =
      record { kind = "json"; mime = "application/json"; data_bytes = 123 ∷ []; artifact_id = "a" }
      ∷ record { kind = "notes"; mime = "text/plain"; data_bytes = 104 ∷ []; artifact_id = "b" }
      ∷ [];
  token = "t";
  manifest_id = "m";
}

publish_undone_example :
    (lookup "temporary/w/j/uploads/t"
        (publish_artifacts decoders encoders second_copy report world).0.objects
      ≡ lookup "temporary/w/j/uploads/t" world.objects)
    × ((publish_artifacts decoders encoders second_copy report world).0.artifacts ≡ world.artifacts)
unfolding lookup publish_artifacts publish_contents publish_content looks_like insert remove
publish_undone_example =
    publish_undone decoders encoders second_copy report world unavailable "temporary/w/j/uploads/t"
      (λ n. refl) (refl, refl, (refl, refl, tt)) refl refl

abbrev texts : Texts
texts = record { media_type = λ x. x; lower = λ x. x; sha256 = λ bytes. "h" }

abbrev ticket : UploadTicket
ticket = record {
  workspace_id = "w";
  job_id = "j";
  object_key = "temporary/w/j/uploads/t";
  expected_mime = "text/plain";
  max_size_bytes = 10;
  expires_at = 50;
}

abbrev completion : Completion
completion = record {
  expected_size_bytes = 2;
  expected_sha256 = "h";
  role = "source";
  asset_id = "s";
  now = 40;
}

abbrev kept : MediaAsset
kept = record {
  job_id = "j";
  role = "source";
  object_key = "workspaces/w/jobs/j/media/s";
  sha256 = "h";
  mime = "text/plain";
  size_bytes = 2;
}

upload_readback_example :
    (object : StoredObject) × (lookup "temporary/w/j/uploads/t" world.objects ≡ some object)
    × (length object.data_bytes ≡ 2)
    × (length object.data_bytes ≤ 10)
    × (object.content_type ≡ "text/plain")
    × (looks_like decoders object.data_bytes "text/plain" ≡ true)
    × (texts.sha256 object.data_bytes ≡ texts.lower "h")
    × (lookup "temporary/w/j/uploads/t"
          (complete_upload texts decoders no_faults ticket completion world).0.objects
        ≡ none)
    × ((read_asset "w" "s" (complete_upload texts decoders no_faults ticket completion world).0).1
        ≡ ok object.data_bytes)
unfolding lookup complete_upload looks_like insert remove
upload_readback_example =
    upload_readback texts decoders no_faults ticket completion world kept job refl refl refl refl
      refl

-- the removal of the temporary object raises, behind the transaction
abbrev first_removal : Faults
first_removal = record no_faults { removes = λ n. n == 2 }

-- the row of the asset is kept, and its object is not
dangling_asset :
    (lookup "s" (complete_upload texts decoders first_removal ticket completion world).0.assets
      ≡ some kept)
    × (lookup "workspaces/w/jobs/j/media/s"
          (complete_upload texts decoders first_removal ticket completion world).0.objects
        ≡ none)
unfolding lookup complete_upload looks_like insert remove
dangling_asset = (refl, refl)

-- the job was deleted, and is due at 30
abbrev deleted_world : World
deleted_world = record world {
  jobs = ("j", record job { is_deleted = true; purge_after = some 30 }) ∷ [];
}

purge_exact_example :
    lookup "temporary/w/j/uploads/t" (purge_due_jobs no_faults 31 deleted_world).0.objects ≡ (
      if is_of "temporary/w/j/uploads/t" (due_jobs 31 deleted_world.jobs)
      then none
      else lookup "temporary/w/j/uploads/t" deleted_world.objects)
unfolding purge_due_jobs purge_jobs due_jobs list_keys lookup insert remove
purge_exact_example =
    purge_exact no_faults 31 deleted_world ("j" ∷ []) "temporary/w/j/uploads/t" (λ k. refl) refl
