-- ===== src/Storage/Upload.antt =====
-- Uploads of packages/object_storage/service.py: the ticket, its completion, and reading an asset. Times
-- are clock readings. Python's methods on texts, `split(";", 1)[0].strip().lower()` and `lower()`, and the
-- hash are the caller's.
pub mod Gives
pub mod Readback
use Prim.Native.String.{◌++◌ as ◌<>◌}
use evidenceclass_agent.Base.{
  ℕ, ◌+◌, String, Bool, true, false, not, ◌&&◌, ◌||◌, Option, none, some, List, [], ◌∷◌, length,
  ltb, leb, if◌then◌else◌, ◌==◌, ℕ_eq, String_eq,
}
use evidenceclass_agent.Base.Dict.{Items, lookup, insert, remove}
use evidenceclass_agent.Base.Outcome.{Outcome, ok, err}
use evidenceclass_agent.Storage.Effects.{
  StorageError, resource_not_found, validation_error, value_error, unavailable, StoredObject,
  StorageJob, MediaAsset, World, Faults, Run, return, raise_if, ◌>>=◌, ◌>>◌, try_except, perform,
  copy, remove_object, read, find_job,
}
use evidenceclass_agent.Storage.Formats.{Decoders, is_allowed, looks_like}

pub record UploadTicket : Type 0 where
  pub workspace_id : String
  pub job_id : String
  pub object_key : String
  pub expected_mime : String
  pub max_size_bytes : ℕ
  pub expires_at : ℕ

-- the library's functions on the type of a content, on texts, and on bytes
pub record Texts : Type 0 where
  pub media_type : String → String
  pub lower : String → String
  pub sha256 : List ℕ → String

-- the arguments of `complete_upload`, with the time and the identifier of the asset that are drawn
pub record Completion : Type 0 where
  pub expected_size_bytes : ℕ
  pub expected_sha256 : String
  pub role : String
  pub asset_id : String
  pub now : ℕ

abbrev pub upload_key : String → String → String → String
upload_key workspace_id job_id token =
    "temporary/" <> workspace_id <> "/" <> job_id <> "/uploads/" <> token

abbrev pub media_key : String → String → String → String
media_key workspace_id job_id asset_id =
    "workspaces/" <> workspace_id <> "/jobs/" <> job_id <> "/media/" <> asset_id

-- `issue_upload`, at the time `now`, with the token that is drawn
unfoldable pub issue_upload :
    (workspace_id job_id expected_mime : String)
    → (max_size_bytes expires now : ℕ) → (token : String) → Run UploadTicket
issue_upload workspace_id job_id expected_mime max_size_bytes expires now token =
    raise_if (not (is_allowed expected_mime)) validation_error
    >> (raise_if (leb max_size_bytes 0) value_error
        >> (find_job workspace_id job_id >>= λ job. return (record {
          workspace_id = workspace_id;
          job_id = job_id;
          object_key = upload_key workspace_id job_id token;
          expected_mime = expected_mime;
          max_size_bytes = max_size_bytes;
          expires_at = now + expires;
        })))

module _ (texts : Texts) (decoders : Decoders) (faults : Faults) where
  -- the tests of the size and of the limit
  abbrev pub is_other_size : StoredObject → Completion → Bool
  is_other_size object c = not (length object.data_bytes == c.expected_size_bytes)

  abbrev pub asset_of : UploadTicket → Completion → StoredObject → MediaAsset
  asset_of ticket c object = record {
    job_id = ticket.job_id;
    role = c.role;
    object_key = media_key ticket.workspace_id ticket.job_id c.asset_id;
    sha256 = texts.sha256 object.data_bytes;
    mime = texts.media_type object.content_type;
    size_bytes = length object.data_bytes;
  }

  abbrev pub with_asset : String → MediaAsset → World → World
  with_asset asset_id asset world = record world { assets = insert asset_id asset world.assets }

  -- the tests of `complete_upload` on what `stat` and `read` give, and the statements behind them
  abbrev pub check_object :
      UploadTicket → Completion → StoredObject → Run MediaAsset → Run MediaAsset
  check_object ticket c object rest =
      raise_if (is_other_size object c) validation_error
      >> (raise_if (ltb ticket.max_size_bytes (length object.data_bytes)) validation_error
          >> (raise_if (not (texts.media_type object.content_type == ticket.expected_mime))
                validation_error
              >> (raise_if
                    (not (
                      looks_like decoders object.data_bytes (texts.media_type object.content_type)))
                    validation_error
                  >> (raise_if
                        (not (texts.sha256 object.data_bytes == texts.lower c.expected_sha256))
                        validation_error
                      >> rest))))

  -- the body of `try`
  abbrev pub store_asset : UploadTicket → Completion → StoredObject → Run MediaAsset
  store_asset ticket c object =
      perform faults.commits (with_asset c.asset_id (asset_of ticket c object))
      >> (remove_object faults ticket.object_key >> return (asset_of ticket c object))

  -- the statements behind the tests
  abbrev pub keep_object : UploadTicket → Completion → StoredObject → Run MediaAsset
  keep_object ticket c object =
      copy faults ticket.object_key (media_key ticket.workspace_id ticket.job_id c.asset_id)
      >> try_except (store_asset ticket c object)
          (remove_object faults (media_key ticket.workspace_id ticket.job_id c.asset_id))

  -- `complete_upload`
  unfoldable pub complete_upload : UploadTicket → Completion → Run MediaAsset
  complete_upload ticket c = find_job ticket.workspace_id ticket.job_id >>= λ job.
      raise_if (ltb ticket.expires_at c.now) validation_error
      >> (read ticket.object_key >>= λ object.
          check_object ticket c object (keep_object ticket c object))

-- the query of `read_asset` and `download_url`
abbrev pub find_asset : (workspace_id asset_id : String) → Run MediaAsset
find_asset workspace_id asset_id world = elim (lookup asset_id world.assets) [
  | none ↦ (world, err resource_not_found)
  | some asset ↦ elim (lookup asset.job_id world.jobs) [
    | none ↦ (world, err resource_not_found)
    | some job ↦
        if job.workspace_id == workspace_id && not job.is_deleted
        then (world, ok asset)
        else (world, err resource_not_found)
  ]
]

-- `read_asset`
unfoldable pub read_asset : (workspace_id asset_id : String) → Run (List ℕ)
read_asset workspace_id asset_id = find_asset workspace_id asset_id >>= λ asset.
    read asset.object_key >>= λ object. return object.data_bytes
