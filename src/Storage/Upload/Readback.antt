-- ===== src/Storage/Upload/Readback.antt =====
-- What a completed upload of packages/object_storage/service.py can be read as.
use mathlib.Core.Path.{subst}
use evidenceclass_agent.Base.{
  ◌≡◌, ◌≤◌, refl, String, true, false, not, none, some, arith, length, ltb, if◌then◌else◌, ◌==◌,
  ℕ_eq, String_eq, same_iff,
}
use evidenceclass_agent.Base.Dict.{lookup, insert, lookup-insert, lookup-remove}
use evidenceclass_agent.Base.Outcome.{ok}
use evidenceclass_agent.Storage.Effects.{
  validation_error, StoredObject, StorageJob, MediaAsset, World, Faults, return, ◌>>=◌, written,
  erased, tick, remove_object, read,
}
use evidenceclass_agent.Storage.Formats.{Decoders, looks_like}
use evidenceclass_agent.Storage.Upload.{
  UploadTicket, Texts, Completion, media_key, asset_of, with_asset, store_asset, check_object,
  keep_object, is_other_size, complete_upload, find_asset, read_asset,
}
use evidenceclass_agent.Storage.Upload.Gives.{
  Gives, gives, Gives-result, Gives-map, Gives-try_except, Gives-raise_if, Gives-find_job,
  Gives-read, Gives-perform, Gives-copy,
}

module _ (texts : Texts) (decoders : Decoders) (faults : Faults) (ticket : UploadTicket)
    (c : Completion) where
  abbrev key : String
  key = media_key ticket.workspace_id ticket.job_id c.asset_id

  -- the object behind a completed upload, in the world before it and in the one behind it
  abbrev Kept : World → StoredObject → MediaAsset → World → Type 0
  Kept world object asset next =
      (lookup ticket.object_key world.objects ≡ some object)
      × (asset ≡ asset_of texts decoders faults ticket c object)
      × (lookup key next.objects ≡ some object)
      × (lookup ticket.object_key next.objects ≡ none)
      × (lookup c.asset_id next.assets ≡ some asset)
      × (next.jobs ≡ world.jobs)

  keep_object-Gives :
      (object : StoredObject) (w : World)
      → lookup ticket.object_key w.objects ≡ some object
      → (ticket.object_key == key) ≡ false
      → Gives (Kept w object) (keep_object texts decoders faults ticket c object w)
  keep_object-Gives object w e n =
      let asset = asset_of texts decoders faults ticket c object in
      let copied_w = written key object (tick w) in
      let committed = with_asset texts decoders faults c.asset_id asset (tick copied_w) in
      let next = erased ticket.object_key (tick committed) in
      Gives-copy faults ticket.object_key key object _ w e (
        Gives-try_except (store_asset texts decoders faults ticket c object)
          (remove_object faults key) copied_w
          (Gives-perform faults.commits (with_asset texts decoders faults c.asset_id asset) _
            copied_w
            (Gives-perform faults.removes (erased ticket.object_key) (return asset) committed (
              gives next asset (
                e,
                refl,
                ground (
                  arith,
                  lookup-insert w.objects key object key,
                  same_iff key key,
                  lookup-remove ticket.object_key key (insert key object w.objects),
                ),
                ground (
                  arith,
                  same_iff ticket.object_key ticket.object_key,
                  lookup-remove ticket.object_key ticket.object_key (insert key object w.objects),
                ),
                ground (
                  arith,
                  same_iff c.asset_id c.asset_id,
                  lookup-insert w.assets c.asset_id asset c.asset_id,
                ),
                refl,
              )))))

  -- what the tests of the completion have found out
  abbrev Checked : StoredObject → Type 0
  Checked object =
      (length object.data_bytes ≡ c.expected_size_bytes)
      × (length object.data_bytes ≤ ticket.max_size_bytes)
      × (texts.media_type object.content_type ≡ ticket.expected_mime)
      × (looks_like decoders object.data_bytes ticket.expected_mime ≡ true)
      × (texts.sha256 object.data_bytes ≡ texts.lower c.expected_sha256)

  abbrev Completed : World → MediaAsset → World → Type 0
  Completed world asset next =
      (object : StoredObject) × Checked object × Kept world object asset next

  passed :
      (object : StoredObject)
      → is_other_size texts decoders faults object c ≡ false
      → ltb ticket.max_size_bytes (length object.data_bytes) ≡ false
      → not (texts.media_type object.content_type == ticket.expected_mime) ≡ false
      → not (looks_like decoders object.data_bytes (texts.media_type object.content_type)) ≡ false
      → not (texts.sha256 object.data_bytes == texts.lower c.expected_sha256) ≡ false
      → Checked object
  passed object s l m f h =
      let mime =
        (same_iff (texts.media_type object.content_type) ticket.expected_mime).0 (ground arith) in
      (
        ground arith,
        ground arith,
        mime,
        subst (λ x. looks_like decoders object.data_bytes x ≡ true) mime (ground arith),
        (same_iff (texts.sha256 object.data_bytes) (texts.lower c.expected_sha256)).0
            (ground arith),
      )

  check_object-Gives :
      (object : StoredObject) (w : World)
      → lookup ticket.object_key w.objects ≡ some object
      → (ticket.object_key == key) ≡ false
      → Gives (Completed w) (
          check_object texts decoders faults ticket c object
            (keep_object texts decoders faults ticket c object)
            w)
  check_object-Gives object w e n =
      Gives-raise_if (is_other_size texts decoders faults object c) validation_error _ w (λ s.
        Gives-raise_if (ltb ticket.max_size_bytes (length object.data_bytes)) validation_error _ w
          (λ l.
            Gives-raise_if (not (texts.media_type object.content_type == ticket.expected_mime))
              validation_error _ w
              (λ m.
                Gives-raise_if
                  (not
                    (looks_like decoders object.data_bytes (texts.media_type object.content_type)))
                  validation_error _ w
                  (λ f.
                    Gives-raise_if
                      (not (texts.sha256 object.data_bytes == texts.lower c.expected_sha256))
                      validation_error _ w
                      (λ h.
                        Gives-map (keep_object texts decoders faults ticket c object w)
                          (λ asset next k. (object, passed object s l m f h, k))
                          (keep_object-Gives object w e n))))))

  complete_upload-Gives :
      (w : World)
      → (ticket.object_key == key) ≡ false
      → Gives (Completed w) (complete_upload texts decoders faults ticket c w)
  unfolding complete_upload
  complete_upload-Gives w n = Gives-find_job ticket.workspace_id ticket.job_id _ w (λ job j b.
      Gives-raise_if (ltb ticket.expires_at c.now) validation_error _ w
        (λ t. Gives-read ticket.object_key _ w (λ object e. check_object-Gives object w e n)))

  owner :
      (w next : World) (asset : MediaAsset) (object : StoredObject) (job : StorageJob)
      → asset ≡ asset_of texts decoders faults ticket c object
      → lookup ticket.job_id w.jobs ≡ some job
      → next.jobs ≡ w.jobs
      → lookup asset.job_id next.jobs ≡ some job
  owner w next asset object job a f j = rw (a, j) f

  placed :
      (next : World) (asset : MediaAsset) (object : StoredObject)
      → asset ≡ asset_of texts decoders faults ticket c object
      → lookup key next.objects ≡ some object
      → lookup asset.object_key next.objects ≡ some object
  placed next asset object a k = rw a k

  -- a read of the asset behind it
  read_completed :
      (w next : World) (asset : MediaAsset) (object : StoredObject) (job : StorageJob)
      → Kept w object asset next
      → lookup ticket.job_id w.jobs ≡ some job
      → job.is_deleted ≡ false
      → (job.workspace_id == ticket.workspace_id) ≡ true
      → (read_asset ticket.workspace_id c.asset_id next).1 ≡ ok object.data_bytes
  unfolding read_asset
  read_completed w next asset object job (e, a, k, t, s, j) f d b =
      let g = owner w next asset object job a f j in
      let o = placed next asset object a k in
      rw (s, find_asset, g, b, d, if◌then◌else◌, read, o, ◌>>=◌) refl

-- A completion of an upload that does not raise, on a ticket whose temporary key is not the final key,
-- for a job of the ticket's workspace that is not deleted: the object under the ticket's key has the
-- expected size, is not larger than the ticket permits, is of the ticket's type by its declared type and
-- by its bytes, and has the expected hash; the temporary key is free behind it, and `read_asset` of the
-- workspace gives exactly the bytes that were uploaded.
pub upload_readback :
    (texts : Texts) (decoders : Decoders) (faults : Faults) (ticket : UploadTicket) (c : Completion)
    (world : World) (asset : MediaAsset) (job : StorageJob)
    → (ticket.object_key == media_key ticket.workspace_id ticket.job_id c.asset_id) ≡ false
    → lookup ticket.job_id world.jobs ≡ some job
    → job.is_deleted ≡ false
    → (job.workspace_id == ticket.workspace_id) ≡ true
    → (complete_upload texts decoders faults ticket c world).1 ≡ ok asset
    → (object : StoredObject) × (lookup ticket.object_key world.objects ≡ some object)
      × (length object.data_bytes ≡ c.expected_size_bytes)
      × (length object.data_bytes ≤ ticket.max_size_bytes)
      × (texts.media_type object.content_type ≡ ticket.expected_mime)
      × (looks_like decoders object.data_bytes ticket.expected_mime ≡ true)
      × (texts.sha256 object.data_bytes ≡ texts.lower c.expected_sha256)
      × (lookup ticket.object_key (complete_upload texts decoders faults ticket c world).0.objects
          ≡ none)
      × ((read_asset ticket.workspace_id c.asset_id
            (complete_upload texts decoders faults ticket c world).0).1
          ≡ ok object.data_bytes)
upload_readback texts decoders faults ticket c world asset job n j d b h =
    let next = (complete_upload texts decoders faults ticket c world).0 in
    let (object, (s, l, m, f, x), k) =
      Gives-result (complete_upload texts decoders faults ticket c world) asset
        (complete_upload-Gives texts decoders faults ticket c world n) h in
    (
      object,
      k.0,
      s,
      l,
      m,
      f,
      x,
      k.3,
      read_completed texts decoders faults ticket c world next asset object job k j d b,
    )
