-- ===== src/Storage/Publish/Writes.antt =====
-- What the body of `publish_artifacts` of packages/object_storage/service.py has written when it raises.
use evidenceclass_agent.Base.{
  ℕ, ◌≡◌, String, Bool, true, false, not, ◌||◌, none, List, [], ◌∷◌, ◌++◌, arith, if◌then◌else◌,
  ℕ_eq, String_eq, same_iff, inl, inr, Bool-cases, Option-cases,
}
use evidenceclass_agent.Base.Dict.{Items, lookup, insert, lookup-insert}
use evidenceclass_agent.Base.Outcome.{Outcome, ok, err}
use evidenceclass_agent.Storage.Effects.{
  StorageError, validation_error, StoredObject, Artifact, World, Faults, Run, raise_if, ◌>>=◌,
  perform, put, copy, tick, written, object_of, is_missing, copied,
}
use evidenceclass_agent.Storage.Formats.{Decoders, is_allowed, looks_like}
use evidenceclass_agent.Storage.Publish.{
  Content, Publication, Encoders, temporary_key, final_key, manifest_key, note_temporary,
  note_final, check_content, store_temporary, store_final, store_manifest, publish_content,
  publish_contents, write_artifacts, recorded, all_artifacts,
}
use evidenceclass_agent.Storage.Removal.{has, has-append}

-- the store as it was, but for the keys that are noted, and those were not there
pub record Before (objects : Items String StoredObject) (artifacts : Items String Artifact)
    (world : World) : Type 0 where
  pub kept :
      (k : String)
      → has k world.temporary_keys ≡ false
      → has k world.final_keys ≡ false
      → lookup k world.objects ≡ lookup k objects
  pub fresh :
      (k : String)
      → has k world.temporary_keys || has k world.final_keys ≡ true
      → lookup k objects ≡ none
  pub rows : world.artifacts ≡ artifacts

-- the keys of the contents are new
abbrev pub Fresh : Items String StoredObject → Publication → List Content → Type 0
Fresh objects p [] = Unit
Fresh objects p (c ∷ contents) =
    (lookup (temporary_key p c.artifact_id) objects ≡ none)
    × (lookup (final_key p c.artifact_id) objects ≡ none)
    × Fresh objects p contents

-- the end of a run: the world is so when it raises, and so when it does not
pub data Ends {A : Type 0} (P Q : World → Type 0) : World × Outcome StorageError A → Type 0 where
  raised : (world : World) (e : StorageError) → P world → Ends P Q (world, err e)
  done : (world : World) (a : A) → Q world → Ends P Q (world, ok a)

Ends->>= :
    {A B : Type 0} {P Q R : World → Type 0} (m : Run A) (rest : A → Run B) (w : World)
    → Ends P Q (m w)
    → ((a : A) (u : World) → Q u → Ends P R (rest a u))
    → Ends P R ((m >>= rest) w)
Ends->>= m rest w h k = behind_ends (m w) rest h k
  where
    behind_ends :
        {A B : Type 0} {P Q R : World → Type 0} (r : World × Outcome StorageError A)
        (rest : A → Run B)
        → Ends P Q r
        → ((a : A) (u : World) → Q u → Ends P R (rest a u))
        → Ends P R (((λ w. r) >>= rest) r.0)
    behind_ends r rest (raised world e q) k = raised world e q
    behind_ends r rest (done world a q) k = k a world q

module _ (objects : Items String StoredObject) (artifacts : Items String Artifact)
    (faults : Faults) where
  abbrev Good : World → Type 0
  Good = Before objects artifacts

  tick-Good : (w : World) → Good w → Good (tick w)
  tick-Good w g = record { kept = g.kept; fresh = g.fresh; rows = g.rows }

  -- a call that raises leaves the world, and one that does not changes it
  perform-Ends :
      {Q : World → Type 0} (fails : ℕ → Bool) (change : World → World) (w : World)
      → Good w
      → Q (change (tick w))
      → Ends Good Q (perform fails change w)
  perform-Ends fails change w g k = elim (Bool-cases (fails w.calls)) [
    | inl f ↦ rw (f, if◌then◌else◌, perform) (raised _ _ (tick-Good w g))
    | inr f ↦ rw (f, if◌then◌else◌, perform) (done _ _ k)
  ]

  copy-Ends :
      {Q : World → Type 0} (source destination : String) (w : World)
      → Good w
      → Q (copied source destination (tick w))
      → Ends Good Q (copy faults source destination w)
  copy-Ends source destination w g k = elim (Bool-cases (is_missing source w)) [
    | inl f ↦ rw (f, if◌then◌else◌, copy) (raised _ _ (tick-Good w g))
    | inr f ↦
        rw (f, if◌then◌else◌, copy) (perform-Ends faults.copies (copied source destination) w g k)
  ]

  raise_if-Ends :
      (b : Bool) (e : StorageError) (w : World) → Good w → Ends Good Good (raise_if b e w)
  raise_if-Ends true e w g = raised _ _ g
  raise_if-Ends false e w g = done _ _ g

  -- a write at a key that is noted at once
  temporary-Good :
      (key : String) (object : StoredObject) (w : World)
      → lookup key objects ≡ none
      → Good w
      → Good (record w {
        objects = insert key object w.objects;
        temporary_keys = w.temporary_keys ++ key ∷ [];
      })
  temporary-Good key object w n g = record {
    kept = λ k t f. ground (
      arith,
      lookup-insert w.objects key object k,
      has-append k w.temporary_keys (key ∷ []),
      g.kept k,
    );
    fresh =
        λ k h. ground (arith, has-append k w.temporary_keys (key ∷ []), g.fresh k, same_iff key k);
    rows = g.rows;
  }

  final-Good :
      (key : String) (object : StoredObject) (w : World)
      → lookup key objects ≡ none
      → Good w
      → Good (record w {
        objects = insert key object w.objects;
        final_keys = w.final_keys ++ key ∷ [];
      })
  final-Good key object w n g = record {
    kept = λ k t f. ground (
      arith,
      lookup-insert w.objects key object k,
      has-append k w.final_keys (key ∷ []),
      g.kept k,
    );
    fresh = λ k h. ground (arith, has-append k w.final_keys (key ∷ []), g.fresh k, same_iff key k);
    rows = g.rows;
  }

  noted-Good :
      (key : String) (w : World)
      → lookup key objects ≡ none
      → Good w
      → Good (record w { final_keys = w.final_keys ++ key ∷ [] })
  noted-Good key w n g = record {
    kept = λ k t f. ground (arith, has-append k w.final_keys (key ∷ []), g.kept k);
    fresh = λ k h. ground (arith, has-append k w.final_keys (key ∷ []), g.fresh k, same_iff key k);
    rows = g.rows;
  }

  copied-Good :
      (source key : String) (w : World)
      → lookup key objects ≡ none
      → Good w
      → Good (note_final key (copied source key w)).0
  copied-Good source key w n g = elim (Option-cases (lookup source w.objects)) [
    | inl f ↦ rw (f, copied, note_final) (noted-Good key w n g)
    | inr (object, f) ↦ rw (f, copied, note_final) (final-Good key object w n g)
  ]

  module _ (decoders : Decoders) (encoders : Encoders) (p : Publication) where
    store_temporary-Ends :
        (c : Content) (w : World)
        → lookup (temporary_key p c.artifact_id) objects ≡ none
        → Good w
        → Ends Good Good (store_temporary decoders encoders faults p c w)
    store_temporary-Ends c w n g =
        let key = temporary_key p c.artifact_id in
        let object = object_of c.data_bytes c.mime in
        Ends->>= (put faults key c.data_bytes c.mime) _ w
          (perform-Ends {Q = λ u. Good (note_temporary key u).0} faults.puts (written key object) w
            g (temporary-Good key object (tick w) n (tick-Good w g)))
          (λ a u q. done _ _ q)

    store_final-Ends :
        (c : Content) (w : World)
        → lookup (final_key p c.artifact_id) objects ≡ none
        → Good w
        → Ends Good Good (store_final decoders encoders faults p c w)
    store_final-Ends c w n g =
        let source = temporary_key p c.artifact_id in
        let key = final_key p c.artifact_id in
        Ends->>= (copy faults source key) _ w
          (copy-Ends {Q = λ u. Good (note_final key u).0} source key w g
            (copied-Good source key (tick w) n (tick-Good w g)))
          (λ a u q. done _ _ q)

    store_manifest-Ends :
        (published : List (String × Artifact)) (w : World)
        → lookup (manifest_key p) objects ≡ none
        → Good w
        → Ends Good Good (store_manifest decoders encoders faults p published w)
    store_manifest-Ends published w n g =
        let key = manifest_key p in
        let object = object_of (encoders.dump_manifest p published) "application/json" in
        Ends->>= (put faults key object.data_bytes object.content_type) _ w
          (perform-Ends {Q = λ u. Good (note_final key u).0} faults.puts (written key object) w g
            (final-Good key object (tick w) n (tick-Good w g)))
          (λ a u q. done _ _ q)

    publish_content-Ends :
        (c : Content) (w : World)
        → lookup (temporary_key p c.artifact_id) objects ≡ none
        → lookup (final_key p c.artifact_id) objects ≡ none
        → Good w
        → Ends Good Good (publish_content decoders encoders faults p c w)
    unfolding publish_content
    publish_content-Ends c w n m g =
        Ends->>= (check_content decoders encoders faults p c) _ w
          (raise_if-Ends (not (is_allowed c.mime) || not (looks_like decoders c.data_bytes c.mime))
            validation_error w g)
          (λ a u q.
            Ends->>= (store_temporary decoders encoders faults p c) _ u
              (store_temporary-Ends c u n q)
              (λ a u q.
                Ends->>= (store_final decoders encoders faults p c) _ u (store_final-Ends c u m q)
                  (λ a u q. done _ _ q)))

    publish_contents-Ends :
        (contents : List Content) (w : World)
        → Fresh objects p contents
        → Good w
        → Ends Good Good (publish_contents decoders encoders faults p contents w)
    unfolding publish_contents
    publish_contents-Ends [] w h g = done w [] g
    publish_contents-Ends (c ∷ contents) w (n, m, h) g =
        Ends->>= (publish_content decoders encoders faults p c) _ w (publish_content-Ends c w n m g)
          (λ a u q.
            Ends->>= (publish_contents decoders encoders faults p contents) _ u
              (publish_contents-Ends contents u h q) (λ rest v r. done _ _ r))

    pub write_artifacts-Ends :
        (w : World)
        → Fresh objects p p.contents
        → lookup (manifest_key p) objects ≡ none
        → Good w
        → Ends Good (λ u. Unit) (write_artifacts decoders encoders faults p w)
    write_artifacts-Ends w h n g =
        Ends->>= (publish_contents decoders encoders faults p p.contents) _ w
          (publish_contents-Ends p.contents w h g)
          (λ published u q.
            Ends->>= (store_manifest decoders encoders faults p published) _ u
              (store_manifest-Ends published u n q)
              (λ a v r.
                let change =
                  recorded decoders encoders faults p
                    (all_artifacts decoders encoders faults p published) in
                Ends->>= {Q = λ x. Unit} (perform faults.commits change) _ v
                  (perform-Ends faults.commits change v r tt) (λ a x s. done _ _ tt)))
