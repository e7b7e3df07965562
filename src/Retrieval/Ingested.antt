-- ===== src/Retrieval/Ingested.antt =====
-- What packages/retrieval/ingestion.py leaves in the repository.
pub mod Stored
use mathlib.Core.Path.{subst}
use evidenceclass_agent.Base.{
  ℕ, zero, suc, ◌+◌, String, ◌≡◌, refl, some, List, [], ◌∷◌, ◌++◌, arith, max, ℕ_eq, String_eq,
  length, take, drop, map, inl, inr,
}
use evidenceclass_agent.Base.Dict.{lookup, lookup-insert_self}
use evidenceclass_agent.Base.Members.{All, All-append, All-take, All-drop, All-weaken}
use evidenceclass_agent.Base.Outcome.{Outcome-cases}
use evidenceclass_agent.Retrieval.{
  SourceRegistration, KnowledgeDocumentRecord, KnowledgeChunk, RetrievalError, ok, Result,
}
use evidenceclass_agent.Retrieval.Registry.{
  Repository, new_document, register, mark_parsed, mark_parse_failed, with_document,
}
use evidenceclass_agent.Retrieval.Filed.{IsFiled}
use evidenceclass_agent.Retrieval.Filed.Operations.{
  register-IsFiled, mark_parsed-IsFiled, mark_parse_failed-IsFiled,
}
use evidenceclass_agent.Retrieval.Chunks.{
  ParsedSection, Chunker, Texts, count_tokens, split_window, chunk_section, chunk_from, chunk,
}
use evidenceclass_agent.Retrieval.Ingestion.{
  Source, zip_vectors, embed_batches, embed_chunks, ingest_parsed, ingest_registered, caught,
  settled, ingest,
}

-- The chunker counts the tokens of a chunk, at least one, and hashes its content.
abbrev pub IsMade : Texts → KnowledgeChunk → Type 0
IsMade texts c =
    (c.token_count ≡ max 1 (count_tokens texts c.content))
    × (c.content_sha256 ≡ texts.sha256 c.content)

-- a chunk as the chunker makes it
abbrev pub IsFrom : Texts → SourceRegistration → KnowledgeChunk → Type 0
IsFrom texts registration c =
    (c.document_id ≡ registration.document_id)
    × (c.workspace_id ≡ registration.workspace_id)
    × IsMade texts c

the_value : {A : Type 0} (a b : A) → ◌≡◌ {A = Result A} (ok a) (ok b) → a ≡ b
the_value a b e = ground arith

module _ (texts : Texts) (registration : SourceRegistration) where
  chunk_section-IsFrom :
      (section : ParsedSection) (ordinal : ℕ) (contents : List String)
      → All (IsFrom texts registration) (chunk_section texts registration section ordinal contents)
  unfolding chunk_section
  chunk_section-IsFrom section ordinal [] = tt
  chunk_section-IsFrom section ordinal (content ∷ contents) =
      ((refl, refl, (refl, refl)), chunk_section-IsFrom section (ordinal + 1) contents)

  chunk_from-IsFrom :
      (chunker : Chunker) (ordinal : ℕ) (sections : List ParsedSection)
      → All (IsFrom texts registration) (chunk_from texts chunker registration ordinal sections)
  unfolding chunk_from
  chunk_from-IsFrom chunker ordinal [] = tt
  chunk_from-IsFrom chunker ordinal (section ∷ sections) =
      let contents = split_window texts chunker section.content in
      All-append (IsFrom texts registration) _ _ (chunk_section-IsFrom section ordinal contents)
        (chunk_from-IsFrom chunker (ordinal + length contents) sections)

  zip_vectors-IsFrom :
      (chunks : List KnowledgeChunk) (vectors : List ℕ)
      → All (IsFrom texts registration) chunks
      → All (IsFrom texts registration) (zip_vectors chunks vectors)
  unfolding zip_vectors
  zip_vectors-IsFrom [] vectors h = tt
  zip_vectors-IsFrom (c ∷ chunks) [] h = tt
  zip_vectors-IsFrom (c ∷ chunks) (vector ∷ vectors) h =
      (h.0, zip_vectors-IsFrom chunks vectors h.1)

  module _ (embed : List String → Result (List ℕ)) (batch_size : ℕ) where
    embed_batches-IsFrom :
        (rounds : ℕ) (chunks embedded : List KnowledgeChunk)
        → embed_batches embed batch_size rounds chunks ≡ ok embedded
        → All (IsFrom texts registration) chunks
        → All (IsFrom texts registration) embedded
    unfolding embed_batches
    embed_batches-IsFrom rounds [] embedded e h =
        subst (All (IsFrom texts registration)) (the_value [] embedded e) tt
    embed_batches-IsFrom zero (c ∷ chunks) embedded e h =
        subst (All (IsFrom texts registration)) (the_value [] embedded e) tt
    embed_batches-IsFrom (suc rounds) (c ∷ chunks) embedded e h =
        let batch = take batch_size (c ∷ chunks) in
        let left = drop batch_size (c ∷ chunks) in
        elim (Outcome-cases (embed (map (λ x. x.content) batch))) [
          | inr (error, raised) ↦ absurd (ground arith)
          | inl (vectors, given) ↦
              elim (Outcome-cases (embed_batches embed batch_size rounds left)) [
                | inr (error, raised) ↦ absurd (ground arith)
                | inl (rest, done) ↦
                    let whole : zip_vectors batch vectors ++ rest ≡ embedded = ground arith in
                    subst (All (IsFrom texts registration)) whole (
                      All-append (IsFrom texts registration) _ _
                        (zip_vectors-IsFrom batch vectors
                          (All-take (IsFrom texts registration) batch_size _ h))
                        (embed_batches-IsFrom rounds left rest done
                          (All-drop (IsFrom texts registration) batch_size _ h)))
              ]
        ]

    pub embed_chunks-IsFrom :
        (chunker : Chunker) (sections : List ParsedSection) (embedded : List KnowledgeChunk)
        → embed_chunks embed batch_size (chunk texts chunker registration sections) ≡ ok embedded
        → All (IsFrom texts registration) embedded
    unfolding embed_chunks chunk
    embed_chunks-IsFrom chunker sections embedded e =
        let chunks = chunk_from texts chunker registration 0 sections in
        embed_batches-IsFrom (length chunks) chunks embedded (ground arith)
          (chunk_from-IsFrom chunker 0 sections)
