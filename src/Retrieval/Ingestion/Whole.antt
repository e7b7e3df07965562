-- ===== src/Retrieval/Ingestion/Whole.antt =====
-- The loop of packages/retrieval/ingestion.py over the batches leaves no chunk out.
use evidenceclass_agent.Base.{
  ℕ, zero, suc, ◌≤◌, ◌<◌, String, ◌≡◌, refl, ap, List, [], ◌∷◌, ◌++◌, arith, ℕ_eq, map, take, drop,
  length, length-take, length-drop, length-append, inl, inr,
}
use evidenceclass_agent.Base.Outcome.{Outcome-cases}
use evidenceclass_agent.Retrieval.{KnowledgeChunk, Result, ok}
use evidenceclass_agent.Retrieval.Ingestion.{zip_vectors, embed_batches, embed_chunks}

length-zip_vectors :
    (chunks : List KnowledgeChunk) (vectors : List ℕ)
    → length vectors ≡ length chunks
    → length (zip_vectors chunks vectors) ≡ length chunks
unfolding zip_vectors
length-zip_vectors [] vectors h = refl
length-zip_vectors (c ∷ chunks) [] h = absurd (omega (arith, h))
length-zip_vectors (c ∷ chunks) (vector ∷ vectors) h =
    ap suc (length-zip_vectors chunks vectors (omega (arith, h)))

module _ (embed : List String → Result (List ℕ)) (batch_size : ℕ) (some_size : 0 < batch_size) where
  length-embed_batches :
      (rounds : ℕ) (chunks embedded : List KnowledgeChunk)
      → length chunks ≤ rounds
      → embed_batches embed batch_size rounds chunks ≡ ok embedded
      → length embedded ≡ length chunks
  unfolding embed_batches
  length-embed_batches rounds [] embedded h e = ground arith
  length-embed_batches zero (c ∷ chunks) embedded h e = absurd (omega (arith, h))
  length-embed_batches (suc rounds) (c ∷ chunks) embedded h e =
      let batch = take batch_size (c ∷ chunks) in
      let left = drop batch_size (c ∷ chunks) in
      let fewer = length-drop batch_size (c ∷ chunks) in
      elim (Outcome-cases (embed (map (λ x. x.content) batch))) [
        | inr (error, raised) ↦ absurd (ground arith)
        | inl (vectors, given) ↦ elim (Outcome-cases (embed_batches embed batch_size rounds left)) [
          | inr (error, raised) ↦ absurd (ground arith)
          | inl (rest, done) ↦
              let whole : zip_vectors batch vectors ++ rest ≡ embedded = ground arith in
              let same : length vectors ≡ length batch = ground arith in
              omega (
                arith,
                ap length whole,
                length-append (zip_vectors batch vectors) rest,
                length-zip_vectors batch vectors same,
                length-take batch_size (c ∷ chunks),
                fewer,
                length-embed_batches rounds left rest (omega (arith, fewer, h, some_size)) done,
              )
        ]
      ]

  -- As many rounds as there are chunks are enough: the embedded chunks are as many.
  length-embed_chunks :
      (chunks embedded : List KnowledgeChunk)
      → embed_chunks embed batch_size chunks ≡ ok embedded
      → length embedded ≡ length chunks
  unfolding embed_chunks
  length-embed_chunks chunks embedded e =
      length-embed_batches (length chunks) chunks embedded (omega arith) (ground arith)
