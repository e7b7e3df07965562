-- ===== src/Retrieval/Filed/Chunks.antt =====
-- The chunks that an operation of packages/retrieval/registry.py leaves.
use mathlib.Core.Path.{subst}
use evidenceclass_agent.Base.{
  String, ◌≡◌, refl, none, some, List, [], ◌∷◌, arith, ◌==◌, String_eq, same_iff, inl, inr,
  if_intro, Bool-cases,
}
use evidenceclass_agent.Base.Dict.{Items, lookup, insert, lookup-insert}
use evidenceclass_agent.Base.Members.{IsDict, insert-IsDict, All}
use evidenceclass_agent.Retrieval.{KnowledgeChunk}
use evidenceclass_agent.Retrieval.Registry.{with_chunks, without_document}

without_document-none :
    (document_id : String) (chunks : Items String KnowledgeChunk) (k : String)
    → lookup k chunks ≡ none
    → lookup k (without_document document_id chunks) ≡ none
unfolding lookup without_document
without_document-none document_id [] k h = refl
without_document-none document_id ((j, b) ∷ chunks) k h =
    ground (arith, without_document-none document_id chunks k)

-- the chunks that a deletion of a document's leaves
pub lookup-without_document :
    (document_id : String) (chunks : Items String KnowledgeChunk) (k : String) (c : KnowledgeChunk)
    → lookup k (without_document document_id chunks) ≡ some c
    → IsDict chunks
    → lookup k chunks ≡ some c
unfolding lookup without_document
lookup-without_document document_id [] k c h d = absurd (ground arith)
lookup-without_document document_id ((j, b) ∷ chunks) k c h d = ground (
  arith,
  d.0,
  same_iff j k,
  without_document-none document_id chunks k,
  lookup-without_document document_id chunks k c,
  d.1,
)

pub without_document-IsDict :
    (document_id : String) (chunks : Items String KnowledgeChunk)
    → IsDict chunks
    → IsDict (without_document document_id chunks)
unfolding without_document
without_document-IsDict document_id [] d = tt
without_document-IsDict document_id ((j, b) ∷ chunks) d =
    if_intro IsDict (b.document_id == document_id) _ _
      (without_document-IsDict document_id chunks d.1)
      (
        without_document-none document_id chunks j d.0,
        without_document-IsDict document_id chunks d.1,
      )

pub with_chunks-IsDict :
    (added : List KnowledgeChunk) (chunks : Items String KnowledgeChunk)
    → IsDict chunks
    → IsDict (with_chunks added chunks)
unfolding with_chunks
with_chunks-IsDict [] chunks d = d
with_chunks-IsDict (c ∷ added) chunks d =
    with_chunks-IsDict added _ (insert-IsDict c.chunk_id c chunks d)

-- what stands in the chunks behind an update stood there before, or is one of those added
pub lookup-with_chunks :
    (Q : String → KnowledgeChunk → Type 0) (added : List KnowledgeChunk)
    (chunks : Items String KnowledgeChunk)
    → All (λ c. Q c.chunk_id c) added
    → ((k : String) (c : KnowledgeChunk) → lookup k chunks ≡ some c → Q k c)
    → (k : String) (c : KnowledgeChunk) → lookup k (with_chunks added chunks) ≡ some c
    → Q k c
unfolding with_chunks
lookup-with_chunks Q [] chunks new old k c h = old k c h
lookup-with_chunks Q (a ∷ added) chunks new old k c h =
    lookup-with_chunks Q added (insert a.chunk_id a chunks) new.1
      (λ j b g. elim (Bool-cases (a.chunk_id == j)) [
        | inl same ↦
            let e : a ≡ b = ground (arith, lookup-insert chunks a.chunk_id a j) in
            subst (Q j) e (subst (λ i. Q i a) ((same_iff a.chunk_id j).0 same) new.0)
        | inr other ↦ old j b (ground (arith, lookup-insert chunks a.chunk_id a j))
      ])
      k c h
