-- ===== src/Retrieval/Filed.antt =====
-- How the two dictionaries of packages/retrieval/registry.py belong together.
pub mod Chunks
pub mod Operations
use mathlib.Core.Path.{subst}
use evidenceclass_agent.Base.{
  String, ◌≡◌, refl, sym, ap, ◌∙◌, none, some, List, [], ◌∷◌, arith, ◌==◌, String_eq, same_iff, inl,
  inr, if_intro, Bool-cases, Option-cases,
}
use evidenceclass_agent.Base.Dict.{Items, lookup, insert, lookup-insert, lookup-remove}
use evidenceclass_agent.Base.Members.{IsDict, insert-IsDict, remove-IsDict, All, All-weaken}
use evidenceclass_agent.Retrieval.{SourceRegistration, KnowledgeDocumentRecord, KnowledgeChunk, ok}
use evidenceclass_agent.Retrieval.Published.Rivals.{lookup-supersede}
use evidenceclass_agent.Retrieval.Registry.{
  Repository, new_repository, new_document, register, mark_parsed, mark_parse_failed, publish,
  delete_chunk, as_parsed, as_failed, as_published, demoted, supersede, with_chunks,
  without_document, with_document, with_published,
}

-- A chunk is filed under its own identifier and is of a kind, its document is known, and both name one
-- workspace.
abbrev pub IsOwned :
    (KnowledgeChunk → Type 0)
    → String
    → KnowledgeChunk
    → Items String KnowledgeDocumentRecord
    → Type 0
IsOwned Kind k c documents =
    (c.chunk_id ≡ k)
    × Kind c
    × (r : KnowledgeDocumentRecord) × (lookup c.document_id documents ≡ some r)
    × (c.workspace_id ≡ r.registration.workspace_id)

pub record IsFiled (Kind : KnowledgeChunk → Type 0) (repository : Repository) : Type 0 where
  pub documents_unique : IsDict repository.documents
  pub chunks_unique : IsDict repository.chunks
  pub owned :
      (k : String) (c : KnowledgeChunk)
      → lookup k repository.chunks ≡ some c
      → IsOwned Kind k c repository.documents

pub new_repository-IsFiled : (Kind : KnowledgeChunk → Type 0) → IsFiled Kind new_repository
unfolding lookup
new_repository-IsFiled Kind = record {
  documents_unique = tt;
  chunks_unique = tt;
  owned = λ k c h. absurd (ground arith);
}

-- a document stays what it was registered as
abbrev Keeps : Items String KnowledgeDocumentRecord → Items String KnowledgeDocumentRecord → Type 0
Keeps before behind =
    (j : String) (r : KnowledgeDocumentRecord)
    → lookup j before ≡ some r
    → (s : KnowledgeDocumentRecord) × (lookup j behind ≡ some s) × (s.registration ≡ r.registration)

pub IsOwned-Keeps :
    (Kind : KnowledgeChunk → Type 0) (k : String) (c : KnowledgeChunk)
    (before behind : Items String KnowledgeDocumentRecord)
    → Keeps before behind
    → IsOwned Kind k c before
    → IsOwned Kind k c behind
IsOwned-Keeps Kind k c before behind keeps (i, q, r, h, w) =
    let (s, l, e) = keeps c.document_id r h in (i, q, s, l, w ∙ ap (λ x. x.workspace_id) (sym e))

-- a new document
pub insert_new-Keeps :
    (i : String) (document : KnowledgeDocumentRecord)
    (documents : Items String KnowledgeDocumentRecord)
    → lookup i documents ≡ none
    → Keeps documents (insert i document documents)
insert_new-Keeps i document documents new j r h =
    (r, ground (arith, lookup-insert documents i document j, same_iff i j), refl)

-- a changed one
pub insert-Keeps :
    (i : String) (old document : KnowledgeDocumentRecord)
    (documents : Items String KnowledgeDocumentRecord)
    → lookup i documents ≡ some old
    → document.registration ≡ old.registration
    → Keeps documents (insert i document documents)
insert-Keeps i old document documents known e j r h = elim (Bool-cases (i == j)) [
  | inl same ↦
      let f : old ≡ r = ground (arith, same_iff i j) in
      (
        document,
        ground (arith, lookup-insert documents i document j),
        e ∙ ap (λ (x : KnowledgeDocumentRecord). x.registration) f,
      )
  | inr other ↦ (r, ground (arith, lookup-insert documents i document j), refl)
]

pub supersede-Keeps :
    (document_id : String) (registration : SourceRegistration)
    (documents : Items String KnowledgeDocumentRecord)
    → Keeps documents (supersede document_id registration documents)
supersede-Keeps document_id registration documents j r h = (
  demoted document_id registration j r,
  rw (lookup-supersede document_id registration documents j, h) refl,
  if_intro (λ (x : KnowledgeDocumentRecord). x.registration ≡ r.registration) _ _ _ refl refl,
)

pub supersede-IsDict :
    (document_id : String) (registration : SourceRegistration)
    (documents : Items String KnowledgeDocumentRecord)
    → IsDict documents
    → IsDict (supersede document_id registration documents)
unfolding supersede
supersede-IsDict document_id registration [] d = tt
supersede-IsDict document_id registration ((i, r) ∷ documents) d = (
  ground (arith, lookup-supersede document_id registration documents i, d.0),
  supersede-IsDict document_id registration documents d.1,
)
