-- ===== src/Retrieval/Published/Rivals.antt =====
-- What a publication of packages/retrieval/registry.py leaves published.

use evidenceclass_agent.Base.{
  String, ◌≡◌, refl, true, false, none, some, [], ◌∷◌, arith, ◌==◌, String_eq, if◌then◌else◌,
  same_iff, inl, inr, Bool-cases, Option-cases,
}
use evidenceclass_agent.Base.Dict.{Items, lookup, lookup-insert}
use evidenceclass_agent.Retrieval.{SourceRegistration, KnowledgeDocumentRecord}
use evidenceclass_agent.Retrieval.Registry.{
  Repository, is_published, demoted, is_rival, with_published, supersede, as_published,
}

pub lookup-supersede :
    (document_id : String) (registration : SourceRegistration)
    (documents : Items String KnowledgeDocumentRecord) (j : String)
    → lookup j (supersede document_id registration documents) ≡ elim (lookup j documents) [
      | none ↦ none
      | some other ↦ some (demoted document_id registration j other)
    ]
unfolding lookup supersede
lookup-supersede document_id registration [] j = refl
lookup-supersede document_id registration ((i, other) ∷ documents) j = elim (Bool-cases (i == j)) [
  | inl same ↦ rw (same, (same_iff i j).0 same) refl
  | inr new ↦ rw (new) (lookup-supersede document_id registration documents j)
]

-- The documents behind a publication: the published one, and the others without its rivals.
pub lookup-published :
    (document_id : String) (document : KnowledgeDocumentRecord) (repository : Repository)
    (j : String)
    → lookup j (with_published document_id document repository).documents ≡ (
        if document_id == j
        then some (as_published document)
        else elim (lookup j repository.documents) [
          | none ↦ none
          | some other ↦ some (demoted document_id document.registration j other)
        ])
lookup-published document_id document repository j = rw (
  lookup-insert (supersede document_id document.registration repository.documents) document_id
      (as_published document) j,
  lookup-supersede document_id document.registration repository.documents j,
)

-- another published document behind a publication: it was there before, and is of another source
pub rest_of_publish :
    (document_id : String) (document : KnowledgeDocumentRecord) (repository : Repository)
    (j : String) (s : KnowledgeDocumentRecord)
    → (document_id == j) ≡ false
    → lookup j (with_published document_id document repository).documents ≡ some s
    → is_published s.status ≡ true
    → (lookup j repository.documents ≡ some s) × (is_rival document.registration s ≡ false)
rest_of_publish document_id document repository j s new h p =
    elim (Option-cases (lookup j repository.documents)) [
      | inl unknown ↦ absurd (ground (arith, lookup-published document_id document repository j))
      | inr (other, known) ↦
          let e : s ≡ demoted document_id document.registration j other =
            ground (arith, lookup-published document_id document repository j) in
          elim (Bool-cases (is_rival document.registration other)) [
            | inl rival ↦ absurd (ground (arith, same_iff j document_id, same_iff document_id j))
            | inr fine ↦
                let kept : s ≡ other = ground (arith, same_iff j document_id) in
                (rw kept known, rw kept fine)
          ]
    ]

-- No other document of the source is published behind a publication.
pub alone :
    (document_id : String) (document : KnowledgeDocumentRecord) (repository : Repository)
    (i j : String) (r s : KnowledgeDocumentRecord)
    → (document_id == i) ≡ true
    → (document_id == j) ≡ false
    → lookup i (with_published document_id document repository).documents ≡ some r
    → lookup j (with_published document_id document repository).documents ≡ some s
    → is_published s.status ≡ true
    → r.registration.workspace_id ≡ s.registration.workspace_id
    → r.registration.source_id ≡ s.registration.source_id
    → ⊥
alone document_id document repository i j r s same other h k q w o =
    let e : r ≡ as_published document =
      ground (arith, lookup-published document_id document repository i) in
    let f : r.registration ≡ document.registration = rw e refl in
    let free = (rest_of_publish document_id document repository j s other k q).1 in
    ground (
      arith,
      free,
      same_iff s.registration.workspace_id document.registration.workspace_id,
      same_iff s.registration.source_id document.registration.source_id,
    )
