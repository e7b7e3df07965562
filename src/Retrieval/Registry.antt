-- ===== src/Retrieval/Registry.antt =====
-- The repository of packages/retrieval/registry.py: its documents and its chunks, two dictionaries. An
-- operation gives the repository that it leaves, or raises before it has changed anything.
use evidenceclass_agent.Base.{
  String, Bool, true, false, not, ◌&&◌, ◌||◌, Option, none, some, List, [], ◌∷◌, if◌then◌else◌,
  ◌==◌, String_eq,
}
use evidenceclass_agent.Base.Dict.{Items, lookup, insert, remove}
use evidenceclass_agent.Base.Members.{contains}
use evidenceclass_agent.Retrieval.{
  AuthorizationStatus, authorized, DocumentStatus, registered, parsed, published, superseded,
  SourceRegistration, KnowledgeDocumentRecord, KnowledgeChunk, RetrievalFilters, Result, ok, err,
  ◌>>=◌, ◌>>◌, raise_if, source_registration_error, publication_gate_error,
}

pub record Repository : Type 0 where
  pub documents : Items String KnowledgeDocumentRecord
  pub chunks : Items String KnowledgeChunk

abbrev pub new_repository : Repository
new_repository = record { documents = []; chunks = [] }

abbrev pub unknown_license_values : List String
unknown_license_values = "unknown" ∷ "unverified" ∷ "n/a" ∷ "none" ∷ "未知" ∷ []

abbrev pub is_published : DocumentStatus → Bool
is_published published = true
is_published status = false

abbrev is_parsed : DocumentStatus → Bool
is_parsed parsed = true
is_parsed status = false

abbrev pub is_authorized : AuthorizationStatus → Bool
is_authorized authorized = true
is_authorized status = false

-- the `any` of `register`
unfoldable pub is_registered : SourceRegistration → Items String KnowledgeDocumentRecord → Bool
is_registered registration [] = false
is_registered registration (item ∷ documents) =
    (item.1.registration.workspace_id == registration.workspace_id
      && item.1.registration.source_id == registration.source_id
      && item.1.registration.version == registration.version)
    || is_registered registration documents

abbrev pub require_document : String → Repository → Result KnowledgeDocumentRecord
require_document document_id repository = elim (lookup document_id repository.documents) [
  | none ↦ err source_registration_error
  | some document ↦ ok document
]

-- `document_id in self._documents`
abbrev is_known : String → Repository → Bool
is_known document_id repository = elim (lookup document_id repository.documents) [
  | none ↦ false
  | some document ↦ true
]

abbrev pub with_document : String → KnowledgeDocumentRecord → Repository → Repository
with_document document_id document repository = record repository {
  documents = insert document_id document repository.documents;
}

abbrev pub new_document : SourceRegistration → KnowledgeDocumentRecord
new_document registration = record {
  registration = registration;
  status = registered;
  parser_version = none;
  parse_error = none;
}

unfoldable pub register : SourceRegistration → Repository → Result Repository
register registration repository = do
  raise_if (is_known registration.document_id repository) source_registration_error
  raise_if (is_registered registration repository.documents) source_registration_error
  ok (with_document registration.document_id (new_document registration) repository)

-- some chunk of the list is of another document
unfoldable has_other : String → List KnowledgeChunk → Bool
has_other document_id [] = false
has_other document_id (chunk ∷ chunks) =
    not (chunk.document_id == document_id) || has_other document_id chunks

unfoldable has_id : String → List KnowledgeChunk → Bool
has_id chunk_id [] = false
has_id chunk_id (chunk ∷ chunks) = chunk.chunk_id == chunk_id || has_id chunk_id chunks

-- some identifier stands twice: the set of them is smaller than the list
unfoldable has_repeated : List KnowledgeChunk → Bool
unfolding has_id
has_repeated [] = false
has_repeated (chunk ∷ chunks) = has_id chunk.chunk_id chunks || has_repeated chunks

-- the loop of `mark_parsed` that deletes the chunks of a document
unfoldable pub without_document : String → Items String KnowledgeChunk → Items String KnowledgeChunk
without_document document_id [] = []
without_document document_id (item ∷ chunks) =
    let rest = without_document document_id chunks in
    if item.1.document_id == document_id then rest else item ∷ rest

-- `self._chunks.update`
unfoldable pub with_chunks :
    List KnowledgeChunk → Items String KnowledgeChunk → Items String KnowledgeChunk
with_chunks [] chunks = chunks
with_chunks (chunk ∷ others) chunks = with_chunks others (insert chunk.chunk_id chunk chunks)

abbrev pub is_empty : {A : Type 0} → List A → Bool
is_empty [] = true
is_empty (x ∷ xs) = false

abbrev pub as_parsed : String → KnowledgeDocumentRecord → KnowledgeDocumentRecord
as_parsed version document = record document {
  status = parsed;
  parser_version = some version;
  parse_error = none;
}

unfoldable pub mark_parsed : String → List KnowledgeChunk → String → Repository → Result Repository
unfolding has_other has_repeated
mark_parsed document_id chunks version repository = do
  document ← require_document document_id repository
  raise_if (is_empty chunks) source_registration_error
  raise_if (has_other document_id chunks) source_registration_error
  raise_if (has_repeated chunks) source_registration_error
  let kept = with_chunks chunks (without_document document_id repository.chunks)
  ok (with_document document_id (as_parsed version document) (record repository { chunks = kept }))

abbrev pub as_failed : String → KnowledgeDocumentRecord → KnowledgeDocumentRecord
as_failed error document = record document { parse_error = some error }

unfoldable pub mark_parse_failed : String → String → Repository → Result Repository
mark_parse_failed document_id error repository = do
  document ← require_document document_id repository
  ok (with_document document_id (as_failed error document) repository)

-- `any` over the chunks, in `publish`
unfoldable pub has_chunk : String → Items String KnowledgeChunk → Bool
has_chunk document_id [] = false
has_chunk document_id (item ∷ chunks) =
    item.1.document_id == document_id || has_chunk document_id chunks

-- the conditions of `publish`, all of which are tried; one failure is enough for the exception.
-- `casefold` is that of a Python text.
unfoldable pub passes_gate :
    (String → String) → Repository → KnowledgeDocumentRecord → String → Bool
passes_gate casefold repository document document_id =
    is_parsed document.status
    && is_authorized document.registration.authorization_status
    && not (contains unknown_license_values (casefold document.registration.license_name))
    && has_chunk document_id repository.chunks

-- a published document of the same workspace and source
abbrev pub is_rival : SourceRegistration → KnowledgeDocumentRecord → Bool
is_rival registration other =
    is_published other.status
    && other.registration.workspace_id == registration.workspace_id
    && other.registration.source_id == registration.source_id

abbrev pub demoted :
    String → SourceRegistration → String → KnowledgeDocumentRecord → KnowledgeDocumentRecord
demoted document_id registration other_id other =
    if not (other_id == document_id) && is_rival registration other
    then record other { status = superseded }
    else other

-- the loop of `publish`
unfoldable pub supersede :
    String
    → SourceRegistration
    → Items String KnowledgeDocumentRecord
    → Items String KnowledgeDocumentRecord
supersede document_id registration [] = []
supersede document_id registration (item ∷ documents) =
    (item.0, demoted document_id registration item.0 item.1)
    ∷ supersede document_id registration documents

abbrev pub as_published : KnowledgeDocumentRecord → KnowledgeDocumentRecord
as_published document = record document { status = published }

abbrev pub with_published : String → KnowledgeDocumentRecord → Repository → Repository
with_published document_id document repository = record repository {
  documents =
      insert document_id (as_published document)
        (supersede document_id document.registration repository.documents);
}

unfoldable pub publish : (String → String) → String → Repository → Result Repository
publish casefold document_id repository = do
  document ← require_document document_id repository
  raise_if (not (passes_gate casefold repository document document_id)) publication_gate_error
  ok (with_published document_id document repository)

unfoldable pub delete_chunk : String → Repository → Repository
delete_chunk chunk_id repository = record repository { chunks = remove chunk_id repository.chunks }

abbrev pub get_chunk : String → Repository → Option KnowledgeChunk
get_chunk chunk_id repository = lookup chunk_id repository.chunks

abbrev pub document_for_chunk : String → Repository → Option KnowledgeDocumentRecord
document_for_chunk chunk_id repository = elim (lookup chunk_id repository.chunks) [
  | none ↦ none
  | some chunk ↦ lookup chunk.document_id repository.documents
]

-- `not names or name in names`
abbrev pub accepts : List String → String → Bool
accepts names name = is_empty names || contains names name

unfoldable pub is_allowed : RetrievalFilters → KnowledgeDocumentRecord → Bool
unfolding contains
is_allowed filters document =
    is_published document.status
    && document.registration.workspace_id == filters.workspace_id
    && accepts filters.source_ids document.registration.source_id
    && accepts filters.versions document.registration.version

-- the identifiers of the documents that the filters allow
unfoldable pub allowed_documents :
    RetrievalFilters → Items String KnowledgeDocumentRecord → List String
unfolding is_allowed
allowed_documents filters [] = []
allowed_documents filters (item ∷ documents) =
    let rest = allowed_documents filters documents in
    if is_allowed filters item.1 then item.0 ∷ rest else rest

abbrev pub is_embedded : KnowledgeChunk → Bool
is_embedded chunk = elim chunk.embedding [ none ↦ false | some vector ↦ true ]

unfoldable pub searchable : List String → Items String KnowledgeChunk → List KnowledgeChunk
unfolding contains
searchable allowed [] = []
searchable allowed (item ∷ chunks) =
    let rest = searchable allowed chunks in
    if contains allowed item.1.document_id && is_embedded item.1 then item.1 ∷ rest else rest

unfoldable pub list_searchable_chunks : RetrievalFilters → Repository → List KnowledgeChunk
unfolding searchable allowed_documents
list_searchable_chunks filters repository =
    searchable (allowed_documents filters repository.documents) repository.chunks
