-- ===== src/Retrieval.antt =====
-- The contracts of packages/retrieval/contracts.py and the errors of packages/retrieval/errors.py. An
-- embedding is kept as the number that stands for it, and a score, a float, as its rank among the
-- floats, since the code only compares scores and hands them on. The limits that the contract classes
-- put on the length of a text are not part of the model.
pub mod Registry
pub mod Published
pub mod Chunks
pub mod Ingestion
pub mod Filed
pub mod Ingested
pub mod Query
pub mod Search
pub mod Context
pub mod Budget
pub mod Answers
pub mod Shown
pub mod Isolation
pub mod Histories
pub mod Returns
pub mod Citations
mod Examples
use evidenceclass_agent.Base.{ℕ, String, Bool, Option, List}
use evidenceclass_agent.Base.Outcome.{Outcome}
pub use evidenceclass_agent.Base.Outcome.{ok, err, ◌>>=◌, ◌>>◌, raise_if}

pub data AuthorizationStatus : Type 0 where
  authorized unknown denied : AuthorizationStatus

pub data DocumentStatus : Type 0 where
  registered parsed published superseded : DocumentStatus

pub record SourceRegistration : Type 0 where
  pub document_id : String
  pub workspace_id : String
  pub source_id : String
  pub source_uri : String
  pub title : String
  pub version : String
  pub license_name : String
  pub authorization_status : AuthorizationStatus
  pub sha256 : String

pub record KnowledgeDocumentRecord : Type 0 where
  pub registration : SourceRegistration
  pub status : DocumentStatus
  pub parser_version : Option String
  pub parse_error : Option String

pub record KnowledgeChunk : Type 0 where
  pub chunk_id : String
  pub document_id : String
  pub workspace_id : String
  pub source_id : String
  pub source_uri : String
  pub title : String
  pub version : String
  pub page : Option ℕ
  pub heading : String
  pub ordinal : ℕ
  pub content : String
  pub content_sha256 : String
  pub token_count : ℕ
  pub embedding : Option ℕ

pub record RetrievalFilters : Type 0 where
  pub workspace_id : String
  pub source_ids : List String
  pub versions : List String

-- the exceptions; an `IndexError` is what a list raises
pub data RetrievalError : Type 0 where
  source_registration_error publication_gate_error document_parse_error : RetrievalError
  value_error index_error : RetrievalError

abbrev pub Result {ℓ} : Type ℓ → Type ℓ
Result A = Outcome RetrievalError A
