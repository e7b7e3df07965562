-- ===== src/Retrieval/Chunks.antt =====
-- `HierarchicalChunker` of packages/retrieval/parsing.py. `re`'s search for the tokens of a text, the
-- slices and the `strip` of a text and SHA-256 are parameters. A token is where its match starts and
-- ends. `parse` gives the chunker its sections.
pub mod Windows
use evidenceclass_agent.Base.{
  ℕ, zero, suc, ◌+◌, ◌-◌, min, max, String, Bool, true, false, ◌||◌, Option, none, some, List, [],
  ◌∷◌, ◌++◌, map, if◌then◌else◌, ◌==◌, ℕ_eq, String_eq, ltb, leb, length,
}
use evidenceclass_agent.Retrieval.{
  SourceRegistration, KnowledgeChunk, Result, ok, err, ◌>>=◌, ◌>>◌, raise_if, value_error,
}

pub record ParsedSection : Type 0 where
  pub page : Option ℕ
  pub heading : String
  pub content : String

pub record Chunker : Type 0 where
  pub max_tokens : ℕ
  pub overlap_tokens : ℕ

-- a negative overlap, which is refused as well, is no number here
unfoldable pub new_chunker : ℕ → ℕ → Result Chunker
new_chunker max_tokens overlap_tokens = do
  raise_if (ltb max_tokens 20) value_error
  raise_if (leb max_tokens overlap_tokens) value_error
  ok (record { max_tokens = max_tokens; overlap_tokens = overlap_tokens })

-- The tokens from the first to before the second number.
abbrev pub Window : Type 0
Window = ℕ × ℕ

-- the `while` of `_split_window`, for a text with `count` tokens; a round moves `start` by at least one
unfoldable pub windows : Chunker → ℕ → ℕ → ℕ → List Window
windows chunker zero count start = []
windows chunker (suc fuel) count start =
    let end = min (start + chunker.max_tokens) count in
    let rest = windows chunker fuel count (end - chunker.overlap_tokens) in
    if ltb start count then (start, end) ∷ (if end == count then [] else rest) else []

-- what the chunker calls: tokens, `text[start:end]`, `strip`, and the two digests
pub record Texts : Type 0 where
  pub find_tokens : String → List (ℕ × ℕ)
  pub slice : String → ℕ → ℕ → String
  pub strip : String → String
  pub sha256 : String → String
  pub chunk_digest : SourceRegistration → ParsedSection → ℕ → String → String

-- `matches[index]`; the code only reads a token that is there
unfoldable token_at : List (ℕ × ℕ) → ℕ → ℕ × ℕ
token_at [] index = (0, 0)
token_at (token ∷ tokens) zero = token
token_at (token ∷ tokens) (suc index) = token_at tokens index

module _ (texts : Texts) where
  abbrev pub count_tokens : String → ℕ
  count_tokens text = length (texts.find_tokens text)

  -- the excerpt of a window
  abbrev excerpt : String → List (ℕ × ℕ) → Window → String
  excerpt content tokens window =
      texts.strip
        (texts.slice content (token_at tokens window.0).0 (token_at tokens (window.1 - 1)).1)

  -- the excerpts that are not empty
  unfoldable excerpts : String → List (ℕ × ℕ) → List Window → List String
  excerpts content tokens [] = []
  excerpts content tokens (window ∷ others) =
      let rest = excerpts content tokens others in
      if excerpt content tokens window == "" then rest else excerpt content tokens window ∷ rest

  unfoldable pub split_window : Chunker → String → List String
  unfolding windows excerpts token_at
  split_window chunker content =
      let tokens = texts.find_tokens content in
      let count = length tokens in
      if count == 0
      then []
      else if leb count chunker.max_tokens
      then texts.strip content ∷ []
      else excerpts content tokens (windows chunker count count 0)

  abbrev pub new_chunk : SourceRegistration → ParsedSection → ℕ → String → KnowledgeChunk
  new_chunk registration section ordinal content = record {
    chunk_id = texts.chunk_digest registration section ordinal (texts.sha256 content);
    document_id = registration.document_id;
    workspace_id = registration.workspace_id;
    source_id = registration.source_id;
    source_uri = registration.source_uri;
    title = registration.title;
    version = registration.version;
    page = section.page;
    heading = section.heading;
    ordinal = ordinal;
    content = content;
    content_sha256 = texts.sha256 content;
    token_count = max 1 (count_tokens content);
    embedding = none;
  }

  -- the inner loop, which counts the chunks of the document
  unfoldable pub chunk_section :
      SourceRegistration → ParsedSection → ℕ → List String → List KnowledgeChunk
  chunk_section registration section ordinal [] = []
  chunk_section registration section ordinal (content ∷ contents) =
      new_chunk registration section ordinal content
      ∷ chunk_section registration section (ordinal + 1) contents

  unfoldable pub chunk_from :
      Chunker → SourceRegistration → ℕ → List ParsedSection → List KnowledgeChunk
  unfolding chunk_section split_window
  chunk_from chunker registration ordinal [] = []
  chunk_from chunker registration ordinal (section ∷ sections) =
      let contents = split_window chunker section.content in
      chunk_section registration section ordinal contents
      ++ chunk_from chunker registration (ordinal + length contents) sections

  -- `HierarchicalChunker.chunk`
  unfoldable pub chunk : Chunker → SourceRegistration → List ParsedSection → List KnowledgeChunk
  unfolding chunk_from
  chunk chunker registration sections = chunk_from chunker registration 0 sections
