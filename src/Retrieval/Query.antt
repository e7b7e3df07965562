-- ===== src/Retrieval/Query.antt =====
-- `QueryRewriter` of packages/retrieval/service.py. `base` is Python's
-- `QUERY_SPACE_PATTERN.sub(" ", query.strip().casefold())`, `within` its `in` on texts, and `words` the
-- texts of the matches of TOKEN_PATTERN; all three are parameters.
use Prim.Native.String.{◌++◌ as ◌<>◌}
use evidenceclass_agent.Base.{
  String, Bool, true, false, ◌&&◌, List, [], ◌∷◌, ◌++◌, if◌then◌else◌, ◌==◌, String_eq,
}
use evidenceclass_agent.Base.Members.{contains}
use evidenceclass_agent.Retrieval.Registry.{is_empty}
use evidenceclass_agent.Retrieval.{RetrievalFilters, Result, ok, ◌>>◌, raise_if, value_error}

pub record StructuredQuery : Type 0 where
  pub original : String
  pub normalized : String
  pub terms : List String
  pub filters : RetrievalFilters

-- triggers and what they add
abbrev pub Expansion : Type 0
Expansion = List String × List String

abbrev pub domain_query_expansions : List Expansion
domain_query_expansions =
    ("授权" ∷ "许可证" ∷ [], "authorization" ∷ "license" ∷ "publication gate" ∷ [])
    ∷ ("租户" ∷ "候选" ∷ [], "workspace boundary" ∷ "metadata filter" ∷ "candidate set" ∷ [])
    ∷ ("抽样" ∷ "整堂课" ∷ [], "sampled occurrence" ∷ "whole lesson duration" ∷ [])
    ∷ ("说话人分离" ∷ "师生发言" ∷ [], "diarization" ∷ "speaker role" ∷ "speech ratios" ∷ [])
    ∷ ("损坏容器" ∷ "坏帧" ∷ [], "probe before model" ∷ "ffprobe" ∷ "full decode validation" ∷ [])
    ∷ ("重试" ∷ "重复相加" ∷ [], "segment idempotency" ∷ "retry" ∷ "duplicate" ∷ [])
    ∷ ("忽略系统规则" ∷ "工具权限" ∷ [], "tool authorization" ∷ "code-owned whitelist" ∷ [])
    ∷ ("删除" ∷ "知识块" ∷ [], "citation existence" ∷ "deleted chunk" ∷ [])
    ∷ ("mrr" ∷ "ndcg" ∷ [], "retrieval metrics" ∷ "reciprocal rank" ∷ "discounted gain" ∷ [])
    ∷ ("system prompt" ∷ [], "prompt leakage gate" ∷ "protected prompt material" ∷ [])
    ∷ []

-- the first of each text: `list(dict.fromkeys(…))`, for those not seen before
unfoldable pub distinct : List String → List String → List String
unfolding contains
distinct seen [] = []
distinct seen (word ∷ words) = elim (contains seen word) [
  | true ↦ distinct seen words
  | false ↦ word ∷ distinct (word ∷ seen) words
]

-- `" ".join` of a text and the expansions behind it
unfoldable pub join : String → List String → String
join text [] = text
join text (word ∷ words) = join (text <> (" " <> word)) words

pub record Words : Type 0 where
  pub base : String → String
  pub within : String → String → Bool
  pub words : String → List String

module _ (python : Words) where
  open python use {base, within, words}

  -- `all(trigger in text)`
  unfoldable pub triggered : String → List String → Bool
  triggered text [] = true
  triggered text (trigger ∷ triggers) = within trigger text && triggered text triggers

  unfoldable pub expansions : String → List Expansion → List String
  unfolding triggered
  expansions text [] = []
  expansions text (expansion ∷ others) =
      let rest = expansions text others in
      if triggered text expansion.0 then expansion.1 ++ rest else rest

  unfoldable pub rewrite : String → RetrievalFilters → Result StructuredQuery
  unfolding expansions join distinct
  rewrite query filters = do
    raise_if (base query == "") value_error
    let normalized = join (base query) (expansions (base query) domain_query_expansions)
    let terms = distinct [] (words normalized)
    raise_if (is_empty terms) value_error
    ok (record { original = query; normalized = normalized; terms = terms; filters = filters })
