-- ===== src/Retrieval/Budget/Within.antt =====
-- The token budget of packages/retrieval/service.py is kept.

use evidenceclass_agent.Base.{
  ℕ, ◌+◌, ◌-◌, ◌≤◌, ◌<◌, String, ◌≡◌, true, false, List, [], ◌∷◌, ◌++◌, arith, ◌==◌, ℕ_eq,
  String_eq, length, inl, inr, Bool-cases, same_iff, take, ap, sym, ◌∙◌,
}
use evidenceclass_agent.Base.Members.{All, All-append, All-weaken, contains}
use evidenceclass_agent.Retrieval.{KnowledgeChunk}
use evidenceclass_agent.Retrieval.Chunks.{Texts, count_tokens}
use evidenceclass_agent.Retrieval.Ingested.{IsMade}
use evidenceclass_agent.Retrieval.Search.{ScoredChunk}
use evidenceclass_agent.Retrieval.Budget.{include_intro, include_all_inv}
use evidenceclass_agent.Retrieval.Context.{
  RetrievedContext, Budgeting, include, include_all, whole, cut, truncate, new_budgeting,
  sum_tokens, last_end,
}

-- What `_truncate` relies on: a text that is cut where its n-th token ends, and stripped, has n tokens.
abbrev pub CutsAtTokens : Texts → Type 0
CutsAtTokens texts =
    (text : String) (n : ℕ)
    → 0 < n
    → n ≤ count_tokens texts text
    → count_tokens texts
        (texts.strip (texts.slice text 0 (last_end (take n (texts.find_tokens text)))))
      ≡ n

-- no two contexts whose chunks have one text in a field
abbrev pub IsDistinct : (KnowledgeChunk → String) → List RetrievedContext → Type 0
IsDistinct field [] = Unit
IsDistinct field (c ∷ cs) =
    All (λ d. (field d.chunk == field c.chunk) ≡ false) cs × IsDistinct field cs

abbrev pub hash : KnowledgeChunk → String
hash chunk = chunk.content_sha256

abbrev pub content : KnowledgeChunk → String
content chunk = chunk.content

sum_tokens-append :
    (xs : List RetrievedContext) (c : RetrievedContext)
    → sum_tokens (xs ++ c ∷ []) ≡ sum_tokens xs + c.included_tokens
unfolding sum_tokens
sum_tokens-append [] c = omega arith
sum_tokens-append (x ∷ xs) c = omega (arith, sum_tokens-append xs c)

IsDistinct-append :
    (xs : List RetrievedContext) (c : RetrievedContext)
    → All (λ d. (c.chunk.content_sha256 == d.chunk.content_sha256) ≡ false) xs
    → IsDistinct hash xs
    → IsDistinct hash (xs ++ c ∷ [])
IsDistinct-append [] c new d = (tt, tt)
IsDistinct-append (x ∷ xs) c new d = (
  All-append (λ y. (y.chunk.content_sha256 == x.chunk.content_sha256) ≡ false) xs (c ∷ []) d.0
      (new.0, tt),
  IsDistinct-append xs c new.1 d.1,
)

module _ (texts : Texts) where
  -- contents whose hashes differ are not the same
  different_content :
      (c d : KnowledgeChunk)
      → IsMade texts c
      → IsMade texts d
      → (hash d == hash c) ≡ false
      → (content d == content c) ≡ false
  different_content c d m n differs = elim (Bool-cases (content d == content c)) [
    | inr other ↦ other
    | inl same ↦
        let one : content d ≡ content c = ground (arith, same_iff (content d) (content c)) in
        let hashes : hash d ≡ hash c = n.1 ∙ ap texts.sha256 one ∙ sym m.1 in
        absurd (ground (arith, differs, same_iff (hash d) (hash c)))
  ]

  different_contents :
      (c : RetrievedContext) (cs : List RetrievedContext)
      → IsMade texts c.chunk
      → All (λ d. IsMade texts d.chunk) cs
      → All (λ d. (hash d.chunk == hash c.chunk) ≡ false) cs
      → All (λ d. (content d.chunk == content c.chunk) ≡ false) cs
  different_contents c [] m ms h = tt
  different_contents c (d ∷ cs) m ms h =
      (different_content c.chunk d.chunk m ms.0 h.0, different_contents c cs m ms.1 h.1)

  pub IsDistinct-content :
      (cs : List RetrievedContext)
      → All (λ c. IsMade texts c.chunk) cs
      → IsDistinct hash cs
      → IsDistinct content cs
  IsDistinct-content [] ms d = tt
  IsDistinct-content (c ∷ cs) ms d =
      (different_contents c cs ms.0 ms.1 d.0, IsDistinct-content cs ms.1 d.1)

-- the truncated content of a chunk that does not fit
count_tokens-truncate :
    (texts : Texts) (text : String) (n : ℕ)
    → CutsAtTokens texts
    → 0 < n
    → n < count_tokens texts text
    → count_tokens texts (truncate texts text n) ≡ n
unfolding truncate
count_tokens-truncate texts text n cuts some_left over =
    let tokens : (length (texts.find_tokens text) == 0) ≡ false = ground arith in
    let left : (n == 0) ≡ false = ground arith in
    rw (tokens, left, truncate) (cuts text n some_left (omega arith))

pub record IsBudgeted (budget : ℕ) (b : Budgeting) : Type 0 where
  pub within : sum_tokens b.contexts + b.remaining ≤ budget
  pub seen : All (λ c. contains b.seen_hashes c.chunk.content_sha256 ≡ true) b.contexts
  pub different : IsDistinct hash b.contexts

-- what a hash that is seen has not, a new one has
different_hash :
    (seen : List String) (h k : String)
    → contains seen h ≡ false
    → contains seen k ≡ true
    → (h == k) ≡ false
different_hash seen h k new old = elim (Bool-cases (h == k)) [
  | inr other ↦ other
  | inl same ↦ absurd (ground (arith, same_iff h k))
]

contains-more :
    (seen : List String) (h k : String) → contains seen k ≡ true → contains (h ∷ seen) k ≡ true
unfolding contains
contains-more seen h k old = ground arith

-- one more context, of a new content
IsBudgeted-append :
    (budget : ℕ) (b : Budgeting) (c : RetrievedContext) (dropped : ℕ)
    → contains b.seen_hashes c.chunk.content_sha256 ≡ false
    → c.included_tokens ≤ b.remaining
    → IsBudgeted budget b
    → IsBudgeted budget (record b {
      contexts = b.contexts ++ c ∷ [];
      remaining = b.remaining - c.included_tokens;
      seen_hashes = c.chunk.content_sha256 ∷ b.seen_hashes;
      budget_dropped = dropped;
    })
unfolding contains
IsBudgeted-append budget b c dropped new fits i =
    let h = c.chunk.content_sha256 in
    record {
      within = omega (arith, sum_tokens-append b.contexts c, i.within);
      seen =
          All-append (λ d. contains (h ∷ b.seen_hashes) d.chunk.content_sha256 ≡ true) b.contexts
            (c ∷ [])
            (All-weaken (λ d. contains b.seen_hashes d.chunk.content_sha256 ≡ true)
              (λ d. contains (h ∷ b.seen_hashes) d.chunk.content_sha256 ≡ true)
              (λ d old. contains-more b.seen_hashes h d.chunk.content_sha256 old) b.contexts i.seen)
            (ground (arith, same_iff h h), tt);
      different =
          IsDistinct-append b.contexts c
            (All-weaken (λ d. contains b.seen_hashes d.chunk.content_sha256 ≡ true) _
              (λ d old. different_hash b.seen_hashes h d.chunk.content_sha256 new old) b.contexts
              i.seen)
            i.different;
    }

module _ (texts : Texts) (cuts : CutsAtTokens texts) (budget : ℕ) where
  include-IsBudgeted :
      (item : ScoredChunk) (b : Budgeting)
      → IsMade texts item.chunk
      → IsBudgeted budget b
      → IsBudgeted budget (include texts item b)
  include-IsBudgeted item b counted i =
      let h = item.chunk.content_sha256 in
      include_intro (IsBudgeted budget) texts item b
        (λ seen. record { within = i.within; seen = i.seen; different = i.different })
        (λ new spent. record {
          within = i.within;
          seen =
              All-weaken (λ d. contains b.seen_hashes d.chunk.content_sha256 ≡ true)
                (λ d. contains (h ∷ b.seen_hashes) d.chunk.content_sha256 ≡ true)
                (λ d old. contains-more b.seen_hashes h d.chunk.content_sha256 old) b.contexts
                i.seen;
          different = i.different;
        })
        (λ new left short.
          IsBudgeted-append budget b (whole texts item) b.budget_dropped new short i)
        (λ new left over.
          IsBudgeted-append budget b (cut texts item b.remaining) (b.budget_dropped + 1) new
            (omega (
              arith,
              counted.0,
              count_tokens-truncate texts item.chunk.content b.remaining cuts left
                  (omega (arith, counted.0)),
            ))
            i)

  pub include_all-IsBudgeted :
      (items : List ScoredChunk)
      → All (λ item. IsMade texts item.chunk) items
      → IsBudgeted budget (include_all texts items (new_budgeting texts budget))
  unfolding sum_tokens
  include_all-IsBudgeted items counted =
      include_all_inv (IsBudgeted budget) (λ item. IsMade texts item.chunk) texts include-IsBudgeted
        items (new_budgeting texts budget) counted
        (record { within = omega arith; seen = tt; different = tt })
