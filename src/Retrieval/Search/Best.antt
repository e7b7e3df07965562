-- ===== src/Retrieval/Search/Best.antt =====
-- Which chunks `InMemoryVectorStore.search` of packages/retrieval/stores.py gives.
use mathlib.Core.List.{Perm}
use mathlib.Core.List.Perm
use evidenceclass_agent.Base.{
  ℕ, suc, ◌≤◌, min, ◌≡◌, refl, ap, sym, ◌∙◌, inl, inr, List, [], ◌∷◌, ◌++◌, arith, if◌then◌else◌,
  if_intro, length, drop, take-append-drop, length-take, length-map, Bool-cases,
}
use evidenceclass_agent.Base.Members.{All, All-weaken}
use evidenceclass_agent.Retrieval.{RetrievalFilters, ok}
use evidenceclass_agent.Retrieval.Registry.{Repository, list_searchable_chunks}
use evidenceclass_agent.Retrieval.Search.{ScoredChunk, Similarity, goes_before, put, sorted, search}
use evidenceclass_agent.Retrieval.Search.Scored.{
  AreScored, chunk_of, search-scored, IsComparable, search-ok,
}

abbrev AtMost : ℕ → ScoredChunk → Type 0
AtMost bound item = item.vector_score ≤ bound

-- no item scores less than one behind it
abbrev pub IsDescending : List ScoredChunk → Type 0
IsDescending [] = Unit
IsDescending (item ∷ items) = All (AtMost item.vector_score) items × IsDescending items

put-AtMost :
    (bound : ℕ) (item : ScoredChunk) (items : List ScoredChunk)
    → item.vector_score ≤ bound
    → All (AtMost bound) items
    → All (AtMost bound) (put item items)
unfolding put
put-AtMost bound item [] p h = (p, tt)
put-AtMost bound item (other ∷ others) p h =
    if_intro (All (AtMost bound)) (goes_before item other) _ _ (p, h)
      (h.0, put-AtMost bound item others p h.1)

put-IsDescending :
    (item : ScoredChunk) (items : List ScoredChunk)
    → IsDescending items
    → IsDescending (put item items)
unfolding put goes_before
put-IsDescending item [] d = (tt, tt)
put-IsDescending item (other ∷ others) d = elim (Bool-cases (goes_before item other)) [
  | inl first ↦
      let p : other.vector_score ≤ item.vector_score = ground arith in
      rw (first, if◌then◌else◌)
        (
          (
            p,
            All-weaken (AtMost other.vector_score) (AtMost item.vector_score) (λ x h. omega arith)
                others d.0,
          ),
          d,
        )
  | inr later ↦
      let p : item.vector_score ≤ other.vector_score = ground arith in
      rw (later, if◌then◌else◌)
        (put-AtMost other.vector_score item others p d.0, put-IsDescending item others d.1)
]

sorted-IsDescending : (items : List ScoredChunk) → IsDescending (sorted items)
unfolding sorted
sorted-IsDescending [] = tt
sorted-IsDescending (item ∷ items) =
    put-IsDescending item (sorted items) (sorted-IsDescending items)

put-perm : (item : ScoredChunk) (items : List ScoredChunk) → Perm (put item items) (item ∷ items)
unfolding put
put-perm item [] = Perm.rfl
put-perm item (other ∷ others) =
    if_intro (λ xs. Perm xs (item ∷ other ∷ others)) (goes_before item other) _ _ Perm.rfl
      (Perm.trans (Perm.cons other (put-perm item others)) (Perm.swap item other others))

sorted-perm : (items : List ScoredChunk) → Perm (sorted items) items
unfolding sorted
sorted-perm [] = Perm.rfl
sorted-perm (item ∷ items) =
    Perm.trans (put-perm item (sorted items)) (Perm.cons item (sorted-perm items))

length-put :
    (item : ScoredChunk) (items : List ScoredChunk) → length (put item items) ≡ suc (length items)
unfolding put
length-put item [] = refl
length-put item (other ∷ others) = ground (arith, length-put item others)

length-sorted : (items : List ScoredChunk) → length (sorted items) ≡ length items
unfolding sorted
length-sorted [] = refl
length-sorted (item ∷ items) = length-put item (sorted items) ∙ ap suc (length-sorted items)

-- Where each chunk that the filters let be searched has an embedding of the dimension of the query's, a
-- search of the in-memory store returns. It has then scored these chunks, all of them and each once,
-- with the similarity of its embedding to the query's; what it gives and some rest are these items in
-- another order, in which none scores less than one behind it; and it gives as many as there are, up
-- to `top_k`.
pub search_best :
    (similarity : Similarity) (query : ℕ) (filters : RetrievalFilters) (top_k : ℕ)
    (repository : Repository)
    → All (IsComparable similarity query) (list_searchable_chunks filters repository)
    → (result scored rest : List ScoredChunk) × (search similarity query filters top_k repository
        ≡ ok result)
      × AreScored similarity query (list_searchable_chunks filters repository) scored
      × Perm (result ++ rest) scored
      × IsDescending (result ++ rest)
      × (length result ≡ min top_k (length (list_searchable_chunks filters repository)))
search_best similarity query filters top_k repository comparable =
    let (result, e, few) = search-ok similarity query filters top_k repository comparable in
    let (scored, first, a) = search-scored similarity query filters top_k repository result e in
    let rest = drop top_k (sorted scored) in
    let whole : result ++ rest ≡ sorted scored =
      ap (λ xs. xs ++ rest) first ∙ take-append-drop top_k (sorted scored) in
    let as_many : length scored ≡ length (list_searchable_chunks filters repository) =
      sym (length-map scored chunk_of) ∙ ap length a.chunks_of in
    (
      result,
      scored,
      rest,
      e,
      a,
      rw whole (sorted-perm scored),
      rw whole (sorted-IsDescending scored),
      ap length first
          ∙ length-take top_k (sorted scored)
          ∙ ap (min top_k) (length-sorted scored ∙ as_many),
    )
