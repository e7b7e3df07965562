-- ===== src/Retrieval/Chunks/Windows.antt =====
-- The windows into which packages/retrieval/parsing.py cuts the tokens of a section.
use evidenceclass_agent.Base.{
  ℕ, zero, suc, ◌+◌, ◌-◌, ◌≤◌, ◌<◌, min, ◌≡◌, inl, inr, true, false, List, [], ◌∷◌, arith,
  if◌then◌else◌, ◌==◌, ℕ_eq, ltb, leb, Bool-cases,
}
use evidenceclass_agent.Retrieval.{ok}
use evidenceclass_agent.Retrieval.Chunks.{Chunker, Window, new_chunker, windows}

-- The windows from a token on: the first starts there, each has at most `max_tokens` tokens and at
-- least one, each next one starts `overlap_tokens` before the end of the one before it, and the last
-- one ends with the last token.
pub data Covers (chunker : Chunker) (count : ℕ) : ℕ → List Window → Type 0 where
  last :
      {start : ℕ}
      → start < count
      → count ≤ start + chunker.max_tokens
      → Covers chunker count start ((start, count) ∷ [])
  next :
      {start : ℕ} {others : List Window}
      → start + chunker.max_tokens < count
      → Covers chunker count (start + chunker.max_tokens - chunker.overlap_tokens) others
      → Covers chunker count start ((start, start + chunker.max_tokens) ∷ others)

rest-Covers :
    (chunker : Chunker) (fuel count start : ℕ)
    → chunker.overlap_tokens < chunker.max_tokens
    → start < count
    → count ≤ fuel + start
    → Covers chunker count start (windows chunker fuel count start)
unfolding windows
rest-Covers chunker zero count start o h f = absurd (omega arith)
rest-Covers chunker (suc fuel) count start o h f =
    let inside : ltb start count ≡ true = ground arith in
    elim (Bool-cases (leb count (start + chunker.max_tokens))) [
      | inl ends ↦
          let end : min (start + chunker.max_tokens) count ≡ count = ground arith in
          let stops : (count == count) ≡ true = ground arith in
          rw (inside, end, stops, if◌then◌else◌) (last h (ground arith))
      | inr goes_on ↦
          let end : min (start + chunker.max_tokens) count ≡ start + chunker.max_tokens =
            ground arith in
          let more : (start + chunker.max_tokens == count) ≡ false = ground arith in
          rw (inside, end, more, if◌then◌else◌)
            (next (ground arith) (
              rest-Covers chunker fuel count (start + chunker.max_tokens - chunker.overlap_tokens) o
                (ground arith) (ground arith)))
    ]

-- For a chunker that the constructor accepts and a section of one token or more, the windows of
-- `_split_window` cover the tokens from the first to the last: the first window starts at token 0, a
-- window that is not the last has exactly `max_tokens` tokens and the next one starts
-- `overlap_tokens` before its end, and the last one has at most `max_tokens` tokens and ends with the
-- section's last token. As many rounds as there are tokens are enough for the loop to end.
pub windows-Covers :
    (max_tokens overlap_tokens count : ℕ) (chunker : Chunker)
    → new_chunker max_tokens overlap_tokens ≡ ok chunker
    → 0 < count
    → Covers chunker count 0 (windows chunker count count 0)
unfolding new_chunker
windows-Covers max_tokens overlap_tokens count chunker made some_token =
    rest-Covers chunker count count 0 (ground arith) some_token (omega arith)
