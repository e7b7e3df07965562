-- ===== src/Segments/Timeline.antt =====
-- The global timeline of a manifest of packages/media_pipeline/segments.py.
use evidenceclass_agent.Base.{
  ℕ, ◌+◌, ◌≤◌, ◌≡◌, refl, Bool, true, ◌&&◌, List, [], ◌∷◌, arith, leb, ltb, if◌then◌else◌, ℕ_eq,
  same_iff,
}
use evidenceclass_agent.Segments.{
  SegmentSpec, SegmentManifest, place, by_index, is_gap_free, is_valid,
}

abbrev pub covers : ℕ → SegmentSpec → Bool
covers t s = leb s.global_offset_ms t && ltb t (s.global_offset_ms + s.duration_ms)

-- the number of the segments that cover an instant
unfoldable pub covering : ℕ → List SegmentSpec → ℕ
covering t [] = 0
covering t (s ∷ ss) = (if covers t s then 1 else 0) + covering t ss

covering-place :
    (t : ℕ) (s : SegmentSpec) (ss : List SegmentSpec)
    → covering t (place s ss) ≡ (if covers t s then 1 else 0) + covering t ss
unfolding covering place
covering-place t s [] = refl
covering-place t s (u ∷ ss) = ground (arith, covering-place t s ss)

covering-by_index : (t : ℕ) (ss : List SegmentSpec) → covering t (by_index ss) ≡ covering t ss
unfolding covering by_index
covering-by_index t [] = refl
covering-by_index t (s ∷ ss) =
    ground (arith, covering-place t s (by_index ss), covering-by_index t ss)

-- the rest of a gap-free timeline covers what is behind its first offset once, and nothing before it
covering-gap_free :
    (t from total : ℕ) (ss : List SegmentSpec)
    → is_gap_free from total ss ≡ true
    → (from ≤ total) × (covering t ss ≡ (if leb from t && ltb t total then 1 else 0))
unfolding covering
covering-gap_free t from total [] h = ground (arith, same_iff from total)
covering-gap_free t from total (s ∷ ss) h =
    ground
      (arith, same_iff s.global_offset_ms from, covering-gap_free t (from + s.duration_ms) total ss)

-- In a valid manifest every instant before the total duration is covered by exactly one segment, and
-- every later one by none, in whatever order the segments are listed.
pub covering-is_valid :
    (m : SegmentManifest) (t : ℕ)
    → is_valid m ≡ true
    → covering t m.segments ≡ (if ltb t m.total_duration_ms then 1 else 0)
unfolding is_valid
covering-is_valid m t h =
    let (b, c) = covering-gap_free t 0 m.total_duration_ms (by_index m.segments) (ground arith) in
    ground (arith, c, covering-by_index t m.segments)
