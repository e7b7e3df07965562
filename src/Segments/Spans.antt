-- ===== src/Segments/Spans.antt =====
-- The evidence of a merge of packages/media_pipeline/segments.py on the global timeline.
use evidenceclass_agent.Base.{
  ℕ, ◌+◌, ◌≤◌, ◌≡◌, refl, ◌∙◌, sym, Bool, true, false, ◌&&◌, ◌||◌, some, List, [], ◌∷◌, arith, leb,
  ◌==◌, ℕ_eq, String, String_eq, same_iff, inl, inr, Option-cases,
}
use evidenceclass_agent.Base.Dict.{Items, lookup}
use evidenceclass_agent.Base.Outcome.{ok, Outcome-cases}
use evidenceclass_agent.Segments.{
  SegmentSpec, SegmentManifest, LocalEvidenceSpan, GlobalEvidenceSpan, SegmentObservation,
  MergedSegmentObservation, place, by_index, is_gap_free, is_valid, globalize, globalize_all, Sums,
  append_spans, add_segment, merge_segments, place_span, by_start, collect,
  merge_segment_observations,
}

-- the span lies in the window of the segment that it names
abbrev pub contains : SegmentSpec → GlobalEvidenceSpan → Bool
contains s span =
    s.segment_id == span.segment_id
    && (leb s.global_offset_ms span.global_start_ms
        && leb span.global_end_ms (s.global_offset_ms + s.duration_ms))

unfoldable pub is_placed : List SegmentSpec → GlobalEvidenceSpan → Bool
is_placed [] span = false
is_placed (s ∷ ss) span = contains s span || is_placed ss span

unfoldable pub are_placed : List SegmentSpec → List GlobalEvidenceSpan → Bool
are_placed ss [] = true
are_placed ss (span ∷ spans) = is_placed ss span && are_placed ss spans

is_placed-place :
    (s : SegmentSpec) (ss : List SegmentSpec) (span : GlobalEvidenceSpan)
    → is_placed (place s ss) span ≡ contains s span || is_placed ss span
unfolding is_placed place
is_placed-place s [] span = refl
is_placed-place s (t ∷ ss) span = ground (arith, is_placed-place s ss span)

is_placed-by_index :
    (ss : List SegmentSpec) (span : GlobalEvidenceSpan)
    → is_placed (by_index ss) span ≡ is_placed ss span
unfolding is_placed by_index
is_placed-by_index [] span = refl
is_placed-by_index (s ∷ ss) span =
    ground (arith, is_placed-place s (by_index ss) span, is_placed-by_index ss span)

are_placed-append :
    (ss : List SegmentSpec) (a b : List GlobalEvidenceSpan)
    → are_placed ss (append_spans a b) ≡ are_placed ss a && are_placed ss b
unfolding are_placed
are_placed-append ss [] b = refl
are_placed-append ss (span ∷ a) b = ground (arith, are_placed-append ss a b)

are_placed-place_span :
    (ss : List SegmentSpec) (a : GlobalEvidenceSpan) (bs : List GlobalEvidenceSpan)
    → are_placed ss (place_span a bs) ≡ is_placed ss a && are_placed ss bs
unfolding are_placed place_span
are_placed-place_span ss a [] = refl
are_placed-place_span ss a (b ∷ bs) = ground (arith, are_placed-place_span ss a bs)

are_placed-by_start :
    (ss : List SegmentSpec) (spans : List GlobalEvidenceSpan)
    → are_placed ss (by_start spans) ≡ are_placed ss spans
unfolding are_placed by_start
are_placed-by_start ss [] = refl
are_placed-by_start ss (a ∷ spans) =
    ground (arith, are_placed-place_span ss a (by_start spans), are_placed-by_start ss spans)

-- the globalized spans of a segment lie in it
globalize_all-are_placed :
    (ss : List SegmentSpec) (spec : SegmentSpec) (spans : List LocalEvidenceSpan)
    (r : List GlobalEvidenceSpan)
    → ((span : GlobalEvidenceSpan) → contains spec span ≡ true → is_placed ss span ≡ true)
    → globalize_all spec spans ≡ ok r
    → are_placed ss r ≡ true
unfolding globalize_all are_placed
globalize_all-are_placed ss spec [] r k h = ground arith
globalize_all-are_placed ss spec (span ∷ spans) r k h =
    elim (Outcome-cases (globalize_all spec spans)) [
      | inl (rest, e) ↦ ground (
        arith,
        globalize_all-are_placed ss spec spans rest k e,
        k (globalize spec span),
        same_iff spec.segment_id spec.segment_id,
      )
      | inr (f, e) ↦ absurd (ground arith)
    ]

merge_segments_next :
    (spec : SegmentSpec) (specs : List SegmentSpec) (unique : Items String SegmentObservation)
    (sums : Sums) (item : SegmentObservation) (spans : List GlobalEvidenceSpan)
    → lookup spec.segment_id unique ≡ some item
    → globalize_all spec item.evidence ≡ ok spans
    → merge_segments (spec ∷ specs) unique sums
      ≡ merge_segments specs unique (add_segment sums item spans)
unfolding merge_segments
merge_segments_next spec specs unique sums item spans e f = rw (e, f, merge_segments) refl

merge_segments-are_placed :
    (all specs : List SegmentSpec) (unique : Items String SegmentObservation) (sums r : Sums)
    → ((span : GlobalEvidenceSpan) → is_placed specs span ≡ true → is_placed all span ≡ true)
    → are_placed all sums.evidence ≡ true
    → merge_segments specs unique sums ≡ ok r
    → are_placed all r.evidence ≡ true
unfolding merge_segments is_placed
merge_segments-are_placed all [] unique sums r k g h = ground arith
merge_segments-are_placed all (spec ∷ specs) unique sums r k g h =
    elim (Option-cases (lookup spec.segment_id unique)) [
      | inl e ↦ absurd (ground arith)
      | inr (item, e) ↦ elim (Outcome-cases (globalize_all spec item.evidence)) [
        | inl (spans, f) ↦
            merge_segments-are_placed all specs unique (add_segment sums item spans) r
              (λ span p. k span (ground arith))
              (rw (are_placed-append all sums.evidence spans, g)
                (globalize_all-are_placed all spec item.evidence spans
                  (λ span p. k span (ground arith)) f))
              (sym (merge_segments_next spec specs unique sums item spans e f) ∙ h)
        | inr (x, f) ↦ absurd (ground arith)
      ]
    ]

-- a span that lies in a segment of a gap-free timeline ends on it
is_placed-gap_free :
    (from total : ℕ) (ss : List SegmentSpec) (span : GlobalEvidenceSpan)
    → is_gap_free from total ss ≡ true
    → is_placed ss span ≡ true
    → (from ≤ span.global_start_ms) × (span.global_end_ms ≤ total)
unfolding is_placed
is_placed-gap_free from total [] span h p = absurd (ground arith)
is_placed-gap_free from total (s ∷ ss) span h p = ground (
  arith,
  same_iff s.global_offset_ms from,
  is_gap_free_bound (from + s.duration_ms) total ss,
  is_placed-gap_free (from + s.duration_ms) total ss span,
)
  where
    is_gap_free_bound :
        (from total : ℕ) (ss : List SegmentSpec) → is_gap_free from total ss ≡ true → from ≤ total
    is_gap_free_bound from total [] h = ground (arith, same_iff from total)
    is_gap_free_bound from total (s ∷ ss) h =
        ground (
          arith,
          same_iff s.global_offset_ms from,
          is_gap_free_bound (from + s.duration_ms) total ss,
        )

abbrev pub end_by : ℕ → List GlobalEvidenceSpan → Bool
end_by total [] = true
end_by total (span ∷ spans) = leb span.global_end_ms total && end_by total spans

end_by-are_placed :
    (total : ℕ) (ss : List SegmentSpec) (spans : List GlobalEvidenceSpan)
    → is_gap_free 0 total (by_index ss) ≡ true
    → are_placed ss spans ≡ true
    → end_by total spans ≡ true
unfolding are_placed
end_by-are_placed total ss [] g h = refl
end_by-are_placed total ss (span ∷ spans) g h = ground (
  arith,
  is_placed-gap_free 0 total (by_index ss) span g,
  is_placed-by_index ss span,
  end_by-are_placed total ss spans g,
)

merged_spans :
    (m : SegmentManifest) (observations : List SegmentObservation) (r : MergedSegmentObservation)
    → merge_segment_observations m observations ≡ ok r
    → are_placed m.segments r.evidence ≡ true
unfolding merge_segment_observations are_placed
merged_spans m observations r h =
    elim (Outcome-cases
      (collect m.segments observations (record { observations = []; duplicate_count = 0 }))) [
        | inl (unique, e) ↦
            elim (Outcome-cases (
              merge_segments (by_index m.segments) unique.observations
                (record { label_counts = []; duration_metrics_ms = []; evidence = [] }))) [
                  | inl (sums, f) ↦
                      let p =
                        merge_segments-are_placed m.segments (by_index m.segments)
                          unique.observations _ sums
                          (λ span q. sym (is_placed-by_index m.segments span) ∙ q) refl f in
                      ground (arith, p, are_placed-by_start m.segments sums.evidence)
                  | inr (x, f) ↦ absurd (ground arith)
                ]
        | inr (x, e) ↦ absurd (ground arith)
      ]

-- The merge of observations on a valid manifest, when it does not raise: every span of its evidence lies
-- in the window of the segment that it names, and ends within the total duration of the recording,
-- whatever the order and the duplicates of the observations are.
pub merge-are_placed :
    (m : SegmentManifest) (observations : List SegmentObservation) (r : MergedSegmentObservation)
    → is_valid m ≡ true
    → merge_segment_observations m observations ≡ ok r
    → (are_placed m.segments r.evidence ≡ true) × (end_by m.total_duration_ms r.evidence ≡ true)
unfolding is_valid
merge-are_placed m observations r v h =
    let p = merged_spans m observations r h in
    (p, end_by-are_placed m.total_duration_ms m.segments r.evidence (ground arith) p)
