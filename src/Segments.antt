-- ===== src/Segments.antt =====
-- packages/media_pipeline/segments.py: the manifest of a long recording's segments with its validator, and
-- the merge of their observations onto the global timeline. The fingerprint of an observation is a number
-- that stands for its hash; the weighted metrics, which are floating point, and the identifier of the
-- merge are left out.
pub mod Timeline
pub mod Spans
mod Examples
use Prim.Native.String.{compare as compare_text}
use Prim.Native.Nat.{Ordering}
use evidenceclass_agent.Base.{
  ℕ, zero, suc, ◌+◌, String, Bool, true, false, not, ◌&&◌, ◌||◌, Option, none, some, List, [], ◌∷◌,
  map, length, leb, ltb, if◌then◌else◌, ◌==◌, ℕ_eq, String_eq,
}
use evidenceclass_agent.Base.Dict.{Items, lookup, insert}
use evidenceclass_agent.Base.Outcome.{Outcome, ok, err, ◌>>=◌, ◌>>◌, raise_if}

pub record SegmentSpec : Type 0 where
  pub segment_id : String
  pub index : ℕ
  pub global_offset_ms : ℕ
  pub duration_ms : ℕ

pub record SegmentManifest : Type 0 where
  pub total_duration_ms : ℕ
  pub segments : List SegmentSpec

-- the order of its two bounds, which its validator tests, is not assumed
pub record LocalEvidenceSpan : Type 0 where
  pub evidence_id : String
  pub fact : String
  pub local_start_ms : ℕ
  pub local_end_ms : ℕ

pub record SegmentObservation : Type 0 where
  pub segment_id : String
  pub index : ℕ
  pub label_counts : Items String ℕ
  pub duration_metrics_ms : Items String ℕ
  pub evidence : List LocalEvidenceSpan
  pub fingerprint : ℕ

pub record GlobalEvidenceSpan : Type 0 where
  pub evidence_id : String
  pub fact : String
  pub segment_id : String
  pub global_start_ms : ℕ
  pub global_end_ms : ℕ

pub record MergedSegmentObservation : Type 0 where
  pub ordered_segment_ids : List String
  pub duplicate_inputs_ignored : ℕ
  pub label_counts : Items String ℕ
  pub duration_metrics_ms : Items String ℕ
  pub evidence : List GlobalEvidenceSpan

-- `MediaManifestError`, by its message
pub data MediaManifestError : Type 0 where
  mismatch conflict incomplete exceeds : MediaManifestError

abbrev pub Result {ℓ} : Type ℓ → Type ℓ
Result A = Outcome MediaManifestError A

-- `sorted(segments, key=lambda item: item.index)`
unfoldable pub place : SegmentSpec → List SegmentSpec → List SegmentSpec
place s [] = s ∷ []
place s (t ∷ ts) = let rest = place s ts in if leb s.index t.index then s ∷ t ∷ ts else t ∷ rest

unfoldable pub by_index : List SegmentSpec → List SegmentSpec
by_index [] = []
by_index (s ∷ ss) = place s (by_index ss)

-- `[item.index for item in ordered] == list(range(n, ...))`
abbrev pub are_numbered : ℕ → List SegmentSpec → Bool
are_numbered n [] = true
are_numbered n (s ∷ ss) = s.index == n && are_numbered (suc n) ss

abbrev pub has_id : String → List SegmentSpec → Bool
has_id segment_id [] = false
has_id segment_id (s ∷ ss) = s.segment_id == segment_id || has_id segment_id ss

abbrev pub are_distinct : List SegmentSpec → Bool
are_distinct [] = true
are_distinct (s ∷ ss) = not (has_id s.segment_id ss) && are_distinct ss

-- the loop over the offsets, and the test of the total behind it
abbrev pub is_gap_free : (expected_offset total : ℕ) → List SegmentSpec → Bool
is_gap_free expected_offset total [] = expected_offset == total
is_gap_free expected_offset total (s ∷ ss) =
    s.global_offset_ms == expected_offset && is_gap_free (expected_offset + s.duration_ms) total ss

abbrev pub is_empty : List SegmentSpec → Bool
is_empty [] = true
is_empty (s ∷ ss) = false

-- the fields that are `PositiveInt`, the length of the list, and `validate_contiguous_global_timeline`
abbrev pub are_positive : List SegmentSpec → Bool
are_positive [] = true
are_positive (s ∷ ss) = (ltb 0 s.index && ltb 0 s.duration_ms) && are_positive ss

unfoldable pub is_valid : SegmentManifest → Bool
is_valid m =
    (are_positive m.segments && not (is_empty m.segments))
    && (are_numbered 1 (by_index m.segments)
        && (are_distinct (by_index m.segments)
            && is_gap_free 0 m.total_duration_ms (by_index m.segments)))

-- `specs.get(segment_id)`, where identifiers are unique
unfoldable pub find_spec : String → List SegmentSpec → Option SegmentSpec
find_spec segment_id [] = none
find_spec segment_id (s ∷ ss) =
    let rest = find_spec segment_id ss in if s.segment_id == segment_id then some s else rest

-- what the loop over the observations keeps: those that are unique, and the number of the others
pub record Unique : Type 0 where
  pub observations : Items String SegmentObservation
  pub duplicate_count : ℕ

-- the test of an observation against its segment
abbrev pub is_mismatch : Option SegmentSpec → SegmentObservation → Bool
is_mismatch none item = true
is_mismatch (some spec) item = not (item.index == spec.index)

abbrev pub keep : Unique → SegmentObservation → Option SegmentObservation → Result Unique
keep u item (some known) =
    raise_if (not (known.fingerprint == item.fingerprint)) conflict
    >> ok (record u { duplicate_count = u.duplicate_count + 1 })
keep u item none = ok (record u { observations = insert item.segment_id item u.observations })

unfoldable pub collect : List SegmentSpec → List SegmentObservation → Unique → Result Unique
collect specs [] u = ok u
collect specs (item ∷ items) u =
    raise_if (is_mismatch (find_spec item.segment_id specs) item) mismatch
    >> (keep u item (lookup item.segment_id u.observations) >>= λ next. collect specs items next)

-- some segment has no observation
abbrev pub is_incomplete : Items String SegmentObservation → List SegmentSpec → Bool
is_incomplete unique [] = false
is_incomplete unique (s ∷ ss) = elim (lookup s.segment_id unique) [
  | none ↦ true
  | some item ↦ is_incomplete unique ss
]

-- `counts[key] = counts.get(key, 0) + value`
abbrev pub add_count : Items String ℕ → String × ℕ → Items String ℕ
add_count counts (key, value) =
    insert key (elim (lookup key counts) [ none ↦ value | some n ↦ n + value ]) counts

abbrev pub add_counts : Items String ℕ → Items String ℕ → Items String ℕ
add_counts counts [] = counts
add_counts counts (entry ∷ entries) = add_counts (add_count counts entry) entries

abbrev pub globalize : SegmentSpec → LocalEvidenceSpan → GlobalEvidenceSpan
globalize spec span = record {
  evidence_id = span.evidence_id;
  fact = span.fact;
  segment_id = spec.segment_id;
  global_start_ms = spec.global_offset_ms + span.local_start_ms;
  global_end_ms = spec.global_offset_ms + span.local_end_ms;
}

-- the loop over the spans of an observation
unfoldable pub globalize_all :
    SegmentSpec → List LocalEvidenceSpan → Result (List GlobalEvidenceSpan)
globalize_all spec [] = ok []
globalize_all spec (span ∷ spans) =
    raise_if (ltb spec.duration_ms span.local_end_ms) exceeds
    >> (globalize_all spec spans >>= λ rest. ok (globalize spec span ∷ rest))

-- the sums and the spans of the segments
pub record Sums : Type 0 where
  pub label_counts : Items String ℕ
  pub duration_metrics_ms : Items String ℕ
  pub evidence : List GlobalEvidenceSpan

abbrev pub append_spans :
    List GlobalEvidenceSpan → List GlobalEvidenceSpan → List GlobalEvidenceSpan
append_spans [] later = later
append_spans (span ∷ spans) later = span ∷ append_spans spans later

abbrev pub add_segment : Sums → SegmentObservation → List GlobalEvidenceSpan → Sums
add_segment sums item spans = record {
  label_counts = add_counts sums.label_counts item.label_counts;
  duration_metrics_ms = add_counts sums.duration_metrics_ms item.duration_metrics_ms;
  evidence = append_spans sums.evidence spans;
}

-- the loop over the segments in their order; each has an observation
unfoldable pub merge_segments :
    List SegmentSpec → Items String SegmentObservation → Sums → Result Sums
merge_segments [] unique sums = ok sums
merge_segments (spec ∷ specs) unique sums = elim (lookup spec.segment_id unique) [
  | none ↦ err incomplete
  | some item ↦ globalize_all spec item.evidence >>= λ spans.
      merge_segments specs unique (add_segment sums item spans)
]

-- `sorted(evidence, key=lambda item: (item.global_start_ms, item.evidence_id))`
abbrev pub is_before : GlobalEvidenceSpan → GlobalEvidenceSpan → Bool
is_before a b =
    ltb a.global_start_ms b.global_start_ms
    || (a.global_start_ms == b.global_start_ms
        && elim (compare_text a.evidence_id b.evidence_id) [ Ordering.gt ↦ false | _ ↦ true ])

unfoldable pub place_span : GlobalEvidenceSpan → List GlobalEvidenceSpan → List GlobalEvidenceSpan
place_span a [] = a ∷ []
place_span a (b ∷ bs) = let rest = place_span a bs in if is_before a b then a ∷ b ∷ bs else b ∷ rest

unfoldable pub by_start : List GlobalEvidenceSpan → List GlobalEvidenceSpan
by_start [] = []
by_start (a ∷ later) = place_span a (by_start later)

-- `merge_segment_observations`
unfoldable pub merge_segment_observations :
    SegmentManifest → List SegmentObservation → Result MergedSegmentObservation
merge_segment_observations manifest observations = do
  unique ←
      collect manifest.segments observations (record { observations = []; duplicate_count = 0 })
  raise_if (is_incomplete unique.observations manifest.segments) incomplete
  sums ←
      merge_segments (by_index manifest.segments) unique.observations
        (record { label_counts = []; duration_metrics_ms = []; evidence = [] })
  ok (record {
    ordered_segment_ids = map (λ s. s.segment_id) (by_index manifest.segments);
    duplicate_inputs_ignored = unique.duplicate_count;
    label_counts = sums.label_counts;
    duration_metrics_ms = sums.duration_metrics_ms;
    evidence = by_start sums.evidence;
  })
