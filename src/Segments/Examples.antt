-- ===== src/Segments/Examples.antt =====
-- A manifest of packages/media_pipeline/segments.py with two segments, and a merge on it.
use evidenceclass_agent.Base.{◌≡◌, refl, true, [], ◌∷◌, ltb, if◌then◌else◌}
use evidenceclass_agent.Base.Dict.{lookup, insert}
use evidenceclass_agent.Segments.{
  SegmentManifest, SegmentSpec, SegmentObservation, MergedSegmentObservation, is_valid, by_index,
  place, merge_segment_observations, merge_segments, collect, find_spec, globalize_all, by_start,
  place_span,
}
use evidenceclass_agent.Segments.Timeline.{covering, covering-is_valid}
use evidenceclass_agent.Segments.Spans.{are_placed, end_by, merge-are_placed}

abbrev first : SegmentSpec
first = record { segment_id = "a"; index = 1; global_offset_ms = 0; duration_ms = 60 }

abbrev second : SegmentSpec
second = record { segment_id = "b"; index = 2; global_offset_ms = 60; duration_ms = 30 }

abbrev recording : SegmentManifest
recording = record { total_duration_ms = 90; segments = second ∷ first ∷ [] }

abbrev seen_first : SegmentObservation
seen_first = record {
  segment_id = "a";
  index = 1;
  label_counts = ("hand", 2) ∷ [];
  duration_metrics_ms = [];
  evidence = record { evidence_id = "e"; fact = "f"; local_start_ms = 5; local_end_ms = 9 } ∷ [];
  fingerprint = 1;
}

abbrev seen_second : SegmentObservation
seen_second = record {
  segment_id = "b";
  index = 2;
  label_counts = ("hand", 3) ∷ [];
  duration_metrics_ms = [];
  evidence = record { evidence_id = "g"; fact = "f"; local_start_ms = 1; local_end_ms = 30 } ∷ [];
  fingerprint = 2;
}

abbrev merged : MergedSegmentObservation
merged = record {
  ordered_segment_ids = "a" ∷ "b" ∷ [];
  duplicate_inputs_ignored = 1;
  label_counts = ("hand", 5) ∷ [];
  duration_metrics_ms = [];
  evidence =
      record {
        evidence_id = "e";
        fact = "f";
        segment_id = "a";
        global_start_ms = 5;
        global_end_ms = 9;
      }
      ∷ record {
        evidence_id = "g";
        fact = "f";
        segment_id = "b";
        global_start_ms = 61;
        global_end_ms = 90;
      }
      ∷ [];
}

covering-is_valid_example :
    covering 70 recording.segments ≡ (if ltb 70 recording.total_duration_ms then 1 else 0)
unfolding is_valid by_index place
covering-is_valid_example = covering-is_valid recording 70 refl

merge-are_placed_example :
    (are_placed recording.segments merged.evidence ≡ true) × (end_by 90 merged.evidence ≡ true)
unfolding is_valid by_index place merge_segment_observations merge_segments collect find_spec
    globalize_all by_start place_span lookup insert
merge-are_placed_example =
    merge-are_placed recording (seen_second ∷ seen_first ∷ seen_second ∷ []) merged refl refl
