-- ===== src/Index/MergePlan.antt =====
-- `plan_merge`: which segments are to be merged.
use cloud_search.Prelude.{
  ℕ, suc, ◌&&◌, Bool, Option, none, some, List, [], ◌∷◌, length, ltb, leb, if◌then◌else◌,
}
use cloud_search.Index.{IndexHandle, SegmentMeta}
use cloud_search.Index.Operations.{unwrap_or}

abbrev pub merge_trigger_document_count : ℕ
merge_trigger_document_count = 8

abbrev pub is_small : ℕ → SegmentMeta → Bool
is_small threshold s = ltb 0 s.document_count && ltb s.document_count threshold

unfoldable pub small_segments : ℕ → List SegmentMeta → List SegmentMeta
small_segments threshold [] = []
small_segments threshold (s ∷ ss) =
    let rest = small_segments threshold ss in if is_small threshold s then s ∷ rest else rest

unfoldable pub last_segment : List SegmentMeta → Option SegmentMeta
last_segment [] = none
last_segment (s ∷ []) = some s
last_segment (s ∷ t ∷ ss) = last_segment (t ∷ ss)

-- `next_segment_number` of the manifest.
unfoldable pub next_segment_number : List SegmentMeta → ℕ
next_segment_number segs = elim (last_segment segs) [ none ↦ 1 | some s ↦ suc s.segment_number ]

-- A plan holds nothing but its segments.
unfoldable pub plan_merge : IndexHandle → Option (List SegmentMeta)
plan_merge h =
    let threshold =
      unwrap_or h.metadata.settings.merge_threshold_docs merge_trigger_document_count in
    let below = small_segments threshold h.manifest.segments in
    if leb 2 (length below) then some below else elim (last_segment h.manifest.segments) [
      | none ↦ none
      | some large ↦ if leb threshold large.document_count then some (large ∷ []) else none
    ]
