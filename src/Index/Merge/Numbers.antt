-- ===== src/Index/Merge/Numbers.antt =====
-- The numbers of the segments in a manifest ascend, so that a new segment never takes the file of
-- another.
use cloud_search.Prelude.{
  ◌<◌, ◌≡◌, refl, ◌⊎◌, inl, inr, List, [], ◌∷◌, ◌++◌, arith, All, All-append, Option-cases,
}
use cloud_search.Prelude.Order.{text_ord}
use cloud_search.BTreeMap.{BTreeMap, values}
use cloud_search.Bytes.{Text}
use cloud_search.Common.{IndexDocument}
use cloud_search.Index.{Env, IndexHandle, IndexManifest, SegmentMeta}
use cloud_search.Index.Operations.{apply_pending}
use cloud_search.Index.Recovery.{load_all_suggest_readers}
use cloud_search.Index.Runs.{Result-cases}
use cloud_search.Index.MergePlan.{last_segment, next_segment_number}
use cloud_search.Index.Merge.{
  unplanned, finish_merge, apply_merge_plan, read_documents, merged_positions, write_positions_file,
}

-- Each number is below those that follow.
abbrev pub Ascending : List SegmentMeta → Type 0
Ascending [] = Unit
Ascending (s ∷ ss) = All (λ t. s.segment_number < t.segment_number) ss × Ascending ss

-- The next number is above all.
pub next_segment_number-fresh :
    (ss : List SegmentMeta) → Ascending ss → All (λ s. s.segment_number < next_segment_number ss) ss
unfolding next_segment_number last_segment
next_segment_number-fresh [] a = tt
next_segment_number-fresh (s ∷ []) a = (omega arith, tt)
next_segment_number-fresh (s ∷ t ∷ ss) a =
    let ih = next_segment_number-fresh (t ∷ ss) a.1 in (omega (arith, ih.0, a.0.0), ih)

pub All-unplanned :
    (P : SegmentMeta → Type 0) (plan ss : List SegmentMeta) → All P ss → All P (unplanned plan ss)
unfolding unplanned
All-unplanned P plan [] a = tt
All-unplanned P plan (s ∷ ss) a = ground (arith, All-unplanned P plan ss a.1)

unplanned-Ascending : (plan ss : List SegmentMeta) → Ascending ss → Ascending (unplanned plan ss)
unfolding unplanned
unplanned-Ascending plan [] a = tt
unplanned-Ascending plan (s ∷ ss) a = ground (
  arith,
  unplanned-Ascending plan ss a.1,
  All-unplanned (λ t. s.segment_number < t.segment_number) plan ss a.0,
)

pub Ascending-last :
    (ss : List SegmentMeta) (new : SegmentMeta)
    → Ascending ss
    → All (λ s. s.segment_number < new.segment_number) ss
    → Ascending (ss ++ new ∷ [])
Ascending-last [] new a b = (tt, tt)
Ascending-last (s ∷ ss) new a b =
    (All-append _ ss (new ∷ []) a.0 (b.0, tt), Ascending-last ss new a.1 b.1)

finish_merge-manifest :
    (env : Env) (seg : SegmentMeta) (manifest : IndexManifest)
    (merged : BTreeMap Text IndexDocument) (h : IndexHandle)
    → let k = (finish_merge env seg manifest merged h).1 in
      (k.manifest ≡ manifest) ⊎ (k.manifest ≡ h.manifest)
unfolding finish_merge
finish_merge-manifest env seg manifest merged h =
    elim (Result-cases (
      write_positions_file seg.segment_number (merged_positions env (values merged) [])
        h.segments_dir)) [
          | inr (inl (x, e)) ↦ rw (finish_merge, e) (inr refl)
          | inr (inr e) ↦ rw (finish_merge, e) (inr refl)
          | inl (dir, e) ↦ elim (Result-cases (load_all_suggest_readers dir manifest.segments)) [
            | inl (rs, f) ↦ rw (finish_merge, e, f) (inl refl)
            | inr (inl (x, f)) ↦ rw (finish_merge, e, f) (inl refl)
            | inr (inr f) ↦ rw (finish_merge, e, f) (inl refl)
          ]
        ]

finish_merge-Ascending :
    (env : Env) (seg : SegmentMeta) (manifest : IndexManifest)
    (merged : BTreeMap Text IndexDocument) (h : IndexHandle)
    → Ascending manifest.segments
    → Ascending h.manifest.segments
    → Ascending (finish_merge env seg manifest merged h).1.manifest.segments
finish_merge-Ascending env seg manifest merged h a b =
    elim (finish_merge-manifest env seg manifest merged h) [ inl m ↦ rw m a | inr m ↦ rw m b ]

-- Applying a merge plan to a manifest whose segment numbers ascend leaves one whose numbers ascend,
-- also where it fails: the new segment has a number above those of all the others.
pub apply_merge_plan-Ascending :
    (env : Env) (plan : List SegmentMeta) (h : IndexHandle)
    → Ascending h.manifest.segments
    → Ascending (apply_merge_plan env plan h).1.manifest.segments
unfolding apply_merge_plan
apply_merge_plan-Ascending env [] h a = a
apply_merge_plan-Ascending env (s ∷ ss) h a =
    let docs = apply_pending h.pending_operations (read_documents h.segments_dir (s ∷ ss) []) in
    elim (Option-cases (
      env.snapshot_to_vec
        (record { last_sequence_number = h.last_sequence_number; documents = values docs }))) [
          | inl e ↦ rw (apply_merge_plan, e) a
          | inr (bytes, e) ↦
              rw (apply_merge_plan, e)
                (finish_merge-Ascending env _ _ docs _
                  (Ascending-last (unplanned (s ∷ ss) h.manifest.segments) _
                    (unplanned-Ascending (s ∷ ss) h.manifest.segments a)
                    (All-unplanned _ (s ∷ ss) h.manifest.segments
                      (next_segment_number-fresh h.manifest.segments a)))
                  a)
        ]
