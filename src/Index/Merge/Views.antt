-- ===== src/Index/Merge/Views.antt =====
-- What a merge does to what is read.
use cloud_search.Prelude.{◌≡◌, refl, sym, ◌∙◌, ◌⊎◌, inl, inr, List, [], ◌∷◌, Option-cases}
use cloud_search.Prelude.Order.{text_ord}
use cloud_search.BTreeMap.{BTreeMap, get, values}
use cloud_search.BTreeMap.Sorted.{IsSorted}
use cloud_search.Bytes.{Text}
use cloud_search.Common.{IndexDocument}
use cloud_search.Index.{Env, IndexHandle, IndexManifest, SegmentMeta, SegmentSnapshot}
use cloud_search.Index.Operations.{get_document, documents, apply_pending}
use cloud_search.Index.MergePlan.{next_segment_number}
use cloud_search.Index.Recovery.{load_all_suggest_readers}
use cloud_search.Index.Merge.{
  merged_positions, write_positions_file, merge, finish_merge, apply_merge_plan, read_documents,
}
use cloud_search.Index.Runs.{Fails, Result-cases}
use cloud_search.Index.Views.{get_document-overlay, overlay_again, get-apply_pending}

abbrev merged : IndexHandle → BTreeMap Text IndexDocument
merged h = apply_pending h.pending_operations h.searchable_documents

-- What a merge leaves of the documents and the pending operations.
merge-cases :
    (env : Env) (h : IndexHandle)
    → let (r, k) = merge env h in
      (k.pending_operations ≡ h.pending_operations)
      × ((k.searchable_documents ≡ merged h)
          ⊎ (Fails r × (k.searchable_documents ≡ h.searchable_documents)))
unfolding merge
merge-cases env h =
    let n = next_segment_number h.manifest.segments in
    let snapshot : SegmentSnapshot = record {
      last_sequence_number = h.last_sequence_number;
      documents = values (merged h);
    } in
    elim (Result-cases
      (write_positions_file n (merged_positions env (values (merged h)) []) h.segments_dir)) [
        | inr (inl (x, e)) ↦ rw (merge, e) (refl, inr (tt, refl))
        | inr (inr e) ↦ rw (merge, e) (refl, inr (tt, refl))
        | inl (dir, e) ↦ elim (Option-cases (env.snapshot_to_vec snapshot)) [
          | inl f ↦ rw (merge, e, f) (refl, inr (tt, refl))
          | inr (bytes, f) ↦ rw (merge, e, f) (refl, inl refl)
        ]
      ]

-- Where the pending operations are sorted, a merge, whether it succeeds or fails, does not change what
-- `get_document` reads; and one that succeeds makes that searchable.
pub get_document-merge :
    (env : Env) (h : IndexHandle) (id : Text)
    → IsSorted h.pending_operations
    → let (r, k) = merge env h in
      (get_document id k ≡ get_document id h)
      × (Fails r ⊎ (get id (documents k) ≡ get_document id h))
unfolding documents
get_document-merge env h id s =
    let (p, q) = merge-cases env h in
    let read = get-apply_pending h.pending_operations h.searchable_documents id s in
    elim q [
      | inl m ↦ (
        get_document-overlay id _
            ∙ (rw (p, m, read)
                (overlay_again (get id h.pending_operations) (get id h.searchable_documents)))
            ∙ sym (get_document-overlay id h),
        inr ((rw (m) read) ∙ sym (get_document-overlay id h)),
      )
      | inr (bad, m) ↦
          (get_document-overlay id _ ∙ (rw (p, m) refl) ∙ sym (get_document-overlay id h), inl bad)
    ]

finish_merge-documents :
    (env : Env) (seg : SegmentMeta) (manifest : IndexManifest) (docs : BTreeMap Text IndexDocument)
    (h : IndexHandle)
    → let k = (finish_merge env seg manifest docs h).1 in
      (k.pending_operations ≡ h.pending_operations)
      × ((k.searchable_documents ≡ docs) ⊎ (k.searchable_documents ≡ h.searchable_documents))
unfolding finish_merge
finish_merge-documents env seg manifest docs h =
    elim (Result-cases (
      write_positions_file seg.segment_number (merged_positions env (values docs) [])
        h.segments_dir)) [
          | inr (inl (x, e)) ↦ rw (finish_merge, e) (refl, inr refl)
          | inr (inr e) ↦ rw (finish_merge, e) (refl, inr refl)
          | inl (dir, e) ↦ elim (Result-cases (load_all_suggest_readers dir manifest.segments)) [
            | inl (rs, f) ↦ rw (finish_merge, e, f) (refl, inl refl)
            | inr (inl (x, f)) ↦ rw (finish_merge, e, f) (refl, inl refl)
            | inr (inr f) ↦ rw (finish_merge, e, f) (refl, inl refl)
          ]
        ]

apply_merge_plan-documents :
    (env : Env) (plan : List SegmentMeta) (h : IndexHandle)
    → let k = (apply_merge_plan env plan h).1 in
      (k.pending_operations ≡ h.pending_operations)
      × ((k.searchable_documents
            ≡ apply_pending h.pending_operations (read_documents h.segments_dir plan []))
          ⊎ (k.searchable_documents ≡ h.searchable_documents))
unfolding apply_merge_plan
apply_merge_plan-documents env [] h = (refl, inr refl)
apply_merge_plan-documents env (s ∷ ss) h =
    let docs = apply_pending h.pending_operations (read_documents h.segments_dir (s ∷ ss) []) in
    elim (Option-cases (
      env.snapshot_to_vec
        (record { last_sequence_number = h.last_sequence_number; documents = values docs }))) [
          | inl e ↦ rw (apply_merge_plan, e) (refl, inr refl)
          | inr (bytes, e) ↦ rw (apply_merge_plan, e) (finish_merge-documents env _ _ docs _)
        ]

-- Where the pending operations are sorted and the planned segments read as the searchable documents
-- do, applying the plan does not change what `get_document` reads, whether it succeeds or fails.
pub get_document-apply_merge_plan :
    (env : Env) (plan : List SegmentMeta) (h : IndexHandle) (id : Text)
    → IsSorted h.pending_operations
    → get id (read_documents h.segments_dir plan []) ≡ get id h.searchable_documents
    → get_document id (apply_merge_plan env plan h).1 ≡ get_document id h
get_document-apply_merge_plan env plan h id s same =
    let (p, q) = apply_merge_plan-documents env plan h in
    let read =
      get-apply_pending h.pending_operations (read_documents h.segments_dir plan []) id s in
    elim q [
      | inl m ↦
          get_document-overlay id _
          ∙ (rw (p, m, read, same)
              (overlay_again (get id h.pending_operations) (get id h.searchable_documents)))
          ∙ sym (get_document-overlay id h)
      | inr m ↦ get_document-overlay id _ ∙ (rw (p, m) refl) ∙ sym (get_document-overlay id h)
    ]
