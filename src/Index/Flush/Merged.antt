-- ===== src/Index/Flush/Merged.antt =====
-- What the merge at the end of a flush leaves in the files.
use cloud_search.Prelude.{
  ℕ, ◌<◌, ◌≤◌, max, ◌≡◌, refl, ◌∙◌, inl, inr, some, List, [], ◌∷◌, ◌++◌, Option-cases, arith, All,
  true, Bool-cases, length, leb,
}
use cloud_search.Prelude.Order.{nat_ord, text_ord}
use cloud_search.BTreeMap.{BTreeMap, get, insert, values}
use cloud_search.BTreeMap.Lookup.{All-insert}
use cloud_search.BTreeMap.Sorted.{IsSorted, insert-IsSorted}
use cloud_search.Bytes.{Text}
use cloud_search.Common.{IndexDocument}
use cloud_search.Wal.Spec.{Log}
use cloud_search.Index.{Env, IndexHandle, IndexManifest, SegmentMeta, SegmentSnapshot, SegmentsDir}
use cloud_search.Index.Operations.{apply_pending, unwrap_or}
use cloud_search.Index.Views.{overlay, get-apply_pending}
use cloud_search.Index.Recovery.{
  insert_documents, load_segments, open_manifest, load_all_suggest_readers,
}
use cloud_search.Index.MergePlan.{
  plan_merge, small_segments, last_segment, merge_trigger_document_count,
}
use cloud_search.Index.Merge.{
  read_documents, is_planned, unplanned, finish_merge, apply_merge_plan, merged_positions,
  write_positions_file,
}
use cloud_search.Index.Merge.Numbers.{Ascending, All-unplanned, next_segment_number-fresh}
use cloud_search.Index.Runs.{Result-cases}
use cloud_search.Index.Reopen.{flushed}
use cloud_search.Index.Snapshots.Restored.{OpKeyed, apply_pending-kept}
use cloud_search.Index.Flush.Sidecars.{
  Answers, answers_ok, answers_err, answers_panic, write_positions_file-kept,
}
use cloud_search.Index.Flush.Reopened.{
  over, IsKeyed, get-insert_documents, load_segments-append, opened_by,
}
use cloud_search.Index.Flush.Trimmed.{IsTrimmed}

-- The documents of a merge, and what the segments outside of its plan read as.
abbrev pub merged_documents : List SegmentMeta → IndexHandle → BTreeMap Text IndexDocument
merged_documents plan h = apply_pending h.pending_operations (read_documents h.segments_dir plan [])

abbrev pub outside : List SegmentMeta → IndexHandle → BTreeMap Text IndexDocument × ℕ
outside plan h = load_segments h.segments_dir (unplanned plan h.manifest.segments) [] 0

-- A handle after a merge: the merged documents stand over the segments outside of the plan.
pub record IsMerged (plan : List SegmentMeta) (h k : IndexHandle) : Type 0 where
  pub read : flushed k ≡ (
    insert_documents (values (merged_documents plan h)) ((outside plan h).0),
    max ((outside plan h).1) h.last_sequence_number,
  )
  pub opened : open_manifest k.segments_dir ≡ (k.manifest, k.segments_dir)
  pub pending : k.pending_operations ≡ h.pending_operations
  pub searchable : k.searchable_documents ≡ merged_documents plan h
  pub last : k.last_sequence_number ≡ h.last_sequence_number
  pub wal : k.wal ≡ h.wal

-- The files have the new segment, and its entry is the last one of the manifest.
abbrev Holds :
    SegmentMeta
    → SegmentSnapshot
    → List SegmentMeta
    → SegmentsDir
    → IndexManifest
    → IndexHandle
    → Type 0
Holds seg snapshot segs dir manifest h =
    (h.segments_dir.segment_files ≡ insert seg.segment_number snapshot dir.segment_files)
    × (h.segments_dir.manifest_file ≡ some manifest)
    × (manifest.segments ≡ segs ++ seg ∷ [])

finish_merge-IsMerged :
    (env : Env) (plan : List SegmentMeta) (seg : SegmentMeta) (snapshot : SegmentSnapshot)
    (manifest : IndexManifest) (h g : IndexHandle)
    → Holds seg snapshot (unplanned plan h.manifest.segments) h.segments_dir manifest g
    → snapshot.documents ≡ values (merged_documents plan h)
    → seg.last_sequence_number ≡ h.last_sequence_number
    → All (λ s. s.segment_number < seg.segment_number) (unplanned plan h.manifest.segments)
    → g.pending_operations ≡ h.pending_operations
    → g.last_sequence_number ≡ h.last_sequence_number
    → g.wal ≡ h.wal
    → Answers (λ r k. IsMerged plan h k) (finish_merge env seg manifest (merged_documents plan h) g)
unfolding finish_merge
finish_merge-IsMerged env plan seg snapshot manifest h g (files, file, segs) docs seq below pending
      last wal =
    let docs_positions = merged_positions env (values (merged_documents plan h)) [] in
    elim (Result-cases (write_positions_file seg.segment_number docs_positions g.segments_dir)) [
      | inr (inl (x, e)) ↦ rw (finish_merge, e) answers_err
      | inr (inr e) ↦ rw (finish_merge, e) answers_panic
      | inl (dir, e) ↦
          let (same_files, same_file) =
            write_positions_file-kept seg.segment_number docs_positions g.segments_dir dir e in
          elim (Result-cases (load_all_suggest_readers dir manifest.segments)) [
            | inr (inl (x, f)) ↦ rw (finish_merge, e, f) answers_err
            | inr (inr f) ↦ rw (finish_merge, e, f) answers_panic
            | inl (rs, f) ↦
                rw (finish_merge, e, f)
                  (answers_ok (record {
                    read = rw segs (
                        load_segments-append h.segments_dir dir seg.segment_number snapshot seg
                          (unplanned plan h.manifest.segments) [] 0 (same_files ∙ files) refl below
                        ∙ (rw (docs, seq) refl));
                    opened = opened_by dir manifest (same_file ∙ file);
                    pending = pending;
                    searchable = refl;
                    last = last;
                    wal = wal;
                  }))
          ]
    ]

pub apply_merge_plan-IsMerged :
    (env : Env) (s : SegmentMeta) (ss : List SegmentMeta) (h : IndexHandle)
    → Ascending h.manifest.segments
    → Answers (λ r k. IsMerged (s ∷ ss) h k) (apply_merge_plan env (s ∷ ss) h)
unfolding apply_merge_plan
apply_merge_plan-IsMerged env s ss h asc =
    let snapshot : SegmentSnapshot = record {
      last_sequence_number = h.last_sequence_number;
      documents = values (merged_documents (s ∷ ss) h);
    } in
    elim (Option-cases (env.snapshot_to_vec snapshot)) [
      | inl e ↦ rw (apply_merge_plan, e) answers_err
      | inr (bytes, e) ↦
          rw (apply_merge_plan, e)
            (finish_merge-IsMerged env (s ∷ ss) _ snapshot _ h _ (refl, refl, refl) refl refl
              (All-unplanned _ (s ∷ ss) h.manifest.segments
                (next_segment_number-fresh h.manifest.segments asc))
              refl refl refl)
    ]

-- Leaving segments out does not raise the number that they cover.
outside-le :
    (dir : SegmentsDir) (plan segs : List SegmentMeta) (docs more : BTreeMap Text IndexDocument)
    (x y : ℕ)
    → x ≤ y
    → (load_segments dir (unplanned plan segs) docs x).1 ≤ (load_segments dir segs more y).1
unfolding load_segments unplanned
outside-le dir plan [] docs more x y l = l
outside-le dir plan (s ∷ segs) docs more x y l =
    elim (Bool-cases (is_planned s.segment_number plan)) [
      | inl b ↦ elim (Option-cases (get s.segment_number dir.segment_files)) [
        | inl e ↦ rw (unplanned, b, load_segments, e) (outside-le dir plan segs docs more x y l)
        | inr (snap, e) ↦
            rw (unplanned, b, load_segments, e)
              (outside-le dir plan segs docs _ x (max y s.last_sequence_number) (omega (arith, l)))
      ]
      | inr b ↦ elim (Option-cases (get s.segment_number dir.segment_files)) [
        | inl e ↦ rw (unplanned, b, load_segments, e) (outside-le dir plan segs docs more x y l)
        | inr (snap, e) ↦
            rw (unplanned, b, load_segments, e)
              (outside-le dir plan segs _ _ (max x s.last_sequence_number)
                (max y s.last_sequence_number) (omega (arith, l)))
      ]
    ]

pub merged-IsTrimmed :
    (env : Env) (a : Log) (plan : List SegmentMeta) (h j k : IndexHandle)
    → IsTrimmed env a h j
    → IsMerged plan j k
    → IsTrimmed env a h k
merged-IsTrimmed env a plan h j k t m =
    let below = outside-le j.segments_dir plan j.manifest.segments [] [] 0 0 (omega arith) in
    let c = t.covers in
    let l = t.last in
    record {
      covers = rw (m.read) (omega (arith, below, c, l));
      opened = m.opened;
      last = m.last ∙ t.last;
      log = m.wal ∙ t.log;
    }

insert_documents-kept :
    (ds : List IndexDocument) (docs : BTreeMap Text IndexDocument)
    → IsSorted docs
    → IsKeyed docs
    → IsSorted (insert_documents ds docs) × IsKeyed (insert_documents ds docs)
unfolding insert_documents
insert_documents-kept [] docs s k = (s, k)
insert_documents-kept (d ∷ ds) docs s k =
    insert_documents-kept ds (insert d.id d docs) (insert-IsSorted d.id d docs s)
      (All-insert (λ e. e.0 ≡ e.1.id) d.id d docs refl k)

read_documents-kept :
    (dir : SegmentsDir) (plan : List SegmentMeta) (docs : BTreeMap Text IndexDocument)
    → IsSorted docs
    → IsKeyed docs
    → IsSorted (read_documents dir plan docs) × IsKeyed (read_documents dir plan docs)
unfolding read_documents
read_documents-kept dir [] docs s k = (s, k)
read_documents-kept dir (seg ∷ plan) docs s k =
    elim (Option-cases (get seg.segment_number dir.segment_files)) [
      | inl e ↦ rw (read_documents, e) (read_documents-kept dir plan docs s k)
      | inr (snap, e) ↦
          let (s', k') = insert_documents-kept snap.documents docs s k in
          rw (read_documents, e) (read_documents-kept dir plan _ s' k')
    ]

pub merged_reads :
    (plan : List SegmentMeta) (h k : IndexHandle) (p : Text)
    → IsSorted h.pending_operations
    → All OpKeyed h.pending_operations
    → IsMerged plan h k
    → get p ((flushed k).0)
      ≡ over
          (overlay (get p h.pending_operations) (get p (read_documents h.segments_dir plan [])))
          (get p ((outside plan h).0))
merged_reads plan h k p s o m =
    let (rs, rk) = read_documents-kept h.segments_dir plan [] tt tt in
    let (ms, mk) =
      apply_pending-kept h.pending_operations (read_documents h.segments_dir plan []) o rs rk in
    rw (m.read) (
      get-insert_documents (merged_documents plan h) ((outside plan h).0) p ms mk
      ∙ (rw (get-apply_pending h.pending_operations (read_documents h.segments_dir plan []) p s)
          refl))

-- A plan has a segment.
pub plan_merge-not_empty :
    (h : IndexHandle) (plan : List SegmentMeta)
    → plan_merge h ≡ some plan
    → (s : SegmentMeta) × (ss : List SegmentMeta) × (plan ≡ s ∷ ss)
unfolding plan_merge
plan_merge-not_empty h (s ∷ ss) e = (s, ss, refl)
plan_merge-not_empty h [] e =
    let threshold =
      unwrap_or h.metadata.settings.merge_threshold_docs merge_trigger_document_count in
    let below = small_segments threshold h.manifest.segments in
    elim (Bool-cases (leb 2 (length below))) [
      | inl b ↦
          let few : below ≡ [] = cc (rw (plan_merge, b) at e) in
          let no : leb 2 0 ≡ true = rw few at b in ground arith
      | inr b ↦ elim (Option-cases (last_segment h.manifest.segments)) [
        | inl l ↦ cc (rw (plan_merge, b, l) at e)
        | inr (large, l) ↦ elim (Bool-cases (leb threshold large.document_count)) [
          | inl c ↦ cc (rw (plan_merge, b, l, c) at e)
          | inr c ↦ cc (rw (plan_merge, b, l, c) at e)
        ]
      ]
    ]
