-- ===== src/Index/Flush/Reopened.antt =====
-- What opening the files gives after a flush and before the merge that it ends with.
use cloud_search.Prelude.{
  ℕ, ◌+◌, ◌<◌, max, ◌≡◌, ◌≢◌, refl, sym, ap, ◌∙◌, inl, inr, Option, none, some, List, [], ◌∷◌, ◌++◌,
  Option-cases, arith, All,
}
use cloud_search.Prelude.Order.{nat_ord, text_ord}
use cloud_search.BTreeMap.{BTreeMap, get, insert, values}
use cloud_search.BTreeMap.Lookup.{get-insert, get-cases, update_self, update_ne}
use cloud_search.BTreeMap.Sorted.{IsSorted, get-Above}
use cloud_search.Bytes.{Text}
use cloud_search.Common.{ok, IndexDocument}
use cloud_search.Wal.{WalManager, rollover, trim_through}
use cloud_search.Wal.Spec.{Log, represent, roll, trim, AllStorable}
use cloud_search.Wal.Refines.{rollover-represent}
use cloud_search.Wal.Trim.{trim_through-represent}
use cloud_search.Index.{Env, IndexHandle, IndexManifest, SegmentMeta, SegmentSnapshot, SegmentsDir}
use cloud_search.Index.Recovery.{insert_documents, load_segments, open_manifest}
use cloud_search.Index.MergePlan.{next_segment_number}
use cloud_search.Index.Merge.Numbers.{Ascending, Ascending-last, next_segment_number-fresh}
use cloud_search.Index.Reopen.{IsDurable, flushed}
use cloud_search.Index.Flush.{flush_snapshot, flush_files, flush_segment}
use cloud_search.Index.Flush.Sidecars.{
  Answers, answers_err, Answers-mono, flush_doc_values-SidecarsOnly,
}

-- One map read over another.
unfoldable pub over : Option IndexDocument → Option IndexDocument → Option IndexDocument
over (some d) e = some d
over none e = e

-- Each document stands under its id.
abbrev pub IsKeyed : BTreeMap Text IndexDocument → Type 0
IsKeyed m = All (λ e. e.0 ≡ e.1.id) m

pub get-insert_documents :
    (docs m : BTreeMap Text IndexDocument) (p : Text)
    → IsSorted docs
    → IsKeyed docs
    → get p (insert_documents (values docs) m) ≡ over (get p docs) (get p m)
unfolding insert_documents
get-insert_documents [] m p s k = unfold get over in refl
get-insert_documents ((j, d) ∷ docs) m p s k =
    let later = get-insert_documents docs (insert d.id d m) p s.1 k.1 in
    elim (get-cases p j d docs) [
      | inl (same, found) ↦
          let gone : get p docs ≡ none = rw same (get-Above j docs s.0) in
          let at_key : p ≡ d.id = same ∙ k.0 in
          let put : get p (insert d.id d m) ≡ some d =
            get-insert d.id d m p ∙ (rw at_key (update_self d.id (some d) _)) in
          later ∙ (rw (gone, put, found) (unfold over in refl))
      | inr (differs, found) ↦
          let apart : p ≢ d.id = λ e. differs (e ∙ sym (k.0)) in
          let put : get p (insert d.id d m) ≡ get p m =
            get-insert d.id d m p ∙ update_ne d.id (some d) _ p apart in
          later ∙ (rw (put, found) refl)
    ]

-- A segment file that is added under a new number, and its entry at the end of the manifest.
pub load_segments-append :
    (dir new : SegmentsDir) (n : ℕ) (snapshot : SegmentSnapshot) (seg : SegmentMeta)
    (segs : List SegmentMeta) (docs : BTreeMap Text IndexDocument) (x : ℕ)
    → new.segment_files ≡ insert n snapshot dir.segment_files
    → seg.segment_number ≡ n
    → All (λ s. s.segment_number < n) segs
    → load_segments new (segs ++ seg ∷ []) docs x ≡ (
      insert_documents snapshot.documents ((load_segments dir segs docs x).0),
      max ((load_segments dir segs docs x).1) seg.last_sequence_number,
    )
unfolding load_segments
load_segments-append dir new n snapshot seg [] docs x f e a =
    let found : get seg.segment_number new.segment_files ≡ some snapshot =
      rw (f, e) (get-insert n snapshot dir.segment_files n ∙ update_self n (some snapshot) _) in
    rw (load_segments, found) refl
load_segments-append dir new n snapshot seg (s ∷ segs) docs x f e a =
    let below = a.0 in
    let apart : s.segment_number ≢ n = λ q. absurd (omega arith) in
    let same : get s.segment_number new.segment_files ≡ get s.segment_number dir.segment_files =
      rw f (
        get-insert n snapshot dir.segment_files s.segment_number
        ∙ update_ne n (some snapshot) _ s.segment_number apart) in
    elim (Option-cases (get s.segment_number dir.segment_files)) [
      | inl q ↦
          rw (load_segments, same, q)
            (load_segments-append dir new n snapshot seg segs docs x f e a.1)
      | inr (snap, q) ↦
          rw (load_segments, same, q)
            (load_segments-append dir new n snapshot seg segs (insert_documents snap.documents docs)
              (max x s.last_sequence_number) f e a.1)
    ]

-- A handle after `flush_files`: the segments read as before with the searchable documents over them, and
-- the log was rolled over and trimmed.
pub record IsFlushed (env : Env) (a : Log) (h k : IndexHandle) : Type 0 where
  pub read : flushed k ≡ (
    insert_documents (values h.searchable_documents) ((flushed h).0),
    max ((flushed h).1) h.last_sequence_number,
  )
  pub opened : open_manifest k.segments_dir ≡ (k.manifest, k.segments_dir)
  pub pending : k.pending_operations ≡ h.pending_operations
  pub searchable : k.searchable_documents ≡ h.searchable_documents
  pub ascending : Ascending k.manifest.segments
  pub last : k.last_sequence_number ≡ h.last_sequence_number
  pub log : k.wal ≡ represent env.codec (trim h.last_sequence_number (roll a))

trimmed_log :
    (env : Env) (n x : ℕ) (a : Log) (w : WalManager)
    → IsSorted a.generations
    → AllStorable env.codec a.generations
    → trim_through x (represent env.codec (roll a)) ≡ ok (n, w)
    → w ≡ represent env.codec (trim x (roll a))
trimmed_log env n x a w o s h =
    let done = trim_through-represent env.codec x (roll a) (unfold roll in o) (unfold roll in s) in
    cc (h, done)

pub opened_by :
    (dir : SegmentsDir) (m : IndexManifest)
    → dir.manifest_file ≡ some m
    → open_manifest dir ≡ (m, dir)
unfolding open_manifest
opened_by dir m e = simp (open_manifest, e)

flush_segment-IsFlushed :
    (env : Env) (h : IndexHandle) (a : Log)
    → IsDurable env h a
    → Ascending h.manifest.segments
    → Answers
        (λ r k. IsFlushed env a h k)
        (flush_segment env (flush_snapshot h) (record h { wal = represent env.codec (roll a) }))
unfolding flush_segment
flush_segment-IsFlushed env h a i asc =
    elim (Option-cases (env.snapshot_to_vec (flush_snapshot h))) [
      | inl e ↦ rw (flush_segment, e) answers_err
      | inr (bytes, e) ↦
          rw (flush_segment, e)
            (Answers-mono _ (flush_doc_values-SidecarsOnly env (flush_snapshot h) _ _) (λ r k s.
              record {
                read = rw (s.manifest) (
                    load_segments-append h.segments_dir k.segments_dir
                      (next_segment_number h.manifest.segments) (flush_snapshot h) _
                      h.manifest.segments [] 0 s.files refl
                      (next_segment_number-fresh h.manifest.segments asc));
                opened =
                    opened_by k.segments_dir k.manifest
                      (s.manifest_file ∙ ap some (sym s.manifest));
                pending = s.pending;
                searchable = s.searchable;
                ascending = rw (s.manifest) (
                    Ascending-last h.manifest.segments _ asc
                      (next_segment_number-fresh h.manifest.segments asc));
                last = s.last;
                log =
                    trimmed_log env (s.trimmed.0) h.last_sequence_number a k.wal i.sorted i.storable
                      (s.trimmed.1);
              }))
    ]

-- What `flush_files` does, where it succeeds.
pub flush_files-IsFlushed :
    (env : Env) (h : IndexHandle) (a : Log)
    → IsDurable env h a
    → Ascending h.manifest.segments
    → Answers (λ r k. IsFlushed env a h k) (flush_files env h)
unfolding flush_files
flush_files-IsFlushed env h a i asc =
    let rolled : rollover h.wal ≡ ok (a.active + 1, represent env.codec (roll a)) =
      rw (i.wal) (rollover-represent env.codec a) in
    rw (flush_files, rolled) (flush_segment-IsFlushed env h a i asc)
