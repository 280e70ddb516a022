-- ===== src/Index/Snapshots/Restored.antt =====
-- A snapshot that was created is what restoring it gives.
use cloud_search.Prelude.{
  ℕ, ◌==◌, ◌≡◌, ◌≢◌, refl, sym, ap, ◌∙◌, inl, inr, true, Option, none, some, [], ◌∷◌, Option-cases,
  arith, All, length, length-append, ==_iff,
}
use cloud_search.Prelude.Order.{text_ord}
use cloud_search.BTreeMap.{BTreeMap, get, insert, remove, values}
use cloud_search.BTreeMap.Lookup.{get-insert, update_self, update_ne, All-insert}
use cloud_search.BTreeMap.Sorted.{IsSorted, insert-IsSorted, remove-IsSorted}
use cloud_search.Bytes.{Text}
use cloud_search.Common.{ok, IndexDocument}
use cloud_search.Wal.{rollover, trim_through}
use cloud_search.Index.{
  Env, IndexHandle, PendingOperation, upsert_op, delete_op, SegmentSnapshot, SnapshotMetadata,
  SnapshotFile, data_file, meta_file,
}
use cloud_search.Index.Operations.{apply_pending, get_document}
use cloud_search.Index.Recovery.{insert_documents}
use cloud_search.Index.Runs.{Result-cases}
use cloud_search.Index.Views.{get_document-overlay, get-apply_pending, overlay}
use cloud_search.Index.Flush.Sidecars.{
  Answers, answers_ok, answers_err, answers_panic, Answers-mono, Answers-ok,
}
use cloud_search.Index.Flush.Reopened.{IsKeyed, get-insert_documents, over}
use cloud_search.Index.Snapshots.{
  validate_snapshot_name, snapshot_data_path, snapshot_meta_path, json_ending, meta_ending,
  write_named_snapshot, read_named_snapshot, read_snapshot_metadata, create_snapshot,
  restore_snapshot, restore_found, restore_checked, restore_files, restored_timestamps,
  RestoreResponse,
}

-- A pending document stands under its id.
abbrev pub OpKeyed : Text × PendingOperation → Type 0
OpKeyed (id, upsert_op d) = id ≡ d.id
OpKeyed (id, delete_op) = Unit

All-remove :
    (P : Text × IndexDocument → Type 0) (k : Text) (m : BTreeMap Text IndexDocument)
    → All P m
    → All P (remove k m)
unfolding remove
All-remove P k [] a = tt
All-remove P k (e ∷ m) a = ground (arith, All-remove P k m a.1)

-- What is pending keeps the documents sorted and under their ids.
pub apply_pending-kept :
    (ops : BTreeMap Text PendingOperation) (docs : BTreeMap Text IndexDocument)
    → All OpKeyed ops
    → IsSorted docs
    → IsKeyed docs
    → IsSorted (apply_pending ops docs) × IsKeyed (apply_pending ops docs)
unfolding apply_pending
apply_pending-kept [] docs o s k = (s, k)
apply_pending-kept ((id, upsert_op d) ∷ ops) docs o s k =
    apply_pending-kept ops (insert id d docs) o.1 (insert-IsSorted id d docs s)
      (All-insert (λ e. e.0 ≡ e.1.id) id d docs o.0 k)
apply_pending-kept ((id, delete_op) ∷ ops) docs o s k =
    apply_pending-kept ops (remove id docs) o.1 (remove-IsSorted id docs s)
      (All-remove (λ e. e.0 ≡ e.1.id) id docs k)

-- The handle has the documents of the snapshot, and nothing is pending.
abbrev Restores : SegmentSnapshot → IndexHandle → Type 0
Restores snapshot j =
    (j.searchable_documents ≡ insert_documents snapshot.documents []) × (j.pending_operations ≡ [])

restore_files-kept :
    (snapshot : SegmentSnapshot) (h : IndexHandle)
    → Answers
        (λ r j.
          (j.searchable_documents ≡ h.searchable_documents)
          × (j.pending_operations ≡ h.pending_operations))
        (restore_files snapshot h)
unfolding restore_files
restore_files-kept snapshot h = elim (Result-cases (rollover h.wal)) [
  | inr (inl (x, e)) ↦ rw (restore_files, e) answers_err
  | inr (inr e) ↦ rw (restore_files, e) answers_panic
  | inl ((g, wal), e) ↦ elim (Result-cases (trim_through snapshot.last_sequence_number wal)) [
    | inr (inl (x, t)) ↦ rw (restore_files, e, t) answers_err
    | inr (inr t) ↦ rw (restore_files, e, t) answers_panic
    | inl ((n, left), t) ↦ rw (restore_files, e, t) (answers_ok (refl, refl))
  ]
]

restore_checked-Restores :
    (env : Env) (snapshot : SegmentSnapshot) (metadata : SnapshotMetadata) (h : IndexHandle)
    → Answers (λ r j. Restores snapshot j) (restore_checked env snapshot metadata h)
unfolding restore_checked
restore_checked-Restores env snapshot metadata h =
    elim (Option-cases (restored_timestamps env h snapshot.documents [])) [
      | inl e ↦ rw (restore_checked, e) answers_panic
      | inr (ts, e) ↦ rw (restore_checked, e) (restore_files-kept snapshot _)
    ]

-- The two files of a snapshot have different names.
paths_differ : (name : Text) → snapshot_data_path name ≢ snapshot_meta_path name
unfolding snapshot_data_path snapshot_meta_path
paths_differ name e = absurd (
    let a = length-append name json_ending in
    let b = length-append name meta_ending in let same = ap length e in omega arith)

-- What a snapshot that was created leaves in the directory.
abbrev Stored : Env → Text → IndexHandle → BTreeMap Text SnapshotFile → Type 0
Stored env name h dir =
    (snapshot : SegmentSnapshot) × (metadata : SnapshotMetadata) × (bytes : _) × (snapshot.documents
      ≡ values (apply_pending h.pending_operations h.searchable_documents))
    × (env.snapshot_to_vec snapshot ≡ some bytes)
    × ((env.codec.crc32c bytes == metadata.checksum) ≡ true)
    × (validate_snapshot_name name ≡ ok tt)
    × (get (snapshot_data_path name) dir ≡ some (data_file snapshot))
    × (get (snapshot_meta_path name) dir ≡ some (meta_file metadata))

create_snapshot-Stored :
    (env : Env) (now : ℕ) (name : Text) (h : IndexHandle)
    → Answers
        (λ m k. Stored env name h k.segments_dir.snapshots_dir)
        (create_snapshot env now name h)
unfolding create_snapshot write_named_snapshot
create_snapshot-Stored env now name h =
    let snapshot : SegmentSnapshot = record {
      last_sequence_number = h.last_sequence_number;
      documents = values (apply_pending h.pending_operations h.searchable_documents);
    } in
    elim (Option-cases (env.snapshot_to_vec snapshot)) [
      | inl e ↦ rw (create_snapshot, e) answers_err
      | inr (bytes, e) ↦ elim (Result-cases (validate_snapshot_name name)) [
        | inr (inl (x, v)) ↦ rw (create_snapshot, e, write_named_snapshot, v) answers_err
        | inr (inr v) ↦ rw (create_snapshot, e, write_named_snapshot, v) answers_panic
        | inl (u, v) ↦
            let eq : (env.codec.crc32c bytes == env.codec.crc32c bytes) ≡ true =
              (==_iff (env.codec.crc32c bytes) (env.codec.crc32c bytes)).1 refl in
            rw (create_snapshot, e, write_named_snapshot, v, e, eq)
              (answers_ok (
                snapshot,
                _,
                bytes,
                refl,
                e,
                eq,
                refl,
                get-insert (snapshot_meta_path name) _ _ (snapshot_data_path name)
                    ∙ update_ne (snapshot_meta_path name) _ _ (snapshot_data_path name)
                        (paths_differ name)
                    ∙ get-insert (snapshot_data_path name) (data_file snapshot)
                        h.segments_dir.snapshots_dir (snapshot_data_path name)
                    ∙ update_self (snapshot_data_path name) (some (data_file snapshot)) _,
                get-insert (snapshot_meta_path name) _ _ (snapshot_meta_path name)
                    ∙ update_self (snapshot_meta_path name) _ _,
              ))
      ]
    ]

restore_snapshot-Restores :
    (env : Env) (name : Text) (h l : IndexHandle)
    → Stored env name h l.segments_dir.snapshots_dir
    → Answers
        (λ r j.
          (snapshot : SegmentSnapshot) × (snapshot.documents
            ≡ values (apply_pending h.pending_operations h.searchable_documents))
          × Restores snapshot j)
        (restore_snapshot env name l)
unfolding restore_snapshot read_named_snapshot read_snapshot_metadata restore_found
restore_snapshot-Restores env name h l (snapshot, metadata, bytes, docs, vec, crc, valid, d, m) =
    let found : read_named_snapshot name l.segments_dir ≡ ok (some snapshot) =
      rw (read_named_snapshot, valid, d) refl in
    let described : read_snapshot_metadata name l.segments_dir ≡ ok (some metadata) =
      rw (read_snapshot_metadata, valid, m) refl in
    rw (restore_snapshot, found, described, restore_found, vec, crc)
      (Answers-mono _ (restore_checked-Restores env snapshot metadata l)
        (λ r j p. (snapshot, docs, p)))

over_nothing : (p : Text) (d : Option IndexDocument) → over d (get {V = IndexDocument} p []) ≡ d
unfolding over get
over_nothing p none = refl
over_nothing p (some d) = refl

-- After a snapshot was created, restoring it on any handle with the same directory of snapshots gives
-- a handle that reads every document as the one read it that was snapshotted, pending or not, if the
-- documents and the pending operations are sorted and stand under their ids and the restoring
-- succeeds.
pub restore_snapshot-create_snapshot :
    (env : Env) (now : ℕ) (name : Text) (h k l j : IndexHandle) (m : SnapshotMetadata)
    (r : RestoreResponse) (p : Text)
    → IsSorted h.searchable_documents
    → IsKeyed h.searchable_documents
    → IsSorted h.pending_operations
    → All OpKeyed h.pending_operations
    → create_snapshot env now name h ≡ (ok m, k)
    → l.segments_dir.snapshots_dir ≡ k.segments_dir.snapshots_dir
    → restore_snapshot env name l ≡ (ok r, j)
    → get_document p j ≡ get_document p h
restore_snapshot-create_snapshot env now name h k l j m r p s ks s' po c same e =
    let stored = Answers-ok m k (create_snapshot-Stored env now name h) c in
    let (snapshot, docs, (searchable, pending)) =
      Answers-ok r j (restore_snapshot-Restores env name h l (rw same stored)) e in
    let kept = apply_pending-kept h.pending_operations h.searchable_documents po s ks in
    get_document-overlay p j
    ∙ (rw (pending, searchable, docs) (unfold overlay get in refl))
    ∙ get-insert_documents (apply_pending h.pending_operations h.searchable_documents) [] p kept.0
        kept.1
    ∙ over_nothing p (get p (apply_pending h.pending_operations h.searchable_documents))
    ∙ get-apply_pending h.pending_operations h.searchable_documents p s'
    ∙ sym (get_document-overlay p h)
