-- ===== src/Index/FlushExamples.antt =====
-- Flushing and snapshots at concrete handles.
use cloud_search.Prelude.{ℕ, ◌≡◌, refl, none, some, List, [], ◌∷◌, arith}
use cloud_search.Prelude.Order.{text_ord, nat_ord}
use cloud_search.BTreeMap.{get, insert}
use cloud_search.Bytes.{Text}
use cloud_search.Common.{ok}
use cloud_search.Wal.Spec.{gather, represent, roll, trim, replay}
use cloud_search.Index.{IndexHandle, SegmentMeta, SnapshotMetadata}
use cloud_search.Index.Operations.{
  unwrap_or, extract_document_timestamp, apply_pending, get_document,
}
use cloud_search.Index.Recovery.{
  recover_timestamp, load_single_suggest_reader, load_segments, open_manifest, open_index,
  load_all_suggest_readers, insert_documents,
}
use cloud_search.Index.Reopen.{IsDurable, flushed}
use cloud_search.Index.MergePlan.{last_segment, next_segment_number, plan_merge, small_segments}
use cloud_search.Index.Merge.{
  insert_terms, merged_positions, finish_merge, apply_merge_plan, read_documents, unplanned,
  is_planned,
}
use cloud_search.Index.Flush.Trimmed.{IsReady}
use cloud_search.Index.Flush.Merged.{outside}
use cloud_search.Index.Flush.{
  flush_merge, flush, flush_trim, flush_suggest, flushed_positions, flush_positions,
  flush_doc_values, flush_segment, FlushResponse, flush_files,
}
use cloud_search.Index.Flush.Durable.{flush_read, open_index-flush, flush-IsDurable}
use cloud_search.Index.Durability.{replayed}
use cloud_search.Wal.{list_generations, trim_through, current_generation, rollover}
use cloud_search.DocValues.{build_fields, build_from_documents}
use cloud_search.Index.Merge.{write_positions_file}
use cloud_search.Index.SuggestBuild.{
  suggest_fields, suggest_terms, suggest_index_of, build_suggest_index,
}
use cloud_search.Index.Snapshots.{
  restore_files, restored_timestamps, restore_checked, restore_found, read_snapshot_metadata,
  snapshot_data_path, snapshot_meta_path, read_named_snapshot, has_separator,
  validate_snapshot_name, write_named_snapshot, create_snapshot, restore_snapshot, RestoreResponse,
}
use cloud_search.Index.Snapshots.Restored.{restore_snapshot-create_snapshot}
use cloud_search.Wal.Toy.{toy_crc}
use cloud_search.Index.Tokens.{extract_fields, extract_positions}
use cloud_search.Index.Fixtures.{env, metadata, fresh, pending, a_text, document, empty_log}

abbrev first_segment : SegmentMeta
first_segment = record {
  segment_number = 1;
  last_sequence_number = 1;
  document_count = 1;
  checksum = 0;
}

-- One segment that holds the document, which is searchable.
abbrev stored : IndexHandle
stored = record fresh {
  segments_dir = record fresh.segments_dir {
    segment_files = (1, record { last_sequence_number = 1; documents = document ∷ [] }) ∷ [];
    manifest_file = some (record { version = 2; segments = first_segment ∷ [] });
  };
  manifest = record { version = 2; segments = first_segment ∷ [] };
  searchable_documents = (a_text, document) ∷ [];
  last_sequence_number = 1;
}

-- What the segment reads as.
stored_flushed : flushed stored ≡ ((a_text, document) ∷ [], 1)
unfolding load_segments get insert_documents insert
stored_flushed = refl

stored_opens : open_manifest stored.segments_dir ≡ (stored.manifest, stored.segments_dir)
unfolding open_manifest
stored_opens = refl

no_entries : (n : ℕ) → replay n empty_log ≡ []
unfolding replay gather
no_entries n = refl

stored_reads :
    (p : Text)
    → get_document p stored
      ≡ get p (replayed (replay ((flushed stored).1) empty_log) ((flushed stored).0))
unfolding get_document
stored_reads p = rw (no_entries ((flushed stored).1), stored_flushed) (unfold replayed get in refl)

stored-IsDurable : IsDurable env stored empty_log
stored-IsDurable = record {
  wal = refl;
  sorted = tt;
  storable = tt;
  newest = tt;
  opened = stored_opens;
  covered = rw stored_flushed (omega arith);
  pending_sorted = tt;
  read = stored_reads;
}

stored-IsReady : IsReady stored empty_log
stored-IsReady = record {
  ascending = (tt, tt);
  sorted = (tt, tt);
  keyed = (refl, tt);
  ascends = tt;
  nothing_above = no_entries 1;
}

abbrev after_files : IndexHandle
after_files = (flush_files env stored).1

abbrev after : IndexHandle
after = (flush env stored).1

abbrev response : FlushResponse
response = record { flushed_documents = 1; sequence_number = 1 }

-- The two segments of one document each are merged.
flush_merges : plan_merge after_files ≡ some (after_files.manifest.segments)
unfolding flush_files plan_merge small_segments rollover current_generation represent flush_segment
    flush_doc_values build_from_documents build_fields flush_positions write_positions_file
    flushed_positions get flush_suggest build_suggest_index suggest_index_of suggest_terms
    suggest_fields flush_trim trim_through list_generations unwrap_or
flush_merges = refl

flushes : flush env stored ≡ (ok response, after)
unfolding flush flush_files flush_merge rollover current_generation represent flush_segment
    flush_doc_values build_from_documents build_fields flush_positions write_positions_file
    flushed_positions get flush_suggest build_suggest_index suggest_index_of suggest_terms
    suggest_fields flush_trim trim_through list_generations plan_merge small_segments unwrap_or
    apply_merge_plan finish_merge merged_positions apply_pending read_documents insert
    next_segment_number last_segment insert_documents insert_terms extract_positions extract_fields
    load_all_suggest_readers unplanned is_planned load_single_suggest_reader
flushes = refl

suggests : load_all_suggest_readers after.segments_dir after.manifest.segments ≡ ok (none ∷ [])
unfolding flush flush_files load_all_suggest_readers flush_merge rollover current_generation
    represent flush_segment flush_doc_values build_from_documents build_fields flush_positions
    write_positions_file flushed_positions get flush_suggest build_suggest_index suggest_index_of
    suggest_terms suggest_fields flush_trim trim_through list_generations plan_merge small_segments
    unwrap_or apply_merge_plan finish_merge merged_positions apply_pending read_documents insert
    next_segment_number last_segment insert_documents insert_terms extract_positions extract_fields
    unplanned is_planned load_single_suggest_reader
suggests = refl

open_index-flush_example :
    (l : IndexHandle) × (open_index env metadata after.wal after.segments_dir ≡ ok l)
    × (get_document a_text l ≡ flush_read stored after_files a_text (plan_merge after_files))
open_index-flush_example =
    open_index-flush env stored after empty_log response metadata (none ∷ []) a_text
      stored-IsDurable stored-IsReady tt flushes suggests

-- The segment before the flush has the document, which is searchable.
still_searchable :
    (p : Text) → get p stored.searchable_documents ≡ none → get p ((flushed stored).0) ≡ none
still_searchable p h = rw stored_flushed h

none_outside : outside (after_files.manifest.segments) after_files ≡ ([], 0)
unfolding flush_files unplanned is_planned load_segments rollover current_generation represent
    flush_segment flush_doc_values build_from_documents build_fields flush_positions
    write_positions_file flushed_positions get flush_suggest build_suggest_index suggest_index_of
    suggest_terms suggest_fields flush_trim trim_through list_generations next_segment_number
    last_segment
none_outside = refl

-- No segment is outside of the plan.
all_planned :
    (plan : List SegmentMeta)
    → plan_merge after_files ≡ some plan
    → (p : Text) → get p (read_documents after_files.segments_dir plan []) ≡ none
    → get p ((outside plan after_files).0) ≡ none
unfolding get
all_planned plan e p h =
    let same : after_files.manifest.segments ≡ plan = cc (flush_merges, e) in
    rw (← same, none_outside) refl

flush-IsDurable_example : IsDurable env after (trim 1 (roll empty_log))
flush-IsDurable_example =
    flush-IsDurable env stored after empty_log response stored-IsDurable stored-IsReady refl
      still_searchable all_planned flushes

abbrev snapshot_name : Text
snapshot_name = b's' ∷ []

-- A document that is pending is in the snapshot.
abbrev snapshotted : IndexHandle
snapshotted = (create_snapshot env 9 snapshot_name pending).1

abbrev restored : IndexHandle
restored = (restore_snapshot env snapshot_name snapshotted).1

abbrev snapshot_metadata : SnapshotMetadata
snapshot_metadata = record {
  name = snapshot_name;
  created_at = 9;
  last_sequence_number = 0;
  document_count = 1;
  checksum = env.codec.crc32c (0 ∷ 1 ∷ []);
}

abbrev restore_response : RestoreResponse
restore_response = record { restored_documents = 1; sequence_number = 0 }

creates : create_snapshot env 9 snapshot_name pending ≡ (ok snapshot_metadata, snapshotted)
unfolding create_snapshot write_named_snapshot validate_snapshot_name has_separator toy_crc
    apply_pending insert
creates = refl

restores : restore_snapshot env snapshot_name snapshotted ≡ (ok restore_response, restored)
unfolding create_snapshot restore_snapshot read_named_snapshot validate_snapshot_name has_separator
    get write_named_snapshot toy_crc insert snapshot_meta_path snapshot_data_path
    read_snapshot_metadata restore_found restore_checked restored_timestamps apply_pending
    recover_timestamp extract_document_timestamp restore_files rollover current_generation represent
    trim_through list_generations
restores = refl

restore_snapshot-create_snapshot_example :
    get_document a_text restored ≡ get_document a_text pending
restore_snapshot-create_snapshot_example =
    restore_snapshot-create_snapshot env 9 snapshot_name pending snapshotted snapshotted restored
      snapshot_metadata restore_response a_text tt tt (tt, tt) (refl, tt) creates refl restores
