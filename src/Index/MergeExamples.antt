-- ===== src/Index/MergeExamples.antt =====
-- Merging and eviction at concrete handles.
use cloud_search.Prelude.{ℕ, ◌≤◌, ◌<◌, true, ◌≡◌, refl, ◌⊎◌, none, some, [], ◌∷◌}
use cloud_search.Prelude.Order.{text_ord}
use cloud_search.BTreeMap.{get, insert}
use cloud_search.Bytes.{Text}
use cloud_search.Common.{ok}
use cloud_search.Wal.Spec.{represent}
use cloud_search.Index.{IndexHandle, SegmentMeta}
use cloud_search.Index.Operations.{get_document, documents}
use cloud_search.Index.Recovery.{load_all_suggest_readers}
use cloud_search.Index.Tokens.{extract_positions, extract_fields}
use cloud_search.Index.Operations.{apply_pending}
use cloud_search.Index.Recovery.{insert_documents, load_single_suggest_reader}
use cloud_search.Index.MergePlan.{next_segment_number, last_segment}
use cloud_search.Index.Merge.{
  insert_terms, merged_positions, write_positions_file, read_documents, is_planned, unplanned,
  finish_merge, apply_merge_plan, merge,
}
use cloud_search.Index.Merge.Views.{get_document-merge, get_document-apply_merge_plan}
use cloud_search.Index.Merge.Numbers.{Ascending, apply_merge_plan-Ascending}
use cloud_search.Wal.{append, current_generation}
use cloud_search.Index.Operations.{
  has_retention_policy, log_operation, expired_ids, evict_loop, evict_expired_documents,
}
use cloud_search.Index.Evict.{due, get_document-evict_expired_documents}
use cloud_search.Index.Runs.{Fails}
use cloud_search.Index.Fixtures.{env, metadata, fresh, a_text, document, pending}

abbrev only_segment : SegmentMeta
only_segment = record {
  segment_number = 1;
  last_sequence_number = 1;
  document_count = 1;
  checksum = 0;
}

-- One segment that holds the document, which is searchable.
abbrev flushed_handle : IndexHandle
flushed_handle = record fresh {
  segments_dir = record fresh.segments_dir {
    segment_files = (1, record { last_sequence_number = 1; documents = document ∷ [] }) ∷ [];
  };
  manifest = record { version = 2; segments = only_segment ∷ [] };
  searchable_documents = (a_text, document) ∷ [];
  last_sequence_number = 1;
}

apply_merge_plan-Ascending_example :
    Ascending (apply_merge_plan env (only_segment ∷ []) flushed_handle).1.manifest.segments
apply_merge_plan-Ascending_example =
    apply_merge_plan-Ascending env (only_segment ∷ []) flushed_handle (tt, tt)

get_document-apply_merge_plan_example :
    get_document a_text (apply_merge_plan env (only_segment ∷ []) flushed_handle).1
    ≡ get_document a_text flushed_handle
get_document-apply_merge_plan_example =
    get_document-apply_merge_plan env (only_segment ∷ []) flushed_handle a_text tt
      (unfold read_documents insert_documents get insert in refl)

get_document-merge_example :
    let (r, k) = merge env pending in
    (get_document a_text k ≡ get_document a_text pending)
    × (Fails r ⊎ (get a_text (documents k) ≡ get_document a_text pending))
get_document-merge_example = get_document-merge env pending a_text (tt, tt)

-- A document that is in the segment and was deleted, with a refresh after it.
abbrev deleted_handle : IndexHandle
deleted_handle = record flushed_handle { searchable_documents = [] }

-- The plan brings it back.
deleted_document_returns :
    (get_document a_text deleted_handle ≡ none)
    × ((apply_merge_plan env (only_segment ∷ []) deleted_handle).1.searchable_documents
        ≡ (a_text, document) ∷ [])
unfolding get_document apply_merge_plan finish_merge apply_pending read_documents insert_documents
    get insert next_segment_number last_segment unplanned is_planned write_positions_file
    merged_positions insert_terms extract_positions extract_fields load_all_suggest_readers
    load_single_suggest_reader
deleted_document_returns = (refl, refl)

-- The document expired at 5.
abbrev timed : IndexHandle
timed = record flushed_handle {
  metadata = record metadata {
    settings = record metadata.settings {
      primary_time_field = some (b't' ∷ []);
      retention_secs = some 10;
    };
  };
  document_timestamps = (a_text, 5) ∷ [];
}

timed_evicted : (evict_expired_documents env 7 timed).0 ≡ ok 1
unfolding evict_expired_documents has_retention_policy expired_ids evict_loop log_operation append
    current_generation represent
timed_evicted = refl

timed_policy : has_retention_policy timed.metadata ≡ true
unfolding has_retention_policy
timed_policy = refl

get_document-evict_expired_documents_example :
    let k = (evict_expired_documents env 7 timed).1 in
    (1 ≡ due 7 timed.document_timestamps)
    × ((p : Text) (t : ℕ)
        → get p timed.document_timestamps ≡ some t
        → t ≤ 7
        → (get_document p k ≡ none) × (get p k.document_timestamps ≡ none))
    × ((p : Text)
        → ((t : ℕ) → get p timed.document_timestamps ≡ some t → 7 < t)
        → (get_document p k ≡ get_document p timed)
          × (get p k.document_timestamps ≡ get p timed.document_timestamps))
get_document-evict_expired_documents_example =
    get_document-evict_expired_documents env 7 1 timed timed_policy (tt, tt) timed_evicted
