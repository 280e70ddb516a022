-- ===== src/Index/Merge.antt =====
-- `apply_merge_plan` and `merge`: one segment, or the file current.json, in place of several.
pub mod Views
pub mod Numbers
use cloud_search.Prelude.{
  ℕ, zero, suc, ◌+◌, Bool, true, false, Option, none, some, List, [], ◌∷◌, ◌++◌, length, ◌==◌,
  if◌then◌else◌,
}
use cloud_search.Prelude.Order.{nat_ord, text_ord}
use cloud_search.BTreeMap.{BTreeMap, get, insert, values}
use cloud_search.Bytes.{Text}
use cloud_search.Common.{Result, ok, err, panic, serde, ◌>>=◌, IndexDocument}
use cloud_search.Positions.{InvertedIndex, PositionsReader, insert_posting, copy_index, build}
use cloud_search.Index.{Env, IndexHandle, IndexManifest, SegmentMeta, SegmentSnapshot, SegmentsDir}
use cloud_search.Index.Tokens.{extract_positions}
use cloud_search.Index.Operations.{apply_pending}
use cloud_search.Index.Recovery.{insert_documents, load_all_suggest_readers, read_positions}
use cloud_search.Index.MergePlan.{next_segment_number}

unfoldable pub insert_each : Text → ℕ → List ℕ → InvertedIndex → InvertedIndex
insert_each term doc_id [] index = index
insert_each term doc_id (p ∷ ps) index =
    insert_each term doc_id ps (insert_posting term doc_id (p ∷ []) index)

unfoldable pub insert_terms : ℕ → BTreeMap Text (List ℕ) → InvertedIndex → InvertedIndex
insert_terms doc_id [] index = index
insert_terms doc_id ((term, positions) ∷ m) index =
    insert_terms doc_id m (insert_each term doc_id positions index)

unfoldable pub merged_positions : Env → List IndexDocument → InvertedIndex → InvertedIndex
merged_positions env [] index = index
merged_positions env (d ∷ ds) index =
    merged_positions env ds (insert_terms (env.hash_doc_id d.id) (extract_positions d) index)

-- `storage_write_positions`, for an index that has terms.
unfoldable pub write_positions_file : ℕ → InvertedIndex → SegmentsDir → Result SegmentsDir
write_positions_file n [] dir = ok dir
write_positions_file n (t ∷ ts) dir = build (copy_index (t ∷ ts) []) >>= λ bs.
    ok (record dir { positions_files = insert n bs dir.positions_files })

unfoldable pub positions_readers_of : ℕ → SegmentsDir → List PositionsReader
positions_readers_of n dir = elim (read_positions dir n) [ none ↦ [] | some r ↦ r ∷ [] ]

-- The documents of the segments of a plan, the last write winning.
unfoldable pub read_documents :
    SegmentsDir → List SegmentMeta → BTreeMap Text IndexDocument → BTreeMap Text IndexDocument
read_documents dir [] docs = docs
read_documents dir (seg ∷ segs) docs = elim (get seg.segment_number dir.segment_files) [
  | none ↦ read_documents dir segs docs
  | some snap ↦ read_documents dir segs (insert_documents snap.documents docs)
]

unfoldable pub is_planned : ℕ → List SegmentMeta → Bool
is_planned n [] = false
is_planned n (s ∷ ss) = let rest = is_planned n ss in if n == s.segment_number then true else rest

unfoldable pub unplanned : List SegmentMeta → List SegmentMeta → List SegmentMeta
unplanned plan [] = []
unplanned plan (s ∷ ss) =
    let rest = unplanned plan ss in if is_planned s.segment_number plan then rest else s ∷ rest

-- What follows the write of the manifest.
unfoldable pub finish_merge :
    Env
    → SegmentMeta
    → IndexManifest
    → BTreeMap Text IndexDocument
    → IndexHandle
    → Result (Unit {0}) × IndexHandle
finish_merge env seg manifest merged h =
    elim (write_positions_file seg.segment_number (merged_positions env (values merged) [])
      h.segments_dir) [
        | err e ↦ (err e, h)
        | panic ↦ (panic, h)
        | ok dir ↦
            let h1 = record h {
              segments_dir = dir;
              manifest = manifest;
              searchable_documents = merged;
            } in
            elim (load_all_suggest_readers dir manifest.segments) [
              | err e ↦ (err e, h1)
              | panic ↦ (panic, h1)
              | ok readers ↦ (
                ok tt,
                record h1 {
                  suggest_readers = readers;
                  positions_readers = positions_readers_of seg.segment_number dir;
                },
              )
            ]
      ]

unfoldable pub apply_merge_plan :
    Env → List SegmentMeta → IndexHandle → Result (Unit {0}) × IndexHandle
apply_merge_plan env [] h = (ok tt, h)
apply_merge_plan env (s ∷ ss) h =
    let merged = apply_pending h.pending_operations (read_documents h.segments_dir (s ∷ ss) []) in
    let n = next_segment_number h.manifest.segments in
    let snapshot : SegmentSnapshot = record {
      last_sequence_number = h.last_sequence_number;
      documents = values merged;
    } in
    elim (env.snapshot_to_vec snapshot) [
      | none ↦ (err serde, h)
      | some bytes ↦
          let seg : SegmentMeta = record {
            segment_number = n;
            last_sequence_number = h.last_sequence_number;
            document_count = length merged;
            checksum = env.codec.crc32c bytes;
          } in
          let manifest : IndexManifest = record {
            version = h.manifest.version + 1;
            segments = unplanned (s ∷ ss) h.manifest.segments ++ seg ∷ [];
          } in
          finish_merge env seg manifest merged (record h {
            segments_dir = record h.segments_dir {
              segment_files = insert n snapshot h.segments_dir.segment_files;
              manifest_file = some manifest;
            };
          })
    ]

-- The answer is the number of documents.
unfoldable pub merge : Env → IndexHandle → Result ℕ × IndexHandle
merge env h =
    let merged = apply_pending h.pending_operations h.searchable_documents in
    let n = next_segment_number h.manifest.segments in
    let snapshot : SegmentSnapshot = record {
      last_sequence_number = h.last_sequence_number;
      documents = values merged;
    } in
    elim (write_positions_file n (merged_positions env (values merged) []) h.segments_dir) [
      | err e ↦ (err e, h)
      | panic ↦ (panic, h)
      | ok dir ↦ elim (env.snapshot_to_vec snapshot) [
        | none ↦ (err serde, record h { segments_dir = dir })
        | some bytes ↦
            let dir1 = record dir { current_json = some snapshot } in
            (
              ok (length merged),
              record h {
                segments_dir = dir1;
                searchable_documents = merged;
                positions_readers = positions_readers_of n dir1;
              },
            )
      ]
    ]
