-- ===== src/Index/Flush.antt =====
-- `flush`: the searchable documents become a segment with its sidecars, and the log is trimmed.
pub mod Sidecars
pub mod Reopened
pub mod Trimmed
pub mod Merged
pub mod Durable
use cloud_search.Prelude.{ℕ, ◌+◌, Option, none, some, List, [], ◌∷◌, ◌++◌, length}
use cloud_search.Prelude.Order.{nat_ord, text_ord}
use cloud_search.BTreeMap.{BTreeMap, get, insert, values}
use cloud_search.Bytes.{Bytes, Text}
use cloud_search.Common.{Result, ok, err, panic, serde, ◌>>=◌, IndexDocument}
use cloud_search.Wal.{rollover, trim_through}
use cloud_search.Positions.{InvertedIndex, PositionsReader}
use cloud_search.Suggest.{SuggestIndex, to_bytes}
use cloud_search.DocValues.{DocValuesField, DocValuesReader, build_from_documents}
use cloud_search.Index.{Env, IndexHandle, IndexManifest, SegmentMeta, SegmentSnapshot, SegmentsDir}
use cloud_search.Index.Recovery.{read_positions}
use cloud_search.Index.MergePlan.{next_segment_number, plan_merge}
use cloud_search.Index.Merge.{insert_terms, write_positions_file, apply_merge_plan}
use cloud_search.Index.SuggestBuild.{build_suggest_index}
use cloud_search.Suggest

pub record FlushResponse : Type 0 where
  pub flushed_documents : ℕ
  pub sequence_number : ℕ

unfoldable pub write_doc_values :
    DocValuesReader → BTreeMap Text DocValuesField → BTreeMap Text DocValuesField
write_doc_values [] files = files
write_doc_values ((name, f) ∷ fs) files = write_doc_values fs (insert name f files)

-- The positions of the documents that were indexed since the last flush.
unfoldable pub flushed_positions :
    Env
    → BTreeMap Text (BTreeMap Text (List ℕ))
    → List IndexDocument
    → InvertedIndex
    → InvertedIndex
flushed_positions env per_doc [] index = index
flushed_positions env per_doc (d ∷ ds) index = elim (get d.id per_doc) [
  | none ↦ flushed_positions env per_doc ds index
  | some doc_index ↦
      flushed_positions env per_doc ds (insert_terms (env.hash_doc_id d.id) doc_index index)
]

-- The reader of the new positions file is added, if there is one.
unfoldable pub added_reader :
    ℕ → InvertedIndex → SegmentsDir → List PositionsReader → List PositionsReader
added_reader n [] dir readers = readers
added_reader n (t ∷ ts) dir readers = elim (read_positions dir n) [
  | none ↦ readers
  | some r ↦ readers ++ r ∷ []
]

-- The suggest files that can be read and have fields.
unfoldable pub reloaded_suggest :
    SegmentsDir → List SegmentMeta → Result (List (Option SuggestIndex))
reloaded_suggest dir [] = ok []
reloaded_suggest dir (seg ∷ segs) = elim (get seg.segment_number dir.suggest_files) [
  | none ↦ reloaded_suggest dir segs
  | some bs ↦ elim (Suggest.from_bytes bs) [
    | panic ↦ panic
    | err e ↦ reloaded_suggest dir segs
    | ok [] ↦ reloaded_suggest dir segs
    | ok (f ∷ fs) ↦ reloaded_suggest dir segs >>= λ readers. ok (some (f ∷ fs) ∷ readers)
  ]
]

unfoldable pub flush_trim : SegmentSnapshot → IndexHandle → Result FlushResponse × IndexHandle
flush_trim snapshot h = elim (trim_through snapshot.last_sequence_number h.wal) [
  | err e ↦ (err e, record h { per_doc_inverted_index = [] })
  | panic ↦ (panic, record h { per_doc_inverted_index = [] })
  | ok (trimmed, wal) ↦ (
    ok (record {
      flushed_documents = length snapshot.documents;
      sequence_number = snapshot.last_sequence_number;
    }),
    record h { per_doc_inverted_index = []; wal = wal },
  )
]

unfoldable pub flush_suggest :
    Env → SegmentSnapshot → ℕ → IndexHandle → Result FlushResponse × IndexHandle
flush_suggest env snapshot n h =
    elim (build_suggest_index env snapshot.documents h.metadata.mappings) [
      | [] ↦ flush_trim snapshot h
      | f ∷ fs ↦ elim (to_bytes (f ∷ fs)) [
        | err e ↦ (err e, h)
        | panic ↦ (panic, h)
        | ok bs ↦
            let dir = record h.segments_dir {
              suggest_files = insert n bs h.segments_dir.suggest_files;
            } in
            elim (reloaded_suggest dir h.manifest.segments) [
              | err e ↦ (err e, record h { segments_dir = dir })
              | panic ↦ (panic, record h { segments_dir = dir })
              | ok readers ↦
                  flush_trim snapshot (record h { segments_dir = dir; suggest_readers = readers })
            ]
      ]
    ]

unfoldable pub flush_positions :
    Env → SegmentSnapshot → ℕ → IndexHandle → Result FlushResponse × IndexHandle
flush_positions env snapshot n h =
    let index = flushed_positions env h.per_doc_inverted_index snapshot.documents [] in
    elim (write_positions_file n index h.segments_dir) [
      | err e ↦ (err e, h)
      | panic ↦ (panic, h)
      | ok dir ↦ flush_suggest env snapshot n (record h {
        segments_dir = dir;
        positions_readers = added_reader n index dir h.positions_readers;
      })
    ]

unfoldable pub flush_doc_values :
    Env → SegmentSnapshot → ℕ → IndexHandle → Result FlushResponse × IndexHandle
flush_doc_values env snapshot n h =
    elim (build_from_documents env.f64_of snapshot.documents h.metadata.mappings) [
      | err e ↦ (err e, h)
      | panic ↦ (panic, h)
      | ok columns ↦ flush_positions env snapshot n (record h {
        segments_dir = record h.segments_dir {
          doc_values_files = write_doc_values columns h.segments_dir.doc_values_files;
        };
      })
    ]

-- The segment file and the manifest, and then the sidecars.
unfoldable pub flush_segment :
    Env → SegmentSnapshot → IndexHandle → Result FlushResponse × IndexHandle
flush_segment env snapshot h = elim (env.snapshot_to_vec snapshot) [
  | none ↦ (err serde, h)
  | some bytes ↦
      let n = next_segment_number h.manifest.segments in
      let seg : SegmentMeta = record {
        segment_number = n;
        last_sequence_number = snapshot.last_sequence_number;
        document_count = length snapshot.documents;
        checksum = env.codec.crc32c bytes;
      } in
      let manifest : IndexManifest = record {
        version = h.manifest.version + 1;
        segments = h.manifest.segments ++ seg ∷ [];
      } in
      flush_doc_values env snapshot n (record h {
        segments_dir = record h.segments_dir {
          segment_files = insert n snapshot h.segments_dir.segment_files;
          manifest_file = some manifest;
        };
        manifest = manifest;
      })
]

-- What a flush writes of a handle.
abbrev pub flush_snapshot : IndexHandle → SegmentSnapshot
flush_snapshot h = record {
  last_sequence_number = h.last_sequence_number;
  documents = values h.searchable_documents;
}

-- `flush` up to the merge that it ends with.
unfoldable pub flush_files : Env → IndexHandle → Result FlushResponse × IndexHandle
flush_files env h = elim (rollover h.wal) [
  | err e ↦ (err e, h)
  | panic ↦ (panic, h)
  | ok (g, wal) ↦ flush_segment env (flush_snapshot h) (record h { wal = wal })
]

abbrev pub after_merge :
    FlushResponse → Result (Unit {0}) × IndexHandle → Result FlushResponse × IndexHandle
after_merge response (ok u, k) = (ok response, k)
after_merge response (err e, k) = (err e, k)
after_merge response (panic, k) = (panic, k)

unfoldable pub flush_merge :
    Env → Result FlushResponse × IndexHandle → Result FlushResponse × IndexHandle
flush_merge env (err e, k) = (err e, k)
flush_merge env (panic, k) = (panic, k)
flush_merge env (ok response, k) = elim (plan_merge k) [
  | none ↦ (ok response, k)
  | some plan ↦ after_merge response (apply_merge_plan env plan k)
]

unfoldable pub flush : Env → IndexHandle → Result FlushResponse × IndexHandle
flush env h = flush_merge env (flush_files env h)
