-- ===== src/Index/Snapshots.antt =====
-- The named snapshots of an index: `create_snapshot`, `list_snapshots`, `get_snapshot`,
-- `delete_snapshot` and `restore_snapshot`, with crates/cloudsearch-storage/src/lib.rs below them.
pub mod Restored
use cloud_search.Prelude.{
  ℕ, Bool, true, false, not, ◌&&◌, ◌||◌, Option, none, some, List, [], ◌∷◌, ◌++◌, ◌-◌, length, drop,
  leb, ◌==◌, if◌then◌else◌,
}
use Prim.Native.Nat.{compare}
use cloud_search.Prelude.Order.{nat_ord, text_ord}
use cloud_search.BTreeMap.{BTreeMap, get, insert, remove, values}
use cloud_search.Bytes.{Bytes, Text}
use cloud_search.Common.{
  Result, ok, err, panic, serde, snapshot_not_found, invalid_wal_record, wal_checksum_mismatch,
  ◌>>=◌, IndexDocument,
}
use cloud_search.Suggest.{starts_with}
use cloud_search.Sort.{sort_by}
use cloud_search.Wal.{rollover, trim_through}
use cloud_search.Index.{
  Env, IndexHandle, SegmentSnapshot, SnapshotMetadata, SnapshotFile, data_file, meta_file,
  SegmentsDir,
}
use cloud_search.Index.Operations.{apply_pending, extract_document_timestamp}
use cloud_search.Index.Recovery.{insert_documents, recover_timestamp}

unfoldable pub has_separator : Text → Bool
has_separator [] = false
has_separator (b ∷ t) = (b == b'/') || ((b == b'\\') || has_separator t)

-- A name with no separator is one component of a path, so that the source's last test, for a `.`
-- among the components, is the second one again.
unfoldable pub validate_snapshot_name : Text → Result (Unit {0})
validate_snapshot_name [] = err invalid_wal_record
validate_snapshot_name (b ∷ []) =
    if (b == b'.') || has_separator (b ∷ []) then err invalid_wal_record else ok tt
validate_snapshot_name (b ∷ c ∷ []) =
    if ((b == b'.') && (c == b'.')) || has_separator (b ∷ c ∷ [])
    then err invalid_wal_record
    else ok tt
validate_snapshot_name (b ∷ c ∷ d ∷ t) =
    if has_separator (b ∷ c ∷ d ∷ t) then err invalid_wal_record else ok tt

abbrev pub json_ending : Text
json_ending = b'.' ∷ b'j' ∷ b's' ∷ b'o' ∷ b'n' ∷ []

abbrev pub meta_ending : Text
meta_ending = b'.' ∷ b'm' ∷ b'e' ∷ b't' ∷ b'a' ∷ json_ending

-- The names of a snapshot's files.
unfoldable pub snapshot_data_path : Text → Text
snapshot_data_path name = name ++ json_ending

unfoldable pub snapshot_meta_path : Text → Text
snapshot_meta_path name = name ++ meta_ending

unfoldable pub write_named_snapshot :
    Env → Text → SegmentSnapshot → SnapshotMetadata → SegmentsDir → Result SegmentsDir
write_named_snapshot env name snapshot metadata dir = validate_snapshot_name name >>= λ u.
    elim (env.snapshot_to_vec snapshot) [
      | none ↦ err serde
      | some bytes ↦
          if env.codec.crc32c bytes == metadata.checksum
          then ok (record dir {
            snapshots_dir =
                insert (snapshot_meta_path name) (meta_file metadata)
                  (insert (snapshot_data_path name) (data_file snapshot) dir.snapshots_dir);
          })
          else err invalid_wal_record
    ]

-- A file of the other kind does not parse.
abbrev pub as_snapshot : Option SnapshotFile → Result (Option SegmentSnapshot)
as_snapshot none = ok none
as_snapshot (some (data_file s)) = ok (some s)
as_snapshot (some (meta_file m)) = err serde

abbrev pub as_metadata : Option SnapshotFile → Result (Option SnapshotMetadata)
as_metadata none = ok none
as_metadata (some (data_file s)) = err serde
as_metadata (some (meta_file m)) = ok (some m)

unfoldable pub read_named_snapshot : Text → SegmentsDir → Result (Option SegmentSnapshot)
read_named_snapshot name dir = validate_snapshot_name name >>= λ u.
    as_snapshot (get (snapshot_data_path name) dir.snapshots_dir)

unfoldable pub read_snapshot_metadata : Text → SegmentsDir → Result (Option SnapshotMetadata)
read_snapshot_metadata name dir = validate_snapshot_name name >>= λ u.
    as_metadata (get (snapshot_meta_path name) dir.snapshots_dir)

-- The answer is the snapshot's metadata. `now` is the clock.
unfoldable pub create_snapshot :
    Env → ℕ → Text → IndexHandle → Result SnapshotMetadata × IndexHandle
create_snapshot env now name h =
    let snapshot : SegmentSnapshot = record {
      last_sequence_number = h.last_sequence_number;
      documents = values (apply_pending h.pending_operations h.searchable_documents);
    } in
    elim (env.snapshot_to_vec snapshot) [
      | none ↦ (err serde, h)
      | some bytes ↦
          let metadata : SnapshotMetadata = record {
            name = name;
            created_at = now;
            last_sequence_number = h.last_sequence_number;
            document_count = length snapshot.documents;
            checksum = env.codec.crc32c bytes;
          } in
          elim (write_named_snapshot env name snapshot metadata h.segments_dir) [
            | err e ↦ (err e, h)
            | panic ↦ (panic, h)
            | ok dir ↦ (ok metadata, record h { segments_dir = dir })
          ]
    ]

unfoldable pub ends_with : Text → Text → Bool
ends_with ending t =
    leb (length ending) (length t) && starts_with ending (drop (length t - length ending) t)

-- The files whose names end as those of metadata do. The directory may be read in any order; those
-- with the same time are in the order of their names here.
unfoldable pub listed : BTreeMap Text SnapshotFile → SegmentsDir → Result (List SnapshotMetadata)
listed [] dir = ok []
listed ((file, content) ∷ files) dir =
    let skipped = listed files dir in
    let read : Result (List SnapshotMetadata) = elim content [
      | data_file s ↦ err serde
      | meta_file meta ↦ elim (get (snapshot_data_path meta.name) dir.snapshots_dir) [
        | none ↦ err invalid_wal_record
        | some f ↦ listed files dir >>= λ rest. ok (meta ∷ rest)
      ]
    ] in
    if ends_with meta_ending file then read else skipped

unfoldable pub list_snapshots : IndexHandle → Result (List SnapshotMetadata)
list_snapshots h = listed h.segments_dir.snapshots_dir h.segments_dir >>= λ metas.
    ok (sort_by (λ (a b : SnapshotMetadata). compare a.created_at b.created_at) metas)

unfoldable pub get_snapshot : Text → IndexHandle → Result (Option SnapshotMetadata)
get_snapshot name h = read_snapshot_metadata name h.segments_dir

unfoldable pub delete_snapshot : Text → IndexHandle → Result (Unit {0}) × IndexHandle
delete_snapshot name h = elim (validate_snapshot_name name) [
  | err e ↦ (err e, h)
  | panic ↦ (panic, h)
  | ok u ↦ (
    ok tt,
    record h {
      segments_dir = record h.segments_dir {
        snapshots_dir =
            remove (snapshot_meta_path name)
              (remove (snapshot_data_path name) h.segments_dir.snapshots_dir);
      };
    },
  )
]

-- The expiries of the restored documents; `none` for one out of range.
unfoldable pub restored_timestamps :
    Env → IndexHandle → List IndexDocument → BTreeMap Text ℕ → Option (BTreeMap Text ℕ)
restored_timestamps env h [] timestamps = some timestamps
restored_timestamps env h (d ∷ ds) timestamps =
    elim (recover_timestamp env h.metadata d timestamps) [
      | none ↦ none
      | some more ↦ restored_timestamps env h ds more
    ]

pub record RestoreResponse : Type 0 where
  pub restored_documents : ℕ
  pub sequence_number : ℕ

-- The files of a restored handle: current.json and the log.
unfoldable pub restore_files : SegmentSnapshot → IndexHandle → Result RestoreResponse × IndexHandle
restore_files snapshot h =
    let h1 = record h { segments_dir = record h.segments_dir { current_json = some snapshot } } in
    elim (rollover h.wal) [
      | err e ↦ (err e, h1)
      | panic ↦ (panic, h1)
      | ok (g, wal) ↦ elim (trim_through snapshot.last_sequence_number wal) [
        | err e ↦ (err e, record h1 { wal = wal })
        | panic ↦ (panic, record h1 { wal = wal })
        | ok (trimmed, left) ↦ (
          ok (record {
            restored_documents = length snapshot.documents;
            sequence_number = snapshot.last_sequence_number;
          }),
          record h1 { wal = left },
        )
      ]
    ]

unfoldable pub restore_checked :
    Env → SegmentSnapshot → SnapshotMetadata → IndexHandle → Result RestoreResponse × IndexHandle
restore_checked env snapshot metadata h =
    let h1 = record h {
      searchable_documents = insert_documents snapshot.documents [];
      pending_operations = [];
      last_sequence_number = metadata.last_sequence_number;
    } in
    elim (restored_timestamps env h snapshot.documents []) [
      | none ↦ (panic, h1)
      | some timestamps ↦ restore_files snapshot (record h1 { document_timestamps = timestamps })
    ]

unfoldable pub restore_found :
    Env
    → Text
    → IndexHandle
    → SegmentSnapshot
    → Option SnapshotMetadata
    → Result RestoreResponse × IndexHandle
restore_found env name h snapshot none = (err (snapshot_not_found name), h)
restore_found env name h snapshot (some metadata) = elim (env.snapshot_to_vec snapshot) [
  | none ↦ (err serde, h)
  | some bytes ↦
      if env.codec.crc32c bytes == metadata.checksum
      then restore_checked env snapshot metadata h
      else (err wal_checksum_mismatch, h)
]

unfoldable pub restore_snapshot : Env → Text → IndexHandle → Result RestoreResponse × IndexHandle
restore_snapshot env name h = elim (read_named_snapshot name h.segments_dir) [
  | err e ↦ (err e, h)
  | panic ↦ (panic, h)
  | ok none ↦ (err (snapshot_not_found name), h)
  | ok (some snapshot) ↦ elim (read_snapshot_metadata name h.segments_dir) [
    | err e ↦ (err e, h)
    | panic ↦ (panic, h)
    | ok metadata ↦ restore_found env name h snapshot metadata
  ]
]
