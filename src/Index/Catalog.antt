-- ===== src/Index/Catalog.antt =====
-- `IndexCatalog`: the directory of the indexes. An index is a directory of its own with metadata.json,
-- its log and its segments; the tests of names come first. The file system succeeds, and the lock is
-- held throughout an operation.
use cloud_search.Prelude.{
  ℕ, Bool, true, false, ◌&&◌, ◌||◌, Option, none, some, [], ◌∷◌, length, ltb, leb, ◌==◌,
  if◌then◌else◌,
}
use cloud_search.Prelude.Order.{text_ord}
use cloud_search.BTreeMap.{BTreeMap, get, insert, remove}
use cloud_search.Bytes.{Text}
use cloud_search.Common.{
  Result, ok, err, panic, ◌>>=◌, ◌>>◌, IndexMetadata, IndexSettings, FieldType, invalid_namespace,
  invalid_index_name, index_already_exists, index_not_found,
}
use cloud_search.Wal.{WalManager, missing, ensure_current_generation}
use cloud_search.Index.{Env, IndexHandle, SegmentsDir}
use cloud_search.Index.Mappings.{insert_mappings}
use cloud_search.Index.Recovery.{open_manifest}
use cloud_search.Index.Recovery

abbrev pub is_lower_digit : ℕ → Bool
is_lower_digit b =
    (leb b'a' b && leb b b'z') || ((leb b'0' b && leb b b'9') || ((b == b'-') || (b == b'_')))

abbrev pub is_name_byte : ℕ → Bool
is_name_byte b = (leb b'A' b && leb b b'Z') || is_lower_digit b

unfoldable pub all_bytes : (ℕ → Bool) → Text → Bool
all_bytes test [] = true
all_bytes test (b ∷ t) = test b && all_bytes test t

-- Each character that passes has one byte, so that the test goes by bytes.
unfoldable pub validate_namespace : Text → Result (Unit {0})
validate_namespace [] = err invalid_namespace
validate_namespace (b ∷ t) =
    if ltb 64 (length (b ∷ t))
    then err invalid_namespace
    else if all_bytes is_name_byte (b ∷ t)
    then ok tt
    else err invalid_namespace

unfoldable pub validate_index_name : Text → Result (Unit {0})
validate_index_name [] = err (invalid_index_name [])
validate_index_name (b ∷ t) =
    if leb (length (b ∷ t)) 255 && all_bytes is_lower_digit (b ∷ t)
    then ok tt
    else err (invalid_index_name (b ∷ t))

pub record CreateIndexRequest : Type 0 where
  pub settings : IndexSettings
  pub mappings : Option (BTreeMap Text FieldType)

pub record IndexDir : Type 0 where
  pub metadata_file : Option IndexMetadata
  pub wal_dir : WalManager
  pub segments_dir : SegmentsDir

-- What stands under `indexes`.
abbrev pub IndexCatalog : Type 0
IndexCatalog = BTreeMap Text IndexDir

abbrev pub empty_segments : SegmentsDir
empty_segments = record {
  manifest_file = some (record { version = 1; segments = [] });
  segment_files = [];
  current_json = none;
  positions_files = [];
  suggest_files = [];
  doc_values_files = [];
  snapshots_dir = [];
}

abbrev pub request_mappings : CreateIndexRequest → BTreeMap Text FieldType
request_mappings request = elim (request.mappings) [ none ↦ [] | some ms ↦ insert_mappings ms [] ]

unfoldable pub validate_request : Text → CreateIndexRequest → Result (Unit {0})
validate_request name request =
    validate_index_name name
    >> (elim (request.settings.namespace) [ none ↦ ok tt | some ns ↦ validate_namespace ns ])

-- The directory that a request makes.
abbrev pub new_dir : IndexMetadata → IndexDir
new_dir md = record {
  metadata_file = some md;
  wal_dir = record { current = missing; generations = []; malformed = false };
  segments_dir = empty_segments;
}

abbrev pub new_metadata : Text → CreateIndexRequest → IndexMetadata
new_metadata name request = record {
  name = name;
  settings = request.settings;
  mappings = request_mappings request;
}

unfoldable pub create_index :
    Text → CreateIndexRequest → IndexCatalog → Result IndexMetadata × IndexCatalog
create_index name request dirs = elim (validate_request name request) [
  | err e ↦ (err e, dirs)
  | panic ↦ (panic, dirs)
  | ok u ↦ elim (get name dirs) [
    | some d ↦ (err (index_already_exists name), dirs)
    | none ↦
        (ok (new_metadata name request), insert name (new_dir (new_metadata name request)) dirs)
  ]
]

-- metadata.json of an index that is there.
unfoldable pub read_metadata : Text → IndexCatalog → Result (IndexMetadata × IndexDir)
read_metadata name dirs = elim (get name dirs) [
  | none ↦ err (index_not_found name)
  | some d ↦ elim (d.metadata_file) [ none ↦ err (index_not_found name) | some md ↦ ok (md, d) ]
]

unfoldable pub get_index : Text → IndexCatalog → Result IndexMetadata
get_index name dirs = validate_index_name name >> (read_metadata name dirs >>= λ r. ok (r.0))

unfoldable pub delete_index : Text → IndexCatalog → Result (Unit {0}) × IndexCatalog
delete_index name dirs = elim (validate_index_name name) [
  | err e ↦ (err e, dirs)
  | panic ↦ (panic, dirs)
  | ok u ↦ elim (get name dirs) [
    | none ↦ (err (index_not_found name), dirs)
    | some d ↦ (ok tt, remove name dirs)
  ]
]

abbrev pub with_retention : Option ℕ → IndexMetadata → IndexMetadata
with_retention secs md = record md { settings = record md.settings { retention_secs = secs } }

unfoldable pub update_index_settings :
    Text → Option ℕ → IndexCatalog → Result IndexMetadata × IndexCatalog
update_index_settings name secs dirs = elim (validate_index_name name >> read_metadata name dirs) [
  | err e ↦ (err e, dirs)
  | panic ↦ (panic, dirs)
  | ok (md, d) ↦ (
    ok (with_retention secs md),
    insert name (record d { metadata_file = some (with_retention secs md) }) dirs,
  )
]

-- Opening makes CURRENT and migrates the legacy file, also where it fails afterwards.
unfoldable pub open_index : Env → Text → IndexCatalog → Result IndexHandle × IndexCatalog
open_index env name dirs = elim (validate_index_name name >> read_metadata name dirs) [
  | err e ↦ (err e, dirs)
  | panic ↦ (panic, dirs)
  | ok (md, d) ↦ (
    Recovery.open_index env md d.wal_dir d.segments_dir,
    insert name
        (record d {
          wal_dir = ensure_current_generation d.wal_dir;
          segments_dir = (open_manifest d.segments_dir).1;
        })
        dirs,
  )
]
