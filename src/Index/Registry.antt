-- ===== src/Index/Registry.antt =====
-- `IndexRegistry`: the catalog with the handles that are open. The files of an open index are those that
-- its handle works on: the handle is given the files of the directory before an operation, and the
-- directory has the files of the handle after it.
pub mod Opened
use cloud_search.Prelude.{ℕ, Option, none, some, List, [], ◌∷◌}
use cloud_search.Prelude.Order.{text_ord}
use cloud_search.BTreeMap.{BTreeMap, get, insert, remove}
use cloud_search.Bytes.{Text}
use cloud_search.Common.{Result, ok, err, panic, IndexMetadata}
use cloud_search.Index.{Env, IndexHandle}
use cloud_search.Index.Catalog.{CreateIndexRequest, IndexDir, IndexCatalog}
use cloud_search.Index.Catalog

pub record IndexRegistry : Type 0 where
  pub catalog : IndexCatalog
  pub handles : BTreeMap Text IndexHandle

-- The handle over the files of the directory, where there is metadata.
unfoldable pub attached : Option IndexDir → IndexHandle → IndexHandle
attached none h = h
attached (some d) h = elim (d.metadata_file) [
  | none ↦ record h { wal = d.wal_dir; segments_dir = d.segments_dir }
  | some md ↦ record h { wal = d.wal_dir; segments_dir = d.segments_dir; stored_metadata = md }
]

abbrev pub files_of : IndexHandle → IndexDir
files_of h = record {
  metadata_file = some h.stored_metadata;
  wal_dir = h.wal;
  segments_dir = h.segments_dir;
}

unfoldable pub opened :
    Text
    → BTreeMap Text IndexHandle
    → Result IndexHandle × IndexCatalog
    → Result IndexHandle × IndexRegistry
opened name handles (err e, dirs) = (err e, record { catalog = dirs; handles = handles })
opened name handles (panic, dirs) = (panic, record { catalog = dirs; handles = handles })
opened name handles (ok h, dirs) =
    (ok h, record { catalog = dirs; handles = insert name h handles })

unfoldable pub index_handle : Env → Text → IndexRegistry → Result IndexHandle × IndexRegistry
index_handle env name r = elim (get name r.handles) [
  | some h ↦ (ok (attached (get name r.catalog) h), r)
  | none ↦ opened name r.handles (Catalog.open_index env name r.catalog)
]

abbrev pub created :
    IndexMetadata → Result IndexHandle × IndexRegistry → Result IndexMetadata × IndexRegistry
created md (ok h, r) = (ok md, r)
created md (err e, r) = (err e, r)
created md (panic, r) = (panic, r)

unfoldable pub create_index :
    Env → Text → CreateIndexRequest → IndexRegistry → Result IndexMetadata × IndexRegistry
create_index env name request r =
    let (answer, dirs) = Catalog.create_index name request r.catalog in
    elim answer [
      | err e ↦ (err e, record r { catalog = dirs })
      | panic ↦ (panic, record r { catalog = dirs })
      | ok md ↦ created md (opened name r.handles (Catalog.open_index env name dirs))
    ]

unfoldable pub get_index : Text → IndexRegistry → Result IndexMetadata
get_index name r = Catalog.get_index name r.catalog

unfoldable pub delete_index : Text → IndexRegistry → Result (Unit {0}) × IndexRegistry
delete_index name r =
    let (answer, dirs) = Catalog.delete_index name r.catalog in
    elim answer [
      | err e ↦ (err e, record r { catalog = dirs })
      | panic ↦ (panic, record r { catalog = dirs })
      | ok u ↦ (ok tt, record { catalog = dirs; handles = remove name r.handles })
    ]

unfoldable pub update_index_settings :
    Text → Option ℕ → IndexRegistry → Result IndexMetadata × IndexRegistry
update_index_settings name secs r =
    let (answer, dirs) = Catalog.update_index_settings name secs r.catalog in
    (answer, record r { catalog = dirs })

-- An operation on the handle of an index, as the handlers of the server call it.
unfoldable pub with_handle {ℓ} :
    {A : Type ℓ}
    → Env
    → Text
    → (IndexHandle → Result A × IndexHandle)
    → IndexRegistry
    → Result A × IndexRegistry
with_handle env name run r =
    let (found, r1) = index_handle env name r in
    elim found [
      | err e ↦ (err e, r1)
      | panic ↦ (panic, r1)
      | ok h ↦
          let (answer, k) = run h in
          (
            answer,
            record {
              catalog = insert name (files_of k) r1.catalog;
              handles = insert name k r1.handles;
            },
          )
    ]
