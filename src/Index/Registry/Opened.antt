-- ===== src/Index/Registry/Opened.antt =====
-- What a new index reads as, and what a change of the settings does to an index that is open.
use cloud_search.Prelude.{inl, inr, ◌≢◌, ℕ, ◌≡◌, refl, ◌∙◌, Option, none, some, [], arith}
use cloud_search.Prelude.Order.{text_ord, nat_ord}
use cloud_search.BTreeMap.{get, insert}
use cloud_search.BTreeMap.Lookup.{get-insert, update_self, update_ne}
use cloud_search.Bytes.{Text}
use cloud_search.Common.{ok, IndexMetadata}
use cloud_search.Wal.{
  replay_loop, list_generations, current_generation, ensure_current_generation, replay_from,
}
use cloud_search.Wal.Spec.{encode_files, gather, represent, replay}
use cloud_search.Index.{Env, IndexHandle}
use cloud_search.Index.Operations.{get_document}
use cloud_search.Index.Recovery.{open_manifest, load_segments}
use cloud_search.Index.Durability.{replayed}
use cloud_search.Index.Runs.{Result-cases}
use cloud_search.Index.Reopen.{IsDurable}
use cloud_search.Index.Catalog.{
  CreateIndexRequest, IndexDir, IndexCatalog, validate_index_name, validate_request, read_metadata,
  new_metadata, new_dir, with_retention,
}
use cloud_search.Index.Registry.{
  IndexRegistry, attached, opened, index_handle, create_index, get_index, update_index_settings,
}
use cloud_search.Index.Catalog
use cloud_search.Index.Recovery

-- The handle of a new index.
abbrev pub new_handle : Env → IndexMetadata → IndexHandle
new_handle env md = record {
  metadata = md;
  stored_metadata = md;
  wal = represent env.codec (record { active = 1; generations = [] });
  segments_dir = (new_dir md).segments_dir;
  manifest = record { version = 1; segments = [] };
  searchable_documents = [];
  pending_operations = [];
  last_sequence_number = 0;
  document_timestamps = [];
  per_doc_inverted_index = [];
  positions_readers = [];
  suggest_readers = [];
  doc_values_reader = none;
}

new_handle-IsDurable :
    (env : Env) (md : IndexMetadata)
    → IsDurable env (new_handle env md) (record { active = 1; generations = [] })
unfolding open_manifest load_segments replay replayed get_document get gather
new_handle-IsDurable env md = record {
  wal = refl;
  sorted = tt;
  storable = tt;
  newest = tt;
  opened = refl;
  covered = omega arith;
  pending_sorted = tt;
  read = λ p. refl;
}

open_new_dir :
    (env : Env) (md : IndexMetadata)
    → Recovery.open_index env md (new_dir md).wal_dir (new_dir md).segments_dir
      ≡ ok (new_handle env md)
unfolding ensure_current_generation Recovery.open_index replay_from current_generation
    list_generations replay_loop Recovery.recover Recovery.load_all_suggest_readers open_manifest
    represent load_segments Recovery.load_all_positions_readers Recovery.load_doc_values
    encode_files
open_new_dir env md = refl

name_valid :
    (name : Text) (request : CreateIndexRequest)
    → validate_request name request ≡ ok tt
    → validate_index_name name ≡ ok tt
unfolding validate_request
name_valid name request v = elim (Result-cases (validate_index_name name)) [
  | inl (tt, e) ↦ e
  | inr (inl (x, e)) ↦ cc (rw (validate_request, e) at v)
  | inr (inr e) ↦ cc (rw (validate_request, e) at v)
]

abbrev described : IndexMetadata → IndexDir → IndexDir
described md d = record d { metadata_file = some md }

read_inserted :
    (name : Text) (md : IndexMetadata) (d : IndexDir) (dirs : IndexCatalog)
    → read_metadata name (insert name (described md d) dirs) ≡ ok (md, described md d)
unfolding read_metadata
read_inserted name md d dirs =
    rw
      (
        read_metadata,
        get-insert name (described md d) dirs name,
        update_self name (some (described md d)) (λ q. get q dirs),
      )
      refl

get_index-inserted :
    (name : Text) (md : IndexMetadata) (d : IndexDir) (dirs : IndexCatalog)
    → validate_index_name name ≡ ok tt
    → Catalog.get_index name (insert name (described md d) dirs) ≡ ok md
unfolding Catalog.get_index
get_index-inserted name md d dirs v = rw (Catalog.get_index, v, read_inserted name md d dirs) refl

-- The directory of a new index after it was opened.
abbrev opened_dir : Env → IndexMetadata → IndexDir
opened_dir env md = record {
  metadata_file = some md;
  wal_dir = (new_handle env md).wal;
  segments_dir = (new_handle env md).segments_dir;
}

open_index-new :
    (env : Env) (name : Text) (md : IndexMetadata) (dirs : IndexCatalog)
    → validate_index_name name ≡ ok tt
    → Catalog.open_index env name (insert name (new_dir md) dirs)
      ≡ (ok (new_handle env md), insert name (opened_dir env md) (insert name (new_dir md) dirs))
unfolding Catalog.open_index ensure_current_generation open_manifest represent encode_files
open_index-new env name md dirs v =
    rw (Catalog.open_index, v, read_inserted name md (new_dir md) dirs, open_new_dir env md) refl

-- The registry after an index was created.
abbrev with_new : Env → Text → IndexMetadata → IndexRegistry → IndexRegistry
with_new env name md r = record {
  catalog = insert name (opened_dir env md) (insert name (new_dir md) r.catalog);
  handles = insert name (new_handle env md) r.handles;
}

catalog_create :
    (name : Text) (request : CreateIndexRequest) (dirs : IndexCatalog)
    → validate_request name request ≡ ok tt
    → get name dirs ≡ none
    → Catalog.create_index name request dirs
      ≡ (ok (new_metadata name request), insert name (new_dir (new_metadata name request)) dirs)
unfolding Catalog.create_index
catalog_create name request dirs v g = rw (Catalog.create_index, v, g) refl

create_index-new :
    (env : Env) (name : Text) (request : CreateIndexRequest) (r : IndexRegistry)
    → validate_request name request ≡ ok tt
    → get name r.catalog ≡ none
    → create_index env name request r
      ≡ (ok (new_metadata name request), with_new env name (new_metadata name request) r)
unfolding create_index opened
create_index-new env name request r v g =
    rw
      (
        create_index,
        catalog_create name request r.catalog v g,
        catalog_create name request r.catalog v g,
        open_index-new env name (new_metadata name request) r.catalog (name_valid name request v),
      )
      refl

index_handle-new :
    (env : Env) (name : Text) (md : IndexMetadata) (r : IndexRegistry)
    → index_handle env name (with_new env name md r)
      ≡ (ok (new_handle env md), with_new env name md r)
unfolding index_handle attached
index_handle-new env name md r =
    rw
      (
        index_handle,
        get-insert name (new_handle env md) r.handles name,
        update_self name (some (new_handle env md)) (λ q. get q r.handles),
        get-insert name (opened_dir env md) (insert name (new_dir md) r.catalog) name,
        update_self name (some (opened_dir env md))
            (λ q. get q (insert name (new_dir md) r.catalog)),
      )
      refl

-- Creating an index under a valid request with a name that is free succeeds. After it the metadata of
-- the request is read under the name, the other indexes have the directories that they had, and the
-- handle of the name is durable and has no documents.
pub create_index-IsDurable :
    (env : Env) (name : Text) (request : CreateIndexRequest) (r : IndexRegistry)
    → validate_request name request ≡ ok tt
    → get name r.catalog ≡ none
    → (k : IndexRegistry) × (create_index env name request r ≡ (ok (new_metadata name request), k))
      × (get_index name k ≡ ok (new_metadata name request))
      × ((q : Text) → q ≢ name → get q k.catalog ≡ get q r.catalog)
      × (h : IndexHandle) × (index_handle env name k ≡ (ok h, k))
      × IsDurable env h (record { active = 1; generations = [] })
      × ((p : Text) → get_document p h ≡ none)
unfolding get_index get_document get
create_index-IsDurable env name request r v g =
    let md = new_metadata name request in
    (
      with_new env name md r,
      create_index-new env name request r v g,
      get_index-inserted name md (opened_dir env md) _ (name_valid name request v),
      λ q d.
          get-insert name (opened_dir env md) (insert name (new_dir md) r.catalog) q
          ∙ update_ne name _ _ q d
          ∙ get-insert name (new_dir md) r.catalog q
          ∙ update_ne name _ _ q d,
      new_handle env md,
      index_handle-new env name md r,
      new_handle-IsDurable env md,
      λ p. refl,
    )

-- A change of the retention of an index that is open is read from its metadata file at once, but its
-- handle goes on with the metadata that it had.
pub update_index_settings-index_handle :
    (env : Env) (name : Text) (secs : Option ℕ) (r : IndexRegistry) (md : IndexMetadata)
    (d : IndexDir) (h : IndexHandle)
    → validate_index_name name ≡ ok tt
    → read_metadata name r.catalog ≡ ok (md, d)
    → get name r.handles ≡ some h
    → (k : IndexRegistry) × (update_index_settings name secs r ≡ (ok (with_retention secs md), k))
      × (get_index name k ≡ ok (with_retention secs md))
      × (j : IndexHandle) × (index_handle env name k ≡ (ok j, k))
      × (j.metadata ≡ h.metadata)
      × (j.stored_metadata ≡ with_retention secs md)
unfolding update_index_settings Catalog.update_index_settings index_handle attached get_index
update_index_settings-index_handle env name secs r md d h v e g =
    let changed = record d { metadata_file = some (with_retention secs md) } in
    (
      record r { catalog = insert name changed r.catalog },
      rw (update_index_settings, Catalog.update_index_settings, v, e) refl,
      get_index-inserted name (with_retention secs md) d r.catalog v,
      attached (some changed) h,
      rw
          (
            index_handle,
            g,
            get-insert name changed r.catalog name,
            update_self name (some changed) (λ q. get q r.catalog),
          )
          refl,
      refl,
      refl,
    )
