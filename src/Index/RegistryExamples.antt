-- ===== src/Index/RegistryExamples.antt =====
-- The registry at concrete requests.
use cloud_search.Prelude.{◌≡◌, ◌≢◌, refl, none, some, [], ◌∷◌}
use cloud_search.Prelude.Order.{text_ord}
use cloud_search.BTreeMap.{get}
use cloud_search.Bytes.{Text}
use cloud_search.Common.{ok}
use cloud_search.Index.{IndexHandle}
use cloud_search.Index.Operations.{get_document}
use cloud_search.Index.Reopen.{IsDurable}
use cloud_search.Index.Catalog.{
  validate_namespace, all_bytes, CreateIndexRequest, validate_index_name, validate_request,
  read_metadata, new_metadata, with_retention,
}
use cloud_search.Index.Registry.{
  IndexRegistry, files_of, index_handle, create_index, get_index, update_index_settings,
}
use cloud_search.Index.Registry.Opened.{create_index-IsDurable, update_index_settings-index_handle}
use cloud_search.Index.Fixtures.{env, metadata, fresh}

abbrev name : Text
name = b'i' ∷ []

abbrev request : CreateIndexRequest
request = record {
  settings = record metadata.settings { namespace = some (b'N' ∷ []) };
  mappings = none;
}

abbrev no_indexes : IndexRegistry
no_indexes = record { catalog = []; handles = [] }

request_valid : validate_request name request ≡ ok tt
unfolding validate_request validate_index_name all_bytes validate_namespace
request_valid = refl

create_index-IsDurable_example :
    (k : IndexRegistry) × (create_index env name request no_indexes
      ≡ (ok (new_metadata name request), k))
    × (get_index name k ≡ ok (new_metadata name request))
    × ((q : Text) → q ≢ name → get q k.catalog ≡ get q no_indexes.catalog)
    × (h : IndexHandle) × (index_handle env name k ≡ (ok h, k))
    × IsDurable env h (record { active = 1; generations = [] })
    × ((p : Text) → get_document p h ≡ none)
create_index-IsDurable_example =
    create_index-IsDurable env name request no_indexes request_valid (unfold get in refl)

-- An index that is open.
abbrev one_index : IndexRegistry
one_index = record { catalog = (name, files_of fresh) ∷ []; handles = (name, fresh) ∷ [] }

name_accepted : validate_index_name name ≡ ok tt
unfolding validate_index_name all_bytes
name_accepted = refl

metadata_found : read_metadata name one_index.catalog ≡ ok (metadata, files_of fresh)
unfolding read_metadata get
metadata_found = refl

update_index_settings-index_handle_example :
    (k : IndexRegistry) × (update_index_settings name (some 60) one_index
      ≡ (ok (with_retention (some 60) metadata), k))
    × (get_index name k ≡ ok (with_retention (some 60) metadata))
    × (j : IndexHandle) × (index_handle env name k ≡ (ok j, k))
    × (j.metadata ≡ metadata)
    × (j.stored_metadata ≡ with_retention (some 60) metadata)
update_index_settings-index_handle_example =
    update_index_settings-index_handle env name (some 60) one_index metadata (files_of fresh) fresh
      name_accepted metadata_found (unfold get in refl)
