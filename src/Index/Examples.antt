-- ===== src/Index/Examples.antt =====
-- A fresh index, runs of its operations, and the theorems at concrete handles.
use cloud_search.Prelude.{
  true, ◌+◌, ◌≤◌, ◌≡◌, refl, ◌⊎◌, none, some, List, [], ◌∷◌, arith, All, length,
}
use cloud_search.Prelude.Order.{text_ord}
use cloud_search.BTreeMap.{get, insert, update}
use cloud_search.Bytes.{Text}
use cloud_search.Json.{Value, object, end, field, bool}
use cloud_search.Common.{ok, FieldType, boolean}
use cloud_search.Wal.Records.{WalRecord}
use cloud_search.Wal.Toy.{toy}
use cloud_search.Wal.Spec.{IsStorable, replay, gather}
use cloud_search.Index.{IndexHandle, upsert_op}
use cloud_search.Index.Mappings.{
  max_fields_per_index, validated, infer_field_type, unmapped, check_field, collect_mappings,
  insert_mappings,
}
use cloud_search.Index.Mappings.Stable.{validated-stable}
use cloud_search.Index.Tokens.{positions_loop}
use cloud_search.Index.Tokens.Offsets.{IsOffset, positions_loop-IsOffset}
use cloud_search.Index.Operations.{
  get_document, documents, refresh, index_document, delete_document, BulkOperation, index_op,
  remove_op,
}
use cloud_search.Index.Recovery.{open_manifest, load_segments, load_all_suggest_readers, open_index}
use cloud_search.Index.Tokens.Fuel.{positions_loop_fuel}
use cloud_search.Index.Runs.{Fails, Runs, index_document-Runs}
use cloud_search.Index.Views.{
  get_document-refresh, get_document-index_document, get_document-delete_document,
}
use cloud_search.Json.{null}
use cloud_search.Index.Durability.{replayed}
use cloud_search.Index.Reopen.{IsDurable, next_entry, open_index-get_document}
use cloud_search.Index.Steps.{Steps, indexed, refreshed, stays, goes_on, open_index-Steps}
use cloud_search.Index.Fixtures.{env, metadata, empty_log, fresh, a_text, document, pending}

fresh-IsDurable : IsDurable env fresh empty_log
unfolding open_manifest load_segments replay gather replayed get_document get
fresh-IsDurable = record {
  wal = refl;
  sorted = tt;
  storable = tt;
  newest = tt;
  opened = refl;
  covered = omega arith;
  pending_sorted = tt;
  read = λ p. refl;
}

index_document-Runs_example :
    let (r, k) = index_document env 5 document fresh in
    Runs env (WalRecord.index_document document) a_text (upsert_op document) 5 fresh r k
index_document-Runs_example = index_document-Runs env 5 document fresh

get_document-index_document_example :
    let (r, k) = index_document env 5 document fresh in
    (documents k ≡ documents fresh)
    × (((r ≡ ok (0 + 1))
          × (get_document a_text k
              ≡ update a_text (some document) (λ q. get_document q fresh) a_text))
        ⊎ (Fails r × (get_document a_text k ≡ get_document a_text fresh)))
get_document-index_document_example = get_document-index_document env 5 document fresh a_text

get_document-delete_document_example :
    let (r, k) = delete_document env 5 a_text fresh in
    (documents k ≡ documents fresh)
    × (((r ≡ ok (0 + 1))
          × (get_document a_text k ≡ update a_text none (λ q. get_document q fresh) a_text))
        ⊎ (Fails r × (get_document a_text k ≡ get_document a_text fresh)))
get_document-delete_document_example = get_document-delete_document env 5 a_text fresh a_text

get_document-refresh_example :
    (get a_text (documents (refresh pending).1) ≡ get_document a_text pending)
    × (get_document a_text (refresh pending).1 ≡ get_document a_text pending)
get_document-refresh_example = get_document-refresh pending a_text (tt, tt)

-- The source of the second document is no object, so that it is refused.
abbrev requests : List BulkOperation
requests =
    index_op document
    ∷ index_op (record { id = b'c' ∷ []; source = null })
    ∷ remove_op (b'b' ∷ [])
    ∷ []

open_index-get_document_example :
    (k : IndexHandle) × (open_index env metadata fresh.wal fresh.segments_dir ≡ ok k)
    × ((p : Text) → get_document p k ≡ get_document p fresh)
open_index-get_document_example =
    open_index-get_document env fresh empty_log metadata [] fresh-IsDurable
      (unfold replay gather in tt) (unfold load_all_suggest_readers in refl)

first-IsStorable : IsStorable toy (next_entry (WalRecord.index_document document) 5 fresh)
first-IsStorable = record {
  payload = 2 ∷ a_text;
  stored = refl;
  payload_fits = omega arith;
  sequence_fits = omega arith;
  time_fits = omega arith;
}

abbrev written : IndexHandle
written = (index_document env 5 document fresh).1

-- One document is indexed and made searchable.
two-Steps : Steps env fresh (refresh written).1
two-Steps =
    goes_on fresh written _ (indexed 5 document fresh first-IsStorable)
      (goes_on written _ _ (refreshed written) (stays _))

open_index-Steps_example :
    (l : IndexHandle) × (open_index env metadata
        (refresh written).1.wal
        (refresh written).1.segments_dir
      ≡ ok l)
    × ((p : Text) → get_document p l ≡ get_document p (refresh written).1)
open_index-Steps_example =
    open_index-Steps env fresh (refresh written).1 empty_log metadata [] fresh-IsDurable two-Steps
      refl (unfold load_all_suggest_readers in refl)

abbrev source : Value
source = object (field (b'f' ∷ []) (bool true) end)

validated_source : validated env metadata source ≡ ok (some ((b'f' ∷ [], boolean) ∷ []))
unfolding validated collect_mappings check_field unmapped infer_field_type insert_mappings get
    insert
validated_source = refl

validated-stable_example :
    ((f : Text) (t : FieldType)
      → get f metadata.mappings ≡ some t
      → get f ((b'f' ∷ [], boolean) ∷ []) ≡ some t)
    × (length {A = Text × FieldType} ((b'f' ∷ [], boolean) ∷ []) ≤ max_fields_per_index)
validated-stable_example = validated-stable env metadata source _ validated_source

positions_loop-IsOffset_example :
    All
      (IsOffset a_text (b'a' ∷ b'b' ∷ b'a' ∷ []) 0)
      (positions_loop 3 a_text (b'a' ∷ b'b' ∷ b'a' ∷ []) 0)
positions_loop-IsOffset_example = positions_loop-IsOffset 3 a_text (b'a' ∷ b'b' ∷ b'a' ∷ []) 0

positions_loop_fuel_example :
    positions_loop 3 a_text (b'a' ∷ b'b' ∷ b'a' ∷ []) 0
    ≡ positions_loop 8 a_text (b'a' ∷ b'b' ∷ b'a' ∷ []) 0
positions_loop_fuel_example =
    positions_loop_fuel b'a' [] (b'a' ∷ b'b' ∷ b'a' ∷ []) 0 3 8 (omega arith) (omega arith)
