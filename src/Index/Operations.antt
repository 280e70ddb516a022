-- ===== src/Index/Operations.antt =====
-- The operations of `IndexHandle` that write to the log and to the pending operations, and those that
-- read the two. An operation gives its result and the handle afterwards, also where it fails.
use cloud_search.Prelude.{
  ℕ, ◌+◌, Bool, true, false, not, Option, none, some, List, [], ◌∷◌, length, leb, if◌then◌else◌,
}
use cloud_search.Prelude.Order.{text_ord}
use cloud_search.BTreeMap.{BTreeMap, get, insert, remove}
use cloud_search.Bytes.{Text}
use cloud_search.Json.{Value, get_value, as_str, number, as_i64}
use cloud_search.Common.{Result, ok, err, panic, CloudSearchError, IndexDocument, IndexMetadata}
use cloud_search.Wal.Records.{WalRecord}
use cloud_search.Wal.{append}
use cloud_search.Index.{Env, IndexHandle, PendingOperation, upsert_op, delete_op}
use cloud_search.Index.Tokens.{extract_positions}
use cloud_search.Index.Mappings.{validate_and_update_mappings}

-- Both `get_document` and `documents` read the map of searchable documents; the first looks at the
-- pending operations before.
unfoldable pub get_document : Text → IndexHandle → Option IndexDocument
get_document id h = elim (get id h.pending_operations) [
  | some (upsert_op d) ↦ some d
  | some delete_op ↦ none
  | none ↦ get id h.searchable_documents
]

unfoldable pub documents : IndexHandle → BTreeMap Text IndexDocument
documents h = h.searchable_documents

unfoldable pub has_retention_policy : IndexMetadata → Bool
has_retention_policy md = elim md.settings.retention_secs [
  | none ↦ false
  | some r ↦ elim md.settings.primary_time_field [ none ↦ false | some f ↦ true ]
]

unfoldable pub as_integer : Value → Option ℕ
as_integer (number n) = as_i64 n
as_integer _ = none

unfoldable pub from_integer : Env → Value → Option ℕ
from_integer env value = elim (as_integer value) [
  | none ↦ none
  | some secs ↦ env.from_timestamp secs
]

-- `extract_document_timestamp`, and `extract_document_timestamp_from_doc`, which has the same body.
unfoldable pub extract_document_timestamp : Env → IndexMetadata → IndexDocument → Option ℕ
extract_document_timestamp env md d = elim md.settings.primary_time_field [
  | none ↦ none
  | some field_name ↦ elim (get_value field_name d.source) [
    | none ↦ none
    | some value ↦ elim (as_str value) [
      | none ↦ from_integer env value
      | some raw ↦ elim (env.parse_from_rfc3339 raw) [
        | some parsed ↦ some parsed
        | none ↦ from_integer env value
      ]
    ]
  ]
]

unfoldable pub unwrap_or : Option ℕ → ℕ → ℕ
unwrap_or none n = n
unwrap_or (some m) n = m

-- `none` for a sum out of range.
unfoldable pub stamp : Env → IndexDocument → IndexHandle → Option IndexHandle
stamp env d h = elim (extract_document_timestamp env h.metadata d) [
  | none ↦ some h
  | some ts ↦ elim (env.add_seconds ts (unwrap_or h.metadata.settings.retention_secs 0)) [
    | none ↦ none
    | some expiry ↦
        some (record h { document_timestamps = insert d.id expiry h.document_timestamps })
  ]
]

unfoldable pub is_expired : Text → ℕ → IndexHandle → Bool
is_expired id now h =
    if not (has_retention_policy h.metadata)
    then false
    else elim (get id h.document_timestamps) [ none ↦ false | some expiry ↦ leb expiry now ]

-- Writes a record under the next sequence number, and then notes the pending operation.
unfoldable pub log_operation :
    Env → WalRecord → Text → PendingOperation → ℕ → IndexHandle → Result ℕ × IndexHandle
log_operation env rec id op now h =
    let sequence_number = h.last_sequence_number + 1 in
    elim (append env.codec sequence_number rec now h.wal) [
      | err e ↦ (err e, h)
      | panic ↦ (panic, h)
      | ok wal ↦ (
        ok sequence_number,
        record h {
          wal = wal;
          pending_operations = insert id op h.pending_operations;
          last_sequence_number = sequence_number;
        },
      )
    ]

unfoldable pub note_positions : IndexDocument → IndexHandle → IndexHandle
note_positions d h = elim (extract_positions d) [
  | [] ↦ h
  | (e ∷ es) ↦ record h { per_doc_inverted_index = insert d.id (e ∷ es) h.per_doc_inverted_index }
]

unfoldable pub index_document : Env → ℕ → IndexDocument → IndexHandle → Result ℕ × IndexHandle
index_document env now d h =
    let (valid, h1) = validate_and_update_mappings env d.source h in
    elim valid [
      | err e ↦ (err e, h1)
      | panic ↦ (panic, h1)
      | ok u ↦ elim (stamp env d h1) [
        | none ↦ (panic, h1)
        | some h2 ↦
            let (written, h3) =
              log_operation env (WalRecord.index_document d) d.id (upsert_op d) now h2 in
            elim written [
              | ok n ↦ (ok n, note_positions d h3)
              | err e ↦ (err e, h3)
              | panic ↦ (panic, h3)
            ]
      ]
    ]

unfoldable pub delete_document : Env → ℕ → Text → IndexHandle → Result ℕ × IndexHandle
delete_document env now id h = log_operation env (WalRecord.delete_document id) id delete_op now h

pub data BulkOperation : Type 0 where
  index_op : IndexDocument → BulkOperation
  remove_op : Text → BulkOperation

-- The text of an item's `result` is `created`, `deleted` or the error.
pub data BulkOutcome : Type 0 where
  created : BulkOutcome
  deleted : BulkOutcome
  failed_with : CloudSearchError → BulkOutcome

pub record BulkItem : Type 0 where
  pub id : Text
  pub outcome : BulkOutcome
  pub sequence_number : ℕ

pub record BulkResponse : Type 0 where
  pub errors : Bool
  pub items : List BulkItem

unfoldable pub apply_one : Env → ℕ → BulkOperation → IndexHandle → Result ℕ × IndexHandle
apply_one env now (index_op d) h = index_document env now d h
apply_one env now (remove_op id) h = delete_document env now id h

abbrev pub operation_id : BulkOperation → Text
operation_id (index_op d) = d.id
operation_id (remove_op id) = id

abbrev pub success : BulkOperation → BulkOutcome
success (index_op d) = created
success (remove_op id) = deleted

-- One operation after the other; an error is noted and the rest goes on. A panic ends the whole.
unfoldable pub bulk_loop :
    Env → ℕ → List BulkOperation → IndexHandle → Result BulkResponse × IndexHandle
bulk_loop env now [] h = (ok (record { errors = false; items = [] }), h)
bulk_loop env now (op ∷ ops) h =
    let (result, h1) = apply_one env now op h in
    let (rest, h2) = bulk_loop env now ops h1 in
    elim result [
      | panic ↦ (panic, h1)
      | ok n ↦ elim rest [
        | ok r ↦ (
          ok (record {
            errors = r.errors;
            items =
                record { id = operation_id op; outcome = success op; sequence_number = n }
                ∷ r.items;
          }),
          h2,
        )
        | err e ↦ (err e, h2)
        | panic ↦ (panic, h2)
      ]
      | err e ↦ elim rest [
        | ok r ↦ (
          ok (record {
            errors = true;
            items =
                record { id = operation_id op; outcome = failed_with e; sequence_number = 0 }
                ∷ r.items;
          }),
          h2,
        )
        | err f ↦ (err f, h2)
        | panic ↦ (panic, h2)
      ]
    ]

unfoldable pub bulk_apply :
    Env → ℕ → List BulkOperation → IndexHandle → Result BulkResponse × IndexHandle
bulk_apply env now ops h = bulk_loop env now ops h

unfoldable pub apply_pending :
    BTreeMap Text PendingOperation → BTreeMap Text IndexDocument → BTreeMap Text IndexDocument
apply_pending [] docs = docs
apply_pending ((id, upsert_op d) ∷ ops) docs = apply_pending ops (insert id d docs)
apply_pending ((id, delete_op) ∷ ops) docs = apply_pending ops (remove id docs)

unfoldable pub refresh : IndexHandle → ℕ × IndexHandle
refresh h = (
  length h.pending_operations,
  record h {
    searchable_documents = apply_pending h.pending_operations h.searchable_documents;
    pending_operations = [];
  },
)

unfoldable pub expired_ids : ℕ → BTreeMap Text ℕ → List Text
expired_ids now [] = []
expired_ids now ((id, expiry) ∷ m) =
    let rest = expired_ids now m in if leb expiry now then id ∷ rest else rest

unfoldable pub evict_loop : Env → ℕ → List Text → ℕ → IndexHandle → Result ℕ × IndexHandle
evict_loop env now [] evicted h = (ok evicted, h)
evict_loop env now (id ∷ ids) evicted h =
    let (written, h1) = log_operation env (WalRecord.delete_document id) id delete_op now h in
    let rest =
      evict_loop env now ids (evicted + 1)
        (record h1 { document_timestamps = remove id h1.document_timestamps }) in
    elim written [ ok n ↦ rest | err e ↦ (err e, h1) | panic ↦ (panic, h1) ]

unfoldable pub evict_expired_documents : Env → ℕ → IndexHandle → Result ℕ × IndexHandle
evict_expired_documents env now h =
    if not (has_retention_policy h.metadata)
    then (ok 0, h)
    else evict_loop env now (expired_ids now h.document_timestamps) 0 h
