-- ===== src/Index/Mappings.antt =====
-- `infer_field_type` and `validate_and_update_mappings`: the type of each field of a document, against
-- the mappings of the index.
pub mod Stable
use cloud_search.Prelude.{
  ℕ, ◌≡◌, ◌+◌, ◌-◌, ◌^◌, ◌&&◌, ◌||◌, Bool, true, false, Option, none, some, List, [], ◌∷◌, length,
  ltb, leb, if◌then◌else◌,
}
use cloud_search.Prelude.Order.{text_ord}
use cloud_search.BTreeMap.{BTreeMap, get, insert}
use cloud_search.Bytes.{Text}
use cloud_search.Json.{
  Value, Number, pos_int, neg_int, float, null, bool, number, string, array, object, as_object,
  entries,
}
use cloud_search.Common.{
  Result, ok, err, panic, ◌>>=◌, FieldType, FieldType-discrete, keyword, boolean, integer, long,
  double, timestamp, MappingMode, strict, controlled_dynamic, IndexMetadata, mapping_conflict,
  unknown_field_rejected, unsupported_array_field, mapping_limit_exceeded,
}
use cloud_search.Index.{Env, IndexHandle}

abbrev pub max_fields_per_index : ℕ
max_fields_per_index = 1000

-- An `i64` that fits an `i32` is an integer, another one a long; a `u64` above the `i64`s is a double.
unfoldable pub infer_number : Number → FieldType
infer_number (pos_int n) =
    if ltb n (2 ^ 31) then integer else if ltb n (2 ^ 63) then long else double
infer_number (neg_int n) = if ltb n (2 ^ 31) then integer else long
infer_number (float x) = double

unfoldable pub infer_field_type : Env → Text → Value → Result (Option FieldType)
infer_field_type env field null = ok none
infer_field_type env field (bool b) = ok (some boolean)
infer_field_type env field (number n) = ok (some (infer_number n))
infer_field_type env field (string raw) = elim (env.parse_from_rfc3339 raw) [
  | some t ↦ ok (some timestamp)
  | none ↦ ok (some keyword)
]
infer_field_type env field (array xs) = err (unsupported_array_field field)
infer_field_type env field (object fs) = ok (some FieldType.object)

-- A field that is mapped keeps its type; one that is not is new, or refused in strict mode.
unfoldable pub matching :
    {existing t : FieldType}
    → Dec (existing ≡ t)
    → Result (List (Text × FieldType))
    → Result (List (Text × FieldType))
matching (yes same) rest = rest
matching (no other) rest = err mapping_conflict

unfoldable pub unmapped :
    MappingMode
    → Text
    → FieldType
    → Result (List (Text × FieldType))
    → Result (List (Text × FieldType))
unmapped strict field t rest = err (unknown_field_rejected field)
unmapped controlled_dynamic field t rest = rest >>= λ new. ok ((field, t) ∷ new)

unfoldable pub check_field :
    MappingMode
    → Text
    → Option FieldType
    → Option FieldType
    → Result (List (Text × FieldType))
    → Result (List (Text × FieldType))
check_field mode field none mapping rest = rest
check_field mode field (some t) (some existing) rest = matching (FieldType-discrete existing t) rest
check_field mode field (some t) none rest = unmapped mode field t rest

-- The loop over the fields: the mappings that are new.
unfoldable pub collect_mappings :
    Env → IndexMetadata → List (Text × Value) → Result (List (Text × FieldType))
collect_mappings env md [] = ok []
collect_mappings env md ((field, value) ∷ fs) =
    let rest = collect_mappings env md fs in
    infer_field_type env field value >>= λ inferred.
    check_field md.settings.mapping_mode field inferred (get field md.mappings) rest

unfoldable pub insert_mappings :
    List (Text × FieldType) → BTreeMap Text FieldType → BTreeMap Text FieldType
insert_mappings [] m = m
insert_mappings ((f, t) ∷ new) m = insert_mappings new (insert f t m)

-- The mappings afterwards, or `none` where nothing is new.
unfoldable pub validated : Env → IndexMetadata → Value → Result (Option (BTreeMap Text FieldType))
validated env md source = elim (as_object source) [
  | none ↦ err mapping_conflict
  | some obj ↦ collect_mappings env md (entries obj) >>= λ new.
      if ltb max_fields_per_index (length md.mappings + length new)
      then err mapping_limit_exceeded
      else ok (elim new [ [] ↦ none | (n ∷ ns) ↦ some (insert_mappings (n ∷ ns) md.mappings) ])
]

-- With new mappings the metadata is changed and metadata.json is written.
unfoldable pub validate_and_update_mappings :
    Env → Value → IndexHandle → Result (Unit {0}) × IndexHandle
validate_and_update_mappings env source h = elim (validated env h.metadata source) [
  | ok none ↦ (ok tt, h)
  | ok (some m) ↦
      let metadata = record h.metadata { mappings = m } in
      (ok tt, record h { metadata = metadata; stored_metadata = metadata })
  | err e ↦ (err e, h)
  | panic ↦ (panic, h)
]
