-- ===== src/Query/Validate.antt =====
-- crates/cloudsearch-index/src/lib.rs: `validate_search_request`, with `validate_query` and the tests
-- of a field's mapping.
pub mod Fits
use cloud_search.Prelude.{
  ℕ, ◌*◌, ◌≡◌, Bool, true, false, not, ◌&&◌, ◌||◌, Option, none, some, List, [], ◌∷◌, length, ltb,
  leb, ◌==◌, if◌then◌else◌,
}
use cloud_search.Prelude.Order.{text_ord}
use cloud_search.BTreeMap.{BTreeMap, get, keys}
use cloud_search.Bytes.{Text}
use cloud_search.Json.{Value}
use cloud_search.Common.{
  Result, ok, err, panic, ◌>>◌, ◌>>=◌, FieldType, invalid_search_request, invalid_namespace,
  invalid_index_name,
}
use cloud_search.Query.{
  SearchQuery, Queries, match_all, term_query, terms_query, range_query, bool_query, prefix_query,
  wildcard_query, match_query, phrase_query, multi_match_query, mlt_query, nil, cons, MltQuery,
}

abbrev pub Mappings : Type 0
Mappings = BTreeMap Text FieldType

abbrev pub refuse_unless : Bool → Result (Unit {0})
refuse_unless true = ok tt
refuse_unless false = err invalid_search_request

-- The test of a field's type, where it is mapped.
abbrev pub if_mapped : (FieldType → Bool) → Option FieldType → Result (Unit {0})
if_mapped test none = ok tt
if_mapped test (some t) = refuse_unless (test t)

abbrev pub is_scalar : FieldType → Bool
is_scalar FieldType.object = false
is_scalar FieldType.keyword = true
is_scalar _ = true

abbrev pub is_text : FieldType → Bool
is_text FieldType.keyword = true
is_text FieldType.object = false
is_text _ = false

abbrev pub is_numeric : FieldType → Bool
is_numeric FieldType.integer = true
is_numeric FieldType.long = true
is_numeric FieldType.double = true
is_numeric _ = false

abbrev pub is_timestamp : FieldType → Bool
is_timestamp FieldType.timestamp = true
is_timestamp FieldType.object = false
is_timestamp _ = false

abbrev pub is_range : FieldType → Bool
is_range FieldType.timestamp = true
is_range FieldType.integer = true
is_range FieldType.long = true
is_range FieldType.double = true
is_range _ = false

unfoldable pub ensure_scalar_field : Mappings → Text → Result (Unit {0})
ensure_scalar_field ms name = if_mapped is_scalar (get name ms)

unfoldable pub ensure_text_field : Mappings → Text → Result (Unit {0})
ensure_text_field ms name = if_mapped is_text (get name ms)

unfoldable pub ensure_numeric_field : Mappings → Text → Result (Unit {0})
ensure_numeric_field ms name = if_mapped is_numeric (get name ms)

unfoldable pub ensure_timestamp_field : Mappings → Text → Result (Unit {0})
ensure_timestamp_field ms name = if_mapped is_timestamp (get name ms)

unfoldable pub ensure_range_field : Mappings → Text → Result (Unit {0})
ensure_range_field ms name = if_mapped is_range (get name ms)

unfoldable pub ensure_text_fields : Mappings → List Text → Result (Unit {0})
ensure_text_fields ms [] = ok tt
ensure_text_fields ms (name ∷ names) = ensure_text_field ms name >> ensure_text_fields ms names

-- The fields of a multi_match query, of which there is one at least.
unfoldable pub validate_fields : Mappings → BTreeMap Text ℕ → Result (Unit {0})
validate_fields ms [] = err invalid_search_request
validate_fields ms ((name, w) ∷ fs) = ensure_text_fields ms (keys ((name, w) ∷ fs))

-- One of `doc_id` and `like` is given.
unfoldable pub validate_mlt : Mappings → MltQuery → Result (Unit {0})
validate_mlt ms q = elim (q.doc_id) [
  | none ↦ elim (q.like) [
    | none ↦ err invalid_search_request
    | some v ↦ ensure_text_fields ms q.fields
  ]
  | some id ↦ elim (q.like) [
    | none ↦ ensure_text_fields ms q.fields
    | some v ↦ err invalid_search_request
  ]
]

unfoldable mutual
  pub validate_query : Mappings → SearchQuery → Result (Unit {0})
  validate_query ms match_all = ok tt
  validate_query ms (term_query q) = ensure_scalar_field ms q.field
  validate_query ms (terms_query q) = ensure_scalar_field ms q.field
  validate_query ms (range_query q) = ensure_range_field ms q.field
  validate_query ms (bool_query must should filter must_not minimum) =
      validate_queries ms must
      >> (validate_queries ms should
          >> (validate_queries ms filter >> validate_queries ms must_not))
  validate_query ms (prefix_query q) = ensure_scalar_field ms q.field
  validate_query ms (wildcard_query q) = ensure_scalar_field ms q.field
  validate_query ms (match_query q) = ensure_text_field ms q.field
  validate_query ms (phrase_query q) = ensure_text_field ms q.field
  validate_query ms (multi_match_query q) = validate_fields ms q.fields
  validate_query ms (mlt_query q) = validate_mlt ms q

  pub validate_queries : Mappings → Queries → Result (Unit {0})
  validate_queries ms nil = ok tt
  validate_queries ms (cons q qs) = validate_query ms q >> validate_queries ms qs

unfoldable mutual
  pub query_has_fuzzy_term : SearchQuery → Bool
  query_has_fuzzy_term (term_query q) = elim (q.fuzziness) [ none ↦ false | some f ↦ true ]
  query_has_fuzzy_term (bool_query must should filter must_not minimum) =
      any_fuzzy must || (any_fuzzy should || (any_fuzzy filter || any_fuzzy must_not))
  query_has_fuzzy_term match_all = false
  query_has_fuzzy_term _ = false

  pub any_fuzzy : Queries → Bool
  any_fuzzy nil = false
  any_fuzzy (cons q qs) = query_has_fuzzy_term q || any_fuzzy qs

pub data SortOrder : Type 0 where
  asc desc : SortOrder

pub record SortSpec : Type 0 where
  pub field : Text
  pub order : SortOrder

pub data DateHistogramInterval : Type 0 where
  minute hour day : DateHistogramInterval

pub data AggregationRequest : Type 0 where
  terms_agg stats_agg : Text → AggregationRequest
  date_histogram_agg : Text → DateHistogramInterval → AggregationRequest

-- `start` is the source's `from`.
pub record SearchRequest : Type 0 where
  pub query : Option SearchQuery
  pub start : Option ℕ
  pub size : Option ℕ
  pub sort : Option SortSpec
  pub search_after : Option (List Value)
  pub aggs : Option (BTreeMap Text AggregationRequest)

abbrev pub max_search_size : ℕ
max_search_size = 10000

abbrev pub max_search_offset : ℕ
max_search_offset = 1000000

abbrev pub given {ℓ} : {A : Type ℓ} → Option A → Bool
given none = false
given (some a) = true

abbrev pub at_most : ℕ → Option ℕ → Bool
at_most n none = true
at_most n (some m) = leb m n

unfoldable pub validate_aggs : Mappings → List (Text × AggregationRequest) → Result (Unit {0})
validate_aggs ms [] = ok tt
validate_aggs ms ((name, terms_agg f) ∷ aggs) = ensure_scalar_field ms f >> validate_aggs ms aggs
validate_aggs ms ((name, stats_agg f) ∷ aggs) = ensure_numeric_field ms f >> validate_aggs ms aggs
validate_aggs ms ((name, date_histogram_agg f i) ∷ aggs) =
    ensure_timestamp_field ms f >> validate_aggs ms aggs

unfoldable pub validate_sort : Mappings → Option SortSpec → Result (Unit {0})
validate_sort ms none = ok tt
validate_sort ms (some s) = ensure_scalar_field ms s.field

unfoldable pub validate_request_query : Mappings → SearchRequest → Result (Unit {0})
validate_request_query ms request = elim (request.query) [
  | none ↦ ok tt
  | some q ↦
      validate_query ms q
      >> refuse_unless (not (given request.search_after && query_has_fuzzy_term q))
]

unfoldable pub validate_search_request : Mappings → SearchRequest → Result (Unit {0})
validate_search_request ms request =
    validate_request_query ms request
    >> (validate_sort ms request.sort
        >> (refuse_unless (at_most max_search_size request.size)
            >> (refuse_unless (at_most max_search_offset request.start)
                >> (refuse_unless (not (given request.search_after && given request.start))
                    >> (refuse_unless (not (given request.search_after && not (given request.sort)))
                        >> (elim (request.aggs) [
                          | none ↦ ok tt
                          | some aggs ↦ validate_aggs ms aggs
                        ]))))))
