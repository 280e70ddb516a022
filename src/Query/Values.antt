-- ===== src/Query/Values.antt =====
-- crates/cloudsearch-index/src/lib.rs: the equality of JSON values, the values that are compared, and
-- range queries.
use Prim.Native.Nat.{Ordering, compare}
use Prim.Native.Nat.Ordering.{lt, eq, gt}
use cloud_search.Prelude.{ℕ, ◌^◌, Bool, true, false, not, ◌&&◌, ◌||◌, Option, none, some, ◌==◌}
use cloud_search.Prelude.Order.{text_ord}
use cloud_search.Bytes.{Text}
use cloud_search.Json.{
  Value, Items, Fields, Number, null, bool, number, string, array, object, nil, cons, end, field,
  pos_int, neg_int, float, get_value, as_str,
}
use cloud_search.Common.{IndexDocument}
use cloud_search.Query.{RangeQuery}
use cloud_search.Query.Bm25.{QueryEnv, same_token}

abbrev same_bool : Bool → Bool → Bool
same_bool true b = b
same_bool false b = not b

-- Two `f64` that are no NaN: the zeros are equal. JSON has no NaN.
abbrev f64_eq : ℕ → ℕ → Bool
f64_eq x y = (x == y) || (((x == 0) || (x == 2 ^ 63)) && ((y == 0) || (y == 2 ^ 63)))

abbrev number_eq : Number → Number → Bool
number_eq (pos_int m) (pos_int n) = m == n
number_eq (neg_int m) (neg_int n) = m == n
number_eq (float x) (float y) = f64_eq x y
number_eq _ _ = false

-- `==` of `serde_json::Value`.
unfoldable mutual
  pub value_eq : Value → Value → Bool
  value_eq null null = true
  value_eq (bool a) (bool b) = same_bool a b
  value_eq (number m) (number n) = number_eq m n
  value_eq (string s) (string t) = same_token s t
  value_eq (array xs) (array ys) = items_eq xs ys
  value_eq (object fs) (object gs) = fields_eq fs gs
  value_eq _ _ = false

  pub items_eq : Items → Items → Bool
  items_eq nil nil = true
  items_eq (cons x xs) (cons y ys) = value_eq x y && items_eq xs ys
  items_eq _ _ = false

  pub fields_eq : Fields → Fields → Bool
  fields_eq end end = true
  fields_eq (field k v fs) (field j w gs) = same_token k j && (value_eq v w && fields_eq fs gs)
  fields_eq _ _ = false

pub data ComparableValue : Type 0 where
  number_value timestamp_value : ℕ → ComparableValue
  string_value : Text → ComparableValue
  boolean_value : Bool → ComparableValue

unfoldable pub comparable_value : QueryEnv → Value → Option ComparableValue
comparable_value env (number n) = some (number_value (env.f64_of n))
comparable_value env (bool b) = some (boolean_value b)
comparable_value env (string raw) = elim (env.parse_from_rfc3339 raw) [
  | some timestamp ↦ some (timestamp_value timestamp)
  | none ↦ some (string_value raw)
]
comparable_value env null = none
comparable_value env (array xs) = none
comparable_value env (object fs) = none

-- The comparisons of the four bounds, of what `cmp` answers.
abbrev pub is_ge : Option Ordering → Bool
is_ge (some gt) = true
is_ge (some eq) = true
is_ge _ = false

abbrev pub is_gt : Option Ordering → Bool
is_gt (some gt) = true
is_gt (some _) = false
is_gt none = false

abbrev pub is_le : Option Ordering → Bool
is_le (some lt) = true
is_le (some eq) = true
is_le _ = false

abbrev pub is_lt : Option Ordering → Bool
is_lt (some lt) = true
is_lt (some _) = false
is_lt none = false

unfoldable pub compare_numeric_bound : QueryEnv → ℕ → Option Value → (Option Ordering → Bool) → Bool
compare_numeric_bound env x none predicate = true
compare_numeric_bound env x (some (number n)) predicate =
    predicate (env.f64_partial_cmp x (env.f64_of n))
compare_numeric_bound env x (some null) predicate = false
compare_numeric_bound env x (some _) predicate = false

unfoldable pub matches_numeric_range : QueryEnv → ℕ → RangeQuery → Bool
matches_numeric_range env x range =
    compare_numeric_bound env x range.gte is_ge
    && (compare_numeric_bound env x range.gt is_gt
        && (compare_numeric_bound env x range.lte is_le
            && compare_numeric_bound env x range.lt is_lt))

unfoldable pub compare_timestamp_bound :
    QueryEnv → ℕ → Option Value → (Option Ordering → Bool) → Bool
compare_timestamp_bound env x none predicate = true
compare_timestamp_bound env x (some value) predicate = elim (as_str value) [
  | none ↦ false
  | some raw ↦ elim (env.parse_from_rfc3339 raw) [
    | none ↦ false
    | some bound ↦ predicate (some (compare x bound))
  ]
]

unfoldable pub matches_timestamp_range : QueryEnv → ℕ → RangeQuery → Bool
matches_timestamp_range env x range =
    compare_timestamp_bound env x range.gte is_ge
    && (compare_timestamp_bound env x range.gt is_gt
        && (compare_timestamp_bound env x range.lte is_le
            && compare_timestamp_bound env x range.lt is_lt))

unfoldable pub matches_range_query : QueryEnv → IndexDocument → RangeQuery → Bool
matches_range_query env document range = elim (get_value range.field document.source) [
  | none ↦ false
  | some value ↦ elim (comparable_value env value) [
    | none ↦ false
    | some (number_value x) ↦ matches_numeric_range env x range
    | some (timestamp_value x) ↦ matches_timestamp_range env x range
    | some (string_value s) ↦ false
    | some (boolean_value b) ↦ false
  ]
]
