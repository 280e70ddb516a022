-- ===== src/Json.antt =====
-- `serde_json::Value`, whose object is a `BTreeMap`, and the accessors that the source calls.
-- A `f64` is its bit pattern, a number below 2 ^ 64.
use Prim.Native.Nat.Ordering.{eq}
use cloud_search.Prelude.{ℕ, ◌-◌, ◌^◌, Bool, Option, none, some, List, [], ◌∷◌, ltb, if◌then◌else◌}
use cloud_search.Prelude.Order.{text_ord}
use cloud_search.Bytes.{Text}

-- `neg_int n` is the integer -(n + 1).
pub data Number : Type 0 where
  pos_int : ℕ → Number
  neg_int : ℕ → Number
  float : ℕ → Number

mutual
  pub data Value : Type 0 where
    null : Value
    bool : Bool → Value
    number : Number → Value
    string : Text → Value
    array : Items → Value
    object : Fields → Value

  pub data Items : Type 0 where
    nil : Items
    cons : Value → Items → Items

  pub data Fields : Type 0 where
    end : Fields
    field : Text → Value → Fields → Fields

-- `Value::get` with a name: only an object has fields.
abbrev pub get_field : Text → Fields → Option Value
get_field k end = none
get_field k (field j v fs) = elim (text_ord.cmp k j) [ eq ↦ some v | _ ↦ get_field k fs ]

abbrev pub get_value : Text → Value → Option Value
get_value k (object fs) = get_field k fs
get_value k null = none
get_value k (bool b) = none
get_value k (number n) = none
get_value k (string s) = none
get_value k (array xs) = none

abbrev pub as_object : Value → Option Fields
as_object (object fs) = some fs
as_object null = none
as_object _ = none

abbrev pub as_str : Value → Option Text
as_str (string s) = some s
as_str null = none
as_str _ = none

abbrev pub as_bool : Value → Option Bool
as_bool (bool b) = some b
as_bool null = none
as_bool _ = none

-- The entries of an object in the order of iteration.
abbrev pub entries : Fields → List (Text × Value)
entries end = []
entries (field k v fs) = (k, v) ∷ entries fs

-- `Number::as_i64`, as a bit pattern.
unfoldable pub as_i64 : Number → Option ℕ
as_i64 (pos_int n) = if ltb n (2 ^ 63) then some n else none
as_i64 (neg_int n) = some (2 ^ 64 - 1 - n)
as_i64 (float x) = none
