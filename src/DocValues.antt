-- ===== src/DocValues.antt =====
-- crates/cloudsearch-index/src/doc_values.rs and doc_values_reader.rs: the columns of a segment's
-- fields, which aggregations read. A `f64` is its bit pattern.
pub mod RoundTrip
mod Examples
use cloud_search.Prelude.{
  ℕ, zero, suc, ◌+◌, ◌-◌, ◌*◌, ◌/◌, ◌%◌, ◌^◌, Bool, true, false, not, ◌&&◌, Option, none, some,
  List, [], ◌∷◌, ◌++◌, map, length, take, drop, get_elem?, ltb, leb, ◌==◌, if◌then◌else◌,
}
use cloud_search.Prelude.Order.{text_ord}
use cloud_search.BTreeMap.{BTreeMap, get, insert}
use cloud_search.Bytes.{Bytes, Text, to_le, from_le, slice, is_utf8}
use cloud_search.Json.{Value, Number, number, get_value, as_str, as_bool, as_i64}
use cloud_search.Common.{Result, ok, err, panic, ◌>>=◌, IndexDocument, FieldType}

pub data DocValueType : Type 0 where
  keyword boolean integer long double timestamp : DocValueType

-- `value_bytes` is the source's `data`.
pub record DocValuesField : Type 0 where
  pub name : Text
  pub value_type : DocValueType
  pub doc_count : ℕ
  pub value_bytes : Bytes

-- `DocValuesReader` holds nothing but `fields`.
abbrev pub DocValuesReader : Type 0
DocValuesReader = BTreeMap Text DocValuesField

abbrev pub u32_limit : ℕ
u32_limit = 2 ^ 32

-- One pass: the offset of each document and the pool of strings so far.
unfoldable pub keyword_pass : List IndexDocument → Text → Bytes → Result (List ℕ × Bytes)
keyword_pass [] name pool = ok ([], pool)
keyword_pass (d ∷ ds) name pool =
    let value : Option Text = elim (get_value name d.source) [ none ↦ none | some v ↦ as_str v ] in
    let present =
      λ (s : Text). keyword_pass ds name (pool ++ s) >>= λ r. ok (length pool ∷ r.0, r.1) in
    let missing = keyword_pass ds name pool >>= λ r. ok (0 ∷ r.0, r.1) in
    if ltb (length pool) u32_limit
    then elim value [ some s ↦ present s | none ↦ missing ]
    else panic

unfoldable pub write_offsets : List ℕ → Bytes
write_offsets [] = []
write_offsets (o ∷ os) = to_le 4 o ++ write_offsets os

-- Offset 0 is the byte for a missing value.
unfoldable pub encode_keywords : List IndexDocument → Text → Result Bytes
encode_keywords documents name =
    keyword_pass documents name (0 ∷ []) >>= λ r. ok (write_offsets (r.0) ++ r.1)

-- The bit patterns of numbers that a column packs, eight bytes each.
unfoldable pub pack_numbers : List ℕ → Bytes
pack_numbers [] = []
pack_numbers (n ∷ ns) = to_le 8 n ++ pack_numbers ns

unfoldable pub i64_of : Text → IndexDocument → ℕ
i64_of name d = elim (get_value name d.source) [
  | some (number n) ↦ elim (as_i64 n) [ some i ↦ i | none ↦ 0 ]
  | _ ↦ 0
]

unfoldable pub encode_i64 : List IndexDocument → Text → Bytes
encode_i64 documents name = pack_numbers (map (i64_of name) documents)

unfoldable pub f64_or_zero : (Number → ℕ) → Text → IndexDocument → ℕ
f64_or_zero f64_of name d = elim (get_value name d.source) [ some (number n) ↦ f64_of n | _ ↦ 0 ]

unfoldable pub encode_f64 : (Number → ℕ) → List IndexDocument → Text → Bytes
encode_f64 f64_of documents name = pack_numbers (map (f64_or_zero f64_of name) documents)

unfoldable pub bool_of : Text → IndexDocument → Bool
bool_of name d = elim (get_value name d.source) [
  | none ↦ false
  | some v ↦ elim (as_bool v) [ some b ↦ b | none ↦ false ]
]

-- The bit `k` of a byte, and the byte with it set.
abbrev pub test_bit : ℕ → ℕ → Bool
test_bit k b = (b / 2 ^ k) % 2 == 1

abbrev pub set_bit : ℕ → ℕ → ℕ
set_bit k b = if test_bit k b then b else b + 2 ^ k

unfoldable pub set_at : ℕ → ℕ → Bytes → Bytes
set_at zero k [] = []
set_at (suc n) k [] = []
set_at zero k (b ∷ bs) = set_bit k b ∷ bs
set_at (suc n) k (b ∷ bs) = b ∷ set_at n k bs

unfoldable pub zero_bytes : ℕ → Bytes
zero_bytes zero = []
zero_bytes (suc n) = 0 ∷ zero_bytes n

-- `i` is the number of the document.
unfoldable pub set_bits : ℕ → List Bool → Bytes → Bytes
set_bits i [] bs = bs
set_bits i (bit ∷ rest) bs = set_bits (suc i) rest (if bit then set_at (i / 8) (i % 8) bs else bs)

unfoldable pub encode_boolean : List IndexDocument → Text → Bytes
encode_boolean documents name =
    set_bits 0 (map (bool_of name) documents) (zero_bytes ((length documents + 7) / 8))

-- The type of a column and its bytes; an object has none.
unfoldable pub encode_field :
    (Number → ℕ) → List IndexDocument → Text → FieldType → Result (Option (DocValueType × Bytes))
encode_field f64_of documents name FieldType.object = ok none
encode_field f64_of documents name FieldType.keyword =
    encode_keywords documents name >>= λ bs. ok (some (keyword, bs))
encode_field f64_of documents name FieldType.boolean =
    ok (some (boolean, encode_boolean documents name))
encode_field f64_of documents name FieldType.integer =
    ok (some (integer, encode_i64 documents name))
encode_field f64_of documents name FieldType.long = ok (some (long, encode_i64 documents name))
encode_field f64_of documents name FieldType.double =
    ok (some (double, encode_f64 f64_of documents name))
encode_field f64_of documents name FieldType.timestamp =
    ok (some (timestamp, encode_i64 documents name))

-- The columns of the mapped fields, added to those before.
unfoldable pub build_fields :
    (Number → ℕ)
    → List IndexDocument
    → BTreeMap Text FieldType
    → DocValuesReader
    → Result DocValuesReader
build_fields f64_of documents [] built = ok built
build_fields f64_of documents ((name, type) ∷ mappings) built =
    encode_field f64_of documents name type >>= λ column.
    build_fields f64_of documents mappings (elim column [
      | none ↦ built
      | some (t, bs) ↦
          insert name
            (record { name = name; value_type = t; doc_count = length documents; value_bytes = bs })
            built
    ])

unfoldable pub build_from_documents :
    (Number → ℕ) → List IndexDocument → BTreeMap Text FieldType → Result DocValuesReader
build_from_documents f64_of documents mappings = build_fields f64_of documents mappings []

-- A column of the type that the test asks for.
unfoldable pub column : (DocValueType → Bool) → Text → DocValuesReader → Option DocValuesField
column test name fields = elim (get name fields) [
  | none ↦ none
  | some f ↦ if test f.value_type then some f else none
]

abbrev pub is_keyword : DocValueType → Bool
is_keyword keyword = true
is_keyword boolean = false
is_keyword _ = false

abbrev pub is_boolean : DocValueType → Bool
is_boolean boolean = true
is_boolean keyword = false
is_boolean _ = false

abbrev pub is_double : DocValueType → Bool
is_double double = true
is_double keyword = false
is_double _ = false

abbrev pub is_i64 : DocValueType → Bool
is_i64 integer = true
is_i64 long = true
is_i64 timestamp = true
is_i64 _ = false

-- `n` numbers of eight bytes.
unfoldable pub unpack_numbers : ℕ → Bytes → List ℕ
unpack_numbers zero bs = []
unpack_numbers (suc n) bs = from_le (take 8 bs) ∷ unpack_numbers n (drop 8 bs)

-- The product of the lengths is checked to fit 64 bits.
unfoldable pub number_values : DocValuesField → Option (List ℕ)
number_values f =
    if ltb f.doc_count (2 ^ 61) && (length f.value_bytes == f.doc_count * 8)
    then some (unpack_numbers f.doc_count f.value_bytes)
    else none

unfoldable pub i64_values : Text → DocValuesReader → Option (List ℕ)
i64_values name fields = elim (column is_i64 name fields) [ none ↦ none | some f ↦ number_values f ]

unfoldable pub f64_values : Text → DocValuesReader → Option (List ℕ)
f64_values name fields = elim (column is_double name fields) [
  | none ↦ none
  | some f ↦ number_values f
]

unfoldable pub test_bits : ℕ → ℕ → Bytes → List Bool
test_bits i zero bs = []
test_bits i (suc n) bs = elim (get_elem? bs (i / 8)) [
  | none ↦ []
  | some b ↦ test_bit (i % 8) b ∷ test_bits (suc i) n bs
]

unfoldable pub bool_values : Text → DocValuesReader → Option (List Bool)
bool_values name fields = elim (column is_boolean name fields) [
  | none ↦ none
  | some f ↦
      if ltb (length f.value_bytes) ((f.doc_count + 7) / 8)
      then none
      else some (test_bits 0 f.doc_count f.value_bytes)
]

-- `&pool[offset..end]` as a text: it panics where the end is before the offset.
unfoldable pub pool_text : Bytes → ℕ → ℕ → Result (Option Text)
pool_text pool offset end =
    if ltb (length pool) offset
    then ok none
    else if ltb (length pool) end
    then ok none
    else if ltb end offset
    then panic
    else if is_utf8 (slice offset (end - offset) pool)
    then ok (some (slice offset (end - offset) pool))
    else ok (some [])

-- `offset` is the one at the front of `n` more; the last text ends with the pool.
unfoldable pub read_keywords : ℕ → ℕ → Bytes → Bytes → Result (Option (List Text))
read_keywords zero offset table pool = pool_text pool offset (length pool) >>= λ text.
    ok (elim text [ none ↦ none | some s ↦ some (s ∷ []) ])
read_keywords (suc n) offset table pool =
    let end = from_le (take 4 table) in
    pool_text pool offset end >>= λ text. elim text [
      | none ↦ ok none
      | some s ↦ read_keywords n end (drop 4 table) pool >>= λ rest.
          ok (elim rest [ none ↦ none | some ss ↦ some (s ∷ ss) ])
    ]

unfoldable pub keyword_values : ℕ → Bytes → Result (Option (List Text))
keyword_values zero bs = ok (some [])
keyword_values (suc n) bs =
    if ltb (length bs) (suc n * 4)
    then ok none
    else read_keywords n (from_le (take 4 bs)) (drop 4 bs) (drop (suc n * 4) bs)

unfoldable pub keywords : Text → DocValuesReader → Result (Option (List Text))
keywords name fields = elim (column is_keyword name fields) [
  | none ↦ ok none
  | some f ↦ keyword_values f.doc_count f.value_bytes
]
