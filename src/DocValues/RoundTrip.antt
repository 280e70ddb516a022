-- ===== src/DocValues/RoundTrip.antt =====
-- crates/cloudsearch-index/src/doc_values.rs and doc_values_reader.rs: a column of numbers reads back
-- as what the documents have.
use cloud_search.Prelude.{
  ℕ, ◌*◌, ◌^◌, ◌<◌, ◌≡◌, refl, ◌∙◌, inl, inr, true, Option, none, some, List, [], ◌∷◌, map, length,
  arith, All, Option-cases, length-append, length-map, lt→ltb, ==_iff,
}
use cloud_search.Prelude.Order.{text_ord}
use cloud_search.BTreeMap.{BTreeMap, get, insert}
use cloud_search.BTreeMap.Lookup.{get-insert, get-cases, update_self, update_ne}
use cloud_search.BTreeMap.Sorted.{IsSorted, get-Above}
use cloud_search.Bytes.{Bytes, Text, to_le}
use cloud_search.Bytes.RoundTrip.{length-to_le, take_u64, drop-to_le}
use cloud_search.Json.{Value, Number, number, pos_int, neg_int, float, get_value, as_i64, null}
use cloud_search.Common.{ok, IndexDocument, FieldType}
use cloud_search.Index.Runs.{Result-cases}
use cloud_search.DocValues.{
  DocValueType, DocValuesField, DocValuesReader, pack_numbers, unpack_numbers, number_values,
  i64_of, encode_i64, encode_field, build_fields, build_from_documents, column, is_i64, i64_values,
}

length-pack : (ns : List ℕ) → length (pack_numbers ns) ≡ length ns * 8
unfolding pack_numbers
length-pack [] = refl
length-pack (n ∷ ns) =
    omega (arith, length-pack ns, length-to_le 8 n, length-append {0} (to_le 8 n) (pack_numbers ns))

unpack-pack :
    (ns : List ℕ) → All (λ n. n < 2 ^ 64) ns → unpack_numbers (length ns) (pack_numbers ns) ≡ ns
unfolding pack_numbers unpack_numbers
unpack-pack [] a = refl
unpack-pack (n ∷ ns) a =
    rw (take_u64 n (pack_numbers ns) a.0, drop-to_le 8 n (pack_numbers ns), unpack-pack ns a.1) refl

as_i64-lt : (n : Number) (i : ℕ) → as_i64 n ≡ some i → i < 2 ^ 64
unfolding as_i64
as_i64-lt (pos_int n) i h = ground arith
as_i64-lt (neg_int n) i h = ground arith
as_i64-lt (float x) i h = cc

number-lt : (n : Number) → elim (as_i64 n) as (λ o. ℕ) [ some i ↦ i | none ↦ 0 ] < 2 ^ 64
number-lt n = elim (Option-cases (as_i64 n)) [
  | inl e ↦ rw e (omega arith)
  | inr (i, e) ↦ rw e (as_i64-lt n i e)
]

abbrev i64_of_value : Option Value → ℕ
i64_of_value o = elim o [ some (number n) ↦ elim (as_i64 n) [ some i ↦ i | none ↦ 0 ] | _ ↦ 0 ]

value-lt : (o : Option Value) → i64_of_value o < 2 ^ 64
value-lt none = omega arith
value-lt (some null) = omega arith
value-lt (some (number n)) = number-lt n
value-lt (some (Value.bool b)) = omega arith
value-lt (some (Value.string s)) = omega arith
value-lt (some (Value.array xs)) = omega arith
value-lt (some (Value.object fs)) = omega arith

i64_of-lt : (name : Text) (ds : List IndexDocument) → All (λ n. n < 2 ^ 64) (map (i64_of name) ds)
unfolding i64_of
i64_of-lt name [] = tt
i64_of-lt name (d ∷ ds) = (value-lt (get_value name d.source), i64_of-lt name ds)

-- The column of a field, as it is written.
abbrev made : Text → DocValueType → List IndexDocument → Bytes → DocValuesField
made name t ds bs = record { name = name; value_type = t; doc_count = length ds; value_bytes = bs }

number_values-made :
    (name : Text) (t : DocValueType) (ds : List IndexDocument)
    → length ds < 2 ^ 61
    → number_values (made name t ds (encode_i64 ds name)) ≡ some (map (i64_of name) ds)
unfolding number_values encode_i64
number_values-made name t ds h =
    let ns = map (i64_of name) ds in
    let few = lt→ltb (length ds) (2 ^ 61) h in
    let size : length (pack_numbers ns) ≡ length ds * 8 =
      length-pack ns ∙ (rw (length-map ds (i64_of name)) refl) in
    let fits = (==_iff (length (pack_numbers ns)) (length ds * 8)).1 size in
    let back : unpack_numbers (length ds) (pack_numbers ns) ≡ ns =
      rw (length-map ds (i64_of name)) at (unpack-pack ns (i64_of-lt name ds)) in
    rw (few, fits, back) refl

module _ (f64_of : Number → ℕ) (ds : List IndexDocument) (name : Text) where
  -- A field that is not mapped keeps the column it had.
  build_fields-unmapped :
      (ms : BTreeMap Text FieldType) (built out : DocValuesReader)
      → get name ms ≡ none
      → build_fields f64_of ds ms built ≡ ok out
      → get name out ≡ get name built
  unfolding build_fields get
  build_fields-unmapped [] built out g h = let same : built ≡ out = cc in rw same refl
  build_fields-unmapped ((n, t) ∷ ms) built out g h = elim (get-cases name n t ms) [
    | inl (same, found) ↦ cc
    | inr (differs, found) ↦ elim (Result-cases (encode_field f64_of ds n t)) [
      | inr (inl (x, e)) ↦ cc (rw (build_fields, e) at h)
      | inr (inr e) ↦ cc (rw (build_fields, e) at h)
      | inl (none, e) ↦ build_fields-unmapped ms built out (cc) (rw (build_fields, e) at h)
      | inl (some (vt, bs), e) ↦
          build_fields-unmapped ms (insert n (made n vt ds bs) built) out (cc)
            (rw (build_fields, e) at h)
          ∙ get-insert n (made n vt ds bs) built name
          ∙ update_ne n _ _ name differs
    ]
  ]

  build_fields-mapped :
      (ms : BTreeMap Text FieldType) (built out : DocValuesReader) (t : FieldType)
      (vt : DocValueType) (bs : Bytes)
      → IsSorted ms
      → get name ms ≡ some t
      → encode_field f64_of ds name t ≡ ok (some (vt, bs))
      → build_fields f64_of ds ms built ≡ ok out
      → get name out ≡ some (made name vt ds bs)
  unfolding build_fields get
  build_fields-mapped [] built out t vt bs s g c h = cc
  build_fields-mapped ((n, u) ∷ ms) built out t vt bs s g c h = elim (get-cases name n u ms) [
    | inl (same, found) ↦
        let at_name : u ≡ t = cc in
        let here : encode_field f64_of ds n u ≡ ok (some (vt, bs)) = rw (← same, at_name) c in
        build_fields-unmapped ms (insert n (made n vt ds bs) built) out
          (rw same (get-Above n ms s.0)) (rw (build_fields, here) at h)
        ∙ get-insert n (made n vt ds bs) built name
        ∙ (rw same (update_self n (some (made n vt ds bs)) _))
    | inr (differs, found) ↦ elim (Result-cases (encode_field f64_of ds n u)) [
      | inr (inl (x, e)) ↦ cc (rw (build_fields, e) at h)
      | inr (inr e) ↦ cc (rw (build_fields, e) at h)
      | inl (none, e) ↦
          build_fields-mapped ms built out t vt bs s.1 (cc) c (rw (build_fields, e) at h)
      | inl (some (wt, cs), e) ↦
          build_fields-mapped ms (insert n (made n wt ds cs) built) out t vt bs s.1 (cc) c
            (rw (build_fields, e) at h)
    ]
  ]

-- A field type whose columns hold an `i64` for each document.
pub data HoldsI64 : FieldType → Type 0 where
  integer_holds : HoldsI64 FieldType.integer
  long_holds : HoldsI64 FieldType.long
  timestamp_holds : HoldsI64 FieldType.timestamp

encode_field-i64 :
    (f64_of : Number → ℕ) (ds : List IndexDocument) (name : Text) (t : FieldType)
    → HoldsI64 t
    → (vt : DocValueType) × (encode_field f64_of ds name t ≡ ok (some (vt, encode_i64 ds name)))
      × (is_i64 vt ≡ true)
unfolding encode_field
encode_field-i64 f64_of ds name _ integer_holds = (_, refl, refl)
encode_field-i64 f64_of ds name _ long_holds = (_, refl, refl)
encode_field-i64 f64_of ds name _ timestamp_holds = (_, refl, refl)

-- The column of an integer, long or timestamp field reads back as the number that each document has
-- in it, or 0, in the order of the documents, if the mappings are sorted and there are fewer than
-- 2 ^ 61 documents.
pub i64_values-build_from_documents :
    (f64_of : Number → ℕ) (ds : List IndexDocument) (mappings : BTreeMap Text FieldType)
    (name : Text) (t : FieldType) (built : DocValuesReader)
    → HoldsI64 t
    → IsSorted mappings
    → get name mappings ≡ some t
    → length ds < 2 ^ 61
    → build_from_documents f64_of ds mappings ≡ ok built
    → i64_values name built ≡ some (map (i64_of name) ds)
unfolding build_from_documents i64_values column
i64_values-build_from_documents f64_of ds mappings name t built k s g few h =
    let (vt, written, right) = encode_field-i64 f64_of ds name t k in
    let found =
      build_fields-mapped f64_of ds name mappings [] built t vt (encode_i64 ds name) s g written
        h in
    rw (i64_values, column, found, right) (number_values-made name vt ds few)
