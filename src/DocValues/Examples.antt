-- ===== src/DocValues/Examples.antt =====
-- A column at a concrete document.
use cloud_search.Prelude.{◌≡◌, refl, some, [], ◌∷◌, map, arith}
use cloud_search.Prelude.Order.{text_ord}
use cloud_search.BTreeMap.{get, insert}
use cloud_search.Bytes.{to_le, Text}
use cloud_search.Json.{number, pos_int, as_i64, object, field, end}
use cloud_search.Common.{ok, IndexDocument, FieldType}
use cloud_search.DocValues.{
  build_fields, encode_field, encode_i64, pack_numbers, DocValuesReader, build_from_documents,
  i64_values, i64_of, long,
}
use cloud_search.DocValues.RoundTrip.{long_holds, i64_values-build_from_documents}

abbrev age : Text
age = b'a' ∷ []

abbrev document : IndexDocument
document = record { id = b'd' ∷ []; source = object (field age (number (pos_int 3)) end) }

-- The bytes of 3.
abbrev built : DocValuesReader
built =
    (
      age,
      record {
        name = age;
        value_type = long;
        doc_count = 1;
        value_bytes = 3 ∷ 0 ∷ 0 ∷ 0 ∷ 0 ∷ 0 ∷ 0 ∷ 0 ∷ [];
      },
    )
    ∷ []

column_built : build_from_documents (λ n. 0) (document ∷ []) ((age, FieldType.long) ∷ []) ≡ ok built
unfolding build_from_documents build_fields encode_field encode_i64 pack_numbers i64_of as_i64
    insert to_le
column_built = refl

i64_values-build_from_documents_example :
    i64_values age built ≡ some (map (i64_of age) (document ∷ []))
i64_values-build_from_documents_example =
    i64_values-build_from_documents (λ n. 0) (document ∷ []) ((age, FieldType.long) ∷ []) age
      FieldType.long built long_holds (tt, tt) (unfold get in refl) (omega arith) column_built
