-- ===== src/Wal/Toy.antt =====
-- A small codec for examples: documents without fields, deletions and mapping updates.
use cloud_search.Prelude.{
  ℕ, ◌%◌, ◌^◌, ◌<◌, ◌≡◌, refl, Option, none, some, [], ◌∷◌, arith, length, ◌==◌, if◌then◌else◌,
}
use cloud_search.Bytes.{Bytes, Text}
use cloud_search.Json.{Value, null, bool, number, string, array, object, end, field}
use cloud_search.Wal.Records.{WalRecord, Codec, index_document, delete_document, mapping_update}

abbrev pub toy_document : Value → Text → Option Bytes
toy_document (object end) id = some (2 ∷ id)
toy_document null id = none
toy_document _ id = none

abbrev pub toy_to_vec : WalRecord → Option Bytes
toy_to_vec (index_document d) = toy_document d.source d.id
toy_to_vec (delete_document id) = some (0 ∷ id)
toy_to_vec (mapping_update v r) = some (1 ∷ v ∷ r)

abbrev pub toy_mapping : Bytes → Option WalRecord
toy_mapping [] = none
toy_mapping (v ∷ r) = some (mapping_update v r)

abbrev pub toy_from_slice : Bytes → Option WalRecord
toy_from_slice [] = none
toy_from_slice (b ∷ t) =
    if b == 0
    then some (delete_document t)
    else if b == 1
    then toy_mapping t
    else some (index_document (record { id = t; source = object end }))

toy_document_round :
    (v : Value) (id : Text) (p : Bytes)
    → toy_document v id ≡ some p
    → toy_from_slice p ≡ some (index_document (record { id = id; source = v }))
toy_document_round null id p h = cc
toy_document_round (bool b) id p h = cc
toy_document_round (number n) id p h = cc
toy_document_round (string t) id p h = cc
toy_document_round (array xs) id p h = cc
toy_document_round (object end) id p h = let same : 2 ∷ id ≡ p = cc in rw (← same) refl
toy_document_round (object (field k v fs)) id p h = cc

pub toy_round : (r : WalRecord) (p : Bytes) → toy_to_vec r ≡ some p → toy_from_slice p ≡ some r
toy_round (index_document d) p h = toy_document_round d.source d.id p h
toy_round (delete_document id) p h = ground arith
toy_round (mapping_update v r) p h = ground arith

unfoldable pub toy_crc : Bytes → ℕ
toy_crc p = length p % 2 ^ 32

pub toy_crc-lt : (p : Bytes) → toy_crc p < 2 ^ 32
unfolding toy_crc
toy_crc-lt p = omega arith

abbrev pub toy : Codec
toy = record {
  to_vec = toy_to_vec;
  from_slice = toy_from_slice;
  crc32c = toy_crc;
  from_slice-to_vec = toy_round;
  crc32c-lt = toy_crc-lt;
}
