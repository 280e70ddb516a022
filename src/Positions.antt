-- ===== src/Positions.antt =====
-- crates/cloudsearch-storage/src/inverted_index.rs and positions_writer.rs: the postings of a
-- segment, the file positions.bin that the writer builds, and the reader of that file.
pub mod Layout
pub mod Dictionary
pub mod RoundTrip
mod Examples
use cloud_search.Prelude.{
  ℕ, zero, suc, ◌+◌, ◌-◌, ◌*◌, ◌^◌, ◌%◌, Bool, true, false, not, ◌&&◌, Option, none, some, List, [],
  ◌∷◌, ◌++◌, length, take, drop, ltb, leb, ◌==◌, if◌then◌else◌,
}
use cloud_search.Prelude.Order.{text_ord}
use cloud_search.BTreeMap.{BTreeMap, get, insert, upsert}
use cloud_search.Bytes.{Bytes, Text, to_le, from_le, slice, is_utf8}
use cloud_search.Common.{Result, ok, panic, ◌>>=◌}

pub record Posting : Type 0 where
  pub doc_id : ℕ
  pub positions : List ℕ
  pub term_freq : ℕ

-- `PostingList`, which holds nothing but `docs`.
abbrev pub PostingList : Type 0
PostingList = List Posting

-- `InvertedIndex` and `PositionsWriter` hold nothing but `terms`.
abbrev pub InvertedIndex : Type 0
InvertedIndex = BTreeMap Text PostingList

abbrev pub u32_max : ℕ
u32_max = 2 ^ 32 - 1

-- `positions.len() as u32` cuts off what does not fit.
unfoldable pub posting : ℕ → List ℕ → Posting
posting doc_id positions = record {
  doc_id = doc_id;
  positions = positions;
  term_freq = length positions % 2 ^ 32;
}

unfoldable pub insert_posting : Text → ℕ → List ℕ → InvertedIndex → InvertedIndex
insert_posting term doc_id positions index =
    upsert term [] (λ docs. docs ++ posting doc_id positions ∷ []) index

unfoldable pub total_postings : InvertedIndex → ℕ
total_postings [] = 0
total_postings ((t, docs) ∷ m) = length docs + total_postings m

unfoldable pub add_document : ℕ → BTreeMap Text (List ℕ) → InvertedIndex → InvertedIndex
add_document doc_id [] index = index
add_document doc_id ((t, ps) ∷ m) index = add_document doc_id m (insert_posting t doc_id ps index)

-- `write_positions` fills a writer with the postings of an index, one by one.
unfoldable pub push_postings : Text → PostingList → InvertedIndex → InvertedIndex
push_postings term [] writer = writer
push_postings term (p ∷ ps) writer =
    push_postings term ps (upsert term [] (λ docs. docs ++ p ∷ []) writer)

unfoldable pub copy_index : InvertedIndex → InvertedIndex → InvertedIndex
copy_index [] writer = writer
copy_index ((t, ps) ∷ m) writer = copy_index m (push_postings t ps writer)

abbrev pub magic : ℕ
magic = 0x504F5349

unfoldable pub write_u32s : List ℕ → Bytes
write_u32s [] = []
write_u32s (p ∷ ps) = to_le 4 p ++ write_u32s ps

unfoldable pub write_docs : PostingList → Result Bytes
write_docs [] = ok []
write_docs (p ∷ ps) = do
  rest ← write_docs ps
  if ltb u32_max (length p.positions)
      then panic
      else ok (
          to_le 8 p.doc_id
          ++ (to_le 4 p.term_freq
              ++ (to_le 4 (length p.positions) ++ (write_u32s p.positions ++ rest))))

unfoldable pub write_list : PostingList → Result Bytes
write_list docs =
    if ltb u32_max (length docs)
    then panic
    else do body ← write_docs docs; ok (to_le 4 (length docs) ++ body)

-- The pass that collects the offsets and the body.
unfoldable pub body_loop :
    InvertedIndex → List (Text × ℕ) → Bytes → Result (List (Text × ℕ) × Bytes)
body_loop [] offsets body = ok (offsets, body)
body_loop ((t, docs) ∷ m) offsets body = do
  bs ← write_list docs
  body_loop m (offsets ++ (t, length body) ∷ []) (body ++ bs)

unfoldable pub dictionary_loop : List (Text × ℕ) → Result Bytes
dictionary_loop [] = ok []
dictionary_loop ((t, offset) ∷ m) = do
  rest ← dictionary_loop m
  if ltb u32_max (length t)
      then panic
      else ok (to_le 4 (length t) ++ (t ++ (to_le 8 offset ++ rest)))

unfoldable pub build : InvertedIndex → Result Bytes
build terms = if ltb u32_max (length terms) then panic else do
  (offsets, body) ← body_loop terms [] []
  dictionary ← dictionary_loop offsets
  ok (to_le 4 magic ++ (1 ∷ 0 ∷ 0 ∷ 0 ∷ (to_le 4 (length terms) ++ (dictionary ++ body))))

pub record PositionsReader : Type 0 where
  pub term_dict : BTreeMap Text ℕ
  pub body_data : Bytes

pub data ReadError : Type 0 where
  too_short invalid_magic unsupported_version truncated_dictionary : ReadError
  truncated_string invalid_utf8 truncated_entry : ReadError

pub data Parsed {ℓ} (A : Type ℓ) : Type ℓ where
  parsed : A → Parsed A
  failed : ReadError → Parsed A

-- `rest` is `data[pos..]`.
unfoldable pub read_terms : ℕ → Bytes → BTreeMap Text ℕ → Parsed PositionsReader
read_terms zero rest dict = parsed (record { term_dict = dict; body_data = rest })
read_terms (suc n) rest dict =
    let str_len = from_le (take 4 rest) in
    let behind_len = drop 4 rest in
    let term = take str_len behind_len in
    let behind_term = drop str_len behind_len in
    let more =
      read_terms n (drop 8 behind_term) (insert term (from_le (take 8 behind_term)) dict) in
    if ltb (length rest) 4
    then failed truncated_dictionary
    else if ltb (length behind_len) str_len
    then failed truncated_string
    else if not (is_utf8 term)
    then failed invalid_utf8
    else if ltb (length behind_term) 8
    then failed truncated_entry
    else more

unfoldable pub from_bytes : Bytes → Parsed PositionsReader
from_bytes bs =
    if ltb (length bs) 12
    then failed too_short
    else if not (from_le (slice 0 4 bs) == magic)
    then failed invalid_magic
    else if not (from_le (slice 4 1 bs) == 1)
    then failed unsupported_version
    else read_terms (from_le (slice 8 4 bs)) (drop 12 bs) []

unfoldable pub read_u32s : ℕ → Bytes → List ℕ
read_u32s zero bs = []
read_u32s (suc n) bs = from_le (take 4 bs) ∷ read_u32s n (drop 4 bs)

unfoldable pub read_docs : ℕ → Bytes → Option PostingList
read_docs zero rest = some []
read_docs (suc n) rest =
    let pos_count = from_le (slice 12 4 rest) in
    let behind = drop 16 rest in
    let more = read_docs n (drop (pos_count * 4) behind) in
    if ltb (length rest) 8
    then none
    else if ltb (length (drop 8 rest)) 4
    then none
    else if ltb (length (drop 12 rest)) 4
    then none
    else if ltb (length behind) (pos_count * 4)
    then none
    else elim more [
      | none ↦ none
      | some docs ↦ some (
          record {
            doc_id = from_le (slice 0 8 rest);
            positions = read_u32s pos_count behind;
            term_freq = from_le (slice 8 4 rest);
          }
          ∷ docs)
    ]

unfoldable pub read_postings_at : ℕ → PositionsReader → Option PostingList
read_postings_at offset r =
    let remaining = drop offset r.body_data in
    if leb (length r.body_data) offset
    then none
    else if ltb (length remaining) 4
    then none
    else read_docs (from_le (take 4 remaining)) (drop 4 remaining)

unfoldable pub get_postings : Text → PositionsReader → Option PostingList
get_postings term r = elim (get term r.term_dict) [ none ↦ none | some o ↦ read_postings_at o r ]
