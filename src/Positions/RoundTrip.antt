-- ===== src/Positions/RoundTrip.antt =====
-- The reader of positions.bin returns the postings that the writer was given.
use cloud_search.Prelude.{
  ℕ, ◌+◌, ◌^◌, ◌<◌, ◌≤◌, ◌≡◌, refl, ap, ◌∙◌, false, none, some, [], ◌∷◌, ◌++◌, append_assoc, arith,
  length, drop, length-append, length-drop, Option-cases, inl, inr, drop_front, All, ltb,
}
use cloud_search.Prelude.Order.{text_ord}
use cloud_search.BTreeMap.{BTreeMap, get}
use cloud_search.BTreeMap.Lookup.{get-cases, get-cons_self, get-cons_ne}
use cloud_search.BTreeMap.Sorted.{IsSorted}
use cloud_search.Bytes.{Bytes, Text, to_le, from_le, slice}
use cloud_search.Bytes.RoundTrip.{from_le_u32, length-to_le, take_u32, drop-to_le}
use cloud_search.Common.{ok}
use cloud_search.Positions.{
  PostingList, InvertedIndex, PositionsReader, u32_max, magic, build, parsed, read_terms,
  from_bytes, read_postings_at, get_postings,
}
use cloud_search.Positions.Layout.{FitsList, docs_bytes, list_bytes, read_docs-docs_bytes}
use cloud_search.Positions.Dictionary.{
  FitsIndex, body_bytes, body_loop-eq, dictionary_bytes, dictionary_loop-eq, length-offsets,
  offsets, offsets-IsEntry, offsets-IsSorted, read_terms-dictionary,
}

-- The reader that the bytes of an index give.
unfoldable pub reader : InvertedIndex → PositionsReader
reader m = record { term_dict = offsets 0 m; body_data = body_bytes m }

unfoldable pub file_bytes : InvertedIndex → Bytes
unfolding dictionary_bytes
file_bytes m =
    to_le 4 magic
    ++ (1 ∷ 0 ∷ 0 ∷ 0 ∷ (to_le 4 (length m) ++ (dictionary_bytes (offsets 0 m) ++ body_bytes m)))

pub build-file_bytes : (m : InvertedIndex) → FitsIndex m → build m ≡ ok (file_bytes m)
unfolding build file_bytes
build-file_bytes m h =
    let room : ltb u32_max (length m) ≡ false = (let fits = h.few in ground arith) in
    rw (
      room,
      body_loop-eq m [] [] h.lists,
      dictionary_loop-eq (offsets 0 m)
          (offsets-IsEntry 0 (length (body_bytes m)) m h.texts (omega arith) h.small),
    )

from_bytes_header :
    (bs rest : Bytes) (n : ℕ)
    → 12 ≤ length bs
    → from_le (slice 0 4 bs) ≡ magic
    → from_le (slice 4 1 bs) ≡ 1
    → from_le (slice 8 4 bs) ≡ n
    → drop 12 bs ≡ rest
    → from_bytes bs ≡ read_terms n rest []
unfolding from_bytes
from_bytes_header bs rest n l g v c d = rw (g, v, c, d) (ground arith)

header_count :
    (n : ℕ) (rest : Bytes)
    → n < 2 ^ 32
    → from_le (slice 8 4 (to_le 4 magic ++ (1 ∷ 0 ∷ 0 ∷ 0 ∷ (to_le 4 n ++ rest)))) ≡ n
unfolding to_le
header_count n rest h = from_le_u32 n h

header_magic :
    (n : ℕ) (rest : Bytes)
    → (from_le (slice 0 4 (to_le 4 magic ++ (1 ∷ 0 ∷ 0 ∷ 0 ∷ (to_le 4 n ++ rest)))) ≡ magic)
      × (from_le (slice 4 1 (to_le 4 magic ++ (1 ∷ 0 ∷ 0 ∷ 0 ∷ (to_le 4 n ++ rest)))) ≡ 1)
      × (drop 12 (to_le 4 magic ++ (1 ∷ 0 ∷ 0 ∷ 0 ∷ (to_le 4 n ++ rest))) ≡ rest)
      × (12 ≤ length (to_le 4 magic ++ (1 ∷ 0 ∷ 0 ∷ 0 ∷ (to_le 4 n ++ rest))))
unfolding to_le from_le
header_magic n rest = (refl, refl, refl, omega arith)

pub from_bytes-file_bytes :
    (m : InvertedIndex) → FitsIndex m → IsSorted m → from_bytes (file_bytes m) ≡ parsed (reader m)
unfolding file_bytes reader
from_bytes-file_bytes m h s =
    let rest = dictionary_bytes (offsets 0 m) ++ body_bytes m in
    let (g, v, d, l) = header_magic (length m) rest in
    from_bytes_header _ rest (length m) l g v (header_count (length m) rest h.few) d
    ∙ rw (length-offsets 0 m) at (
        read_terms-dictionary (offsets 0 m) [] (body_bytes m)
          (offsets-IsEntry 0 (length (body_bytes m)) m h.texts (omega arith) h.small)
          (offsets-IsSorted 0 m s))

list_at :
    (docs : PostingList) (rest : Bytes) (offset : ℕ) (dict : BTreeMap Text ℕ) (body : Bytes)
    → drop offset body ≡ list_bytes docs ++ rest
    → FitsList docs
    → read_postings_at offset (record { term_dict = dict; body_data = body }) ≡ some docs
unfolding read_postings_at
list_at docs rest offset dict body d h =
    rw
      (
        there,
        take_u32 (length docs) more h.few,
        drop-to_le 4 (length docs) more,
        read_docs-docs_bytes docs rest h.each,
      )
      (ground (arith, size, length-drop offset body, ap length there))
  where
    more : Bytes
    more = docs_bytes docs ++ rest

    there : drop offset body ≡ to_le 4 (length docs) ++ more
    there = d ∙ (unfold list_bytes in append_assoc (to_le 4 (length docs)) (docs_bytes docs) rest)

    size : length (to_le 4 (length docs) ++ more) ≡ 4 + length more
    size = omega (arith, length-append (to_le 4 (length docs)) more, length-to_le 4 (length docs))

lookup_from :
    (t : Text) (docs : PostingList) (n : ℕ) (front : Bytes) (m : InvertedIndex)
    → All (λ f. FitsList f.1) m
    → length front ≡ n
    → get t m ≡ some docs
    → (o : ℕ) × (rest : Bytes) × (get t (offsets n m) ≡ some o)
      × (drop o (front ++ body_bytes m) ≡ list_bytes docs ++ rest)
      × FitsList docs
unfolding offsets body_bytes
lookup_from t docs n front [] h l e = unfold get in absurd (ground arith)
lookup_from t docs n front ((u, ps) ∷ m) h l e =
    let k = n + length (list_bytes ps) in
    elim (get-cases t u ps m) [
      | inl (same, read) ↦
          let e' : ps ≡ docs = cc in
          (
            n,
            body_bytes m,
            rw same (get-cons_self u n (offsets k m)),
            rw (← l, ← e') (drop_front front (list_bytes ps ++ body_bytes m)),
            rw e' at h.0,
          )
      | inr (other, read) ↦
          let (o, rest, found, there, fits) =
            lookup_from t docs k (front ++ list_bytes ps) m h.1
              (omega (arith, length-append front (list_bytes ps))) (cc) in
          (
            o,
            rest,
            rw (get-cons_ne t u n (offsets k m) other) found,
            rw append_assoc at there,
            fits,
          )
    ]

lookup_none : (t : Text) (n : ℕ) (m : InvertedIndex) → get t m ≡ none → get t (offsets n m) ≡ none
unfolding get offsets
lookup_none t n [] e = refl
lookup_none t n ((u, ps) ∷ m) e = ground (arith, lookup_none t (n + length (list_bytes ps)) m)

-- The reader of the file answers each term with the postings of the index.
pub get_postings-reader :
    (m : InvertedIndex) (t : Text) → FitsIndex m → get_postings t (reader m) ≡ get t m
unfolding get_postings reader
get_postings-reader m t h = elim (Option-cases (get t m)) [
  | inl e ↦ rw (lookup_none t 0 m e, e, get_postings)
  | inr (docs, e) ↦
      let (o, rest, found, there, fits) = lookup_from t docs 0 [] m h.lists refl e in
      rw (found, e, get_postings) (list_at docs rest o (offsets 0 m) (body_bytes m) there fits)
]

-- For an index that is sorted by term, with terms in UTF-8 and numbers that fit their fields,
-- `build` succeeds, `from_bytes` of its bytes succeeds, and the reader gives each term the
-- postings that the index has for it, and none to other terms.
pub from_bytes-build :
    (m : InvertedIndex)
    → FitsIndex m
    → IsSorted m
    → (bs : Bytes) × (r : PositionsReader) × (build m ≡ ok bs)
      × (from_bytes bs ≡ parsed r)
      × ((t : Text) → get_postings t r ≡ get t m)
from_bytes-build m h s = (
  file_bytes m,
  reader m,
  build-file_bytes m h,
  from_bytes-file_bytes m h s,
  λ t. get_postings-reader m t h,
)
