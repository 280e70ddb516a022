-- ===== src/Positions/Layout.antt =====
-- One posting list as bytes, and read back from the front of any bytes.
use cloud_search.Prelude.{
  ℕ, suc, ◌+◌, ◌*◌, ◌^◌, ◌<◌, ◌≤◌, ◌≡◌, refl, false, some, List, [], ◌∷◌, ◌++◌, append_assoc, arith,
  length, drop, length-append, drop_front, All, ltb,
}
use cloud_search.Bytes.{Bytes, to_le, from_le, slice}
use cloud_search.Bytes.RoundTrip.{from_le_u32, from_le_u64, length-to_le, take_u32, drop-to_le}
use cloud_search.Common.{ok}
use cloud_search.Positions.{
  Posting, PostingList, u32_max, write_u32s, write_docs, write_list, read_u32s, read_docs,
}

-- A posting whose numbers fit the format.
pub record FitsPosting (p : Posting) : Type 0 where
  pub doc_id_fits : p.doc_id < 2 ^ 64
  pub freq_fits : p.term_freq < 2 ^ 32
  pub count_fits : length p.positions < 2 ^ 32
  pub positions_fit : All (λ x. x < 2 ^ 32) p.positions

pub record FitsList (docs : PostingList) : Type 0 where
  pub each : All FitsPosting docs
  pub few : length docs < 2 ^ 32

unfoldable pub docs_bytes : PostingList → Bytes
docs_bytes [] = []
docs_bytes (p ∷ ps) =
    to_le 8 p.doc_id
    ++ (to_le 4 p.term_freq
        ++ (to_le 4 (length p.positions) ++ (write_u32s p.positions ++ docs_bytes ps)))

unfoldable pub list_bytes : PostingList → Bytes
list_bytes docs = to_le 4 (length docs) ++ docs_bytes docs

write_docs-docs_bytes :
    (docs : PostingList) → All FitsPosting docs → write_docs docs ≡ ok (docs_bytes docs)
unfolding write_docs docs_bytes
write_docs-docs_bytes [] h = refl
write_docs-docs_bytes (p ∷ ps) h =
    let room : ltb u32_max (length p.positions) ≡ false =
      (let fits = h.0.count_fits in ground arith) in
    rw (write_docs-docs_bytes ps h.1, room)

pub write_list-list_bytes :
    (docs : PostingList) → FitsList docs → write_list docs ≡ ok (list_bytes docs)
unfolding write_list list_bytes
write_list-list_bytes docs h =
    let room : ltb u32_max (length docs) ≡ false = (let fits = h.few in ground arith) in
    rw (write_docs-docs_bytes docs h.each, room)

length-write_u32s : (ps : List ℕ) → length (write_u32s ps) ≡ length ps * 4
unfolding write_u32s
length-write_u32s [] = refl
length-write_u32s (p ∷ ps) =
    rw length-append (omega (arith, length-to_le 4 p, length-write_u32s ps))

read_u32s-write_u32s :
    (ps : List ℕ) (rest : Bytes)
    → All (λ x. x < 2 ^ 32) ps
    → read_u32s (length ps) (write_u32s ps ++ rest) ≡ ps
unfolding read_u32s write_u32s
read_u32s-write_u32s [] rest h = refl
read_u32s-write_u32s (p ∷ ps) rest h = rw (
  append_assoc,
  take_u32 p (write_u32s ps ++ rest) h.0,
  drop-to_le 4 p (write_u32s ps ++ rest),
  read_u32s-write_u32s ps rest h.1,
)

-- What one round of `read_docs` sees of a posting at the front.
module _ (p : Posting) (rest : Bytes) where
  abbrev front : Bytes
  front = to_le 8 p.doc_id ++ (to_le 4 p.term_freq ++ (to_le 4 (length p.positions) ++ rest))

  front_doc_id : p.doc_id < 2 ^ 64 → from_le (slice 0 8 front) ≡ p.doc_id
  unfolding to_le
  front_doc_id h = from_le_u64 p.doc_id h

  front_freq : p.term_freq < 2 ^ 32 → from_le (slice 8 4 front) ≡ p.term_freq
  unfolding to_le
  front_freq h = from_le_u32 p.term_freq h

  front_count : length p.positions < 2 ^ 32 → from_le (slice 12 4 front) ≡ length p.positions
  unfolding to_le
  front_count h = from_le_u32 (length p.positions) h

  front_behind : drop 16 front ≡ rest
  unfolding to_le
  front_behind = refl

  front_lengths :
      (length front ≡ 16 + length rest)
      × (length (drop 8 front) ≡ 8 + length rest)
      × (length (drop 12 front) ≡ 4 + length rest)
  unfolding to_le
  front_lengths = omega arith

read_docs_round :
    (n : ℕ) (bs behind tail : Bytes) (doc_id freq count : ℕ) (ps : List ℕ) (docs : PostingList)
    → from_le (slice 0 8 bs) ≡ doc_id
    → from_le (slice 8 4 bs) ≡ freq
    → from_le (slice 12 4 bs) ≡ count
    → drop 16 bs ≡ behind
    → drop (count * 4) behind ≡ tail
    → read_u32s count behind ≡ ps
    → (length bs ≡ 16 + length behind)
      × (length (drop 8 bs) ≡ 8 + length behind)
      × (length (drop 12 bs) ≡ 4 + length behind)
    → count * 4 ≤ length behind
    → read_docs n tail ≡ some docs
    → read_docs (suc n) bs
      ≡ some (record { doc_id = doc_id; positions = ps; term_freq = freq } ∷ docs)
unfolding read_docs
read_docs_round n bs behind tail doc_id freq count ps docs d f c b t r l room more =
    rw (c, b, t, more, c, b, d, f, r) (ground arith)

pub read_docs-docs_bytes :
    (docs : PostingList) (rest : Bytes)
    → All FitsPosting docs
    → read_docs (length docs) (docs_bytes docs ++ rest) ≡ some docs
read_docs-docs_bytes [] rest h = unfold read_docs in refl
read_docs-docs_bytes (p ∷ ps) rest h = rw image (
    read_docs_round (length ps) (front p behind) behind (docs_bytes ps ++ rest) p.doc_id p.term_freq
      (length p.positions) p.positions ps (front_doc_id p behind h.0.doc_id_fits)
      (front_freq p behind h.0.freq_fits) (front_count p behind h.0.count_fits)
      (front_behind p behind) skip
      (read_u32s-write_u32s p.positions (docs_bytes ps ++ rest) h.0.positions_fit)
      (front_lengths p behind)
      (omega (
        arith,
        length-append (write_u32s p.positions) (docs_bytes ps ++ rest),
        length-write_u32s p.positions,
      ))
      (read_docs-docs_bytes ps rest h.1))
  where
    behind : Bytes
    behind = write_u32s p.positions ++ (docs_bytes ps ++ rest)

    image : docs_bytes (p ∷ ps) ++ rest ≡ front p behind
    image = unfold docs_bytes in simp append_assoc

    skip : drop (length p.positions * 4) behind ≡ docs_bytes ps ++ rest
    skip =
        rw (← length-write_u32s p.positions)
          (drop_front (write_u32s p.positions) (docs_bytes ps ++ rest))
