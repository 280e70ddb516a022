-- ===== src/Positions/Examples.antt =====
-- The theorems at a concrete index of two terms.
use cloud_search.Prelude.{◌^◌, ◌<◌, ◌≡◌, refl, [], ◌∷◌, arith, length}
use cloud_search.Prelude.Order.{text_ord}
use cloud_search.BTreeMap.{get}
use cloud_search.Bytes.{Bytes, Text, to_le, is_utf8}
use cloud_search.Common.{ok}
use cloud_search.Positions.{
  Posting, InvertedIndex, PositionsReader, write_u32s, build, parsed, from_bytes, get_postings,
}
use cloud_search.Positions.Layout.{FitsPosting, list_bytes, docs_bytes}
use cloud_search.Positions.Dictionary.{FitsIndex, body_bytes}
use cloud_search.Positions.RoundTrip.{from_bytes-build}

abbrev seven : Posting
seven = record { doc_id = 7; positions = 0 ∷ 4 ∷ []; term_freq = 2 }

abbrev index : InvertedIndex
index = (b'a' ∷ [], seven ∷ []) ∷ (b'b' ∷ [], []) ∷ []

abbrev seven-FitsPosting : FitsPosting seven
seven-FitsPosting = record {
  doc_id_fits = omega arith;
  freq_fits = omega arith;
  count_fits = omega arith;
  positions_fit = (omega arith, (omega arith, tt));
}

index_small : length (body_bytes index) < 2 ^ 64
unfolding body_bytes list_bytes docs_bytes write_u32s to_le
index_small = omega arith

index-FitsIndex : FitsIndex index
unfolding is_utf8
index-FitsIndex = record {
  lists = (
    record { each = (seven-FitsPosting, tt); few = omega arith },
    (record { each = tt; few = omega arith }, tt),
  );
  texts = ((refl, omega arith), ((refl, omega arith), tt));
  few = omega arith;
  small = index_small;
}

from_bytes-build_example :
    (bs : Bytes) × (r : PositionsReader) × (build index ≡ ok bs)
    × (from_bytes bs ≡ parsed r)
    × ((t : Text) → get_postings t r ≡ get t index)
from_bytes-build_example = from_bytes-build index index-FitsIndex ((refl, tt), (tt, tt))
