-- ===== src/Suggest/Examples.antt =====
-- Runs of the suggest index, and the theorems at a concrete index.
use cloud_search.Prelude.{◌≡◌, refl, List, [], ◌∷◌, arith, All}
use cloud_search.Prelude.Order.{text_ord}
use cloud_search.BTreeMap.{get}
use cloud_search.Bytes.{Bytes, Text, is_utf8}
use cloud_search.Common.{ok}
use cloud_search.Suggest.{
  SuggestEntry, SuggestIndex, starts_with, text_lt, to_bytes, from_bytes, suggest_for_field,
}
use cloud_search.Suggest.Prefixes.{IsOrdered, with_prefix}
use cloud_search.Suggest.Search.{suggest_for_field-with_prefix}
use cloud_search.Suggest.RoundTrip.{FitsText, FitsEntry, FitsIndex, from_bytes-to_bytes}

abbrev entry : Text → SuggestEntry
entry t = record { term = t; doc_freq = 2; score = 0x3F000000 }

-- The terms "a", "ab", "abc" and "b" of the field "f".
abbrev terms : List SuggestEntry
terms =
    entry (b'a' ∷ [])
    ∷ entry (b'a' ∷ b'b' ∷ [])
    ∷ entry (b'a' ∷ b'b' ∷ b'c' ∷ [])
    ∷ entry (b'b' ∷ [])
    ∷ []

abbrev index : SuggestIndex
index = (b'f' ∷ [], terms) ∷ []

terms-IsOrdered : IsOrdered terms
unfolding text_lt
terms-IsOrdered = ((refl, (refl, (refl, tt))), ((refl, (refl, tt)), ((refl, tt), (tt, tt))))

entry-FitsEntry : (t : Text) → FitsText t → FitsEntry (entry t)
entry-FitsEntry t h = record { text = h; freq_fits = omega arith; score_fits = omega arith }

terms-FitsEntry : All FitsEntry terms
unfolding is_utf8
terms-FitsEntry = (
  entry-FitsEntry _ (refl, omega arith),
  (
    entry-FitsEntry _ (refl, omega arith),
    (entry-FitsEntry _ (refl, omega arith), (entry-FitsEntry _ (refl, omega arith), tt)),
  ),
)

index-FitsIndex : FitsIndex index
unfolding is_utf8
index-FitsIndex = record {
  names = ((refl, omega arith), tt);
  lists = ((terms-FitsEntry, omega arith), tt);
  few = omega arith;
}

suggest_for_field-with_prefix_example :
    suggest_for_field (b'f' ∷ []) (b'a' ∷ b'b' ∷ []) index
    ≡ ok (with_prefix (b'a' ∷ b'b' ∷ []) terms)
suggest_for_field-with_prefix_example =
    suggest_for_field-with_prefix (b'f' ∷ []) b'a' (b'b' ∷ []) index terms (unfold get in refl)
      terms-IsOrdered

two_with_prefix :
    with_prefix (b'a' ∷ b'b' ∷ []) terms
    ≡ entry (b'a' ∷ b'b' ∷ []) ∷ entry (b'a' ∷ b'b' ∷ b'c' ∷ []) ∷ []
unfolding with_prefix starts_with
two_with_prefix = refl

from_bytes-to_bytes_example : (bs : Bytes) × (to_bytes index ≡ ok bs) × (from_bytes bs ≡ ok index)
from_bytes-to_bytes_example = from_bytes-to_bytes index index-FitsIndex (tt, tt)
