-- ===== src/Suggest/RoundTrip.antt =====
-- The reader of a suggest file returns the index that was written.
use cloud_search.Prelude.{
  ℕ, ◌^◌, ◌<◌, ◌≤◌, ◌≡◌, refl, ◌∙◌, true, List, [], ◌∷◌, ◌++◌, append-nil, append_assoc, arith,
  length, drop, length-append, take_front, drop_front, All,
}
use cloud_search.Prelude.Order.{text_ord}
use cloud_search.BTreeMap.Sorted.{IsSorted, insert_last}
use cloud_search.Bytes.{Bytes, Text, to_le, from_le, slice, is_utf8}
use cloud_search.Bytes.RoundTrip.{from_le_u32, length-to_le, take_u32, drop-to_le}
use cloud_search.Common.{ok}
use cloud_search.Suggest.{
  SuggestEntry, SuggestIndex, suggest_magic, suggest_version, write_len, write_entries,
  write_fields, to_bytes, read_u32, read_text, read_entries, read_fields, from_bytes,
}

abbrev pub FitsText : Text → Type 0
FitsText t = (is_utf8 t ≡ true) × (length t < 2 ^ 32)

pub record FitsEntry (e : SuggestEntry) : Type 0 where
  pub text : FitsText e.term
  pub freq_fits : e.doc_freq < 2 ^ 32
  pub score_fits : e.score < 2 ^ 32

-- The index can be written: its names are texts, and its numbers fit their fields.
pub record FitsIndex (m : SuggestIndex) : Type 0 where
  pub names : All (λ f. FitsText f.0) m
  pub lists : All (λ f. All FitsEntry f.1 × (length f.1 < 2 ^ 32)) m
  pub few : length m < 2 ^ 32

entries_bytes : List SuggestEntry → Bytes
entries_bytes [] = []
entries_bytes (e ∷ es) =
    to_le 4 (length e.term)
    ++ (e.term ++ (to_le 4 e.doc_freq ++ (to_le 4 e.score ++ entries_bytes es)))

fields_bytes : SuggestIndex → Bytes
fields_bytes [] = []
fields_bytes ((f, es) ∷ m) =
    to_le 4 (length f) ++ (f ++ (to_le 4 (length es) ++ (entries_bytes es ++ fields_bytes m)))

write_len-to_le : (n : ℕ) → n < 2 ^ 32 → write_len n ≡ ok (to_le 4 n)
unfolding write_len
write_len-to_le n h = ground arith

write_entries-eq :
    (es : List SuggestEntry) → All FitsEntry es → write_entries es ≡ ok (entries_bytes es)
unfolding write_entries entries_bytes
write_entries-eq [] h = refl
write_entries-eq (e ∷ es) h =
    rw (write_len-to_le (length e.term) h.0.text.1, write_entries-eq es h.1)

write_fields-eq :
    (m : SuggestIndex)
    → All (λ f. FitsText f.0) m
    → All (λ f. All FitsEntry f.1 × (length f.1 < 2 ^ 32)) m
    → write_fields m ≡ ok (fields_bytes m)
unfolding write_fields fields_bytes
write_fields-eq [] h k = refl
write_fields-eq ((f, es) ∷ m) h k = rw (
  write_len-to_le (length f) h.0.1,
  write_len-to_le (length es) k.0.1,
  write_entries-eq es k.0.0,
  write_fields-eq m h.1 k.1,
)

read_u32-to_le : (v : ℕ) (rest : Bytes) → v < 2 ^ 32 → read_u32 (to_le 4 v ++ rest) ≡ ok (v, rest)
unfolding read_u32
read_u32-to_le v rest h =
    rw (take_u32 v rest h, drop-to_le 4 v rest)
      (ground (arith, length-append (to_le 4 v) rest, length-to_le 4 v))

read_text-append :
    (t rest : Bytes) → is_utf8 t ≡ true → read_text (length t) (t ++ rest) ≡ ok (t, rest)
unfolding read_text
read_text-append t rest h =
    rw (take_front t rest, drop_front t rest, h) (ground (arith, length-append t rest))

read_entries-eq :
    (es : List SuggestEntry) (rest : Bytes)
    → All FitsEntry es
    → read_entries (length es) (entries_bytes es ++ rest) ≡ ok (es, rest)
unfolding read_entries entries_bytes
read_entries-eq [] rest h = refl
read_entries-eq (e ∷ es) rest h =
    let behind = entries_bytes es ++ rest in
    let r3 = to_le 4 e.score ++ behind in
    let r2 = to_le 4 e.doc_freq ++ r3 in
    rw (
      append_assoc (to_le 4 (length e.term)),
      append_assoc e.term,
      append_assoc (to_le 4 e.doc_freq),
      append_assoc (to_le 4 e.score),
      read_u32-to_le (length e.term) (e.term ++ r2) h.0.text.1,
      read_text-append e.term r2 h.0.text.0,
      read_u32-to_le e.doc_freq r3 h.0.freq_fits,
      read_u32-to_le e.score behind h.0.score_fits,
      read_entries-eq es rest h.1,
    )

read_fields-eq :
    (m fields : SuggestIndex)
    → All (λ f. FitsText f.0) m
    → All (λ f. All FitsEntry f.1 × (length f.1 < 2 ^ 32)) m
    → IsSorted (fields ++ m)
    → read_fields (length m) (fields_bytes m) fields ≡ ok (fields ++ m)
unfolding read_fields fields_bytes
read_fields-eq [] fields h k s = rw append-nil
read_fields-eq ((f, es) ∷ m) fields h k s =
    let behind = fields_bytes m in
    let r2 = to_le 4 (length es) ++ (entries_bytes es ++ behind) in
    rw
      (
        read_u32-to_le (length f) (f ++ r2) h.0.1,
        read_text-append f r2 h.0.0,
        read_u32-to_le (length es) (entries_bytes es ++ behind) k.0.1,
        read_entries-eq es behind k.0.0,
        insert_last fields f es m s,
      )
      (rw (append_assoc fields ((f, es) ∷ []) m) at
        (read_fields-eq m (fields ++ ((f, es) ∷ [])) h.1 k.1 (rw append_assoc s)))

unfoldable file_bytes : SuggestIndex → Bytes
file_bytes m =
    to_le 4 suggest_magic ++ (suggest_version ∷ 0 ∷ 0 ∷ 0 ∷ (to_le 4 (length m) ++ fields_bytes m))

to_bytes-file_bytes : (m : SuggestIndex) → FitsIndex m → to_bytes m ≡ ok (file_bytes m)
unfolding to_bytes file_bytes
to_bytes-file_bytes m h = rw (write_len-to_le (length m) h.few, write_fields-eq m h.names h.lists)

from_bytes_header :
    (bs rest : Bytes) (n : ℕ)
    → 12 ≤ length bs
    → from_le (slice 0 4 bs) ≡ suggest_magic
    → from_le (slice 4 1 bs) ≡ suggest_version
    → from_le (slice 8 4 bs) ≡ n
    → drop 12 bs ≡ rest
    → from_bytes bs ≡ read_fields n rest []
unfolding from_bytes
from_bytes_header bs rest n l g v c d = rw (g, v, c, d) (ground arith)

header_count :
    (m : SuggestIndex) → length m < 2 ^ 32 → from_le (slice 8 4 (file_bytes m)) ≡ length m
unfolding file_bytes to_le
header_count m h = from_le_u32 (length m) h

header_rest :
    (m : SuggestIndex)
    → (from_le (slice 0 4 (file_bytes m)) ≡ suggest_magic)
      × (from_le (slice 4 1 (file_bytes m)) ≡ suggest_version)
      × (drop 12 (file_bytes m) ≡ fields_bytes m)
      × (12 ≤ length (file_bytes m))
unfolding file_bytes to_le from_le
header_rest m = (refl, refl, refl, omega arith)

-- An index with sorted field names, whose names and terms are UTF-8 and whose numbers fit 32 bits, is
-- written without a panic, and reading the bytes gives the same index.
pub from_bytes-to_bytes :
    (m : SuggestIndex)
    → FitsIndex m
    → IsSorted m
    → (bs : Bytes) × (to_bytes m ≡ ok bs) × (from_bytes bs ≡ ok m)
from_bytes-to_bytes m h s =
    let (g, v, d, l) = header_rest m in
    (
      file_bytes m,
      to_bytes-file_bytes m h,
      from_bytes_header _ (fields_bytes m) (length m) l g v (header_count m h.few) d
          ∙ read_fields-eq m [] h.names h.lists s,
    )
