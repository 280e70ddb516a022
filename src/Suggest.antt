-- ===== src/Suggest.antt =====
-- crates/cloudsearch-storage/src/suggest_index.rs: the suggest index of a segment, its file, and the
-- lookup of a prefix. A score is the bit pattern of a `f32`.
pub mod Prefixes
pub mod Search
pub mod RoundTrip
mod Examples
use Prim.Native.Nat.Ordering.{lt}
use cloud_search.Prelude.{
  ℕ, zero, suc, ◌+◌, ◌-◌, ◌/◌, ◌^◌, Bool, true, false, not, ◌&&◌, Option, none, some, List, [], ◌∷◌,
  ◌++◌, length, take, drop, get_elem?, ltb, leb, ◌==◌, if◌then◌else◌,
}
use cloud_search.Prelude.Order.{text_ord, lex}
use cloud_search.BTreeMap.{BTreeMap, get, insert}
use cloud_search.Bytes.{Bytes, Text, to_le, from_le, slice, is_utf8}
use cloud_search.Common.{Result, ok, err, panic, io, ◌>>=◌}

pub record SuggestEntry : Type 0 where
  pub term : Text
  pub doc_freq : ℕ
  pub score : ℕ

-- `SuggestIndex` and `SuggestReader` hold nothing but `fields`.
abbrev pub SuggestIndex : Type 0
SuggestIndex = BTreeMap Text (List SuggestEntry)

abbrev pub suggest_magic : ℕ
suggest_magic = 0x53554747

abbrev pub suggest_version : ℕ
suggest_version = 1

-- `u32::try_from(n).unwrap().to_le_bytes()`.
unfoldable pub write_len : ℕ → Result Bytes
write_len n = if ltb (2 ^ 32 - 1) n then panic else ok (to_le 4 n)

unfoldable pub write_entries : List SuggestEntry → Result Bytes
write_entries [] = ok []
write_entries (e ∷ es) = do
  n ← write_len (length e.term)
  rest ← write_entries es
  ok (n ++ (e.term ++ (to_le 4 e.doc_freq ++ (to_le 4 e.score ++ rest))))

unfoldable pub write_fields : SuggestIndex → Result Bytes
write_fields [] = ok []
write_fields ((f, es) ∷ m) = do
  n ← write_len (length f)
  k ← write_len (length es)
  body ← write_entries es
  rest ← write_fields m
  ok (n ++ (f ++ (k ++ (body ++ rest))))

unfoldable pub to_bytes : SuggestIndex → Result Bytes
to_bytes m = do
  n ← write_len (length m)
  body ← write_fields m
  ok (to_le 4 suggest_magic ++ (suggest_version ∷ 0 ∷ 0 ∷ 0 ∷ (n ++ body)))

-- `data[offset..offset + 4]` as a `u32`, and what follows; a slice out of bounds panics.
unfoldable pub read_u32 : Bytes → Result (ℕ × Bytes)
read_u32 rest = if ltb (length rest) 4 then panic else ok (from_le (take 4 rest), drop 4 rest)

unfoldable pub read_text : ℕ → Bytes → Result (Text × Bytes)
read_text n rest =
    if ltb (length rest) n
    then panic
    else if is_utf8 (take n rest)
    then ok (take n rest, drop n rest)
    else err io

unfoldable pub read_entries : ℕ → Bytes → Result (List SuggestEntry × Bytes)
read_entries zero rest = ok ([], rest)
read_entries (suc n) rest = do
  (term_len, r1) ← read_u32 rest
  (term, r2) ← read_text term_len r1
  (doc_freq, r3) ← read_u32 r2
  (score, r4) ← read_u32 r3
  (es, r5) ← read_entries n r4
  ok (record { term = term; doc_freq = doc_freq; score = score } ∷ es, r5)

unfoldable pub read_fields : ℕ → Bytes → SuggestIndex → Result SuggestIndex
read_fields zero rest fields = ok fields
read_fields (suc n) rest fields = do
  (name_len, r1) ← read_u32 rest
  (name, r2) ← read_text name_len r1
  (term_count, r3) ← read_u32 r2
  (es, r4) ← read_entries term_count r3
  read_fields n r4 (insert name es fields)

unfoldable pub from_bytes : Bytes → Result SuggestIndex
from_bytes bs =
    if ltb (length bs) 12
    then err io
    else if not (from_le (slice 0 4 bs) == suggest_magic)
    then err io
    else if not (from_le (slice 4 1 bs) == suggest_version)
    then err io
    else read_fields (from_le (slice 8 4 bs)) (drop 12 bs) []

-- `str::starts_with`, over the bytes.
unfoldable pub starts_with : Text → Text → Bool
starts_with [] t = true
starts_with (p ∷ ps) [] = false
starts_with (p ∷ ps) (t ∷ ts) = let rest = starts_with ps ts in if p == t then rest else false

-- `a < b` of texts.
unfoldable pub text_lt : Text → Text → Bool
text_lt a b = elim (lex a b) [ lt ↦ true | _ ↦ false ]

-- The loop of `find_first_prefix`. Each round halves the interval, so that its length is enough fuel.
unfoldable pub lower_bound : ℕ → List SuggestEntry → Text → ℕ → ℕ → Result ℕ
lower_bound zero es prefix lo hi = ok lo
lower_bound (suc fuel) es prefix lo hi =
    let mid = (lo + hi) / 2 in
    let right = lower_bound fuel es prefix (mid + 1) hi in
    let left = lower_bound fuel es prefix lo mid in
    let round : Result ℕ = elim (get_elem? es mid) [
      | none ↦ panic
      | some e ↦ if text_lt e.term prefix then right else left
    ] in
    if ltb lo hi then round else ok lo

unfoldable pub find_in : List SuggestEntry → Text → Result (Option ℕ)
find_in [] prefix = ok none
find_in es prefix = do
  lo ← lower_bound (length es) es prefix 0 (length es)
  ok (elim (get_elem? es lo) [
    | none ↦ none
    | some e ↦ if starts_with prefix e.term then some lo else none
  ])

unfoldable pub find_first_prefix : Text → Text → SuggestIndex → Result (Option ℕ)
find_first_prefix field prefix m = elim (get field m) [
  | none ↦ ok none
  | some es ↦ find_in es prefix
]

unfoldable pub take_while_prefix : Text → List SuggestEntry → List SuggestEntry
take_while_prefix prefix [] = []
take_while_prefix prefix (e ∷ es) =
    let rest = take_while_prefix prefix es in if starts_with prefix e.term then e ∷ rest else []

unfoldable pub suggest_from : Text → Option ℕ → Option (List SuggestEntry) → List SuggestEntry
suggest_from prefix none entries = []
suggest_from prefix (some start) none = []
suggest_from prefix (some start) (some es) = take_while_prefix prefix (drop start es)

unfoldable pub suggest_for_field : Text → Text → SuggestIndex → Result (List SuggestEntry)
suggest_for_field field [] m = ok []
suggest_for_field field (p ∷ ps) m = do
  start ← find_first_prefix field (p ∷ ps) m
  ok (suggest_from (p ∷ ps) start (get field m))
