-- ===== src/Index/Tokens.antt =====
-- `tokenize` and `extract_positions`: the words of a text, and the byte offsets of each word in it.
pub mod Offsets
pub mod Fuel
use cloud_search.Prelude.{
  ℕ, zero, suc, ◌+◌, ◌-◌, ◌^◌, Bool, true, false, ◌&&◌, ◌||◌, Option, none, some, List, [], ◌∷◌,
  ◌++◌, map, length, drop, ltb, leb, ◌==◌, if◌then◌else◌,
}
use cloud_search.Prelude.Order.{text_ord}
use cloud_search.BTreeMap.{BTreeMap, insert, upsert}
use cloud_search.Bytes.{Text}
use cloud_search.Json.{Value, as_object, as_str, entries}
use cloud_search.Common.{IndexDocument}
use cloud_search.Suggest.{starts_with}

-- How many bytes the white space character at the front has; 0 for another one.
unfoldable pub white_space : Text → ℕ
white_space [] = 0
white_space (a ∷ t) =
    if (a == 32) || (leb 9 a && leb a 13)
    then 1
    else if a == 0xC2
    then (if starts_with (0x85 ∷ []) t || starts_with (0xA0 ∷ []) t then 2 else 0)
    else if a == 0xE1
    then (if starts_with (0x9A ∷ 0x80 ∷ []) t then 3 else 0)
    else if a == 0xE2
    then general t
    else if a == 0xE3
    then (if starts_with (0x80 ∷ 0x80 ∷ []) t then 3 else 0)
    else 0
  where
    general : Text → ℕ
    general [] = 0
    general (b ∷ []) = 0
    general (b ∷ c ∷ u) =
        if b == 0x80
        then (if leb c 0x8A || ((c == 0xA8) || ((c == 0xA9) || (c == 0xAF))) then 3 else 0)
        else if (b == 0x81) && (c == 0x9F)
        then 3
        else 0

unfoldable pub to_ascii_lowercase : Text → Text
to_ascii_lowercase [] = []
to_ascii_lowercase (c ∷ t) = (if leb 65 c && leb c 90 then c + 32 else c) ∷ to_ascii_lowercase t

unfoldable pub push_word : Text → List Text → List Text
push_word [] ws = ws
push_word (c ∷ w) ws = (c ∷ w) ∷ ws

-- `skip` bytes of a white space character are still to be passed over; `word` is the word so far.
unfoldable pub split_from : ℕ → Text → Text → List Text
split_from skip word [] = push_word word []
split_from (suc skip) word (c ∷ t) = split_from skip word t
split_from zero word (c ∷ t) =
    let ends = push_word word (split_from (white_space (c ∷ t) - 1) [] t) in
    let goes_on = split_from zero (word ++ c ∷ []) t in
    if white_space (c ∷ t) == 0 then goes_on else ends

unfoldable pub split_whitespace : Text → List Text
split_whitespace t = split_from 0 [] t

unfoldable pub tokenize : Text → List Text
tokenize text = map to_ascii_lowercase (split_whitespace text)

-- `str::find`.
unfoldable pub find : Text → Text → Option ℕ
find token [] = if starts_with token [] then some 0 else none
find token (c ∷ t) =
    let later : Option ℕ = elim (find token t) [ none ↦ none | some i ↦ some (suc i) ] in
    if starts_with token (c ∷ t) then some 0 else later

-- The `while let` over one token. Each round moves `search_from` on, so that the length of the text
-- is enough fuel. In a text of 4 GiB the next slice of the source could begin within a character and
-- panic, which is left out.
unfoldable pub positions_loop : ℕ → Text → Text → ℕ → List ℕ
positions_loop zero token lower_text search_from = []
positions_loop (suc fuel) token lower_text search_from =
    elim (find token (drop search_from lower_text)) [
      | none ↦ []
      | some pos ↦
          let skipped = positions_loop fuel token lower_text (search_from + pos + 1) in
          let rest = positions_loop fuel token lower_text (search_from + pos + length token) in
          if ltb (2 ^ 32 - 1) (search_from + pos) then skipped else (search_from + pos) ∷ rest
    ]

unfoldable pub push_offsets : Text → List ℕ → BTreeMap Text (List ℕ) → BTreeMap Text (List ℕ)
push_offsets token [] seen = seen
push_offsets token (o ∷ os) seen = push_offsets token os (upsert token [] (λ ps. ps ++ o ∷ []) seen)

unfoldable pub seen_offsets : Text → List Text → BTreeMap Text (List ℕ) → BTreeMap Text (List ℕ)
seen_offsets lower_text [] seen = seen
seen_offsets lower_text (token ∷ ts) seen =
    let offsets = positions_loop (length lower_text) token lower_text 0 in
    seen_offsets lower_text ts (push_offsets token offsets seen)

unfoldable pub insert_all : BTreeMap Text (List ℕ) → BTreeMap Text (List ℕ) → BTreeMap Text (List ℕ)
insert_all [] index = index
insert_all ((term, positions) ∷ m) index = insert_all m (insert term positions index)

unfoldable pub extract_fields :
    List (Text × Value) → BTreeMap Text (List ℕ) → BTreeMap Text (List ℕ)
extract_fields [] index = index
extract_fields ((name, value) ∷ fs) index = elim (as_str value) [
  | none ↦ extract_fields fs index
  | some text ↦
      extract_fields fs
        (insert_all (seen_offsets (to_ascii_lowercase text) (tokenize text) []) index)
]

unfoldable pub extract_positions : IndexDocument → BTreeMap Text (List ℕ)
extract_positions document = elim (as_object document.source) [
  | none ↦ []
  | some obj ↦ extract_fields (entries obj) []
]
