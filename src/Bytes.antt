-- ===== src/Bytes.antt =====
-- `to_le_bytes` and `from_le_bytes` of the unsigned integers, and the check of `String::from_utf8`.
-- A byte is a number below 256. A `String` is its UTF-8 bytes, as in Rust.
pub mod RoundTrip
use cloud_search.Prelude.{
  ℕ, zero, suc, ◌+◌, ◌-◌, ◌*◌, ◌/◌, ◌%◌, ◌<◌, Bool, true, false, ◌&&◌, Option, none, some, List, [],
  ◌∷◌, ltb, leb, if◌then◌else◌, take, drop,
}

abbrev pub Bytes : Type 0
Bytes = List ℕ

abbrev pub Text : Type 0
Text = Bytes

abbrev pub IsByte : ℕ → Type 0
IsByte b = b < 256

-- The `k` bytes of `v`, lowest first. A `u32` has 4 and a `u64` has 8.
unfoldable pub to_le : ℕ → ℕ → Bytes
to_le zero v = []
to_le (suc k) v = (v % 256) ∷ to_le k (v / 256)

unfoldable pub from_le : Bytes → ℕ
from_le [] = 0
from_le (b ∷ bs) = b + 256 * from_le bs

-- `bytes[from..from + n]` where it is within bounds.
abbrev pub slice : ℕ → ℕ → Bytes → Bytes
slice from n bs = take n (drop from bs)

-- How many bytes follow a first byte, and the range of the next one.
utf8_lead : ℕ → Option (ℕ × ℕ × ℕ)
utf8_lead b =
    if ltb b 0x80
    then some (0, 0, 0)
    else if leb 0xC2 b && leb b 0xDF
    then some (1, 0x80, 0xBF)
    else if ltb b 0xE0
    then none
    else if ltb b 0xE1
    then some (2, 0xA0, 0xBF)
    else if ltb b 0xED
    then some (2, 0x80, 0xBF)
    else if ltb b 0xEE
    then some (2, 0x80, 0x9F)
    else if ltb b 0xF0
    then some (2, 0x80, 0xBF)
    else if ltb b 0xF1
    then some (3, 0x90, 0xBF)
    else if ltb b 0xF4
    then some (3, 0x80, 0xBF)
    else if ltb b 0xF5
    then some (3, 0x80, 0x8F)
    else none

-- `need` bytes of the current character are missing; the next is in `lo..=hi`.
utf8_scan : ℕ → ℕ → ℕ → Bytes → Bool
unfolding utf8_lead
utf8_scan zero lo hi [] = true
utf8_scan (suc need) lo hi [] = false
utf8_scan zero lo hi (b ∷ bs) = elim (utf8_lead b) [
  | none ↦ false
  | some (need, l, h) ↦ utf8_scan need l h bs
]
utf8_scan (suc need) lo hi (b ∷ bs) = elim (leb lo b && leb b hi) [
  | true ↦ utf8_scan need 0x80 0xBF bs
  | false ↦ false
]

unfoldable pub is_utf8 : Bytes → Bool
unfolding utf8_scan
is_utf8 bs = utf8_scan 0 0 0 bs

-- How many bytes the character has that begins with `b`.
unfoldable pub char_len : ℕ → ℕ
char_len b = if ltb b 0x80 then 1 else if ltb b 0xE0 then 2 else if ltb b 0xF0 then 3 else 4

-- A byte at which no character begins: to slice there panics.
unfoldable pub is_continuation : ℕ → Bool
is_continuation b = leb 0x80 b && leb b 0xBF

-- At each byte the character that begins there, if one does: `more` bytes of one are still to come.
unfoldable pub char_cells_from : ℕ → Text → List (Option Text)
char_cells_from more [] = []
char_cells_from zero (b ∷ t) = some (take (char_len b) (b ∷ t)) ∷ char_cells_from (char_len b - 1) t
char_cells_from (suc more) (b ∷ t) = none ∷ char_cells_from more t

-- `char_indices`: the place in the list is the index.
unfoldable pub char_cells : Text → List (Option Text)
char_cells t = char_cells_from 0 t
