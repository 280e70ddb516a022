-- ===== src/Query/Fuzzy/Distance.antt =====
-- `levenshtein_distance`: the table holds the distances of the prefixes, where each character has one
-- byte, and what it gives for other texts.
use cloud_search.Prelude.{
  ℕ, suc, ◌+◌, ◌≤◌, ◌<◌, ◌≡◌, refl, sym, ap, ◌∙◌, min, Option, some, none, List, [], ◌∷◌, map,
  length, arith, All, lt→ltb, ◌++◌,
}
use mathlib.Core.Path.{subst}
use cloud_search.Prelude.Order.{text_ord}
use cloud_search.Bytes.{Text, char_cells, char_cells_from, char_len}
use cloud_search.Query.Fuzzy.{
  cost, zeros, count_up, next_cells, next_row, last_row, last_cell, levenshtein_distance,
}
use cloud_search.Query.Fuzzy.Scripts.{
  Script, dist, dist-nil, dist-le, dist-Script, onto, back_to_front, front_to_back,
}

abbrev full : List Text → List (Option Text)
full = map some

-- The distances of `p` from the longer and longer prefixes after `q`.
unfoldable row_rest : List Text → List Text → List Text → List ℕ
row_rest p q [] = []
row_rest p q (b ∷ bs) = dist p (b ∷ q) ∷ row_rest p (b ∷ q) bs

abbrev row : List Text → List Text → List Text → List ℕ
row p q bs = dist p q ∷ row_rest p q bs

count_up-row : (q bs : List Text) → count_up (length q) (full bs) ≡ row [] q bs
unfolding count_up row_rest dist
count_up-row q [] = refl
count_up-row q (b ∷ bs) = ap (λ r. length q ∷ r) (count_up-row (b ∷ q) bs)

dist_cell :
    (c b : Text) (p q : List Text)
    → min (min (dist p (b ∷ q) + 1) (dist (c ∷ p) q + 1)) (dist p q + cost c b)
      ≡ dist (c ∷ p) (b ∷ q)
unfolding dist
dist_cell c b p q = refl

next_cells-row :
    (c : Text) (p q bs : List Text)
    → next_cells c (full bs) (row p q bs) (dist (c ∷ p) q) ≡ row_rest (c ∷ p) q bs
unfolding next_cells row_rest
next_cells-row c p q [] = refl
next_cells-row c p q (b ∷ bs) =
    rw (dist_cell c b p q) (ap (λ r. dist (c ∷ p) (b ∷ q) ∷ r) (next_cells-row c p (b ∷ q) bs))

-- A row follows from the one above it.
next_row-row :
    (c : Text) (p bs : List Text)
    → next_row (length p) (some c) (full bs) (row p [] bs) ≡ row (c ∷ p) [] bs
unfolding next_row dist
next_row-row c p bs = ap (λ r. suc (length p) ∷ r) (next_cells-row c p [] bs)

last_row-row :
    (p bs cs : List Text)
    → last_row (length p) (full cs) (full bs) (row p [] bs) ≡ row (onto cs p) [] bs
unfolding last_row onto
last_row-row p bs [] = refl
last_row-row p bs (c ∷ cs) =
    ap (λ r. last_row (suc (length p)) (full cs) (full bs) r) (next_row-row c p bs)
    ∙ last_row-row (c ∷ p) bs cs

last_cell-row : (p q bs : List Text) → last_cell (row p q bs) ≡ dist p (onto bs q)
unfolding row_rest onto
last_cell-row p q [] = refl
last_cell-row p q (b ∷ bs) = last_cell-row p (b ∷ q) bs

-- The table's last cell.
table :
    (cs bs : List Text)
    → last_cell (last_row 0 (full cs) (full bs) (count_up 0 (full bs)))
      ≡ dist (onto cs []) (onto bs [])
table cs bs =
    let first = count_up-row [] bs in
    rw (first, last_row-row [] bs cs) (last_cell-row (onto cs []) [] bs)

-- The characters of a text of one-byte characters.
unfoldable pub chars : Text → List Text
chars [] = []
chars (b ∷ t) = (b ∷ []) ∷ chars t

abbrev pub IsAscii : Text → Type 0
IsAscii t = All (λ b. b < 128) t

char_cells-chars : (t : Text) → IsAscii t → char_cells t ≡ full (chars t)
unfolding char_cells char_cells_from chars char_len
char_cells-chars [] a = refl
char_cells-chars (b ∷ t) a =
    let short = lt→ltb b 128 a.0 in rw short (ap (λ r. some (b ∷ []) ∷ r) (char_cells-chars t a.1))

length-chars : (t : Text) → length (chars t) ≡ length t
unfolding chars
length-chars [] = refl
length-chars (b ∷ t) = ap suc (length-chars t)

length-onto : (p q : List Text) → length (onto p q) ≡ length p + length q
unfolding onto
length-onto [] q = omega arith
length-onto (x ∷ p) q = omega (arith, length-onto p (x ∷ q))

all_inserted : (t : Text) → length t ≡ dist (onto (chars []) []) (onto (chars t) [])
unfolding chars onto dist
all_inserted t = omega (arith, length-onto (chars t) [], length-chars t)

all_deleted : (t : Text) → length t ≡ dist (onto (chars t) []) (onto (chars []) [])
unfolding chars onto
all_deleted t =
    omega (arith, dist-nil (onto (chars t) []), length-onto (chars t) [], length-chars t)

levenshtein-dist :
    (a b : Text)
    → IsAscii a
    → IsAscii b
    → levenshtein_distance a b ≡ dist (onto (chars a) []) (onto (chars b) [])
unfolding levenshtein_distance
levenshtein-dist [] b h k = all_inserted b
levenshtein-dist (x ∷ a) [] h k = all_deleted (x ∷ a)
levenshtein-dist (x ∷ a) (y ∷ b) h k =
    rw (char_cells-chars (x ∷ a) h, char_cells-chars (y ∷ b) k)
      (table (chars (x ∷ a)) (chars (y ∷ b)))

-- On texts of one-byte characters, `levenshtein_distance` is the least number of edits of a script
-- that turns the one into the other: there is a script with as many, and none has fewer.
pub levenshtein_distance_least :
    (a b : Text)
    → IsAscii a
    → IsAscii b
    → Script (chars a) (chars b) (levenshtein_distance a b)
      × ((n : ℕ) → Script (chars a) (chars b) n → levenshtein_distance a b ≤ n)
levenshtein_distance_least a b h k =
    let same = levenshtein-dist a b h k in
    let p = onto (chars a) [] in
    let q = onto (chars b) [] in
    (
      front_to_back (chars a) (chars b) _ (subst (Script p q) (sym same) (dist-Script p q)),
      λ n s. rw same (dist-le p q n (back_to_front (chars a) (chars b) n s)),
    )

last_cell-zeros :
    (n : ℕ) (c : Option Text) (cs : List (Option Text)) → last_cell (n ∷ zeros (c ∷ cs)) ≡ 0
unfolding zeros
last_cell-zeros n c [] = refl
last_cell-zeros n c (d ∷ cs) = last_cell-zeros 0 d cs

last_row-none :
    (i : ℕ) (front : List (Option Text)) (c : Option Text) (cs : List (Option Text))
    (above : List ℕ)
    → last_cell (last_row i (front ++ none ∷ []) (c ∷ cs) above) ≡ 0
unfolding last_row next_row
last_row-none i [] c cs above = last_cell-zeros (suc i) c cs
last_row-none i (d ∷ front) c cs above = last_row-none (suc i) front c cs _

cells_of :
    (y : ℕ) (b : Text)
    → (c : Option Text) × (cs : List (Option Text)) × (char_cells (y ∷ b) ≡ c ∷ cs)
unfolding char_cells char_cells_from
cells_of y b = (_, _, refl)

-- A text that is not empty and ends with a character of several bytes has distance 0 from every text
-- that is not empty: the last row of the table is never filled in.
pub levenshtein_distance_multibyte :
    (x y : ℕ) (a b : Text) (front : List (Option Text))
    → char_cells (x ∷ a) ≡ front ++ none ∷ []
    → levenshtein_distance (x ∷ a) (y ∷ b) ≡ 0
unfolding levenshtein_distance
levenshtein_distance_multibyte x y a b front h =
    let (c, cs, e) = cells_of y b in rw (h, e) (last_row-none 0 front c cs _)
