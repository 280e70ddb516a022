-- ===== src/Query/Fuzzy.antt =====
-- crates/cloudsearch-index/src/lib.rs: `levenshtein_distance` and `fuzzy_term_match`.
pub mod Scripts
pub mod Distance
use cloud_search.Prelude.{
  ℕ, zero, suc, ◌+◌, ◌-◌, min, Bool, true, false, Option, none, some, List, [], ◌∷◌, length, drop,
  leb, ◌==◌, if◌then◌else◌,
}
use cloud_search.Bytes.{Text, char_cells}
use cloud_search.Json.{get_value, as_str}
use cloud_search.Common.{IndexDocument}
use cloud_search.Query.{TermQuery, Fuzziness, auto, exact}
use cloud_search.Query.Bm25.{same_token}
use cloud_search.Query.Values.{value_eq}

unfoldable pub zeros : List (Option Text) → List ℕ
zeros [] = []
zeros (c ∷ cs) = 0 ∷ zeros cs

-- The numbers from `n` on, one for each byte and one more: the first row of the table.
unfoldable pub count_up : ℕ → List (Option Text) → List ℕ
count_up n [] = n ∷ []
count_up n (c ∷ cs) = n ∷ count_up (suc n) cs

abbrev pub cost : Text → Text → ℕ
cost ca cb = if same_token ca cb then 0 else 1

abbrev pub head_or_zero : List ℕ → ℕ
head_or_zero [] = 0
head_or_zero (x ∷ xs) = x

-- The cells of a row after the first, from the row above and the cell to the left. A cell at whose
-- index no character of `b` begins keeps the 0 that it was made with.
unfoldable pub next_cells : Text → List (Option Text) → List ℕ → ℕ → List ℕ
next_cells ca [] above left = []
next_cells ca (none ∷ cs) above left = 0 ∷ next_cells ca cs (drop 1 above) 0
next_cells ca (some cb ∷ cs) above left =
    let cell =
      min (min (head_or_zero (drop 1 above) + 1) (left + 1)) (head_or_zero above + cost ca cb) in
    cell ∷ next_cells ca cs (drop 1 above) cell

-- Row `i + 1`, which is not filled in where no character of `a` begins at `i`.
unfoldable pub next_row : ℕ → Option Text → List (Option Text) → List ℕ → List ℕ
next_row i none cs above = suc i ∷ zeros cs
next_row i (some ca) cs above = suc i ∷ next_cells ca cs above (suc i)

unfoldable pub last_row : ℕ → List (Option Text) → List (Option Text) → List ℕ → List ℕ
last_row i [] cs row = row
last_row i (c ∷ cells) cs row = last_row (suc i) cells cs (next_row i c cs row)

abbrev pub last_cell : List ℕ → ℕ
last_cell [] = 0
last_cell (x ∷ []) = x
last_cell (x ∷ y ∷ ys) = last_cell (y ∷ ys)

unfoldable pub levenshtein_distance : Text → Text → ℕ
levenshtein_distance [] b = length b
levenshtein_distance (x ∷ a) [] = length (x ∷ a)
levenshtein_distance (x ∷ a) (y ∷ b) =
    last_cell
      (last_row 0 (char_cells (x ∷ a)) (char_cells (y ∷ b)) (count_up 0 (char_cells (y ∷ b))))

unfoldable pub auto_threshold : Text → ℕ
auto_threshold query_value =
    if leb (length query_value) 2 then 0 else if leb (length query_value) 5 then 1 else 2

unfoldable pub within_distance : Text → Text → ℕ → Option Bool
within_distance stored value threshold =
    if threshold == 0
    then (if same_token stored value then some true else none)
    else some (leb (levenshtein_distance stored value) threshold)

unfoldable pub fuzzy_threshold : Fuzziness → Text → ℕ
fuzzy_threshold auto value = auto_threshold value
fuzzy_threshold (exact max_dist) value = max_dist

unfoldable pub fuzzy_term_match : IndexDocument → TermQuery → Option Bool
fuzzy_term_match document term = elim (get_value term.field document.source) [
  | none ↦ none
  | some stored ↦ elim (term.fuzziness) [
    | none ↦ if value_eq stored term.value then some true else none
    | some fuzziness ↦ elim (as_str stored) [
      | none ↦ none
      | some stored_str ↦ elim (as_str term.value) [
        | none ↦ none
        | some query_value ↦
            within_distance stored_str query_value (fuzzy_threshold fuzziness query_value)
      ]
    ]
  ]
]
