-- ===== src/Query/Phrase.antt =====
-- crates/cloudsearch-index/src/lib.rs: the scores of phrase queries and of multi_match queries.
use cloud_search.Prelude.{
  ℕ, ◌+◌, ◌-◌, ◌%◌, ◌^◌, Bool, true, false, ◌&&◌, ◌||◌, Option, none, some, List, [], ◌∷◌, ◌++◌,
  map, length, take, get_elem?, ltb, ◌==◌, if◌then◌else◌,
}
use cloud_search.BTreeMap.{BTreeMap, keys}
use cloud_search.Bytes.{Text}
use cloud_search.Json.{get_value, as_str}
use cloud_search.Common.{IndexDocument}
use cloud_search.Positions.{PositionsReader, PostingList, get_postings}
use cloud_search.Suggest.{starts_with}
use cloud_search.Index.Tokens.{tokenize}
use cloud_search.Query.Bm25.{QueryEnv, Bm25Context, idf_of}

-- The positions of all postings of the document, in the order in which they are visited.
unfoldable pub doc_positions : ℕ → PostingList → List ℕ
doc_positions doc_id [] = []
doc_positions doc_id (p ∷ ps) =
    let rest = doc_positions doc_id ps in if p.doc_id == doc_id then p.positions ++ rest else rest

unfoldable pub find_position : (ℕ → Bool) → List ℕ → Option ℕ
find_position test [] = none
find_position test (p ∷ ps) = let rest = find_position test ps in if test p then some p else rest

-- A position that follows `previous_pos` where the previous token has `len` bytes. The sums are
-- cast to a `u32`.
abbrev pub is_next : ℕ → ℕ → ℕ → Bool
is_next previous_pos len pos =
    ((pos == (previous_pos + len + 1) % 2 ^ 32) || (pos == (previous_pos + len + 2) % 2 ^ 32))
    && ltb previous_pos pos

-- Each token stands right after the one before it; gives the last position.
unfoldable pub consecutive_from : ℕ → PositionsReader → Text → ℕ → List Text → Option ℕ
consecutive_from doc_id reader prev_token previous_pos [] = some previous_pos
consecutive_from doc_id reader prev_token previous_pos (token ∷ ts) =
    elim (get_postings token reader) [
      | none ↦ none
      | some docs ↦
          elim (find_position (is_next previous_pos (length prev_token))
            (doc_positions doc_id docs)) [
              | none ↦ none
              | some pos ↦ consecutive_from doc_id reader token pos ts
            ]
    ]

unfoldable pub first_some : (ℕ → Option ℕ) → List ℕ → Option ℕ
first_some f [] = none
first_some f (p ∷ ps) = let rest = first_some f ps in elim (f p) [ some a ↦ some a | none ↦ rest ]

-- The callers give two tokens at least; `query_tokens[0]` of an empty slice would panic.
unfoldable pub tokens_are_consecutive : ℕ → List Text → PositionsReader → Option ℕ
tokens_are_consecutive doc_id [] reader = none
tokens_are_consecutive doc_id (first ∷ ts) reader = elim (get_postings first reader) [
  | none ↦ none
  | some docs ↦
      first_some (λ pos. consecutive_from doc_id reader first pos ts) (doc_positions doc_id docs)
]

unfoldable pub idf_sum : QueryEnv → Bm25Context → List Text → ℕ
idf_sum env ctx tokens = env.sum (map (idf_of ctx) tokens)

unfoldable pub score_phrase_in_field :
    QueryEnv → ℕ → List Text → List PositionsReader → Bm25Context → Option ℕ
score_phrase_in_field env doc_id tokens [] ctx = none
score_phrase_in_field env doc_id tokens (r ∷ rs) ctx =
    let rest = score_phrase_in_field env doc_id tokens rs ctx in
    elim (tokens_are_consecutive doc_id tokens r) [
      | some pos ↦ some (idf_sum env ctx tokens)
      | none ↦ rest
    ]

unfoldable pub consecutive_except_last : ℕ → List Text → ℕ → PositionsReader → Option ℕ
consecutive_except_last doc_id [] first_pos reader = some first_pos
consecutive_except_last doc_id (first ∷ ts) first_pos reader =
    consecutive_from doc_id reader first first_pos (take (length ts - 1) ts)

-- The terms of one reader that have the prefix and stand after the position.
unfoldable pub prefix_after : QueryEnv → ℕ → Text → ℕ → PositionsReader → List Text → Bool
prefix_after env doc_id prefix after_pos reader [] = false
prefix_after env doc_id prefix after_pos reader (term ∷ ts) =
    let rest = prefix_after env doc_id prefix after_pos reader ts in
    let found : Bool = elim (get_postings term reader) [
      | none ↦ false
      | some docs ↦ elim (env.binary_search_by_doc_id docs doc_id) [
        | none ↦ false
        | some i ↦ elim (get_elem? docs i) [
          | none ↦ false
          | some p ↦ elim (find_position (ltb after_pos) p.positions) [
            | none ↦ false
            | some q ↦ true
          ]
        ]
      ]
    ] in
    if starts_with prefix term && found then true else rest

unfoldable pub prefix_matches_after_position : QueryEnv → ℕ → Text → ℕ → List PositionsReader → Bool
prefix_matches_after_position env doc_id prefix after_pos [] = false
prefix_matches_after_position env doc_id prefix after_pos (r ∷ rs) =
    prefix_after env doc_id prefix after_pos r (keys r.term_dict)
    || prefix_matches_after_position env doc_id prefix after_pos rs

abbrev pub last_token : Text → List Text → Text
last_token t [] = t
last_token t (u ∷ us) = last_token u us

unfoldable pub phrase_prefix_at :
    QueryEnv → ℕ → List Text → Text → PositionsReader → List PositionsReader → ℕ → Option ℕ
phrase_prefix_at env doc_id tokens prefix reader readers first_pos =
    elim (consecutive_except_last doc_id tokens first_pos reader) [
      | none ↦ none
      | some last_pos ↦
          if prefix_matches_after_position env doc_id prefix last_pos readers
          then some last_pos
          else none
    ]

-- `left` are the readers that the loop has still to visit.
unfoldable pub phrase_prefix_loop :
    QueryEnv
    → ℕ
    → Text
    → List Text
    → List PositionsReader
    → List PositionsReader
    → Bm25Context
    → Option ℕ
phrase_prefix_loop env doc_id first ts readers [] ctx = none
phrase_prefix_loop env doc_id first ts readers (r ∷ left) ctx =
    let rest = phrase_prefix_loop env doc_id first ts readers left ctx in
    let found : Option ℕ = elim (get_postings first r) [
      | none ↦ none
      | some docs ↦
          first_some (phrase_prefix_at env doc_id (first ∷ ts) (last_token first ts) r readers)
            (doc_positions doc_id docs)
    ] in
    elim found [ some pos ↦ some (idf_sum env ctx (first ∷ ts)) | none ↦ rest ]

unfoldable pub score_phrase_prefix_in_field :
    QueryEnv → ℕ → List Text → List PositionsReader → Bm25Context → Option ℕ
score_phrase_prefix_in_field env doc_id [] readers ctx = none
score_phrase_prefix_in_field env doc_id (first ∷ ts) readers ctx =
    phrase_prefix_loop env doc_id first ts readers readers ctx

abbrev pub better : QueryEnv → Option ℕ → ℕ → Option ℕ
better env none score = some score
better env (some best) score = some (env.max_f32 best score)

-- The loop over the fields of a phrase, by what one field scores. A field that the document does not
-- have ends the function with `None`; one that is no text is passed over.
unfoldable pub phrase_fields :
    QueryEnv → IndexDocument → ℕ → Option ℕ → BTreeMap Text ℕ → Option ℕ → Option ℕ
phrase_fields env document n score [] best = best
phrase_fields env document n score ((name, weight) ∷ fs) best =
    let rest = phrase_fields env document n score fs in
    elim (get_value name document.source) [
      | none ↦ none
      | some v ↦ elim (as_str v) [
        | none ↦ rest best
        | some text ↦ if ltb (length (tokenize text)) n then rest best else elim score [
          | none ↦ rest best
          | some s ↦ rest (better env best (env.mul s weight))
        ]
      ]
    ]

abbrev pub no_readers : List PositionsReader → Bool
no_readers [] = true
no_readers (r ∷ rs) = false

unfoldable pub score_phrase_for_fields :
    QueryEnv
    → IndexDocument
    → List Text
    → BTreeMap Text ℕ
    → ℕ
    → List PositionsReader
    → Bm25Context
    → Option ℕ
score_phrase_for_fields env document tokens fields doc_id readers ctx =
    if ltb (length tokens) 2 || no_readers readers
    then none
    else phrase_fields env document (length tokens)
        (score_phrase_in_field env doc_id tokens readers ctx) fields none

unfoldable pub score_phrase_prefix_for_fields :
    QueryEnv
    → IndexDocument
    → List Text
    → BTreeMap Text ℕ
    → ℕ
    → List PositionsReader
    → Bm25Context
    → Option ℕ
score_phrase_prefix_for_fields env document tokens fields doc_id readers ctx =
    if ltb (length tokens) 2 || no_readers readers
    then none
    else phrase_fields env document (length tokens)
        (score_phrase_prefix_in_field env doc_id tokens readers ctx) fields none
