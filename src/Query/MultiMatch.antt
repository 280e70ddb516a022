-- ===== src/Query/MultiMatch.antt =====
-- crates/cloudsearch-index/src/lib.rs: `score_phrase_query` and `score_multi_match_query`.
use Prim.Native.Nat.{Ordering}
use Prim.Native.Nat.Ordering.{eq}
use cloud_search.Prelude.{
  ℕ, ◌-◌, max, Option, none, some, List, [], ◌∷◌, length, ltb, leb, ◌==◌, if◌then◌else◌,
}
use cloud_search.BTreeMap.{BTreeMap}
use cloud_search.Bytes.{Text}
use cloud_search.Common.{IndexDocument}
use cloud_search.Positions.{PositionsReader, get_postings}
use cloud_search.Sort.{sort_by}
use cloud_search.Index.Tokens.{tokenize}
use cloud_search.Query.{
  PhraseQuery, MultiMatchQuery, best_fields, most_fields, phrase, phrase_prefix,
}
use cloud_search.Query.Bm25.{
  QueryEnv, Bm25Context, f32_zero, f32_one, f32_tenth, unwrap_or, bm25_term_score, idf_of,
  postings_tf, count_token, u32_or_zero,
}
use cloud_search.Query.Match.{field_text, score_match_query_for_field}
use cloud_search.Query.Phrase.{
  doc_positions, find_position, better, score_phrase_for_fields, score_phrase_prefix_for_fields,
}

-- The greatest gap between the terms after the first; `none` where one does not follow.
unfoldable pub phrase_gap : ℕ → PositionsReader → ℕ → ℕ → List Text → Option ℕ
phrase_gap doc_id reader previous_pos max_gap [] = some max_gap
phrase_gap doc_id reader previous_pos max_gap (term ∷ ts) = elim (get_postings term reader) [
  | none ↦ none
  | some docs ↦ elim (find_position (ltb previous_pos) (doc_positions doc_id docs)) [
    | none ↦ none
    | some pos ↦ phrase_gap doc_id reader pos (max max_gap (pos - previous_pos)) ts
  ]
]

-- The sum of the scores of the query's terms.
unfoldable pub phrase_sum :
    QueryEnv → Bm25Context → List PositionsReader → Text → List Text → ℕ → List Text → ℕ → ℕ
phrase_sum env ctx readers name field_tokens doc_id [] total = total
phrase_sum env ctx readers name field_tokens doc_id (term ∷ ts) total =
    let posted = postings_tf env readers term doc_id 0 in
    let tf = if posted == 0 then u32_or_zero (count_token term field_tokens) else posted in
    let score = bm25_term_score env ctx tf (length field_tokens) (idf_of ctx term) name in
    phrase_sum env ctx readers name field_tokens doc_id ts
      (if tf == 0 then total else env.add total score)

unfoldable pub gap_penalty : QueryEnv → ℕ → ℕ → ℕ
gap_penalty env max_gap total =
    if leb max_gap 10
    then total
    else env.div total (env.add f32_one (env.mul (env.of_nat max_gap) f32_tenth))

-- The positions of the first term in one reader, with the best score so far.
unfoldable pub phrase_positions :
    QueryEnv → PositionsReader → ℕ → ℕ → List Text → ℕ → List ℕ → Option ℕ → Option ℕ
phrase_positions env reader doc_id field_len others total [] best = best
phrase_positions env reader doc_id field_len others total (pos ∷ ps) best =
    let skipped = phrase_positions env reader doc_id field_len others total ps best in
    let scored : Option ℕ = elim (phrase_gap doc_id reader pos 0 others) [
      | none ↦ phrase_positions env reader doc_id field_len others total ps best
      | some gap ↦
          phrase_positions env reader doc_id field_len others total ps
            (better env best (gap_penalty env gap total))
    ] in
    if leb field_len pos then skipped else scored

unfoldable pub phrase_readers :
    QueryEnv → ℕ → ℕ → Text → List Text → ℕ → List PositionsReader → Option ℕ → Option ℕ
phrase_readers env doc_id field_len first others total [] best = best
phrase_readers env doc_id field_len first others total (r ∷ rs) best = elim (get_postings first r) [
  | none ↦ phrase_readers env doc_id field_len first others total rs best
  | some docs ↦
      phrase_readers env doc_id field_len first others total rs
        (phrase_positions env r doc_id field_len others total (doc_positions doc_id docs) best)
]

unfoldable pub score_phrase_query :
    QueryEnv → IndexDocument → PhraseQuery → ℕ → List PositionsReader → Bm25Context → Option ℕ
score_phrase_query env document q doc_id readers ctx = elim (field_text q.field document) [
  | none ↦ none
  | some text ↦ elim (tokenize q.value) [
    | [] ↦ none
    | first ∷ [] ↦ none
    | first ∷ second ∷ ts ↦
        let total =
          phrase_sum env ctx readers q.field (tokenize text) doc_id (first ∷ second ∷ ts)
            f32_zero in
        phrase_readers env doc_id (length text) first (second ∷ ts) total readers none
  ]
]

-- The weighted scores of the fields that match.
unfoldable pub field_scores :
    QueryEnv
    → IndexDocument
    → List Text
    → ℕ
    → List PositionsReader
    → Bm25Context
    → BTreeMap Text ℕ
    → List ℕ
field_scores env document tokens doc_id readers ctx [] = []
field_scores env document tokens doc_id readers ctx ((name, weight) ∷ fs) =
    let rest = field_scores env document tokens doc_id readers ctx fs in
    elim (score_match_query_for_field env document name tokens doc_id readers ctx) [
      | none ↦ rest
      | some score ↦ env.mul score weight ∷ rest
    ]

-- The greatest score comes first; scores that do not compare count as equal.
abbrev pub descending : QueryEnv → ℕ → ℕ → Ordering
descending env a b = unwrap_or eq (env.partial_cmp b a)

unfoldable pub best_and_others : QueryEnv → ℕ → List ℕ → Option ℕ
best_and_others env tie_breaker [] = none
best_and_others env tie_breaker (best ∷ others) =
    some (env.add best (env.mul tie_breaker (env.sum others)))

unfoldable pub score_multi_match_query :
    QueryEnv → IndexDocument → MultiMatchQuery → ℕ → List PositionsReader → Bm25Context → Option ℕ
score_multi_match_query env document q doc_id readers ctx = elim (tokenize q.query) [
  | [] ↦ none
  | t ∷ ts ↦ elim (field_scores env document (t ∷ ts) doc_id readers ctx q.fields) [
    | [] ↦ none
    | s ∷ ss ↦ elim (q.multi_match_type) [
      | best_fields ↦ best_and_others env q.tie_breaker (sort_by (descending env) (s ∷ ss))
      | most_fields ↦ some (env.sum (s ∷ ss))
      | phrase ↦ score_phrase_for_fields env document (t ∷ ts) q.fields doc_id readers ctx
      | phrase_prefix ↦
          score_phrase_prefix_for_fields env document (t ∷ ts) q.fields doc_id readers ctx
    ]
  ]
]
