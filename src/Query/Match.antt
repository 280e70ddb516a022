-- ===== src/Query/Match.antt =====
-- crates/cloudsearch-index/src/lib.rs: the scores of match, term and terms queries.
use cloud_search.Prelude.{
  ℕ, zero, suc, Option, none, some, List, [], ◌∷◌, length, ◌==◌, if◌then◌else◌,
}
use cloud_search.Prelude.Order.{text_ord}
use cloud_search.Bytes.{Text}
use cloud_search.Json.{Value, get_value, as_str}
use cloud_search.Common.{IndexDocument}
use cloud_search.Positions.{PositionsReader}
use cloud_search.Index.Tokens.{tokenize}
use cloud_search.Query.{TermQuery, TermsQuery, MatchQuery}
use cloud_search.Query.Bm25.{
  QueryEnv, Bm25Context, f32_zero, f32_one, unwrap_or, bm25_term_score, idf_of, postings_tf,
  count_token, contains_token, u32_or_zero,
}
use cloud_search.Query.Values.{value_eq}
use Prim.Native.Nat.Ordering.{gt}

-- The text of a field.
unfoldable pub field_text : Text → IndexDocument → Option Text
field_text name document = elim (get_value name document.source) [ none ↦ none | some v ↦ as_str v ]

-- How often the document has a token: `none` where the loop goes on with the next one.
unfoldable pub token_tf : QueryEnv → List PositionsReader → List Text → ℕ → Text → Option ℕ
token_tf env readers field_tokens doc_id token =
    let tf = postings_tf env readers token doc_id 0 in
    if tf == 0
    then (if contains_token token field_tokens
        then some (u32_or_zero (count_token token field_tokens))
        else none)
    else some tf

-- The loop over the tokens of the query, with the score and the number of tokens that matched.
unfoldable pub match_tokens :
    QueryEnv → Bm25Context → List PositionsReader → Text → List Text → ℕ → List Text → ℕ × ℕ → ℕ × ℕ
match_tokens env ctx readers name field_tokens doc_id [] (total, matched) = (total, matched)
match_tokens env ctx readers name field_tokens doc_id (token ∷ ts) (total, matched) =
    elim (token_tf env readers field_tokens doc_id token) [
      | none ↦ match_tokens env ctx readers name field_tokens doc_id ts (total, matched)
      | some tf ↦ match_tokens env ctx readers name field_tokens doc_id ts (
        env.add total (bm25_term_score env ctx tf (length field_tokens) (idf_of ctx token) name),
        suc matched,
      )
    ]

abbrev pub if_matched : ℕ × ℕ → Option ℕ
if_matched (total, zero) = none
if_matched (total, suc n) = some total

unfoldable pub score_match_query_for_field :
    QueryEnv → IndexDocument → Text → List Text → ℕ → List PositionsReader → Bm25Context → Option ℕ
score_match_query_for_field env document name query_tokens doc_id readers ctx =
    elim (field_text name document) [
      | none ↦ none
      | some text ↦
          if_matched
            (match_tokens env ctx readers name (tokenize text) doc_id query_tokens (f32_zero, 0))
    ]

unfoldable pub score_match_query :
    QueryEnv → IndexDocument → MatchQuery → ℕ → List PositionsReader → Bm25Context → Option ℕ
score_match_query env document q doc_id readers ctx = elim (field_text q.field document) [
  | none ↦ none
  | some text ↦ elim (tokenize q.value) [
    | [] ↦ none
    | t ∷ ts ↦
        if_matched
          (match_tokens env ctx readers q.field (tokenize text) doc_id (t ∷ ts) (f32_zero, 0))
  ]
]

-- The frequency of a term: from the postings, or from the field where these have none.
unfoldable pub term_tf : QueryEnv → List PositionsReader → List Text → ℕ → Text → ℕ
term_tf env readers field_tokens doc_id key =
    let tf = postings_tf env readers key doc_id 0 in
    if tf == 0
    then (if contains_token key field_tokens then u32_or_zero (count_token key field_tokens) else 0)
    else tf

unfoldable pub score_term_query :
    QueryEnv → IndexDocument → TermQuery → ℕ → List PositionsReader → Bm25Context → Option ℕ
score_term_query env document term doc_id readers ctx =
    elim (get_value term.field document.source) [
      | none ↦ none
      | some stored ↦ elim (as_str stored) [
        | none ↦ if value_eq stored term.value then some f32_one else none
        | some text ↦ elim (as_str term.value) [
          | none ↦ none
          | some value ↦
              let key = env.to_lowercase value in
              let tf = term_tf env readers (tokenize text) doc_id key in
              let score =
                bm25_term_score env ctx tf (length (tokenize text)) (idf_of ctx key) term.field in
              if tf == 0 then none else some (env.mul score (unwrap_or f32_one term.boost))
        ]
      ]
    ]

-- The loop over the values of a terms query, with the greatest score so far.
unfoldable pub terms_loop :
    QueryEnv → Bm25Context → List PositionsReader → Text → Value → ℕ → List Value → ℕ → ℕ
terms_loop env ctx readers name stored doc_id [] max_score = max_score
terms_loop env ctx readers name stored doc_id (v ∷ vs) max_score =
    let rest = terms_loop env ctx readers name stored doc_id vs in
    elim (as_str v) [
      | none ↦ rest (if value_eq stored v then env.max_f32 max_score f32_one else max_score)
      | some value ↦ elim (as_str stored) [
        | none ↦ rest max_score
        | some text ↦
            let key = env.to_lowercase value in
            let tf = term_tf env readers (tokenize text) doc_id key in
            let score = bm25_term_score env ctx tf (length (tokenize text)) (idf_of ctx key) name in
            rest (if tf == 0 then max_score else env.max_f32 max_score score)
      ]
    ]

-- `score > 0.0`, with the score.
unfoldable pub if_positive : QueryEnv → ℕ → Option ℕ
if_positive env score = elim (env.partial_cmp score f32_zero) [
  | none ↦ none
  | some o ↦ elim o [ gt ↦ some score | _ ↦ none ]
]

unfoldable pub score_terms_query :
    QueryEnv → IndexDocument → TermsQuery → ℕ → List PositionsReader → Bm25Context → Option ℕ
score_terms_query env document terms doc_id readers ctx =
    elim (get_value terms.field document.source) [
      | none ↦ none
      | some stored ↦
          if_positive env
            (terms_loop env ctx readers terms.field stored doc_id terms.values f32_zero)
    ]
