-- ===== src/Query/Patterns.antt =====
-- crates/cloudsearch-index/src/lib.rs: prefix and wildcard queries.
use cloud_search.Prelude.{
  ℕ, Bool, true, false, Option, none, some, List, [], ◌∷◌, ◌++◌, length, ◌==◌, if◌then◌else◌,
}
use cloud_search.BTreeMap.{get}
use cloud_search.Prelude.Order.{text_ord}
use cloud_search.Bytes.{Text, char_cells}
use cloud_search.Common.{IndexDocument}
use cloud_search.Positions.{PositionsReader}
use cloud_search.Suggest.{starts_with}
use cloud_search.Index.Tokens.{tokenize}
use cloud_search.Query.{PrefixQuery, WildcardQuery}
use cloud_search.Query.Bm25.{
  QueryEnv, Bm25Context, f32_zero, bm25_term_score, idf_of, postings_tf, count_token, u32_or_zero,
  same_token,
}
use cloud_search.Query.Match.{field_text, if_positive}

unfoldable pub matches_prefix_query : IndexDocument → PrefixQuery → Bool
matches_prefix_query document q = elim (field_text q.field document) [
  | none ↦ false
  | some s ↦ starts_with q.value s
]

unfoldable pub regex_of_cell : QueryEnv → Option Text → Text
regex_of_cell env none = []
regex_of_cell env (some c) =
    if same_token c (b'*' ∷ [])
    then b'.' ∷ b'*' ∷ []
    else if same_token c (b'?' ∷ [])
    then b'.' ∷ []
    else env.regex_escape c

unfoldable pub regex_of_cells : QueryEnv → List (Option Text) → Text
regex_of_cells env [] = b'$' ∷ []
regex_of_cells env (c ∷ cs) = regex_of_cell env c ++ regex_of_cells env cs

unfoldable pub build_wildcard_regex : QueryEnv → Text → Option (Text → Bool)
build_wildcard_regex env pattern = env.regex_new (b'^' ∷ regex_of_cells env (char_cells pattern))

unfoldable pub matches_wildcard_query : QueryEnv → IndexDocument → WildcardQuery → Bool
matches_wildcard_query env document q = elim (build_wildcard_regex env q.value) [
  | none ↦ false
  | some is_match ↦ elim (field_text q.field document) [ none ↦ false | some text ↦ is_match text ]
]

-- The frequency of a token of the field, from the postings or else from the field.
unfoldable pub field_token_tf : QueryEnv → List PositionsReader → List Text → ℕ → Text → ℕ
field_token_tf env readers field_tokens doc_id token =
    let tf = postings_tf env readers token doc_id 0 in
    if tf == 0 then u32_or_zero (count_token token field_tokens) else tf

-- The idf of a token, or else of the whole value in lower case.
unfoldable pub prefix_idf : Bm25Context → Text → Text → ℕ
prefix_idf ctx stored_lowercase token = elim (get token ctx.idf_map) [
  | some idf ↦ idf
  | none ↦ idf_of ctx stored_lowercase
]

-- The loop over the field's tokens: the score, and whether one had the prefix.
unfoldable pub prefix_tokens :
    QueryEnv
    → Bm25Context
    → List PositionsReader
    → PrefixQuery
    → Text
    → List Text
    → ℕ
    → List Text
    → ℕ × Bool
    → ℕ × Bool
prefix_tokens env ctx readers q stored_lowercase field_tokens doc_id [] (total, matched) =
    (total, matched)
prefix_tokens env ctx readers q stored_lowercase field_tokens doc_id (token ∷ ts) (total, matched) =
    let rest = prefix_tokens env ctx readers q stored_lowercase field_tokens doc_id ts in
    let tf = field_token_tf env readers field_tokens doc_id token in
    let score =
      bm25_term_score env ctx tf (length field_tokens) (prefix_idf ctx stored_lowercase token)
        q.field in
    if starts_with (env.to_lowercase q.value) token
    then rest (if tf == 0 then total else env.add total score, true)
    else rest (total, matched)

abbrev pub if_any : ℕ × Bool → Option ℕ
if_any (total, true) = some total
if_any (total, false) = none

unfoldable pub score_prefix_query_bm25 :
    QueryEnv → IndexDocument → PrefixQuery → ℕ → List PositionsReader → Bm25Context → Option ℕ
score_prefix_query_bm25 env document q doc_id readers ctx = elim (field_text q.field document) [
  | none ↦ none
  | some stored ↦ if_any (
      prefix_tokens env ctx readers q (env.to_lowercase stored) (tokenize stored) doc_id
        (tokenize stored) (f32_zero, false))
]

unfoldable pub wildcard_tokens :
    QueryEnv
    → Bm25Context
    → List PositionsReader
    → Text
    → (Text → Bool)
    → List Text
    → ℕ
    → List Text
    → ℕ
    → ℕ
wildcard_tokens env ctx readers name is_match field_tokens doc_id [] total = total
wildcard_tokens env ctx readers name is_match field_tokens doc_id (token ∷ ts) total =
    let tf = field_token_tf env readers field_tokens doc_id token in
    let score = bm25_term_score env ctx tf (length field_tokens) (idf_of ctx token) name in
    let added = if tf == 0 then total else env.add total score in
    wildcard_tokens env ctx readers name is_match field_tokens doc_id ts
      (if is_match token then added else total)

unfoldable pub score_wildcard_query_bm25 :
    QueryEnv → IndexDocument → WildcardQuery → ℕ → List PositionsReader → Bm25Context → Option ℕ
score_wildcard_query_bm25 env document q doc_id readers ctx =
    elim (build_wildcard_regex env q.value) [
      | none ↦ none
      | some is_match ↦ elim (field_text q.field document) [
        | none ↦ none
        | some stored ↦ if_positive env (
            wildcard_tokens env ctx readers q.field is_match (tokenize stored) doc_id
              (tokenize stored) f32_zero)
      ]
    ]
