-- ===== src/Query/Score.antt =====
-- crates/cloudsearch-index/src/lib.rs: `score_query`, which a document matches where it gives a
-- score, and `score_bool_query`.
use cloud_search.Prelude.{
  ℕ, zero, suc, Bool, true, false, not, ◌&&◌, ◌||◌, Option, none, some, List, [], ◌∷◌, ◌++◌, ltb,
  if◌then◌else◌,
}
use cloud_search.Common.{IndexDocument}
use cloud_search.Positions.{PositionsReader}
use cloud_search.Query.{
  SearchQuery, Queries, match_all, term_query, terms_query, range_query, bool_query, prefix_query,
  wildcard_query, match_query, phrase_query, multi_match_query, mlt_query, TermQuery, nil, cons,
  is_empty,
}
use cloud_search.Query.Bm25.{QueryEnv, Bm25Context, f32_zero, f32_one, unwrap_or}
use cloud_search.Query.Values.{matches_range_query}
use cloud_search.Query.Match.{score_match_query, score_term_query, score_terms_query}
use cloud_search.Query.MultiMatch.{score_phrase_query, score_multi_match_query}
use cloud_search.Query.Patterns.{
  matches_prefix_query, matches_wildcard_query, score_prefix_query_bm25, score_wildcard_query_bm25,
}
use cloud_search.Query.Fuzzy.{fuzzy_term_match}

abbrev pub is_some {ℓ} : {A : Type ℓ} → Option A → Bool
is_some none = false
is_some (some a) = true

unfoldable pub all_some : List (Option ℕ) → Bool
all_some [] = true
all_some (s ∷ ss) = is_some s && all_some ss

unfoldable pub any_some : List (Option ℕ) → Bool
any_some [] = false
any_some (s ∷ ss) = is_some s || any_some ss

unfoldable pub count_some : List (Option ℕ) → ℕ
count_some [] = 0
count_some (s ∷ ss) = let rest = count_some ss in if is_some s then suc rest else rest

unfoldable pub min_should_match : Queries → Queries → Queries → Option ℕ → ℕ
min_should_match must should filter minimum =
    if is_empty should
    then 0
    else if is_empty must && is_empty filter
    then unwrap_or 1 minimum
    else unwrap_or 0 minimum

-- The sum of the scores and how many there are.
unfoldable pub fold_scores : QueryEnv → List (Option ℕ) → ℕ × ℕ → ℕ × ℕ
fold_scores env [] (sum, count) = (sum, count)
fold_scores env (none ∷ ss) (sum, count) = fold_scores env ss (sum, count)
fold_scores env (some s ∷ ss) (sum, count) = fold_scores env ss (env.add sum s, suc count)

abbrev pub average : QueryEnv → ℕ × ℕ → ℕ
average env (sum, zero) = f32_one
average env (sum, suc n) = env.div sum (env.of_nat (suc n))

-- `score_bool_query` after the clauses were scored: `needed` is `min_should_match`.
unfoldable pub combine_scores :
    QueryEnv → List (Option ℕ) → List (Option ℕ) → List (Option ℕ) → List (Option ℕ) → ℕ → Option ℕ
combine_scores env must should filter must_not needed =
    if not (all_some must)
    then none
    else if not (all_some filter)
    then none
    else if any_some must_not
    then none
    else if ltb (count_some should) needed
    then none
    else some (average env (fold_scores env (must ++ should) (f32_zero, 0)))

unfoldable pub score_term :
    QueryEnv → IndexDocument → TermQuery → ℕ → List PositionsReader → Bm25Context → Option ℕ
score_term env document term doc_id readers ctx = elim (term.fuzziness) [
  | none ↦ score_term_query env document term doc_id readers ctx
  | some fuzziness ↦ elim (fuzzy_term_match document term) [
    | some true ↦ some f32_one
    | some false ↦ none
    | none ↦ none
  ]
]

unfoldable mutual
  pub score_query :
      QueryEnv → IndexDocument → SearchQuery → ℕ → List PositionsReader → Bm25Context → Option ℕ
  score_query env document match_all doc_id readers ctx = some f32_one
  score_query env document (term_query q) doc_id readers ctx =
      score_term env document q doc_id readers ctx
  score_query env document (terms_query q) doc_id readers ctx =
      score_terms_query env document q doc_id readers ctx
  score_query env document (range_query q) doc_id readers ctx =
      if matches_range_query env document q then some f32_one else none
  score_query env document (bool_query must should filter must_not minimum) doc_id readers ctx =
      combine_scores env (score_queries env document must doc_id readers ctx)
        (score_queries env document should doc_id readers ctx)
        (score_queries env document filter doc_id readers ctx)
        (score_queries env document must_not doc_id readers ctx)
        (min_should_match must should filter minimum)
  score_query env document (prefix_query q) doc_id readers ctx =
      if matches_prefix_query document q
      then score_prefix_query_bm25 env document q doc_id readers ctx
      else none
  score_query env document (wildcard_query q) doc_id readers ctx =
      if matches_wildcard_query env document q
      then score_wildcard_query_bm25 env document q doc_id readers ctx
      else none
  score_query env document (match_query q) doc_id readers ctx =
      score_match_query env document q doc_id readers ctx
  score_query env document (phrase_query q) doc_id readers ctx =
      score_phrase_query env document q doc_id readers ctx
  score_query env document (multi_match_query q) doc_id readers ctx =
      score_multi_match_query env document q doc_id readers ctx
  score_query env document (mlt_query q) doc_id readers ctx = none

  pub score_queries :
      QueryEnv → IndexDocument → Queries → ℕ → List PositionsReader → Bm25Context → List (Option ℕ)
  score_queries env document nil doc_id readers ctx = []
  score_queries env document (cons q qs) doc_id readers ctx =
      score_query env document q doc_id readers ctx
      ∷ score_queries env document qs doc_id readers ctx
