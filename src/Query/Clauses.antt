-- ===== src/Query/Clauses.antt =====
-- crates/cloudsearch-index/src/lib.rs, `score_bool_query`, and crates/cloudsearch-api/src/query_string.rs,
-- the methods that join queries: which documents match.
use cloud_search.Prelude.{
  ℕ, suc, ◌≡◌, refl, Bool, true, false, not, ◌&&◌, ◌||◌, Option, none, some, List, ltb,
  if◌then◌else◌, arith,
}
use cloud_search.Common.{IndexDocument}
use cloud_search.Positions.{PositionsReader}
use cloud_search.Query.{SearchQuery, Queries, bool_query, nil, cons}
use cloud_search.Query.Bm25.{QueryEnv, Bm25Context}
use cloud_search.Query.Score.{
  is_some, all_some, any_some, count_some, min_should_match, combine_scores, score_query,
  score_queries,
}

-- How many should clauses a query asks for, where the number may be left open.
abbrev pub asked : Queries → Queries → Queries → Option ℕ → ℕ
asked must nil filter minimum = 0
asked must (cons q qs) filter (some k) = k
asked nil (cons q qs) nil none = 1
asked nil (cons q qs) (cons r rs) none = 0
asked (cons p ps) (cons q qs) filter none = 0

-- What a query asks of a document, where `m` says which of the clauses it matches.
module _ (m : SearchQuery → Bool) where
  abbrev pub matches_all : Queries → Bool
  matches_all nil = true
  matches_all (cons q qs) = m q && matches_all qs

  abbrev pub matches_any : Queries → Bool
  matches_any nil = false
  matches_any (cons q qs) = m q || matches_any qs

  abbrev pub matching : Queries → ℕ
  matching nil = 0
  matching (cons q qs) = let rest = matching qs in if m q then suc rest else rest

  -- All of the first and the third group, none of the fourth, and enough of the second.
  abbrev pub bool_matches : Queries → Queries → Queries → Queries → Option ℕ → Bool
  bool_matches must should filter must_not minimum =
      matches_all must
      && (matches_all filter
          && (not (matches_any must_not)
              && not (ltb (matching should) (asked must should filter minimum))))

min_should_match-asked :
    (must should filter : Queries) (minimum : Option ℕ)
    → min_should_match must should filter minimum ≡ asked must should filter minimum
unfolding min_should_match
min_should_match-asked must nil filter minimum = refl
min_should_match-asked nil (cons q qs) nil none = refl
min_should_match-asked nil (cons q qs) nil (some k) = refl
min_should_match-asked nil (cons q qs) (cons r rs) none = refl
min_should_match-asked nil (cons q qs) (cons r rs) (some k) = refl
min_should_match-asked (cons p ps) (cons q qs) filter none = refl
min_should_match-asked (cons p ps) (cons q qs) filter (some k) = refl

module _ (env : QueryEnv) (document : IndexDocument) (doc_id : ℕ) (readers : List PositionsReader)
    (ctx : Bm25Context) where
  -- The document matches the query.
  abbrev pub matched : SearchQuery → Bool
  matched q = is_some (score_query env document q doc_id readers ctx)

  all_some-score :
      (qs : Queries)
      → all_some (score_queries env document qs doc_id readers ctx) ≡ matches_all matched qs
  unfolding all_some score_queries
  all_some-score nil = refl
  all_some-score (cons q qs) = rw (all_some-score qs)

  any_some-score :
      (qs : Queries)
      → any_some (score_queries env document qs doc_id readers ctx) ≡ matches_any matched qs
  unfolding any_some score_queries
  any_some-score nil = refl
  any_some-score (cons q qs) = rw (any_some-score qs)

  count_some-score :
      (qs : Queries)
      → count_some (score_queries env document qs doc_id readers ctx) ≡ matching matched qs
  unfolding count_some score_queries
  count_some-score nil = refl
  count_some-score (cons q qs) = rw (count_some-score qs)

  -- A document matches a bool query just if it matches all of its must and its filter clauses, none
  -- of its must_not clauses, and as many of its should clauses as `minimum_should_match` says, which
  -- is by default one where there are neither must nor filter clauses, and else none.
  pub score_query-bool_matches :
      (must should filter must_not : Queries) (minimum : Option ℕ)
      → matched (bool_query must should filter must_not minimum)
        ≡ bool_matches matched must should filter must_not minimum
  unfolding score_query combine_scores
  score_query-bool_matches must should filter must_not minimum =
      rw
        (
          all_some-score must,
          all_some-score filter,
          any_some-score must_not,
          count_some-score should,
          min_should_match-asked must should filter minimum,
        )
        (ground arith)
