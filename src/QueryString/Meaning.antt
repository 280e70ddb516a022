-- ===== src/QueryString/Meaning.antt =====
-- crates/cloudsearch-api/src/query_string.rs: which documents match what AND, OR and NOT make of two
-- queries.
use cloud_search.Prelude.{
  ℕ, ◌≡◌, refl, Bool, false, not, ◌&&◌, ◌||◌, Option, none, List, ltb, arith,
}
use cloud_search.Common.{IndexDocument}
use cloud_search.Positions.{PositionsReader}
use cloud_search.Query.{
  SearchQuery, Queries, match_all, term_query, terms_query, range_query, bool_query, prefix_query,
  wildcard_query, match_query, phrase_query, multi_match_query, mlt_query, nil, cons, extend, one,
  is_empty,
}
use cloud_search.Query.Bm25.{QueryEnv, Bm25Context}
use cloud_search.Query.Clauses.{
  matches_all, matches_any, matching, bool_matches, matched, score_query-bool_matches,
}
use cloud_search.QueryString.Combine.{
  must_part, must_not_part, make_bool_must, or_must, or_should, make_bool_should,
  make_bool_must_not_and,
}
use cloud_search.QueryString.Ends.{HasDefaultMinimum}

matches_all-extend :
    (m : SearchQuery → Bool) (ps qs : Queries)
    → matches_all m (extend ps qs) ≡ (matches_all m ps && matches_all m qs)
matches_all-extend m nil qs = refl
matches_all-extend m (cons p ps) qs = ground (arith, matches_all-extend m ps qs)

matches_any-extend :
    (m : SearchQuery → Bool) (ps qs : Queries)
    → matches_any m (extend ps qs) ≡ (matches_any m ps || matches_any m qs)
matches_any-extend m nil qs = refl
matches_any-extend m (cons p ps) qs = ground (arith, matches_any-extend m ps qs)

-- One clause that matches is enough.
matching-any :
    (m : SearchQuery → Bool) (qs : Queries) → not (ltb (matching m qs) 1) ≡ matches_any m qs
matching-any m nil = refl
matching-any m (cons q qs) = ground (arith, matching-any m qs)

-- A bool query that has should clauses and no others and leaves their number to the default, or a
-- query that is no bool query.
abbrev pub IsAlternatives : SearchQuery → Type 0
IsAlternatives (bool_query must should filter must_not minimum) =
    (must ≡ nil) × (filter ≡ nil) × (must_not ≡ nil) × (is_empty should ≡ false) × (minimum ≡ none)
IsAlternatives match_all = Unit
IsAlternatives _ = Unit

-- A query whose must_not group is empty, or one that is no bool query.
abbrev pub HasNoNegation : SearchQuery → Type 0
HasNoNegation (bool_query must should filter must_not minimum) = must_not ≡ nil
HasNoNegation match_all = Unit
HasNoNegation _ = Unit

or_must-nil : (q : SearchQuery) → IsAlternatives q → or_must q ≡ nil
unfolding or_must
or_must-nil (bool_query must should filter must_not minimum) a = a.0
or_must-nil match_all a = refl
or_must-nil (term_query q) a = refl
or_must-nil (terms_query q) a = refl
or_must-nil (range_query q) a = refl
or_must-nil (prefix_query q) a = refl
or_must-nil (wildcard_query q) a = refl
or_must-nil (match_query q) a = refl
or_must-nil (phrase_query q) a = refl
or_must-nil (multi_match_query q) a = refl
or_must-nil (mlt_query q) a = refl

-- What one side of an AND leaves in the two groups, together.
abbrev side : (SearchQuery → Bool) → SearchQuery → Bool
side m q = matches_all m (must_part q) && not (matches_any m (must_not_part q))

module _ (env : QueryEnv) (document : IndexDocument) (doc_id : ℕ) (readers : List PositionsReader)
    (ctx : Bm25Context) where
  abbrev m : SearchQuery → Bool
  m = matched env document doc_id readers ctx

  bool_lem :
      (must should filter must_not : Queries) (minimum : Option ℕ)
      → m (bool_query must should filter must_not minimum)
        ≡ bool_matches m must should filter must_not minimum
  bool_lem = score_query-bool_matches env document doc_id readers ctx

  bool_side :
      (must should filter must_not : Queries)
      → side m (bool_query must should filter must_not none)
        ≡ m (bool_query must should filter must_not none)
  unfolding must_part must_not_part
  bool_side nil nil nil must_not = rw (bool_lem nil nil nil must_not none) (ground arith)
  bool_side nil (cons s ss) nil must_not =
      rw (bool_lem nil (cons s ss) nil must_not none, bool_lem nil (cons s ss) nil nil none)
        (ground arith)
  bool_side nil nil (cons f fs) must_not =
      rw (bool_lem nil nil (cons f fs) must_not none, bool_lem nil nil (cons f fs) nil none)
        (ground arith)
  bool_side nil (cons s ss) (cons f fs) must_not =
      rw
        (
          bool_lem nil (cons s ss) (cons f fs) must_not none,
          bool_lem nil (cons s ss) (cons f fs) nil none,
        )
        (ground arith)
  bool_side (cons p ps) nil filter must_not =
      rw (bool_lem (cons p ps) nil filter must_not none, bool_lem (cons p ps) nil filter nil none)
        (ground arith)
  bool_side (cons p ps) (cons s ss) filter must_not =
      rw
        (
          bool_lem (cons p ps) (cons s ss) filter must_not none,
          bool_lem (cons p ps) (cons s ss) filter nil none,
        )
        (ground arith)

  side-matched : (q : SearchQuery) → HasDefaultMinimum q → side m q ≡ m q
  unfolding must_part must_not_part
  side-matched (bool_query must should filter must_not minimum) d =
      rw d (bool_side must should filter must_not)
  side-matched match_all d = ground arith
  side-matched (term_query q) d = ground arith
  side-matched (terms_query q) d = ground arith
  side-matched (range_query q) d = ground arith
  side-matched (prefix_query q) d = ground arith
  side-matched (wildcard_query q) d = ground arith
  side-matched (match_query q) d = ground arith
  side-matched (phrase_query q) d = ground arith
  side-matched (multi_match_query q) d = ground arith
  side-matched (mlt_query q) d = ground arith

  -- Joined by AND, two queries that leave the number of their should clauses to the default match
  -- the documents that both match.
  pub make_bool_must-matched :
      (left right : SearchQuery)
      → HasDefaultMinimum left
      → HasDefaultMinimum right
      → matched env document doc_id readers ctx (make_bool_must left right) ≡ (
          matched env document doc_id readers ctx left
          && matched env document doc_id readers ctx right)
  unfolding make_bool_must
  make_bool_must-matched left right d e =
      rw
        (
          bool_lem (extend (must_part left) (must_part right)) nil nil
              (extend (must_not_part left) (must_not_part right)) none,
          matches_all-extend m (must_part left) (must_part right),
          matches_any-extend m (must_not_part left) (must_not_part right),
          ← side-matched left d,
          ← side-matched right e,
        )
        (ground arith)

  alternatives :
      (must should filter must_not : Queries) (minimum : Option ℕ)
      → IsAlternatives (bool_query must should filter must_not minimum)
      → matches_any m should ≡ m (bool_query must should filter must_not minimum)
  alternatives must nil filter must_not minimum (a, b, c, d, e) = cc
  alternatives must (cons q qs) filter must_not minimum (a, b, c, d, e) =
      rw (a, b, c, e, bool_lem nil (cons q qs) nil nil none)
        (ground (arith, matching-any m (cons q qs)))

  or_should-matched : (q : SearchQuery) → IsAlternatives q → matches_any m (or_should q) ≡ m q
  unfolding or_should
  or_should-matched (bool_query must should filter must_not minimum) a =
      alternatives must should filter must_not minimum a
  or_should-matched match_all a = ground arith
  or_should-matched (term_query q) a = ground arith
  or_should-matched (terms_query q) a = ground arith
  or_should-matched (range_query q) a = ground arith
  or_should-matched (prefix_query q) a = ground arith
  or_should-matched (wildcard_query q) a = ground arith
  or_should-matched (match_query q) a = ground arith
  or_should-matched (phrase_query q) a = ground arith
  or_should-matched (multi_match_query q) a = ground arith
  or_should-matched (mlt_query q) a = ground arith

  or_should-non_empty :
      (q : SearchQuery) (qs : Queries)
      → IsAlternatives q
      → is_empty (extend (or_should q) qs) ≡ false
  unfolding or_should
  or_should-non_empty (bool_query must nil filter must_not minimum) qs (a, b, c, d, e) = cc
  or_should-non_empty (bool_query must (cons s ss) filter must_not minimum) qs a = refl
  or_should-non_empty match_all qs a = refl
  or_should-non_empty (term_query q) qs a = refl
  or_should-non_empty (terms_query q) qs a = refl
  or_should-non_empty (range_query q) qs a = refl
  or_should-non_empty (prefix_query q) qs a = refl
  or_should-non_empty (wildcard_query q) qs a = refl
  or_should-non_empty (match_query q) qs a = refl
  or_should-non_empty (phrase_query q) qs a = refl
  or_should-non_empty (multi_match_query q) qs a = refl
  or_should-non_empty (mlt_query q) qs a = refl

  -- Joined by OR, two queries match the documents that one of them matches, if each is no bool query,
  -- or is one that has should clauses and no others and leaves their number to the default.
  pub make_bool_should-matched :
      (left right : SearchQuery)
      → IsAlternatives left
      → IsAlternatives right
      → matched env document doc_id readers ctx (make_bool_should left right) ≡ (
          matched env document doc_id readers ctx left
          || matched env document doc_id readers ctx right)
  unfolding make_bool_should
  make_bool_should-matched left right a b =
      rw
        (
          or_must-nil left a,
          or_must-nil right b,
          ← alternatives nil (extend (or_should left) (or_should right)) nil nil none
              (refl, refl, refl, or_should-non_empty left (or_should right) a, refl),
          matches_any-extend m (or_should left) (or_should right),
        )
        (rw (or_should-matched left a, or_should-matched right b) refl)

  -- Joined by OR, a bool query with must clauses keeps these for both sides: a document that does not
  -- match all of them does not match, even where it matches the other side.
  pub make_bool_should_keeps_must :
      (must should filter must_not : Queries) (minimum : Option ℕ) (right : SearchQuery)
      → matches_all (matched env document doc_id readers ctx) must ≡ false
      → matched env document doc_id readers ctx
          (make_bool_should (bool_query must should filter must_not minimum) right)
        ≡ false
  unfolding make_bool_should or_must or_should
  make_bool_should_keeps_must must should filter must_not minimum right h =
      rw
        (
          bool_lem (extend must (or_must right)) (extend should (or_should right)) nil nil none,
          matches_all-extend m must (or_must right),
        )
        (ground arith)

  -- Joined by NOT, a query that has no must_not clauses and leaves the number of its should clauses
  -- to the default matches the documents that it matches and the other one does not.
  pub make_bool_must_not_and-matched :
      (left right : SearchQuery)
      → HasDefaultMinimum left
      → HasNoNegation left
      → matched env document doc_id readers ctx (make_bool_must_not_and left right) ≡ (
          matched env document doc_id readers ctx left
          && not (matched env document doc_id readers ctx right))
  unfolding make_bool_must_not_and
  make_bool_must_not_and-matched (bool_query must should filter must_not minimum) right d n =
      rw (d, n, bool_lem must should filter (one right) none, bool_lem must should filter nil none)
        (ground arith)
  make_bool_must_not_and-matched match_all right d n =
      rw (bool_lem (one match_all) nil nil (one right) none) (ground arith)
  make_bool_must_not_and-matched (term_query q) right d n =
      rw (bool_lem (one (term_query q)) nil nil (one right) none) (ground arith)
  make_bool_must_not_and-matched (terms_query q) right d n =
      rw (bool_lem (one (terms_query q)) nil nil (one right) none) (ground arith)
  make_bool_must_not_and-matched (range_query q) right d n =
      rw (bool_lem (one (range_query q)) nil nil (one right) none) (ground arith)
  make_bool_must_not_and-matched (prefix_query q) right d n =
      rw (bool_lem (one (prefix_query q)) nil nil (one right) none) (ground arith)
  make_bool_must_not_and-matched (wildcard_query q) right d n =
      rw (bool_lem (one (wildcard_query q)) nil nil (one right) none) (ground arith)
  make_bool_must_not_and-matched (match_query q) right d n =
      rw (bool_lem (one (match_query q)) nil nil (one right) none) (ground arith)
  make_bool_must_not_and-matched (phrase_query q) right d n =
      rw (bool_lem (one (phrase_query q)) nil nil (one right) none) (ground arith)
  make_bool_must_not_and-matched (multi_match_query q) right d n =
      rw (bool_lem (one (multi_match_query q)) nil nil (one right) none) (ground arith)
  make_bool_must_not_and-matched (mlt_query q) right d n =
      rw (bool_lem (one (mlt_query q)) nil nil (one right) none) (ground arith)
