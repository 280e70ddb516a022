-- ===== src/QueryString/Examples.antt =====
-- Runs of the parser, and the theorems about it at concrete inputs.
use cloud_search.Prelude.{◌≡◌, refl, Bool, false, not, ◌&&◌, ◌||◌, none, [], ◌∷◌, leb}
use cloud_search.Bytes.{Text}
use cloud_search.Json.{string}
use cloud_search.Index.Tokens.{
  white_space, tokenize, split_whitespace, split_from, push_word, to_ascii_lowercase,
}
use cloud_search.Query.{SearchQuery, term_query, bool_query, nil, one}
use cloud_search.Query.Clauses.{matched, matches_all}
use cloud_search.Query.Fixtures.{query_env, document, context}
use cloud_search.Query.Match.{score_term_query, term_tf}
use cloud_search.Query.Bm25.{contains_token, postings_tf, count_token, u32_or_zero}
use cloud_search.Query.Score.{score_query, score_term}
use cloud_search.QueryString.Lexer.{ParseEnv}
use cloud_search.QueryString.Combine.{make_bool_must, make_bool_should, make_bool_must_not_and}
use cloud_search.QueryString.Ensures.{Ensures}
use cloud_search.QueryString.Ends.{HasDefaultMinimum}
use cloud_search.QueryString.Termination.{parse_query_string-Ensures}
use cloud_search.QueryString.Meaning.{
  make_bool_must-matched, make_bool_should-matched, make_bool_should_keeps_must,
  make_bool_must_not_and-matched,
}
use cloud_search.QueryString.{tag, parse_query_string}

abbrev ascii_word : Text → Bool
ascii_word [] = false
ascii_word (b ∷ t) =
    (leb b'0' b && leb b b'9') || ((leb b'A' b && leb b b'Z') || (leb b'a' b && leb b b'z'))

abbrev env : ParseEnv
env = record { is_alphanumeric = ascii_word; from_str = λ t. none; parse_f64 = λ t. none }

abbrev a_or_b : Text
a_or_b = b'a' ∷ b' ' ∷ b'O' ∷ b'R' ∷ b' ' ∷ b'b' ∷ []

abbrev a_term : SearchQuery
a_term =
    term_query (record { field = tag; value = string (b'a' ∷ []); fuzziness = none; boost = none })

abbrev b_term : SearchQuery
b_term =
    term_query (record { field = tag; value = string (b'b' ∷ []); fuzziness = none; boost = none })

parse_query_string-Ensures_example :
    Ensures (λ query rest. HasDefaultMinimum query) (parse_query_string env a_or_b)
parse_query_string-Ensures_example = parse_query_string-Ensures env a_or_b

make_bool_must-matched_example :
    matched query_env document 1 [] context (make_bool_must a_term b_term) ≡ (
      matched query_env document 1 [] context a_term
      && matched query_env document 1 [] context b_term)
make_bool_must-matched_example =
    make_bool_must-matched query_env document 1 [] context a_term b_term tt tt

make_bool_should-matched_example :
    matched query_env document 1 [] context (make_bool_should a_term b_term) ≡ (
      matched query_env document 1 [] context a_term
      || matched query_env document 1 [] context b_term)
make_bool_should-matched_example =
    make_bool_should-matched query_env document 1 [] context a_term b_term tt tt

make_bool_must_not_and-matched_example :
    matched query_env document 1 [] context (make_bool_must_not_and a_term b_term) ≡ (
      matched query_env document 1 [] context a_term
      && not (matched query_env document 1 [] context b_term))
make_bool_must_not_and-matched_example =
    make_bool_must_not_and-matched query_env document 1 [] context a_term b_term tt tt

a_fails : matches_all (matched query_env document 1 [] context) (one a_term) ≡ false
unfolding score_query score_term score_term_query term_tf postings_tf count_token tokenize
    split_whitespace split_from push_word white_space to_ascii_lowercase u32_or_zero contains_token
a_fails = refl

-- The document has the tag `b`, and not the tag `a`.
make_bool_should_keeps_must_example :
    matched query_env document 1 [] context
      (make_bool_should (bool_query (one a_term) nil nil nil none) b_term)
    ≡ false
make_bool_should_keeps_must_example =
    make_bool_should_keeps_must query_env document 1 [] context (one a_term) nil nil nil none b_term
      a_fails
