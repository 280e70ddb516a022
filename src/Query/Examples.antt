-- ===== src/Query/Examples.antt =====
-- The theorems about queries at concrete inputs.
use cloud_search.Prelude.{ℕ, ◌≡◌, ◌≤◌, refl, none, some, [], ◌∷◌, arith}
use cloud_search.Prelude.Order.{text_ord}
use cloud_search.Bytes.{Text, char_cells, char_cells_from, char_len}
use cloud_search.Common.{FieldType}
use cloud_search.Query.{
  SearchQuery, match_all, match_query, MatchQuery, range_query, bool_query, nil, one,
}
use cloud_search.Query.Score.{is_some}
use cloud_search.Query.Match.{score_match_query, field_text}
use cloud_search.Query.Clauses.{matched, bool_matches, score_query-bool_matches}
use cloud_search.Query.Unflushed.{shares_token, score_match_query-shares_token}
use cloud_search.Query.Fuzzy.{levenshtein_distance}
use cloud_search.Query.Fuzzy.Scripts.{Script}
use cloud_search.Query.Fuzzy.Distance.{
  chars, levenshtein_distance_least, levenshtein_distance_multibyte,
}
use cloud_search.Query.Validate.{Mappings, validate_query}
use cloud_search.Query.Validate.Fits.{Fits, Judges, validate_query-Judges}
use cloud_search.Index.Tokens.{tokenize}
use cloud_search.Query.Fixtures.{query_env, context, tag_name, document}

abbrev b_query : MatchQuery
b_query = record { field = tag_name; value = b'b' ∷ [] }

score_query-bool_matches_example :
    matched query_env document 1 [] context
      (bool_query (one match_all) (one (match_query b_query)) nil nil (some 1))
    ≡ bool_matches
        (matched query_env document 1 [] context)
        (one match_all)
        (one (match_query b_query))
        nil
        nil
        (some 1)
score_query-bool_matches_example =
    score_query-bool_matches query_env document 1 [] context (one match_all)
      (one (match_query b_query)) nil nil (some 1)

score_match_query-shares_token_example :
    is_some (score_match_query query_env document b_query 1 [] context)
    ≡ shares_token (tokenize (b'b' ∷ [])) (tokenize (b'b' ∷ []))
score_match_query-shares_token_example =
    unfold field_text in score_match_query-shares_token query_env document b_query 1 context

abbrev cat : Text
cat = b'c' ∷ b'a' ∷ b't' ∷ []

abbrev cart : Text
cart = b'c' ∷ b'a' ∷ b'r' ∷ b't' ∷ []

levenshtein_distance_least_example :
    Script (chars cat) (chars cart) (levenshtein_distance cat cart)
    × ((n : ℕ) → Script (chars cat) (chars cart) n → levenshtein_distance cat cart ≤ n)
levenshtein_distance_least_example = levenshtein_distance_least cat cart (omega arith) (omega arith)

-- An `é`, which has two bytes.
levenshtein_distance_multibyte_example : levenshtein_distance (0xC3 ∷ 0xA9 ∷ []) cart ≡ 0
levenshtein_distance_multibyte_example =
    levenshtein_distance_multibyte 0xC3 b'c' (0xA9 ∷ []) (b'a' ∷ b'r' ∷ b't' ∷ [])
      (some (0xC3 ∷ 0xA9 ∷ []) ∷ []) (unfold char_cells char_cells_from char_len in refl)

abbrev tag_mapping : Mappings
tag_mapping = (tag_name, FieldType.keyword) ∷ []

abbrev tag_range : SearchQuery
tag_range = range_query (record { field = tag_name; gte = none; gt = none; lte = none; lt = none })

validate_query-Judges_example :
    Judges (Fits tag_mapping tag_range) (validate_query tag_mapping tag_range)
validate_query-Judges_example = validate_query-Judges tag_mapping tag_range
