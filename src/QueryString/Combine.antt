-- ===== src/QueryString/Combine.antt =====
-- crates/cloudsearch-api/src/query_string.rs: how the parser joins two queries by AND, OR and NOT.
use cloud_search.Prelude.{not, ◌||◌, none, if◌then◌else◌}
use cloud_search.Query.{SearchQuery, Queries, match_all, bool_query, nil, extend, one, is_empty}

-- What one side of an AND adds to the clauses that must match.
unfoldable pub must_part : SearchQuery → Queries
must_part (bool_query must should filter must_not minimum) =
    if not (is_empty must) || not (is_empty filter)
    then one (bool_query must should filter nil none)
    else if not (is_empty should)
    then one (bool_query nil should nil nil none)
    else nil
must_part match_all = one match_all
must_part other = one other

unfoldable pub must_not_part : SearchQuery → Queries
must_not_part (bool_query must should filter must_not minimum) = must_not
must_not_part match_all = nil
must_not_part _ = nil

unfoldable pub make_bool_must : SearchQuery → SearchQuery → SearchQuery
make_bool_must left right =
    bool_query (extend (must_part left) (must_part right)) nil nil
      (extend (must_not_part left) (must_not_part right)) none

-- What one side of an OR adds to the clauses of either kind.
unfoldable pub or_must : SearchQuery → Queries
or_must (bool_query must should filter must_not minimum) = must
or_must match_all = nil
or_must _ = nil

unfoldable pub or_should : SearchQuery → Queries
or_should (bool_query must should filter must_not minimum) = should
or_should match_all = one match_all
or_should other = one other

unfoldable pub make_bool_should : SearchQuery → SearchQuery → SearchQuery
make_bool_should left right =
    bool_query (extend (or_must left) (or_must right)) (extend (or_should left) (or_should right))
      nil nil none

unfoldable pub make_bool_must_not_and : SearchQuery → SearchQuery → SearchQuery
make_bool_must_not_and (bool_query must should filter must_not minimum) right =
    bool_query must should filter (one right) none
make_bool_must_not_and match_all right = bool_query (one match_all) nil nil (one right) none
make_bool_must_not_and other right = bool_query (one other) nil nil (one right) none
