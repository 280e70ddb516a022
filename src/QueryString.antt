-- ===== src/QueryString.antt =====
-- crates/cloudsearch-api/src/query_string.rs: query strings such as `status:active AND (a OR b)`.
-- Each call of the grammar's methods and each round of their loops takes one of the fuel; a round
-- reads a character at least and there are four calls to a character.
pub mod Lexer
pub mod Classify
pub mod Combine
pub mod Ensures
pub mod Ends
pub mod Termination
pub mod Meaning
mod Examples
use cloud_search.Prelude.{
  ℕ, zero, suc, ◌+◌, ◌*◌, Bool, true, false, not, ◌&&◌, Option, none, some, List, [], ◌∷◌, length,
  drop, if◌then◌else◌,
}
use cloud_search.Bytes.{Text, char_len, is_continuation}
use cloud_search.Json.{string}
use cloud_search.Common.{Result, ok, err, panic, invalid_search_request}
use cloud_search.Query.{SearchQuery, term_query}
use cloud_search.QueryString.Lexer.{
  ParseEnv, Parsed, parsed, failed, panicked, unfinished, ◌>>=◌, Token, colon, lparen, rparen,
  and_word, or_word, not_word, strip_operator, skip_whitespace, starts_with_char, skip, expect,
  skip_word, is_at_operator, read_word, read_value,
}
use cloud_search.QueryString.Classify.{classify_and_build_query, no_text}
use cloud_search.QueryString.Combine.{make_bool_must, make_bool_should, make_bool_must_not_and}

abbrev pub lift_result {ℓ} : {A : Type ℓ} → Result A → Text → Parsed A
lift_result (ok a) rest = parsed a rest
lift_result (err e) rest = failed e
lift_result panic rest = panicked

-- `start` is where the method began, to which it goes back.
unfoldable pub field_value : Text → Text → Text → Parsed (Option (Text × Text))
field_value start name rest = skip colon rest >>= λ skipped rest.
    if skipped
    then (read_value rest >>= λ value rest.
        if no_text value then failed invalid_search_request else parsed (some (name, value)) rest)
    else parsed none start

unfoldable pub try_parse_field_value : ParseEnv → Text → Parsed (Option (Text × Text))
try_parse_field_value env start =
    if no_text ((read_word env start).0)
    then parsed none start
    else field_value start ((read_word env start).0) ((read_word env start).1)

abbrev pub tag : Text
tag = b't' ∷ b'a' ∷ b'g' ∷ []

unfoldable pub parse_bare_word : ParseEnv → Text → Parsed SearchQuery
parse_bare_word env rest =
    if no_text ((read_word env rest).0)
    then failed invalid_search_request
    else parsed
        (term_query (record {
          field = tag;
          value = string ((read_word env rest).0);
          fuzziness = none;
          boost = none;
        }))
        ((read_word env rest).1)

unfoldable pub parse_clause : ParseEnv → Text → Parsed SearchQuery
parse_clause env rest = try_parse_field_value env rest >>= λ found rest. elim found [
  | some (name, value) ↦ lift_result (classify_and_build_query env name value) rest
  | none ↦ parse_bare_word env rest
]

-- What the loop of `parse_and_expr` does next, by the text at hand after white space.
pub data Next : Type 0 where
  operand : Text → Next
  stop : Next

unfoldable pub stop_at : ParseEnv → Text → Text → Next → Next
stop_at env word rest next = elim (strip_operator env word rest) [ some after ↦ stop | none ↦ next ]

unfoldable pub next_and : ParseEnv → Text → Next
next_and env [] = stop
next_and env (b ∷ t) =
    let implicit = if is_at_operator env (b ∷ t) then stop else operand (b ∷ t) in
    let others = stop_at env or_word (b ∷ t) (stop_at env not_word (b ∷ t) implicit) in
    if starts_with_char b')' (b ∷ t)
    then stop
    else elim (strip_operator env and_word (b ∷ t)) [ some after ↦ operand after | none ↦ others ]

unfoldable mutual
  pub parse_or_expr : ParseEnv → ℕ → Text → Parsed SearchQuery
  parse_or_expr env zero rest = unfinished
  parse_or_expr env (suc fuel) rest =
      parse_and_expr env fuel rest >>= λ left rest. or_loop env fuel left rest

  -- The loop looks for NOT first, then for OR.
  pub or_loop : ParseEnv → ℕ → SearchQuery → Text → Parsed SearchQuery
  or_loop env zero left rest = unfinished
  or_loop env (suc fuel) left rest = skip_whitespace rest >>= λ _ rest.
      elim (strip_operator env not_word rest) [
        | some after ↦ parse_and_expr env fuel after >>= λ right rest.
            or_loop env fuel (make_bool_must_not_and left right) rest
        | none ↦ skip_word env or_word rest >>= λ skipped rest.
            if skipped
            then (parse_and_expr env fuel rest >>= λ right rest.
                or_loop env fuel (make_bool_should left right) rest)
            else parsed left rest
      ]

  pub parse_and_expr : ParseEnv → ℕ → Text → Parsed SearchQuery
  parse_and_expr env zero rest = unfinished
  parse_and_expr env (suc fuel) rest =
      parse_primary env fuel rest >>= λ left rest. and_loop env fuel left rest

  pub and_loop : ParseEnv → ℕ → SearchQuery → Text → Parsed SearchQuery
  and_loop env zero left rest = unfinished
  and_loop env (suc fuel) left rest = skip_whitespace rest >>= λ _ rest. elim (next_and env rest) [
    | operand after ↦ parse_primary env fuel after >>= λ right rest.
        and_loop env fuel (make_bool_must left right) rest
    | stop ↦ parsed left rest
  ]

  pub parse_primary : ParseEnv → ℕ → Text → Parsed SearchQuery
  parse_primary env zero rest = unfinished
  parse_primary env (suc fuel) rest = skip lparen rest >>= λ skipped rest.
      if skipped
      then (parse_or_expr env fuel rest >>= λ query rest.
          expect rparen rest >>= λ _ rest. parsed query rest)
      else parse_clause env rest

unfoldable pub ensure_exhausted : Text → Parsed (Unit {0})
ensure_exhausted rest = skip_whitespace rest >>= λ _ rest.
    if no_text rest then parsed tt rest else failed invalid_search_request

unfoldable pub parse_query_string : ParseEnv → Text → Parsed SearchQuery
parse_query_string env input = parse_or_expr env (4 * length input + 4) input >>= λ query rest.
    ensure_exhausted rest >>= λ _ rest. parsed query rest
