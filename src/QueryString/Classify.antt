-- ===== src/QueryString/Classify.antt =====
-- crates/cloudsearch-api/src/query_string.rs: `classify_and_build_query`, which makes a query of a
-- field and its value, and the numbers and values that it reads.
use cloud_search.Prelude.{
  ℕ, zero, suc, ◌+◌, ◌-◌, ◌*◌, ◌/◌, ◌%◌, ◌^◌, Bool, true, false, ◌&&◌, ◌||◌, Option, none, some, [],
  ◌∷◌, length, take, drop, ltb, leb, ◌==◌, if◌then◌else◌,
}
use cloud_search.Prelude.Order.{text_ord}
use cloud_search.Bytes.{Text}
use cloud_search.Json.{Value, null, number, string, pos_int, neg_int, float}
use cloud_search.Common.{Result, ok, err, invalid_search_request, ◌>>=◌}
use cloud_search.Index.Tokens.{find, to_ascii_lowercase}
use cloud_search.Query.{
  SearchQuery, Fuzziness, auto, exact, term_query, range_query, wildcard_query,
}
use cloud_search.QueryString.Lexer.{ParseEnv, strip_prefix}
use Prim.Native.Nat.Ordering.{eq}

-- The number that decimal digits stand for; `none` where there is another byte.
unfoldable pub digits_from : ℕ → Text → Option ℕ
digits_from n [] = some n
digits_from n (b ∷ t) =
    let rest = digits_from (n * 10 + (b - b'0')) t in
    if leb b'0' b && leb b b'9' then rest else none

unfoldable pub digits : Text → Option ℕ
digits [] = none
digits (b ∷ t) = digits_from 0 (b ∷ t)

-- `str::parse::<usize>`, which takes a plus sign.
unfoldable pub parse_usize : Text → Option ℕ
parse_usize [] = none
parse_usize (b ∷ t) = elim (digits (if b == b'+' then t else b ∷ t)) [
  | none ↦ none
  | some n ↦ if ltb n (2 ^ 64) then some n else none
]

-- `str::parse::<i64>`, and the number of JSON that is made of it.
unfoldable pub negative : Option ℕ → Option Value
negative none = none
negative (some zero) = some (number (pos_int 0))
negative (some (suc n)) = if ltb n (2 ^ 63) then some (number (neg_int n)) else none

unfoldable pub parse_i64 : Text → Option Value
parse_i64 [] = none
parse_i64 (b ∷ t) =
    let plain : Option Value = elim (digits (if b == b'+' then t else b ∷ t)) [
      | none ↦ none
      | some n ↦ if ltb n (2 ^ 63) then some (number (pos_int n)) else none
    ] in
    if b == b'-' then negative (digits t) else plain

-- `json!` of a `f64`: an infinity and a NaN are null.
unfoldable pub json_f64 : ℕ → Value
json_f64 bits = if (bits / 2 ^ 52) % 2048 == 2047 then null else number (float bits)

unfoldable pub parse_numeric : ParseEnv → Text → Result Value
parse_numeric env s = elim (parse_i64 s) [
  | some v ↦ ok v
  | none ↦ elim (env.parse_f64 s) [
    | some bits ↦ ok (json_f64 bits)
    | none ↦ err invalid_search_request
  ]
]

unfoldable pub parse_value : ParseEnv → Text → Value
parse_value env s = elim (env.from_str s) [ some v ↦ v | none ↦ string s ]

-- `str::split_once`.
unfoldable pub split_once : Text → Text → Option (Text × Text)
split_once separator s = elim (find separator s) [
  | none ↦ none
  | some i ↦ some (take i s, drop (i + length separator) s)
]

-- The text before the character at the end, where the text ends with it.
unfoldable pub strip_suffix : ℕ → Text → Option Text
strip_suffix c [] = none
strip_suffix c (b ∷ []) = if b == c then some [] else none
strip_suffix c (b ∷ d ∷ t) = elim (strip_suffix c (d ∷ t)) [
  | none ↦ none
  | some before ↦ some (b ∷ before)
]

unfoldable pub contains : ℕ → Text → Bool
contains c [] = false
contains c (b ∷ t) = (b == c) || contains c t

abbrev pub no_text : Text → Bool
no_text [] = true
no_text (b ∷ t) = false

abbrev pub same_text : Text → Text → Bool
same_text s t = elim (text_ord.cmp s t) [ eq ↦ true | _ ↦ false ]

abbrev pub auto_word : Text
auto_word = b'a' ∷ b'u' ∷ b't' ∷ b'o' ∷ []

abbrev pub dots : Text
dots = b'.' ∷ b'.' ∷ []

unfoldable pub parse_fuzziness : Text → Result Fuzziness
parse_fuzziness suffix =
    if no_text suffix
    then err invalid_search_request
    else if same_text (to_ascii_lowercase suffix) auto_word
    then ok auto
    else elim (parse_usize suffix) [
      | some dist ↦ ok (exact dist)
      | none ↦ err invalid_search_request
    ]

-- The range `lo..hi` of a value that has one, with an end at least.
unfoldable pub range_of : Text → Option (Text × Text)
range_of value = elim (split_once dots value) [
  | none ↦ none
  | some (lo, hi) ↦ if no_text lo && no_text hi then none else some (lo, hi)
]

unfoldable pub build_term : ParseEnv → Text → Text → SearchQuery
build_term env name value =
    if contains b'*' value || contains b'?' value
    then wildcard_query (record { field = name; value = value })
    else term_query
        (record { field = name; value = parse_value env value; fuzziness = none; boost = none })

unfoldable pub build_fuzzy : ParseEnv → Text → Text → Result SearchQuery
build_fuzzy env name with_tilde =
    let parts : Text × Text = elim (split_once (b'~' ∷ []) with_tilde) [
      | some (base, suffix) ↦ (base, suffix)
      | none ↦ (with_tilde, [])
    ] in
    parse_fuzziness (parts.1) >>= λ fuzziness. ok (
      term_query (record {
        field = name;
        value = parse_value env (parts.0);
        fuzziness = some fuzziness;
        boost = none;
      }))

unfoldable pub build_plain : ParseEnv → Text → Text → Result SearchQuery
build_plain env name value = elim (strip_suffix b'~' value) [
  | some with_tilde ↦ build_fuzzy env name with_tilde
  | none ↦ ok (build_term env name value)
]

-- The bounds are tried in this order: `>=`, `<=`, `>`, `<`, a range.
unfoldable pub build_range : ParseEnv → Text → Text → Result SearchQuery
build_range env name value = elim (range_of value) [
  | none ↦ build_plain env name value
  | some (lo, hi) ↦ parse_numeric env lo >>= λ lo_num. parse_numeric env hi >>= λ hi_num. ok (
      range_query
        (record { field = name; gte = some lo_num; gt = none; lte = some hi_num; lt = none }))
]

unfoldable pub build_lt : ParseEnv → Text → Text → Result SearchQuery
build_lt env name value = elim (strip_prefix (b'<' ∷ []) value) [
  | none ↦ build_range env name value
  | some stripped ↦ parse_numeric env stripped >>= λ num.
      ok (range_query (record { field = name; gte = none; gt = none; lte = none; lt = some num }))
]

unfoldable pub build_gt : ParseEnv → Text → Text → Result SearchQuery
build_gt env name value = elim (strip_prefix (b'>' ∷ []) value) [
  | none ↦ build_lt env name value
  | some stripped ↦ parse_numeric env stripped >>= λ num.
      ok (range_query (record { field = name; gte = none; gt = some num; lte = none; lt = none }))
]

unfoldable pub build_lte : ParseEnv → Text → Text → Result SearchQuery
build_lte env name value = elim (strip_prefix (b'<' ∷ b'=' ∷ []) value) [
  | none ↦ build_gt env name value
  | some stripped ↦ parse_numeric env stripped >>= λ num.
      ok (range_query (record { field = name; gte = none; gt = none; lte = some num; lt = none }))
]

unfoldable pub classify_and_build_query : ParseEnv → Text → Text → Result SearchQuery
classify_and_build_query env name value = elim (strip_prefix (b'>' ∷ b'=' ∷ []) value) [
  | none ↦ build_lte env name value
  | some stripped ↦ parse_numeric env stripped >>= λ num.
      ok (range_query (record { field = name; gte = some num; gt = none; lte = none; lt = none }))
]
