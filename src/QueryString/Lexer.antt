-- ===== src/QueryString/Lexer.antt =====
-- crates/cloudsearch-api/src/query_string.rs: the methods of `Parser` that read characters. The
-- parser's `input` and `pos` are the text that is left, `input[pos..]`.
use cloud_search.Prelude.{
  ℕ, zero, suc, ◌-◌, Bool, true, false, not, ◌&&◌, ◌||◌, Option, none, some, [], ◌∷◌, length, take,
  drop, ltb, ◌==◌, if◌then◌else◌,
}
use cloud_search.Bytes.{Text, char_len, is_continuation}
use cloud_search.Json.{Value}
use cloud_search.Common.{CloudSearchError, invalid_search_request}
use cloud_search.Suggest.{starts_with}
use cloud_search.Index.Tokens.{white_space}

-- What the parser calls of other code: `char::is_alphanumeric`, which goes by the tables of Unicode
-- and takes the bytes of a character here, `serde_json::from_str`, and the value of a decimal text as
-- the bit pattern of a `f64`.
pub record ParseEnv : Type 0 where
  pub is_alphanumeric : Text → Bool
  pub from_str : Text → Option Value
  pub parse_f64 : Text → Option ℕ

-- A method's result with the text that it leaves. `panicked` is a slice within a character, and
-- `unfinished` a recursion that is deeper than its fuel.
pub data Parsed {ℓ} (A : Type ℓ) : Type ℓ where
  parsed : A → Text → Parsed A
  failed : CloudSearchError → Parsed A
  panicked : Parsed A
  unfinished : Parsed A

infixl 5 ◌>>=◌
abbrev pub ◌>>=◌ {ℓ κ} : {A : Type ℓ} {B : Type κ} → Parsed A → (A → Text → Parsed B) → Parsed B
parsed a rest >>= f = f a rest
failed e >>= f = failed e
panicked >>= f = panicked
unfinished >>= f = unfinished

pub data Token : Type 0 where
  colon lparen rparen : Token

abbrev pub token_char : Token → ℕ
token_char colon = b':'
token_char lparen = b'('
token_char rparen = b')'

abbrev pub and_word : Text
and_word = b'A' ∷ b'N' ∷ b'D' ∷ []

abbrev pub or_word : Text
or_word = b'O' ∷ b'R' ∷ []

abbrev pub not_word : Text
not_word = b'N' ∷ b'O' ∷ b'T' ∷ []

-- Whether the next character is alphanumeric, `_` or `-`.
unfoldable pub word_char : ParseEnv → Text → Bool
word_char env [] = false
word_char env (b ∷ t) =
    env.is_alphanumeric (take (char_len b) (b ∷ t)) || ((b == b'_') || (b == b'-'))

unfoldable pub strip_prefix : Text → Text → Option Text
strip_prefix p t = if starts_with p t then some (drop (length p) t) else none

-- A keyword at the front that no character of a word follows, and what follows it.
unfoldable pub strip_operator : ParseEnv → Text → Text → Option Text
strip_operator env word rest = elim (strip_prefix word rest) [
  | none ↦ none
  | some after ↦ if word_char env after then none else some after
]

unfoldable pub skip_whitespace : Text → Parsed (Unit {0})
skip_whitespace [] = parsed tt []
skip_whitespace (b ∷ t) =
    let later = skip_whitespace t in
    if is_continuation b
    then panicked
    else if white_space (b ∷ t) == 0
    then parsed tt (b ∷ t)
    else later

abbrev pub starts_with_char : ℕ → Text → Bool
starts_with_char c [] = false
starts_with_char c (b ∷ t) = b == c

unfoldable pub skip : Token → Text → Parsed Bool
skip token rest = skip_whitespace rest >>= λ _ rest.
    if starts_with_char (token_char token) rest
    then parsed true (drop 1 rest)
    else parsed false rest

unfoldable pub expect : Token → Text → Parsed (Unit {0})
expect token rest = skip token rest >>= λ skipped rest.
    if skipped then parsed tt rest else failed invalid_search_request

unfoldable pub skip_word : ParseEnv → Text → Text → Parsed Bool
skip_word env word rest = skip_whitespace rest >>= λ _ rest. elim (strip_operator env word rest) [
  | none ↦ parsed false rest
  | some after ↦ parsed true after
]

unfoldable pub is_operator_start : Text → Bool
is_operator_start rest =
    starts_with and_word rest
    || (starts_with or_word rest
        || (starts_with not_word rest
            || (starts_with_char b'(' rest || starts_with_char b')' rest)))

unfoldable pub is_at_operator : ParseEnv → Text → Bool
is_at_operator env rest = elim (strip_prefix and_word rest) [
  | some after ↦ not (word_char env after)
  | none ↦ elim (strip_prefix or_word rest) [
    | some after ↦ not (word_char env after)
    | none ↦ elim (strip_prefix not_word rest) [
      | some after ↦ not (word_char env after)
      | none ↦ false
    ]
  ]
]

abbrev pub push_byte : ℕ → Text × Text → Text × Text
push_byte b (word, rest) = (b ∷ word, rest)

-- `more` bytes of a character that was read are still to be taken.
unfoldable pub read_word_from : ParseEnv → ℕ → Text → Text × Text
read_word_from env more [] = ([], [])
read_word_from env (suc more) (b ∷ t) = push_byte b (read_word_from env more t)
read_word_from env zero (b ∷ t) =
    let longer = push_byte b (read_word_from env (char_len b - 1) t) in
    if word_char env (b ∷ t) then longer else ([], b ∷ t)

-- The word and what follows it.
unfoldable pub read_word : ParseEnv → Text → Text × Text
read_word env rest = read_word_from env 0 rest

unfoldable pub read_plain : ℕ → Text → Text × Text
read_plain more [] = ([], [])
read_plain (suc more) (b ∷ t) = push_byte b (read_plain more t)
read_plain zero (b ∷ t) =
    let longer = push_byte b (read_plain (char_len b - 1) t) in
    if not (white_space (b ∷ t) == 0) || is_operator_start (b ∷ t) then ([], b ∷ t) else longer

abbrev pub push_parsed : ℕ → Parsed Text → Parsed Text
push_parsed b p = p >>= λ word rest. parsed (b ∷ word) rest

-- The text after the opening quote. A backslash takes the byte after it along.
unfoldable pub read_quoted_string : ℕ → Text → Parsed Text
read_quoted_string more [] = failed invalid_search_request
read_quoted_string (suc more) (b ∷ t) = push_parsed b (read_quoted_string more t)
read_quoted_string zero (b ∷ t) =
    let escaped = push_parsed b (read_quoted_string 1 t) in
    let longer = push_parsed b (read_quoted_string (char_len b - 1) t) in
    if is_continuation b
    then panicked
    else if (b == b'\\') && ltb 0 (length t)
    then escaped
    else if b == b'"'
    then parsed [] t
    else longer

unfoldable pub read_value : Text → Parsed Text
read_value rest = skip_whitespace rest >>= λ _ rest.
    if starts_with_char b'"' rest
    then read_quoted_string 0 (drop 1 rest)
    else parsed ((read_plain 0 rest).0) ((read_plain 0 rest).1)
