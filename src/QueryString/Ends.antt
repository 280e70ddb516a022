-- ===== src/QueryString/Ends.antt =====
-- crates/cloudsearch-api/src/query_string.rs: the parser ends on every text, and what it answers.
use cloud_search.Prelude.{
  ℕ, ◌+◌, ◌<◌, ◌≡◌, ◌⊎◌, refl, Bool, true, false, Option, none, some, [], ◌∷◌, length,
  if◌then◌else◌, Bool-cases, Option-cases, inl, inr, arith, ap, ◌||◌,
}
use cloud_search.Bytes.{Text}
use cloud_search.Common.{CloudSearchError, Result, ok, err, panic, invalid_search_request}
use cloud_search.Query.{SearchQuery, bool_query, match_all}
use cloud_search.QueryString.Lexer.{
  ParseEnv, parsed, failed, ◌>>=◌, colon, strip_prefix, read_word, read_value,
}
use cloud_search.QueryString.Classify.{
  classify_and_build_query, build_lte, build_gt, build_lt, build_range, build_plain, build_fuzzy,
  build_term, parse_numeric, parse_fuzziness, range_of, strip_suffix, contains, no_text,
}
use cloud_search.QueryString.Ensures.{
  Ensures, when_parsed, when_failed, when_panicked, Ensures-bind, Skipped, skip-Skipped,
  read_word-Cut, read_value-Within,
}
use cloud_search.QueryString.{
  field_value, try_parse_field_value, parse_bare_word, parse_clause, lift_result,
}
use cloud_search.Common

-- A query that leaves the number of its `should` clauses to the default.
abbrev pub HasDefaultMinimum : SearchQuery → Type 0
HasDefaultMinimum (bool_query must should filter must_not minimum) = minimum ≡ none
HasDefaultMinimum match_all = Unit
HasDefaultMinimum _ = Unit

-- The same of a result that may have failed.
data Builds : Result SearchQuery → Type 0 where
  builds_ok : {q : SearchQuery} → HasDefaultMinimum q → Builds (ok q)
  builds_err : {e : CloudSearchError} → Builds (err e)
  builds_panic : Builds panic

Builds-bind :
    {A : Type 0} (m : Result A) (f : A → Result SearchQuery)
    → ((a : A) → Builds (f a))
    → Builds (Common.◌>>=◌ m f)
Builds-bind (ok a) f h = h a
Builds-bind (err e) f h = builds_err
Builds-bind panic f h = builds_panic

module _ (env : ParseEnv) (name : Text) where
  build_term-Builds : (value : Text) → Builds (ok (build_term env name value))
  unfolding build_term
  build_term-Builds value = elim (Bool-cases (contains b'*' value || contains b'?' value)) [
    | inl e ↦ rw (build_term, e) (builds_ok tt)
    | inr e ↦ rw (build_term, e) (builds_ok tt)
  ]

  build_plain-Builds : (value : Text) → Builds (build_plain env name value)
  unfolding build_plain build_fuzzy
  build_plain-Builds value = elim (Option-cases (strip_suffix b'~' value)) [
    | inl e ↦ rw (build_plain, e) (build_term-Builds value)
    | inr (before, e) ↦ rw (build_plain, e) (Builds-bind (parse_fuzziness _) _ (λ f. builds_ok tt))
  ]

  build_range-Builds : (value : Text) → Builds (build_range env name value)
  unfolding build_range
  build_range-Builds value = elim (Option-cases (range_of value)) [
    | inl e ↦ rw (build_range, e) (build_plain-Builds value)
    | inr ((lo, hi), e) ↦
        rw (build_range, e)
          (Builds-bind (parse_numeric env lo) _
            (λ a. Builds-bind (parse_numeric env hi) _ (λ b. builds_ok tt)))
  ]

  build_lt-Builds : (value : Text) → Builds (build_lt env name value)
  unfolding build_lt
  build_lt-Builds value = elim (Option-cases (strip_prefix (b'<' ∷ []) value)) [
    | inl e ↦ rw (build_lt, e) (build_range-Builds value)
    | inr (s, e) ↦ rw (build_lt, e) (Builds-bind (parse_numeric env s) _ (λ a. builds_ok tt))
  ]

  build_gt-Builds : (value : Text) → Builds (build_gt env name value)
  unfolding build_gt
  build_gt-Builds value = elim (Option-cases (strip_prefix (b'>' ∷ []) value)) [
    | inl e ↦ rw (build_gt, e) (build_lt-Builds value)
    | inr (s, e) ↦ rw (build_gt, e) (Builds-bind (parse_numeric env s) _ (λ a. builds_ok tt))
  ]

  build_lte-Builds : (value : Text) → Builds (build_lte env name value)
  unfolding build_lte
  build_lte-Builds value = elim (Option-cases (strip_prefix (b'<' ∷ b'=' ∷ []) value)) [
    | inl e ↦ rw (build_lte, e) (build_gt-Builds value)
    | inr (s, e) ↦ rw (build_lte, e) (Builds-bind (parse_numeric env s) _ (λ a. builds_ok tt))
  ]

  classify-Builds : (value : Text) → Builds (classify_and_build_query env name value)
  unfolding classify_and_build_query
  classify-Builds value = elim (Option-cases (strip_prefix (b'>' ∷ b'=' ∷ []) value)) [
    | inl e ↦ rw (classify_and_build_query, e) (build_lte-Builds value)
    | inr (s, e) ↦
        rw (classify_and_build_query, e) (Builds-bind (parse_numeric env s) _ (λ a. builds_ok tt))
  ]

-- A query that was read from `n` bytes, of which some were taken.
abbrev pub Reads : ℕ → SearchQuery → Text → Type 0
Reads n query rest = (length rest < n) × HasDefaultMinimum query

-- A field with its value takes some of the text; without one the text stays.
abbrev FoundIn : Text → Option (Text × Text) → Text → Type 0
FoundIn start none rest = rest ≡ start
FoundIn start (some found) rest = length rest < length start

-- A word that is read is empty, or it leaves less.
read_cases :
    (n : ℕ) (p : Text × Text)
    → length (p.0) + length (p.1) ≡ n
    → (no_text (p.0) ≡ true) ⊎ ((no_text (p.0) ≡ false) × (length (p.1) < n))
read_cases n ([], after) h = inl refl
read_cases n (b ∷ w, after) h = inr (refl, omega (arith, h))

bare-Reads :
    (env : ParseEnv) (start rest : Text)
    → rest ≡ start
    → Ensures (Reads (length start)) (parse_bare_word env rest)
unfolding parse_bare_word
bare-Reads env start rest same =
    elim (read_cases (length rest) (read_word env rest) (read_word-Cut env rest)) [
      | inl e ↦ rw (parse_bare_word, e) when_failed
      | inr (e, shorter) ↦
          rw (parse_bare_word, e) (when_parsed (omega (arith, shorter, ap length same), tt))
    ]

field_value-FoundIn :
    (start name rest : Text)
    → length rest < length start
    → Ensures (FoundIn start) (field_value start name rest)
unfolding field_value
field_value-FoundIn start name rest shorter =
    Ensures-bind (FoundIn start) _ (skip-Skipped colon rest) then_value
  where
    non_empty :
        (value after : Text)
        → length after < length start
        → Ensures (FoundIn start) (
            if no_text value
            then failed invalid_search_request
            else parsed (some (name, value)) after)
    non_empty [] after p = when_failed
    non_empty (b ∷ w) after p = when_parsed p

    then_value :
        (skipped : Bool) (after : Text)
        → Skipped (length rest) skipped after
        → Ensures (FoundIn start) (
            if skipped
            then (read_value after >>= λ value rest.
                if no_text value
                then failed invalid_search_request
                else parsed (some (name, value)) rest)
            else parsed none start)
    then_value false after p = when_parsed refl
    then_value true after p =
        Ensures-bind (FoundIn start) _ (read_value-Within after)
          (λ value r q. non_empty value r (omega (arith, p, q, shorter)))

try_parse-FoundIn :
    (env : ParseEnv) (start : Text) → Ensures (FoundIn start) (try_parse_field_value env start)
unfolding try_parse_field_value
try_parse-FoundIn env start =
    elim (read_cases (length start) (read_word env start) (read_word-Cut env start)) [
      | inl e ↦ rw (try_parse_field_value, e) (when_parsed refl)
      | inr (e, shorter) ↦ rw (try_parse_field_value, e) (field_value-FoundIn start _ _ shorter)
    ]

lift-Reads :
    (n : ℕ) (r : Result SearchQuery) (rest : Text)
    → Builds r
    → length rest < n
    → Ensures (Reads n) (lift_result r rest)
lift-Reads n _ rest (builds_ok h) p = when_parsed (p, h)
lift-Reads n _ rest builds_err p = when_failed
lift-Reads n _ rest builds_panic p = when_panicked

pub parse_clause-Reads :
    (env : ParseEnv) (t : Text) → Ensures (Reads (length t)) (parse_clause env t)
unfolding parse_clause
parse_clause-Reads env t = Ensures-bind (Reads (length t)) _ (try_parse-FoundIn env t) by_found
  where
    by_found :
        (found : Option (Text × Text)) (rest : Text)
        → FoundIn t found rest
        → Ensures (Reads (length t)) (elim found [
          | some (name, value) ↦ lift_result (classify_and_build_query env name value) rest
          | none ↦ parse_bare_word env rest
        ])
    by_found none rest same = bare-Reads env t rest same
    by_found (some (name, value)) rest p =
        lift-Reads (length t) (classify_and_build_query env name value) rest
          (classify-Builds env name value) p
