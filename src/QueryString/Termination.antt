-- ===== src/QueryString/Termination.antt =====
-- crates/cloudsearch-api/src/query_string.rs: the parser ends on every text.
use cloud_search.Prelude.{
  ℕ, zero, suc, ◌+◌, ◌*◌, ◌≤◌, refl, Bool, true, false, [], ◌∷◌, length, if◌then◌else◌, Bool-cases,
  Option-cases, inl, inr, arith,
}
use cloud_search.Bytes.{Text}
use cloud_search.Query.{
  SearchQuery, match_all, term_query, terms_query, range_query, bool_query, prefix_query,
  wildcard_query, match_query, phrase_query, multi_match_query, mlt_query,
}
use cloud_search.QueryString.Lexer.{
  ParseEnv, parsed, ◌>>=◌, lparen, rparen, and_word, or_word, not_word, strip_operator,
  starts_with_char, is_at_operator,
}
use cloud_search.QueryString.Classify.{no_text}
use cloud_search.QueryString.Combine.{make_bool_must, make_bool_should, make_bool_must_not_and}
use cloud_search.QueryString.Ensures.{
  Ensures, when_parsed, when_failed, Ensures-bind, Ensures-mono, Ensures-skip, Within,
  skip_whitespace-Within, skip-Skipped, expect-Within, skip_word-Skipped, strip_operator-length,
}
use cloud_search.QueryString.Ends.{Reads, HasDefaultMinimum, parse_clause-Reads}
use cloud_search.QueryString.{
  Next, operand, stop, next_and, stop_at, parse_or_expr, or_loop, parse_and_expr, and_loop,
  parse_primary, ensure_exhausted, parse_query_string,
}

must_not_and-HasDefaultMinimum :
    (left right : SearchQuery) → HasDefaultMinimum (make_bool_must_not_and left right)
unfolding make_bool_must_not_and
must_not_and-HasDefaultMinimum match_all right = refl
must_not_and-HasDefaultMinimum (term_query q) right = refl
must_not_and-HasDefaultMinimum (terms_query q) right = refl
must_not_and-HasDefaultMinimum (range_query q) right = refl
must_not_and-HasDefaultMinimum (bool_query m s f n k) right = refl
must_not_and-HasDefaultMinimum (prefix_query q) right = refl
must_not_and-HasDefaultMinimum (wildcard_query q) right = refl
must_not_and-HasDefaultMinimum (match_query q) right = refl
must_not_and-HasDefaultMinimum (phrase_query q) right = refl
must_not_and-HasDefaultMinimum (multi_match_query q) right = refl
must_not_and-HasDefaultMinimum (mlt_query q) right = refl

must-HasDefaultMinimum : (left right : SearchQuery) → HasDefaultMinimum (make_bool_must left right)
unfolding make_bool_must
must-HasDefaultMinimum left right = refl

should-HasDefaultMinimum :
    (left right : SearchQuery) → HasDefaultMinimum (make_bool_should left right)
unfolding make_bool_should
should-HasDefaultMinimum left right = refl

-- The next operand of an AND is in the text at hand.
data NextIn (rest : Text) : Next → Type 0 where
  in_operand : {after : Text} → length after ≤ length rest → NextIn rest (operand after)
  in_stop : NextIn rest stop

stop_at-NextIn :
    (env : ParseEnv) (word rest : Text) {next : Next}
    → NextIn rest next
    → NextIn rest (stop_at env word rest next)
unfolding stop_at
stop_at-NextIn env word rest h = elim (Option-cases (strip_operator env word rest)) [
  | inl e ↦ rw (stop_at, e) h
  | inr (after, e) ↦ rw (stop_at, e) in_stop
]

next_and-NextIn : (env : ParseEnv) (rest : Text) → NextIn rest (next_and env rest)
unfolding next_and
next_and-NextIn env [] = in_stop
next_and-NextIn env (b ∷ t) = elim (Bool-cases (starts_with_char b')' (b ∷ t))) [
  | inl p ↦ rw (next_and, p) in_stop
  | inr p ↦ elim (Option-cases (strip_operator env and_word (b ∷ t))) [
    | inr (after, e) ↦
        rw (next_and, p, e)
          (in_operand (omega (arith, strip_operator-length env and_word (b ∷ t) after refl e)))
    | inl e ↦
        rw (next_and, p, e)
          (stop_at-NextIn env or_word (b ∷ t)
            (stop_at-NextIn env not_word (b ∷ t) (implicit (is_at_operator env (b ∷ t)))))
  ]
]
  where
    implicit : (p : Bool) → NextIn (b ∷ t) (if p then stop else operand (b ∷ t))
    implicit true = in_stop
    implicit false = in_operand (omega arith)

-- One round of the loop of `parse_and_expr`, of the two calls in it.
and_step :
    (env : ParseEnv) (fuel : ℕ) (left : SearchQuery) (t rest : Text) (next : Next)
    → length rest ≤ length t
    → 4 * length t + 2 ≤ suc fuel
    → HasDefaultMinimum left
    → NextIn rest next
    → ((u : Text) → 4 * length u + 1 ≤ fuel → Ensures (Reads (length u)) (parse_primary env fuel u))
    → ((l : SearchQuery) (u : Text)
        → 4 * length u + 2 ≤ fuel
        → HasDefaultMinimum l
        → Ensures (Reads (suc (length u))) (and_loop env fuel l u))
    → Ensures (Reads (suc (length t))) (elim next [
      | operand after ↦ parse_primary env fuel after >>= λ right rest.
          and_loop env fuel (make_bool_must left right) rest
      | stop ↦ parsed left rest
    ])
and_step env fuel left t rest _ p h d in_stop primary loop = when_parsed (omega (arith, p), d)
and_step env fuel left t rest _ p h d (in_operand {after} q) primary loop =
    Ensures-bind (Reads (suc (length t))) _ (primary after (omega (arith, h, p, q))) (λ right r k.
      Ensures-mono (Reads (suc (length t)))
        (loop (make_bool_must left right) r (omega (arith, h, p, q, k.0))
          (must-HasDefaultMinimum left right))
        (λ query u l. (omega (arith, l.0, k.0, p, q), l.1)))

mutual
  unfolding parse_or_expr or_loop parse_and_expr and_loop parse_primary

  or_expr-Reads :
      (env : ParseEnv) (fuel : ℕ) (t : Text)
      → 4 * length t + 3 ≤ fuel
      → Ensures (Reads (length t)) (parse_or_expr env fuel t)
  or_expr-Reads env zero t h = absurd (omega (arith, h))
  or_expr-Reads env (suc fuel) t h =
      Ensures-bind (Reads (length t)) _ (and_expr-Reads env fuel t (omega (arith, h)))
        (λ left rest p.
          Ensures-mono (Reads (length t))
            (or_loop-Reads env fuel left rest (omega (arith, h, p.0)) (p.1))
            (λ q r k. (omega (arith, k.0, p.0), k.1)))

  or_loop-Reads :
      (env : ParseEnv) (fuel : ℕ) (left : SearchQuery) (t : Text)
      → 4 * length t + 3 ≤ fuel
      → HasDefaultMinimum left
      → Ensures (Reads (suc (length t))) (or_loop env fuel left t)
  or_loop-Reads env zero left t h d = absurd (omega (arith, h))
  or_loop-Reads env (suc fuel) left t h d =
      Ensures-bind (Reads (suc (length t))) _ (skip_whitespace-Within t) (λ a rest p.
        elim (Option-cases (strip_operator env not_word rest)) [
          | inr (after, e) ↦
              rw (or_loop, e)
                (Ensures-bind (Reads (suc (length t))) _
                  (and_expr-Reads env fuel after
                    (omega (arith, h, p, strip_operator-length env not_word rest after refl e)))
                  (λ right r q.
                    Ensures-mono (Reads (suc (length t)))
                      (or_loop-Reads env fuel (make_bool_must_not_and left right) r
                        (omega
                          (arith, h, p, q.0, strip_operator-length env not_word rest after refl e))
                        (must_not_and-HasDefaultMinimum left right))
                      (λ query u k. (
                        omega (
                          arith,
                          k.0,
                          q.0,
                          p,
                          strip_operator-length env not_word rest after refl e,
                        ),
                        k.1,
                      ))))
          | inl e ↦
              rw (or_loop, e)
                (Ensures-skip (length rest) (Reads (suc (length t))) _ _
                  (skip_word-Skipped env or_word rest refl)
                  (λ r q.
                    Ensures-bind (Reads (suc (length t))) _
                      (and_expr-Reads env fuel r (omega (arith, h, p, q)))
                      (λ right u k.
                        Ensures-mono (Reads (suc (length t)))
                          (or_loop-Reads env fuel (make_bool_should left right) u
                            (omega (arith, h, p, q, k.0)) (should-HasDefaultMinimum left right))
                          (λ query v l. (omega (arith, l.0, k.0, p, q), l.1))))
                  (λ r q. when_parsed (omega (arith, p, q), d)))
        ])

  and_expr-Reads :
      (env : ParseEnv) (fuel : ℕ) (t : Text)
      → 4 * length t + 2 ≤ fuel
      → Ensures (Reads (length t)) (parse_and_expr env fuel t)
  and_expr-Reads env zero t h = absurd (omega (arith, h))
  and_expr-Reads env (suc fuel) t h =
      Ensures-bind (Reads (length t)) _ (primary-Reads env fuel t (omega (arith, h)))
        (λ left rest p.
          Ensures-mono (Reads (length t))
            (and_loop-Reads env fuel left rest (omega (arith, h, p.0)) (p.1))
            (λ q r k. (omega (arith, k.0, p.0), k.1)))

  and_loop-Reads :
      (env : ParseEnv) (fuel : ℕ) (left : SearchQuery) (t : Text)
      → 4 * length t + 2 ≤ fuel
      → HasDefaultMinimum left
      → Ensures (Reads (suc (length t))) (and_loop env fuel left t)
  and_loop-Reads env zero left t h d = absurd (omega (arith, h))
  and_loop-Reads env (suc fuel) left t h d =
      Ensures-bind (Reads (suc (length t))) _ (skip_whitespace-Within t) (λ a rest p.
        and_step env fuel left t rest (next_and env rest) p h d (next_and-NextIn env rest)
          (λ u k. primary-Reads env fuel u k) (λ l u k e. and_loop-Reads env fuel l u k e))

  primary-Reads :
      (env : ParseEnv) (fuel : ℕ) (t : Text)
      → 4 * length t + 1 ≤ fuel
      → Ensures (Reads (length t)) (parse_primary env fuel t)
  primary-Reads env zero t h = absurd (omega (arith, h))
  primary-Reads env (suc fuel) t h =
      Ensures-skip (length t) (Reads (length t)) _ _ (skip-Skipped lparen t)
        (λ r q.
          Ensures-bind (Reads (length t)) _ (or_expr-Reads env fuel r (omega (arith, h, q)))
            (λ query u k.
              Ensures-bind (Reads (length t)) _ (expect-Within rparen u)
                (λ a v l. when_parsed (omega (arith, q, k.0, l), k.1))))
        (λ r q.
          Ensures-mono (Reads (length t)) (parse_clause-Reads env r)
            (λ query u k. (omega (arith, q, k.0), k.1)))

ensure_exhausted-Within : (t : Text) → Ensures (Within (length t)) (ensure_exhausted t)
unfolding ensure_exhausted
ensure_exhausted-Within t =
    Ensures-bind (Within (length t)) _ (skip_whitespace-Within t) (λ a rest p.
      elim (Bool-cases (no_text rest)) [ inl e ↦ rw e (when_parsed p) | inr e ↦ rw e when_failed ])

-- Parsing a query string ends: it fails, panics, or gives a query that leaves the number of its
-- `should` clauses to the default.
pub parse_query_string-Ensures :
    (env : ParseEnv) (input : Text)
    → Ensures (λ query rest. HasDefaultMinimum query) (parse_query_string env input)
unfolding parse_query_string
parse_query_string-Ensures env input =
    Ensures-bind _ _ (or_expr-Reads env (4 * length input + 4) input (omega arith))
      (λ query rest p. Ensures-bind _ _ (ensure_exhausted-Within rest) (λ a r q. when_parsed (p.1)))
