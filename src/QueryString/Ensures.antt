-- ===== src/QueryString/Ensures.antt =====
-- crates/cloudsearch-api/src/query_string.rs: what holds after a parser's method that has finished.
-- There is no rule for `unfinished`, so that what is ensured has not run out of fuel.
use cloud_search.Prelude.{
  ℕ, zero, suc, ◌+◌, ◌-◌, ◌≤◌, ◌<◌, ◌≡◌, Bool, true, false, some, [], ◌∷◌, length, length-drop,
  drop, if◌then◌else◌, Bool-cases, Option-cases, inl, inr, arith, ◌==◌, ltb, ltb→lt, ap, not, ◌||◌,
  ◌&&◌,
}
use cloud_search.Bytes.{Text, char_len, is_continuation}
use cloud_search.Common.{CloudSearchError}
use cloud_search.Suggest.{starts_with}
use cloud_search.Index.Tokens.{white_space}
use cloud_search.QueryString.Lexer.{
  ParseEnv, Parsed, parsed, failed, panicked, ◌>>=◌, Token, token_char, strip_prefix,
  strip_operator, skip_whitespace, starts_with_char, skip, expect, skip_word, push_byte,
  push_parsed, read_word_from, read_word, read_plain, read_quoted_string, read_value, word_char,
  is_operator_start,
}

pub data Ensures {A : Type 0} (P : A → Text → Type 0) : Parsed A → Type 0 where
  when_parsed : {a : A} {rest : Text} → P a rest → Ensures P (parsed a rest)
  when_failed : {e : CloudSearchError} → Ensures P (failed e)
  when_panicked : Ensures P panicked

module _ {A B : Type 0} {P : A → Text → Type 0} (Q : B → Text → Type 0) where
  pub Ensures-bind :
      (f : A → Text → Parsed B) {m : Parsed A}
      → Ensures P m
      → ((a : A) (rest : Text) → P a rest → Ensures Q (f a rest))
      → Ensures Q (m >>= f)
  Ensures-bind f (when_parsed p) k = k _ _ p
  Ensures-bind f when_failed k = when_failed
  Ensures-bind f when_panicked k = when_panicked

pub Ensures-mono :
    {A : Type 0} {P : A → Text → Type 0} (Q : A → Text → Type 0) {m : Parsed A}
    → Ensures P m
    → ((a : A) (rest : Text) → P a rest → Q a rest)
    → Ensures Q m
Ensures-mono Q (when_parsed p) k = when_parsed (k _ _ p)
Ensures-mono Q when_failed k = when_failed
Ensures-mono Q when_panicked k = when_panicked

-- No text is left that was not there: `n` is the length before.
abbrev pub Within : {A : Type 0} → ℕ → A → Text → Type 0
Within n a rest = length rest ≤ n

pub skip_whitespace-Within : (t : Text) → Ensures (Within (length t)) (skip_whitespace t)
unfolding skip_whitespace
skip_whitespace-Within [] = when_parsed (omega arith)
skip_whitespace-Within (b ∷ t) = elim (Bool-cases (is_continuation b)) [
  | inl e ↦ rw e when_panicked
  | inr e ↦ elim (Bool-cases (white_space (b ∷ t) == 0)) [
    | inl z ↦ rw (e, z) (when_parsed (omega arith))
    | inr z ↦ rw (e, z) (Ensures-mono _ (skip_whitespace-Within t) (λ a rest p. omega (arith, p)))
  ]
]

-- A character that was skipped is gone.
abbrev pub Skipped : ℕ → Bool → Text → Type 0
Skipped n true rest = length rest < n
Skipped n false rest = length rest ≤ n

-- Both ways on from a test for a character.
pub Ensures-skip :
    {B : Type 0} (n : ℕ) (Q : B → Text → Type 0) (f g : Text → Parsed B) {m : Parsed Bool}
    → Ensures (Skipped n) m
    → ((rest : Text) → length rest < n → Ensures Q (f rest))
    → ((rest : Text) → length rest ≤ n → Ensures Q (g rest))
    → Ensures Q (m >>= λ skipped rest. if skipped then f rest else g rest)
Ensures-skip n Q f g {m} h k l = Ensures-bind Q _ h by_test
  where
    by_test :
        (skipped : Bool) (rest : Text)
        → Skipped n skipped rest
        → Ensures Q (if skipped then f rest else g rest)
    by_test true rest p = k rest p
    by_test false rest p = l rest p

starts_with-length : (p t : Text) → starts_with p t ≡ true → length p ≤ length t
unfolding starts_with
starts_with-length [] t h = omega arith
starts_with-length (a ∷ p) [] h = cc
starts_with-length (a ∷ p) (b ∷ t) h = ground (arith, starts_with-length p t)

pub strip_operator-length :
    (env : ParseEnv) (word t after : Text)
    → ltb 0 (length word) ≡ true
    → strip_operator env word t ≡ some after
    → length after < length t
unfolding strip_operator strip_prefix
strip_operator-length env word t after pos h = elim (Bool-cases (starts_with word t)) [
  | inr e ↦ cc (rw (strip_operator, strip_prefix, e) at h)
  | inl e ↦ elim (Bool-cases (word_char env (drop (length word) t))) [
    | inl w ↦ cc (rw (strip_operator, strip_prefix, e, w) at h)
    | inr w ↦
        let same : drop (length word) t ≡ after =
          cc (rw (strip_operator, strip_prefix, e, w) at h) in
        omega (
          arith,
          ap length same,
          length-drop (length word) t,
          starts_with-length word t e,
          ltb→lt 0 (length word) pos,
        )
  ]
]

starts-drop : (c : ℕ) (t : Text) → starts_with_char c t ≡ true → length (drop 1 t) < length t
starts-drop c [] h = cc
starts-drop c (b ∷ t) h = omega arith

pub skip-Skipped : (token : Token) (t : Text) → Ensures (Skipped (length t)) (skip token t)
unfolding skip
skip-Skipped token t = Ensures-bind (Skipped (length t)) _ (skip_whitespace-Within t) (λ a rest p.
    elim (Bool-cases (starts_with_char (token_char token) rest)) [
      | inl e ↦ rw e (when_parsed (omega (arith, p, starts-drop (token_char token) rest e)))
      | inr e ↦ rw e (when_parsed p)
    ])

pub expect-Within : (token : Token) (t : Text) → Ensures (Within (length t)) (expect token t)
unfolding expect
expect-Within token t =
    Ensures-skip (length t) (Within (length t)) _ _ (skip-Skipped token t)
      (λ rest p. when_parsed (omega (arith, p))) (λ rest p. when_failed)

pub skip_word-Skipped :
    (env : ParseEnv) (word t : Text)
    → ltb 0 (length word) ≡ true
    → Ensures (Skipped (length t)) (skip_word env word t)
unfolding skip_word
skip_word-Skipped env word t pos =
    Ensures-bind (Skipped (length t)) _ (skip_whitespace-Within t) (λ a rest p.
      elim (Option-cases (strip_operator env word rest)) [
        | inl e ↦ rw e (when_parsed p)
        | inr (after, e) ↦
            rw e (when_parsed (omega (arith, p, strip_operator-length env word rest after pos e)))
      ])

-- Reading a word leaves what follows it, and a word that is not empty was there.
abbrev pub Cut : ℕ → Text × Text → Type 0
Cut n (word, rest) = length word + length rest ≡ n

push-Cut : (b n : ℕ) (p : Text × Text) → Cut n p → Cut (suc n) (push_byte b p)
push-Cut b n (word, rest) h = omega (arith, h)

read_word_from-Cut :
    (env : ParseEnv) (more : ℕ) (t : Text) → Cut (length t) (read_word_from env more t)
unfolding read_word_from
read_word_from-Cut env more [] = omega arith
read_word_from-Cut env (suc more) (b ∷ t) = push-Cut b _ _ (read_word_from-Cut env more t)
read_word_from-Cut env zero (b ∷ t) = elim (Bool-cases (word_char env (b ∷ t))) [
  | inl e ↦ rw e (push-Cut b _ _ (read_word_from-Cut env (char_len b - 1) t))
  | inr e ↦ rw e (omega arith)
]

pub read_word-Cut : (env : ParseEnv) (t : Text) → Cut (length t) (read_word env t)
unfolding read_word
read_word-Cut env t = read_word_from-Cut env 0 t

pub read_plain-Cut : (more : ℕ) (t : Text) → Cut (length t) (read_plain more t)
unfolding read_plain
read_plain-Cut more [] = omega arith
read_plain-Cut (suc more) (b ∷ t) = push-Cut b _ _ (read_plain-Cut more t)
read_plain-Cut zero (b ∷ t) =
    let test = not (white_space (b ∷ t) == 0) || is_operator_start (b ∷ t) in
    elim (Bool-cases test) [
      | inl e ↦ rw e (omega arith)
      | inr e ↦ rw e (push-Cut b _ _ (read_plain-Cut (char_len b - 1) t))
    ]

push-Within :
    (b n : ℕ) {p : Parsed Text} → Ensures (Within n) p → Ensures (Within (suc n)) (push_parsed b p)
push-Within b n (when_parsed h) = when_parsed (omega (arith, h))
push-Within b n when_failed = when_failed
push-Within b n when_panicked = when_panicked

pub read_quoted-Within :
    (more : ℕ) (t : Text) → Ensures (Within (length t)) (read_quoted_string more t)
unfolding read_quoted_string
read_quoted-Within more [] = when_failed
read_quoted-Within (suc more) (b ∷ t) = push-Within b _ (read_quoted-Within more t)
read_quoted-Within zero (b ∷ t) = elim (Bool-cases (is_continuation b)) [
  | inl e ↦ rw e when_panicked
  | inr e ↦ elim (Bool-cases ((b == b'\\') && ltb 0 (length t))) [
    | inl s ↦ rw (e, s) (push-Within b _ (read_quoted-Within 1 t))
    | inr s ↦ elim (Bool-cases (b == b'"')) [
      | inl q ↦ rw (e, s, q) (when_parsed (omega arith))
      | inr q ↦ rw (e, s, q) (push-Within b _ (read_quoted-Within (char_len b - 1) t))
    ]
  ]
]

pub read_value-Within : (t : Text) → Ensures (Within (length t)) (read_value t)
unfolding read_value
read_value-Within t = Ensures-bind (Within (length t)) _ (skip_whitespace-Within t) (λ a rest p.
    elim (Bool-cases (starts_with_char b'"' rest)) [
      | inl e ↦ rw e (
          Ensures-mono _ (read_quoted-Within 0 (drop 1 rest))
            (λ w r q. omega (arith, p, q, length-drop 1 rest)))
      | inr e ↦ rw e (when_parsed (omega (arith, p, read_plain-Cut 0 rest)))
    ])
