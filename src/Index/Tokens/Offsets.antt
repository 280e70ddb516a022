-- ===== src/Index/Tokens/Offsets.antt =====
-- The offsets that are recorded for a token are those of its occurrences.
use cloud_search.Prelude.{
  ℕ, zero, suc, ◌+◌, ◌-◌, ◌^◌, ◌<◌, ◌≤◌, ◌≡◌, refl, ap, ◌∙◌, inl, inr, true, some, List, [], ◌∷◌,
  arith, length, drop, ltb, Bool-cases, Option-cases, All,
}
use cloud_search.Bytes.{Text}
use cloud_search.Suggest.{starts_with}
use cloud_search.Index.Tokens.{find, positions_loop}

drop_nil : {A : Type 0} (n : ℕ) → [] ≡ drop {A = A} n []
drop_nil zero = refl
drop_nil (suc n) = refl

drop-drop : {A : Type 0} (m n : ℕ) (xs : List A) → drop n (drop m xs) ≡ drop (m + n) xs
drop-drop zero n xs = let e : n ≡ 0 + n = omega arith in ap (λ k. drop k xs) e
drop-drop (suc m) zero [] = drop_nil (suc m + 0)
drop-drop (suc m) (suc n) [] = drop_nil (suc m + suc n)
drop-drop (suc m) n (x ∷ xs) =
    let e : suc (m + n) ≡ suc m + n = omega arith in drop-drop m n xs ∙ ap (λ k. drop k (x ∷ xs)) e

-- What is found is there, and within the text.
find-starts_with :
    (token text : Text) (i : ℕ)
    → find token text ≡ some i
    → (starts_with token (drop i text) ≡ true)
unfolding find
find-starts_with token [] i h = elim (Bool-cases (starts_with token [])) [
  | inl here ↦ let same : 0 ≡ i = cc (rw (find, here) at h) in rw (← same) here
  | inr gone ↦ cc (rw (find, gone) at h)
]
find-starts_with token (c ∷ t) i h = elim (Bool-cases (starts_with token (c ∷ t))) [
  | inl here ↦ let same : 0 ≡ i = cc (rw (find, here) at h) in rw (← same) here
  | inr gone ↦ elim (Option-cases (find token t)) [
    | inl e ↦ cc (rw (find, gone, e) at h)
    | inr (j, e) ↦
        let same : suc j ≡ i = cc (rw (find, gone, e) at h) in
        rw (← same) (find-starts_with token t j e)
  ]
]

-- Each offset is at or after the start, within 32 bits, and the token stands there.
abbrev pub IsOffset : Text → Text → ℕ → ℕ → Type 0
IsOffset token text from o = (from ≤ o) × (o < 2 ^ 32) × (starts_with token (drop o text) ≡ true)

IsOffset-from :
    (token text : Text) (from later : ℕ) (os : List ℕ)
    → from ≤ later
    → All (IsOffset token text later) os
    → All (IsOffset token text from) os
IsOffset-from token text from later [] h a = tt
IsOffset-from token text from later (o ∷ os) h a =
    ((omega (arith, a.0.0), a.0.1, a.0.2), IsOffset-from token text from later os h a.1)

-- Every offset that is recorded for a token, with any fuel, is at or after the start, below 2 ^
-- 32, and the token stands there in the text.
pub positions_loop-IsOffset :
    (fuel : ℕ) (token text : Text) (from : ℕ)
    → All (IsOffset token text from) (positions_loop fuel token text from)
unfolding positions_loop
positions_loop-IsOffset zero token text from = tt
positions_loop-IsOffset (suc fuel) token text from =
    elim (Option-cases (find token (drop from text))) [
      | inl e ↦ rw (positions_loop, e) tt
      | inr (pos, e) ↦
          let o = from + pos in
          let here : starts_with token (drop o text) ≡ true =
            rw (drop-drop from pos text) at (find-starts_with token (drop from text) pos e) in
          elim (Bool-cases (ltb (2 ^ 32 - 1) o)) [
            | inl big ↦
                rw (positions_loop, e, big)
                  (IsOffset-from token text from (o + 1) _ (omega arith)
                    (positions_loop-IsOffset fuel token text (o + 1)))
            | inr small ↦
                rw (positions_loop, e, small)
                  (
                    (omega arith, ground arith, here),
                    (IsOffset-from token text from (o + length token) _ (omega arith)
                        (positions_loop-IsOffset fuel token text (o + length token))),
                  )
          ]
    ]
