-- ===== src/Index/Tokens/Fuel.antt =====
-- The length of a text is enough fuel for the search of a token in it.
use cloud_search.Prelude.{
  ℕ, zero, suc, ◌+◌, ◌-◌, ◌^◌, ◌<◌, ◌≤◌, ◌≡◌, refl, ap, inl, inr, some, [], ◌∷◌, arith, length,
  drop, length-drop, ltb, Bool-cases, Option-cases,
}
use cloud_search.Bytes.{Text}
use cloud_search.Suggest.{starts_with}
use cloud_search.Index.Tokens.{find, positions_loop}

find-length : (c : ℕ) (w text : Text) (i : ℕ) → find (c ∷ w) text ≡ some i → i < length text
unfolding find starts_with
find-length c w [] i h = cc
find-length c w (d ∷ t) i h = elim (Bool-cases (starts_with (c ∷ w) (d ∷ t))) [
  | inl here ↦ let same : 0 ≡ i = cc (rw (find, here) at h) in omega arith
  | inr gone ↦ elim (Option-cases (find (c ∷ w) t)) [
    | inl e ↦ cc (rw (find, gone, e) at h)
    | inr (j, e) ↦
        let same : suc j ≡ i = cc (rw (find, gone, e) at h) in omega (arith, find-length c w t j e)
  ]
]

-- What is found in the rest of a text lies within the text.
found_within :
    (c : ℕ) (w text : Text) (from pos : ℕ)
    → find (c ∷ w) (drop from text) ≡ some pos
    → from + pos < length text
found_within c w text from pos e =
    omega (arith, find-length c w (drop from text) pos e, length-drop from text)

-- For a token that is not empty, any two amounts of fuel that are at least what is left of the text
-- give the same offsets.
pub positions_loop_fuel :
    (c : ℕ) (w text : Text) (from f g : ℕ)
    → length text - from ≤ f
    → length text - from ≤ g
    → positions_loop f (c ∷ w) text from ≡ positions_loop g (c ∷ w) text from
unfolding positions_loop
positions_loop_fuel c w text from zero zero h k = refl
positions_loop_fuel c w text from zero (suc g) h k =
    elim (Option-cases (find (c ∷ w) (drop from text))) [
      | inl e ↦ rw (positions_loop, e) refl
      | inr (pos, e) ↦ absurd (omega (arith, found_within c w text from pos e))
    ]
positions_loop_fuel c w text from (suc f) zero h k =
    elim (Option-cases (find (c ∷ w) (drop from text))) [
      | inl e ↦ rw (positions_loop, e) refl
      | inr (pos, e) ↦ absurd (omega (arith, found_within c w text from pos e))
    ]
positions_loop_fuel c w text from (suc f) (suc g) h k =
    elim (Option-cases (find (c ∷ w) (drop from text))) [
      | inl e ↦ rw (positions_loop, e) refl
      | inr (pos, e) ↦
          let within = found_within c w text from pos e in
          let o = from + pos in
          elim (Bool-cases (ltb (2 ^ 32 - 1) o)) [
            | inl big ↦
                rw (positions_loop, e, big)
                  (positions_loop_fuel c w text (o + 1) f g (omega arith) (omega arith))
            | inr small ↦
                rw (positions_loop, e, small)
                  (ap (λ r. o ∷ r)
                    (positions_loop_fuel c w text (o + length (c ∷ w)) f g (omega arith)
                      (omega arith)))
          ]
    ]
