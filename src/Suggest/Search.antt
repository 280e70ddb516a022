-- ===== src/Suggest/Search.antt =====
-- `suggest_for_field` over entries in the order of their terms: all entries with the prefix, and no
-- others, in that order.
use native.Mathlib.Numerals.{add-one}
use cloud_search.Prelude.{
  ℕ, zero, suc, ◌+◌, ◌-◌, ◌/◌, ◌<◌, ◌≤◌, ◌≡◌, refl, sym, ap, ◌∙◌, ◌⊎◌, inl, inr, false, Option,
  none, some, List, [], ◌∷◌, ◌++◌, arith, length, take, drop, drop_all, get_elem?, take-append-drop,
  Bool-cases, ltb, All,
}
use cloud_search.Prelude.Order.{text_ord}
use cloud_search.BTreeMap.{get}
use cloud_search.Bytes.{Text}
use cloud_search.Common.{ok}
use cloud_search.Suggest.{
  SuggestEntry, SuggestIndex, starts_with, text_lt, lower_bound, find_in, find_first_prefix,
  take_while_prefix, suggest_from, suggest_for_field,
}
use cloud_search.Suggest.Prefixes.{
  High, High-from, IsOrdered, Low, Low-upto, get_elem?-some, starts_with-not_lt, starts_with_block,
  with_prefix,
}

-- The loop ends, and splits the entries at the prefix.
record Splits (p : Text) (es : List SuggestEntry) (r : ℕ) : Type 0 where
  low : Low p (take r es)
  high : High p (drop r es)

lower_bound-Splits :
    (fuel : ℕ) (es : List SuggestEntry) (p : Text) (lo hi : ℕ)
    → IsOrdered es
    → lo ≤ hi
    → hi ≤ length es
    → hi - lo ≤ fuel
    → Low p (take lo es)
    → High p (drop hi es)
    → (r : ℕ) × (lower_bound fuel es p lo hi ≡ ok r) × Splits p es r
unfolding lower_bound
lower_bound-Splits zero es p lo hi o a b f l h =
    let same : hi ≡ lo = omega arith in (lo, refl, record { low = l; high = rw same at h })
lower_bound-Splits (suc fuel) es p lo hi o a b f l h = elim (Bool-cases (ltb lo hi)) [
  | inr done ↦
      let same : hi ≡ lo = ground arith in (lo, rw done, record { low = l; high = rw same at h })
  | inl more ↦
      let mid = (lo + hi) / 2 in
      let inside : mid < hi = ground arith in
      let (e, found) = get_elem?-some es mid (omega arith) in
      elim (Bool-cases (text_lt e.term p)) [
        | inl below ↦
            let (r, q, s) =
              lower_bound-Splits fuel es p (mid + 1) hi o (omega arith) b (omega arith)
                (rw add-one (Low-upto p es mid e o found below)) h in
            (r, rw (more, found, below) q, s)
        | inr above ↦
            let (r, q, s) =
              lower_bound-Splits fuel es p lo mid o (omega arith) (omega arith) (omega arith) l
                (High-from p es mid e o found above) in
            (r, rw (more, found, above) q, s)
      ]
]

with_prefix-Low :
    (p : Text) (xs ys : List SuggestEntry) → Low p xs → with_prefix p (xs ++ ys) ≡ with_prefix p ys
unfolding with_prefix
with_prefix-Low p [] ys h = refl
with_prefix-Low p (x ∷ xs) ys h =
    ground (arith, with_prefix-Low p xs ys h.1, starts_with-not_lt p x.term)

-- Among entries at or above the prefix, those that have it come first.
no_more :
    (p : Text) (e : SuggestEntry) (es : List SuggestEntry)
    → starts_with p e.term ≡ false
    → text_lt e.term p ≡ false
    → All (λ f. text_lt f.term e.term ≡ false) es
    → with_prefix p es ≡ []
unfolding with_prefix
no_more p e [] s h a = refl
no_more p e (f ∷ es) s h a =
    ground (arith, no_more p e es s h a.1, starts_with_block p e.term f.term h a.0)

take_while_prefix-High :
    (p : Text) (es : List SuggestEntry)
    → IsOrdered es
    → High p es
    → take_while_prefix p es ≡ with_prefix p es
unfolding take_while_prefix with_prefix
take_while_prefix-High p [] o h = refl
take_while_prefix-High p (e ∷ es) o h = ground (
  arith,
  take_while_prefix-High p es o.1 h.1,
  λ (s : starts_with p e.term ≡ false). no_more p e es s h.0 o.0,
)

IsOrdered-drop : (n : ℕ) (es : List SuggestEntry) → IsOrdered es → IsOrdered (drop n es)
IsOrdered-drop zero es o = o
IsOrdered-drop (suc n) [] o = tt
IsOrdered-drop (suc n) (e ∷ es) o = IsOrdered-drop n es o.1

-- What is taken at the start of the upper part is what has the prefix.
Splits-with_prefix :
    (p : Text) (es : List SuggestEntry) (r : ℕ)
    → IsOrdered es
    → Splits p es r
    → take_while_prefix p (drop r es) ≡ with_prefix p es
Splits-with_prefix p es r o s =
    take_while_prefix-High p (drop r es) (IsOrdered-drop r es o) s.high
    ∙ sym (with_prefix-Low p (take r es) (drop r es) s.low)
    ∙ ap (with_prefix p) (take-append-drop r es)

drop_at :
    {A : Type 0} (xs : List A) (i : ℕ)
    → ((get_elem? xs i ≡ none) × (drop i xs ≡ []))
      ⊎ ((x : A) × (get_elem? xs i ≡ some x) × (drop i xs ≡ x ∷ drop (suc i) xs))
drop_at [] zero = inl (refl, refl)
drop_at [] (suc i) = inl (refl, refl)
drop_at (x ∷ xs) zero = inr (x, refl, refl)
drop_at (x ∷ xs) (suc i) = drop_at xs i

find_in-with_prefix :
    (p : Text) (es : List SuggestEntry)
    → IsOrdered es
    → (start : Option ℕ) × (find_in es p ≡ ok start)
      × (suggest_from p start (some es) ≡ with_prefix p es)
unfolding find_in
find_in-with_prefix p [] o = (none, refl, unfold suggest_from with_prefix in refl)
find_in-with_prefix p (e ∷ es) o =
    let all = e ∷ es in
    let (r, q, s) =
      lower_bound-Splits (length all) all p 0 (length all) o (omega arith) (omega arith)
        (omega arith) tt (rw (drop_all all) tt) in
    elim (drop_at all r) [
      | inl (out, d) ↦ (none, rw (q, out), nothing r s (rw d (unfold take_while_prefix in refl)))
      | inr (x, at, d) ↦ elim (Bool-cases (starts_with p x.term)) [
        | inl t ↦ (some r, rw (q, at, t), unfold suggest_from in Splits-with_prefix p all r o s)
        | inr f ↦ (none, rw (q, at, f), nothing r s (rw d (unfold take_while_prefix in rw f)))
      ]
    ]
  where
    nothing :
        (r : ℕ)
        → Splits p (e ∷ es) r
        → take_while_prefix p (drop r (e ∷ es)) ≡ []
        → suggest_from p none (some (e ∷ es)) ≡ with_prefix p (e ∷ es)
    nothing r s h = unfold suggest_from in sym h ∙ Splits-with_prefix p (e ∷ es) r o s

find_first_prefix_lem :
    (field p : Text) (m : SuggestIndex) (es : List SuggestEntry) (start : Option ℕ)
    → get field m ≡ some es
    → find_in es p ≡ ok start
    → find_first_prefix field p m ≡ ok start
unfolding find_first_prefix
find_first_prefix_lem field p m es start h f = rw (h, find_first_prefix) f

-- For a field whose entries are in the order of their terms and a prefix that is not empty,
-- `suggest_for_field` succeeds and returns all entries whose term has the prefix, and no others,
-- in order.
pub suggest_for_field-with_prefix :
    (field : Text) (p : ℕ) (ps : Text) (m : SuggestIndex) (es : List SuggestEntry)
    → get field m ≡ some es
    → IsOrdered es
    → suggest_for_field field (p ∷ ps) m ≡ ok (with_prefix (p ∷ ps) es)
unfolding suggest_for_field
suggest_for_field-with_prefix field p ps m es h o =
    let (start, found, taken) = find_in-with_prefix (p ∷ ps) es o in
    rw (find_first_prefix_lem field (p ∷ ps) m es start h found, h, taken)
