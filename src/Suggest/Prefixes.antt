-- ===== src/Suggest/Prefixes.antt =====
-- The order of texts and prefixes, and lists of entries in the order of their terms.
use mathlib.Core.Path.{subst}
use cloud_search.Prelude.{
  ℕ, zero, suc, ◌<◌, ◌≡◌, refl, inl, inr, true, false, some, List, [], ◌∷◌, arith, length, take,
  drop, get_elem?, Bool-cases, if◌then◌else◌, All,
}
use cloud_search.Prelude.Order.{text_ord}
use cloud_search.Bytes.{Text}
use cloud_search.Suggest.{SuggestEntry, starts_with, text_lt}

-- The terms do not fall.
abbrev pub IsOrdered : List SuggestEntry → Type 0
IsOrdered [] = Unit
IsOrdered (e ∷ es) = All (λ f. text_lt f.term e.term ≡ false) es × IsOrdered es

-- What the search is to return.
unfoldable pub with_prefix : Text → List SuggestEntry → List SuggestEntry
with_prefix p [] = []
with_prefix p (e ∷ es) =
    let rest = with_prefix p es in if starts_with p e.term then e ∷ rest else rest

-- A text with the prefix is not below it.
pub starts_with-not_lt : (p t : Text) → starts_with p t ≡ true → text_lt t p ≡ false
unfolding starts_with text_lt
starts_with-not_lt [] [] h = refl
starts_with-not_lt [] (x ∷ ts) h = refl
starts_with-not_lt (p ∷ ps) [] h = cc
starts_with-not_lt (p ∷ ps) (t ∷ ts) h = ground (arith, starts_with-not_lt ps ts)

-- Above the prefix, the texts that have it come first.
pub starts_with_block :
    (p t u : Text)
    → text_lt t p ≡ false
    → text_lt u t ≡ false
    → starts_with p u ≡ true
    → starts_with p t ≡ true
unfolding starts_with text_lt
starts_with_block [] t u a b h = refl
starts_with_block (p ∷ ps) [] u a b h = cc
starts_with_block (p ∷ ps) (t ∷ ts) [] a b h = cc
starts_with_block (p ∷ ps) (t ∷ ts) (u ∷ us) a b h = ground (arith, starts_with_block ps ts us)

text_lt_trans : (a b p : Text) → text_lt b a ≡ false → text_lt b p ≡ true → text_lt a p ≡ true
unfolding text_lt
text_lt_trans a b p h k =
    ground (arith, text_ord.cmp_trans a b p, text_ord.cmp_eq b a, text_ord.cmp_swap_gt b a)

text_le_trans : (a b p : Text) → text_lt b a ≡ false → text_lt a p ≡ false → text_lt b p ≡ false
text_le_trans a b p h k = elim (Bool-cases (text_lt b p)) [
  | inl t ↦ cc (text_lt_trans a b p h t)
  | inr f ↦ f
]

abbrev pub Low : Text → List SuggestEntry → Type 0
Low p es = All (λ e. text_lt e.term p ≡ true) es

abbrev pub High : Text → List SuggestEntry → Type 0
High p es = All (λ e. text_lt e.term p ≡ false) es

High-all :
    (p : Text) (e : SuggestEntry) (es : List SuggestEntry)
    → text_lt e.term p ≡ false
    → All (λ f. text_lt f.term e.term ≡ false) es
    → High p es
High-all p e [] h a = tt
High-all p e (f ∷ es) h a = (text_le_trans e.term f.term p a.0 h, High-all p e es h a.1)

All-get_elem? :
    {A : Type 0} (P : A → Type 0) (xs : List A) (i : ℕ) (x : A)
    → All P xs
    → get_elem? xs i ≡ some x
    → P x
All-get_elem? P [] i x a h = cc
All-get_elem? P (y ∷ xs) zero x a h = let same : y ≡ x = cc in subst P same a.0
All-get_elem? P (y ∷ xs) (suc i) x a h = All-get_elem? P xs i x a.1 h

-- An entry below the prefix has only such entries before it; one that is not has none behind it.
pub Low-upto :
    (p : Text) (es : List SuggestEntry) (i : ℕ) (e : SuggestEntry)
    → IsOrdered es
    → get_elem? es i ≡ some e
    → text_lt e.term p ≡ true
    → Low p (take (suc i) es)
Low-upto p [] i e o h l = tt
Low-upto p (f ∷ es) zero e o h l = let same : f ≡ e = cc in (rw same l, tt)
Low-upto p (f ∷ es) (suc i) e o h l =
    (text_lt_trans f.term e.term p (All-get_elem? _ es i e o.0 h) l, Low-upto p es i e o.1 h l)

pub High-from :
    (p : Text) (es : List SuggestEntry) (i : ℕ) (e : SuggestEntry)
    → IsOrdered es
    → get_elem? es i ≡ some e
    → text_lt e.term p ≡ false
    → High p (drop i es)
High-from p [] zero e o h l = tt
High-from p [] (suc i) e o h l = tt
High-from p (f ∷ es) zero e o h l =
    let same : f ≡ e = cc in (rw same l, High-all p f es (rw same l) o.0)
High-from p (f ∷ es) (suc i) e o h l = High-from p es i e o.1 h l

pub get_elem?-some :
    {A : Type 0} (xs : List A) (i : ℕ) → i < length xs → (x : A) × (get_elem? xs i ≡ some x)
get_elem?-some [] i h = absurd (omega arith)
get_elem?-some (x ∷ xs) zero h = (x, refl)
get_elem?-some (x ∷ xs) (suc i) h = get_elem?-some xs i (omega arith)
