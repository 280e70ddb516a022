-- ===== src/Prelude/Order.antt =====
-- The bound `Ord` of the source's map keys, with the laws that the trait asks of `cmp`.
use Prim.Native.Nat.{ℕ, compare, Ordering}
use Prim.Native.Nat.Ordering.{lt, eq, gt}
use mathlib.Core.Path.{◌≡◌, refl}
use mathlib.Core.List.{List, [], ◌∷◌}
use native.Mathlib.Omega.{arith}

pub record Ord {ℓ} (K : Type ℓ) : Type ℓ where
  pub cmp : K → K → Ordering
  pub cmp_self : (a : K) → cmp a a ≡ eq
  pub cmp_eq : (a b : K) → cmp a b ≡ eq → a ≡ b
  pub cmp_swap_gt : (a b : K) → cmp a b ≡ gt → cmp b a ≡ lt
  pub cmp_swap_lt : (a b : K) → cmp a b ≡ lt → cmp b a ≡ gt
  pub cmp_trans : (a b c : K) → cmp a b ≡ lt → cmp b c ≡ lt → cmp a c ≡ lt

infix 50 ◌≺◌
abbrev pub ◌≺◌ {ℓ} : {K : Type ℓ} ⦃o : Ord K⦄ → K → K → Type 0
◌≺◌ ⦃o⦄ a b = o.cmp a b ≡ lt

pub compare_self : (a : ℕ) → compare a a ≡ eq
compare_self a = ground arith

pub compare-eq : (a b : ℕ) → compare a b ≡ eq → a ≡ b
compare-eq a b h = ground arith

pub compare_swap_gt : (a b : ℕ) → compare a b ≡ gt → compare b a ≡ lt
compare_swap_gt a b h = ground arith

pub compare_swap_lt : (a b : ℕ) → compare a b ≡ lt → compare b a ≡ gt
compare_swap_lt a b h = ground arith

pub compare_trans : (a b c : ℕ) → compare a b ≡ lt → compare b c ≡ lt → compare a c ≡ lt
compare_trans a b c h k = ground arith

instance abbrev pub nat_ord : Ord ℕ
nat_ord = record {
  cmp = compare;
  cmp_self = compare_self;
  cmp_eq = compare-eq;
  cmp_swap_gt = compare_swap_gt;
  cmp_swap_lt = compare_swap_lt;
  cmp_trans = compare_trans;
}

-- Bytes compare lexicographically, and so does a Rust `str`.
abbrev pub lex : List ℕ → List ℕ → Ordering
lex [] [] = eq
lex [] (y ∷ ys) = lt
lex (x ∷ xs) [] = gt
lex (x ∷ xs) (y ∷ ys) = let rest = lex xs ys in elim (compare x y) [ lt ↦ lt | eq ↦ rest | gt ↦ gt ]

pub lex_self : (a : List ℕ) → lex a a ≡ eq
lex_self [] = refl
lex_self (x ∷ xs) = ground (arith, lex_self xs)

pub lex-eq : (a b : List ℕ) → lex a b ≡ eq → a ≡ b
lex-eq [] [] h = refl
lex-eq [] (y ∷ ys) h = cc
lex-eq (x ∷ xs) [] h = cc
lex-eq (x ∷ xs) (y ∷ ys) h = ground (arith, lex-eq xs ys)

pub lex_swap_gt : (a b : List ℕ) → lex a b ≡ gt → lex b a ≡ lt
lex_swap_gt [] [] h = cc
lex_swap_gt [] (y ∷ ys) h = cc
lex_swap_gt (x ∷ xs) [] h = refl
lex_swap_gt (x ∷ xs) (y ∷ ys) h = ground (arith, lex_swap_gt xs ys)

pub lex_swap_lt : (a b : List ℕ) → lex a b ≡ lt → lex b a ≡ gt
lex_swap_lt [] [] h = cc
lex_swap_lt [] (y ∷ ys) h = refl
lex_swap_lt (x ∷ xs) [] h = cc
lex_swap_lt (x ∷ xs) (y ∷ ys) h = ground (arith, lex_swap_lt xs ys)

pub lex_trans : (a b c : List ℕ) → lex a b ≡ lt → lex b c ≡ lt → lex a c ≡ lt
lex_trans [] [] c h k = cc
lex_trans [] (y ∷ ys) [] h k = cc
lex_trans [] (y ∷ ys) (z ∷ zs) h k = refl
lex_trans (x ∷ xs) [] c h k = cc
lex_trans (x ∷ xs) (y ∷ ys) [] h k = cc
lex_trans (x ∷ xs) (y ∷ ys) (z ∷ zs) h k = ground (arith, lex_trans xs ys zs)

instance abbrev pub text_ord : Ord (List ℕ)
text_ord = record {
  cmp = lex;
  cmp_self = lex_self;
  cmp_eq = lex-eq;
  cmp_swap_gt = lex_swap_gt;
  cmp_swap_lt = lex_swap_lt;
  cmp_trans = lex_trans;
}
