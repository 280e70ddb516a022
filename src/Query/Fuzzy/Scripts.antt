-- ===== src/Query/Fuzzy/Scripts.antt =====
-- Edit scripts, which say what `levenshtein_distance` is to be, and a recursive distance that is the
-- length of the shortest one.
use mathlib.Core.Path.{subst}
use cloud_search.Prelude.{
  ℕ, suc, ◌+◌, ◌≤◌, ◌≡◌, refl, sym, min, inl, inr, ◌⊎◌, List, [], ◌∷◌, length, arith, Bool-cases,
}
use cloud_search.Prelude.Order.{text_ord}
use cloud_search.Bytes.{Text}
use cloud_search.Query.Fuzzy.{cost}
use cloud_search.Query.Bm25.{same_token}

-- A script that turns one list of characters into another one, with the number of its edits.
pub data Script : List Text → List Text → ℕ → Type 0 where
  nothing : Script [] [] 0
  keep : {x : Text} {a b : List Text} {n : ℕ} → Script a b n → Script (x ∷ a) (x ∷ b) n
  delete : {x : Text} {a b : List Text} {n : ℕ} → Script a b n → Script (x ∷ a) b (suc n)
  insert : {y : Text} {a b : List Text} {n : ℕ} → Script a b n → Script a (y ∷ b) (suc n)
  replace : {x y : Text} {a b : List Text} {n : ℕ} → Script a b n → Script (x ∷ a) (y ∷ b) (suc n)

-- The distance of two texts that are given back to front.
unfoldable pub dist : List Text → List Text → ℕ
dist [] q = length q
dist (x ∷ p) [] = suc (length p)
dist (x ∷ p) (y ∷ q) = min (min (dist p (y ∷ q) + 1) (dist (x ∷ p) q + 1)) (dist p q + cost x y)

pub dist-nil : (p : List Text) → dist p [] ≡ length p
unfolding dist
dist-nil [] = refl
dist-nil (x ∷ p) = refl

cost_self : (x : Text) → cost x x ≡ 0
cost_self x = ground (arith, text_ord.cmp_self x)

cost-le-one : (x y : Text) → cost x y ≤ 1
cost-le-one x y = ground arith

dist_delete : (x : Text) (p q : List Text) → dist (x ∷ p) q ≤ dist p q + 1
unfolding dist
dist_delete x p [] = omega (arith, dist-nil p)
dist_delete x p (y ∷ q) = omega arith

dist_insert : (y : Text) (p q : List Text) → dist p (y ∷ q) ≤ dist p q + 1
unfolding dist
dist_insert y [] q = omega arith
dist_insert y (x ∷ p) q = omega arith

-- No script has fewer edits.
pub dist-le : (p q : List Text) (n : ℕ) → Script p q n → dist p q ≤ n
unfolding dist
dist-le _ _ _ nothing = omega arith
dist-le _ _ _ (keep {x} {a} {b} {n} s) = omega (arith, dist-le a b n s, cost_self x)
dist-le _ _ _ (delete {x} {a} {b} {n} s) = omega (arith, dist-le a b n s, dist_delete x a b)
dist-le _ _ _ (insert {y} {a} {b} {n} s) = omega (arith, dist-le a b n s, dist_insert y a b)
dist-le _ _ _ (replace {x} {y} {a} {b} {n} s) = omega (arith, dist-le a b n s, cost-le-one x y)

all_inserts : (q : List Text) → Script [] q (length q)
all_inserts [] = nothing
all_inserts (y ∷ q) = insert (all_inserts q)

all_deletes : (p : List Text) → Script p [] (length p)
all_deletes [] = nothing
all_deletes (x ∷ p) = delete (all_deletes p)

min-cases : (a b : ℕ) → (min a b ≡ a) ⊎ (min a b ≡ b)
min-cases a b = omega arith

shorter : (p q : List Text) (a b : ℕ) → Script p q a → Script p q b → Script p q (min a b)
shorter p q a b s t = elim (min-cases a b) [
  | inl e ↦ subst (Script p q) (sym e) s
  | inr e ↦ subst (Script p q) (sym e) t
]

last_edit :
    (x y : Text) (p q : List Text) (n : ℕ) → Script p q n → Script (x ∷ p) (y ∷ q) (n + cost x y)
last_edit x y p q n s = elim (Bool-cases (same_token x y)) [
  | inl e ↦
      let same : x ≡ y = ground (arith, text_ord.cmp_eq x y) in
      let count : n ≡ n + cost x y = ground arith in
      subst (Script (x ∷ p) (y ∷ q)) count (subst (λ z. Script (x ∷ p) (z ∷ q) n) same (keep s))
  | inr e ↦
      let count : suc n ≡ n + cost x y = ground arith in
      subst (Script (x ∷ p) (y ∷ q)) count (replace s)
]

plus_one : (p q : List Text) (n : ℕ) → Script p q (suc n) → Script p q (n + 1)
plus_one p q n s = let same : suc n ≡ n + 1 = omega arith in subst (Script p q) same s

-- A script with as many edits.
pub dist-Script : (p q : List Text) → Script p q (dist p q)
unfolding dist
dist-Script [] q = all_inserts q
dist-Script (x ∷ p) [] = all_deletes (x ∷ p)
dist-Script (x ∷ p) (y ∷ q) =
    shorter (x ∷ p) (y ∷ q) _ _
      (shorter (x ∷ p) (y ∷ q) _ _ (plus_one _ _ _ (delete (dist-Script p (y ∷ q))))
        (plus_one _ _ _ (insert (dist-Script (x ∷ p) q))))
      (last_edit x y p q (dist p q) (dist-Script p q))

-- The first list back to front, before the second.
unfoldable pub onto : List Text → List Text → List Text
onto [] p = p
onto (x ∷ a) p = onto a (x ∷ p)

move_suc : (p q : List Text) (n m : ℕ) → Script p q (n + suc m) → Script p q (suc n + m)
move_suc p q n m s = let same : n + suc m ≡ suc n + m = omega arith in subst (Script p q) same s

onto-Script :
    (a b p q : List Text) (n m : ℕ)
    → Script a b n
    → Script p q m
    → Script (onto a p) (onto b q) (n + m)
unfolding onto
onto-Script _ _ p q _ m nothing t = let same : m ≡ 0 + m = omega arith in subst (Script p q) same t
onto-Script _ _ p q _ m (keep {x} {a} {b} {n} s) t = onto-Script a b (x ∷ p) (x ∷ q) n m s (keep t)
onto-Script _ _ p q _ m (delete {x} {a} {b} {n} s) t =
    move_suc _ _ n m (onto-Script a b (x ∷ p) q n (suc m) s (delete t))
onto-Script _ _ p q _ m (insert {y} {a} {b} {n} s) t =
    move_suc _ _ n m (onto-Script a b p (y ∷ q) n (suc m) s (insert t))
onto-Script _ _ p q _ m (replace {x} {y} {a} {b} {n} s) t =
    move_suc _ _ n m (onto-Script a b (x ∷ p) (y ∷ q) n (suc m) s (replace t))

onto_twice : (a p : List Text) → onto (onto a p) [] ≡ onto p a
unfolding onto
onto_twice [] p = refl
onto_twice (x ∷ a) p = onto_twice a (x ∷ p)

-- A script works back to front as well.
pub back_to_front : (a b : List Text) (n : ℕ) → Script a b n → Script (onto a []) (onto b []) n
back_to_front a b n s =
    let same : n + 0 ≡ n = omega arith in
    subst (Script (onto a []) (onto b [])) same (onto-Script a b [] [] n 0 s nothing)

pub front_to_back : (a b : List Text) (n : ℕ) → Script (onto a []) (onto b []) n → Script a b n
unfolding onto
front_to_back a b n s =
    subst (λ c. Script a c n) (onto_twice b [])
      (subst (λ c. Script c (onto (onto b []) []) n) (onto_twice a [])
        (back_to_front (onto a []) (onto b []) n s))
