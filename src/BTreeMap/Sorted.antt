-- ===== src/BTreeMap/Sorted.antt =====
-- The keys ascend, without duplicates, and sorted maps that read alike are equal.
use Prim.Native.Nat.{Ordering}
use Prim.Native.Nat.Ordering.{lt, eq, gt}
use cloud_search.Prelude.{◌≡◌, refl, ◌⊎◌, inl, inr, none, some, [], ◌∷◌, ◌++◌, arith, All}
use cloud_search.Prelude.Order.{Ord, ◌≺◌}
use cloud_search.BTreeMap.{BTreeMap, get, insert, remove}

Ordering-cases : (c : Ordering) → (c ≡ lt) ⊎ ((c ≡ eq) ⊎ (c ≡ gt))
Ordering-cases lt = inl refl
Ordering-cases eq = inr (inl refl)
Ordering-cases gt = inr (inr refl)

module _ {ℓ κ} {K : Type ℓ} {V : Type κ} ⦃o : Ord K⦄ where
  get-nil : (k : K) → get {V = V} k [] ≡ none
  unfolding get
  get-nil k = refl

  abbrev pub Above : K → BTreeMap K V → Type 0
  Above b [] = Unit
  Above b ((j, w) ∷ m) = (b ≺ j) × Above b m

  abbrev pub IsSorted : BTreeMap K V → Type 0
  IsSorted [] = Unit
  IsSorted ((j, w) ∷ m) = Above j m × IsSorted m

  Above-lower : (a b : K) (m : BTreeMap K V) → a ≺ b → Above b m → Above a m
  Above-lower a b [] h k = tt
  Above-lower a b ((j, w) ∷ m) h k = (o.cmp_trans a b j h k.0, Above-lower a b m h k.1)

  Above-insert : (b k : K) (v : V) (m : BTreeMap K V) → b ≺ k → Above b m → Above b (insert k v m)
  unfolding insert
  Above-insert b k v [] h a = (h, tt)
  Above-insert b k v ((j, w) ∷ m) h a = ground (arith, Above-insert b k v m h a.1)

  Above-remove : (b k : K) (m : BTreeMap K V) → Above b m → Above b (remove k m)
  unfolding remove
  Above-remove b k [] a = tt
  Above-remove b k ((j, w) ∷ m) a = ground (arith, Above-remove b k m a.1)

  pub insert-IsSorted : (k : K) (v : V) (m : BTreeMap K V) → IsSorted m → IsSorted (insert k v m)
  unfolding insert
  insert-IsSorted k v [] s = (tt, tt)
  insert-IsSorted k v ((j, w) ∷ m) s = ground (
    arith,
    o.cmp_eq k j,
    o.cmp_swap_gt k j,
    Above-lower k j m,
    Above-insert j k v m,
    insert-IsSorted k v m s.1,
  )

  pub remove-IsSorted : (k : K) (m : BTreeMap K V) → IsSorted m → IsSorted (remove k m)
  unfolding remove
  remove-IsSorted k [] s = tt
  remove-IsSorted k ((j, w) ∷ m) s = ground (arith, Above-remove j k m s.0, remove-IsSorted k m s.1)

  pub get-Above : (k : K) (m : BTreeMap K V) → Above k m → get k m ≡ none
  unfolding get
  get-Above k [] a = refl
  get-Above k ((j, w) ∷ m) a = ground (arith, get-Above k m a.1)

  get_head : (j : K) (w : V) (m : BTreeMap K V) → get j ((j, w) ∷ m) ≡ some w
  unfolding get
  get_head j w m = ground (arith, o.cmp_self j)

  -- A smaller key than all is not there.
  get_below : (p j : K) (w : V) (m : BTreeMap K V) → p ≺ j → Above j m → get p ((j, w) ∷ m) ≡ none
  get_below p j w m h a = get-Above p ((j, w) ∷ m) (h, Above-lower p j m h a)

  get_tail :
      (j : K) (w : V) (m : BTreeMap K V) (i : K) (u : V) (n : BTreeMap K V)
      → j ≡ i
      → Above j m
      → Above i n
      → ((k : K) → get k ((j, w) ∷ m) ≡ get k ((i, u) ∷ n))
      → (k : K) → get k m ≡ get k n
  unfolding get
  get_tail j w m i u n e a b h k =
      ground (arith, h k, o.cmp_eq k j, o.cmp_self k, get-Above j m a, get-Above i n b)

  -- A sorted map is determined by what it reads.
  pub IsSorted-ext :
      (a b : BTreeMap K V) → IsSorted a → IsSorted b → ((k : K) → get k a ≡ get k b) → a ≡ b
  IsSorted-ext [] [] s t h = refl
  IsSorted-ext [] ((i, u) ∷ n) s t h = cc (h i, get_head i u n, get-nil i)
  IsSorted-ext ((j, w) ∷ m) [] s t h = cc (h j, get_head j w m, get-nil j)
  IsSorted-ext ((j, w) ∷ m) ((i, u) ∷ n) s t h = elim (Ordering-cases (o.cmp j i)) [
    | inl l ↦ cc (h j, get_head j w m, get_below j i u n l t.0)
    | inr (inl e) ↦
        let p = o.cmp_eq j i e in
        cc (
          p,
          h j,
          get_head j w m,
          get_head i u n,
          IsSorted-ext m n s.1 t.1 (get_tail j w m i u n p s.0 t.0 h),
        )
    | inr (inr g) ↦ cc (h i, get_head i u n, get_below i j w m (o.cmp_swap_gt j i g) s.0)
  ]

  entries_shift :
      (j : K) (w : V) (m n : BTreeMap K V)
      → Above j n
      → All (λ f. get f.0 m ≡ some f.1) n
      → All (λ f. get f.0 ((j, w) ∷ m) ≡ some f.1) n
  unfolding get
  entries_shift j w m [] a h = tt
  entries_shift j w m ((i, u) ∷ n) a h =
      (ground (arith, o.cmp_swap_lt j i), entries_shift j w m n a.1 h.1)

  -- Each entry of a sorted map is what its key reads.
  pub get_entries : (m : BTreeMap K V) → IsSorted m → All (λ f. get f.0 m ≡ some f.1) m
  get_entries [] s = tt
  get_entries ((j, w) ∷ m) s = (get_head j w m, entries_shift j w m m s.0 (get_entries m s.1))

  -- Writing what is there changes nothing.
  pub insert_again :
      (k : K) (v : V) (m : BTreeMap K V) → IsSorted m → get k m ≡ some v → insert k v m ≡ m
  unfolding get insert
  insert_again k v [] s h = cc
  insert_again k v ((j, w) ∷ m) s h =
      ground (arith, insert_again k v m s.1, get_below k j w m, o.cmp_eq k j)

  remove-Above : (k : K) (m : BTreeMap K V) → Above k m → remove k m ≡ m
  unfolding remove
  remove-Above k [] a = refl
  remove-Above k ((j, w) ∷ m) a = ground (arith, remove-Above k m a.1)

  Above_middle :
      (b : K) (front : BTreeMap K V) (k : K) (v : V) (m : BTreeMap K V)
      → Above b (front ++ ((k, v) ∷ m))
      → b ≺ k
  Above_middle b [] k v m a = a.0
  Above_middle b ((j, w) ∷ front) k v m a = Above_middle b front k v m a.1

  pub remove_middle :
      (front : BTreeMap K V) (k : K) (v : V) (m : BTreeMap K V)
      → IsSorted (front ++ ((k, v) ∷ m))
      → remove k (front ++ ((k, v) ∷ m)) ≡ front ++ m
  unfolding remove
  remove_middle [] k v m s = ground (arith, o.cmp_self k, remove-Above k m s.0)
  remove_middle ((j, w) ∷ front) k v m s =
      ground
        (arith, o.cmp_swap_lt j k, Above_middle j front k v m s.0, remove_middle front k v m s.1)

  pub get_middle :
      (front : BTreeMap K V) (k : K) (v : V) (m : BTreeMap K V)
      → IsSorted (front ++ ((k, v) ∷ m))
      → get k (front ++ ((k, v) ∷ m)) ≡ some v
  unfolding get
  get_middle [] k v m s = ground (arith, o.cmp_self k)
  get_middle ((j, w) ∷ front) k v m s =
      ground (arith, o.cmp_swap_lt j k, Above_middle j front k v m s.0, get_middle front k v m s.1)

  -- A key above all others goes to the end.
  pub insert_last :
      (m : BTreeMap K V) (k : K) (v : V) (n : BTreeMap K V)
      → IsSorted (m ++ ((k, v) ∷ n))
      → insert k v m ≡ m ++ ((k, v) ∷ [])
  unfolding insert
  insert_last [] k v n s = refl
  insert_last ((j, w) ∷ m) k v n s =
      ground (arith, o.cmp_swap_lt j k, Above_middle j m k v n s.0, insert_last m k v n s.1)
