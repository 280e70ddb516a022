-- ===== src/BTreeMap/Lookup.antt =====
-- What is read after an insertion and after a removal.
use Prim.Native.Nat.{Ordering}
use Prim.Native.Nat.Ordering.{lt, eq, gt}
use mathlib.Core.Path.{subst}
use cloud_search.Prelude.{◌≡◌, refl, ◌≢◌, ◌⊎◌, inl, inr, Option, none, some, [], ◌∷◌, arith, All}
use cloud_search.Prelude.Order.{Ord}
use cloud_search.BTreeMap.{BTreeMap, get, insert, remove, update, keys}

eq-cases : (c : Ordering) → (c ≡ eq) ⊎ (c ≢ eq)
eq-cases lt = inr (λ e. cc)
eq-cases eq = inl refl
eq-cases gt = inr (λ e. cc)

module _ {ℓ κ} {K : Type ℓ} {V : Type κ} ⦃o : Ord K⦄ where
  pub get-insert :
      (k : K) (v : V) (m : BTreeMap K V) (p : K)
      → get p (insert k v m) ≡ update k (some v) (λ q. get q m) p
  unfolding get insert update
  get-insert k v [] p = ground arith
  get-insert k v ((j, w) ∷ m) p = ground (
    arith,
    get-insert k v m p,
    o.cmp_eq p k,
    o.cmp_eq p j,
    o.cmp_eq k j,
    o.cmp_self p,
    o.cmp_self k,
    o.cmp_self j,
  )

  pub get-remove :
      (k : K) (m : BTreeMap K V) (p : K) → get p (remove k m) ≡ update k none (λ q. get q m) p
  unfolding get remove update
  get-remove k [] p = ground arith
  get-remove k ((j, w) ∷ m) p = ground (
    arith,
    get-remove k m p,
    o.cmp_eq p k,
    o.cmp_eq p j,
    o.cmp_eq k j,
    o.cmp_self p,
    o.cmp_self k,
    o.cmp_self j,
  )

  pub update_self : (k : K) (v : Option V) (f : K → Option V) → update k v f k ≡ v
  unfolding update
  update_self k v f = ground (arith, o.cmp_self k)

  pub update_ne : (k : K) (v : Option V) (f : K → Option V) (p : K) → p ≢ k → update k v f p ≡ f p
  unfolding update
  update_ne k v f p h = ground (arith, o.cmp_eq p k)

  -- Which keys there are does not hang on the values.
  pub keys-insert : (k : K) (v w : V) (m : BTreeMap K V) → keys (insert k v m) ≡ keys (insert k w m)
  unfolding insert
  keys-insert k v w [] = refl
  keys-insert k v w ((j, u) ∷ m) = ground (arith, keys-insert k v w m)

  pub All-insert {μ} :
      (P : K × V → Type μ) (k : K) (v : V) (m : BTreeMap K V)
      → P (k, v)
      → All P m
      → All P (insert k v m)
  unfolding insert
  All-insert P k v [] p a = (p, tt)
  All-insert P k v ((j, u) ∷ m) p a = ground (arith, All-insert P k v m p a.1)

  pub All-get {μ} :
      (P : V → Type μ) (k : K) (v : V) (m : BTreeMap K V)
      → All (λ f. P f.1) m
      → get k m ≡ some v
      → P v
  unfolding get
  All-get P k v [] a h = cc
  All-get P k v ((j, u) ∷ m) a h = pick (o.cmp k j) h (All-get P k v m a.1)
    where
      pick :
          (t : Ordering)
          → elim t [ eq ↦ some u | _ ↦ get k m ] ≡ some v
          → (get k m ≡ some v → P v)
          → P v
      pick lt e ih = ih e
      pick eq e ih = let same : u ≡ v = cc in subst P same a.0
      pick gt e ih = ih e

  -- The first entry is what is read, or is passed over.
  pub get-cases :
      (k j : K) (w : V) (m : BTreeMap K V)
      → ((k ≡ j) × (get k ((j, w) ∷ m) ≡ some w)) ⊎ ((k ≢ j) × (get k ((j, w) ∷ m) ≡ get k m))
  unfolding get
  get-cases k j w m = elim (eq-cases (o.cmp k j)) [
    | inl e ↦ inl (o.cmp_eq k j e, rw (e, get))
    | inr n ↦ inr (ground (arith, o.cmp_self k), ground arith)
  ]

  pub get-cons_self : (k : K) (w : V) (m : BTreeMap K V) → get k ((k, w) ∷ m) ≡ some w
  unfolding get
  get-cons_self k w m = rw (o.cmp_self, get)

  pub get-cons_ne : (k j : K) (w : V) (m : BTreeMap K V) → k ≢ j → get k ((j, w) ∷ m) ≡ get k m
  unfolding get
  get-cons_ne k j w m n = ground (arith, o.cmp_eq k j)
