-- ===== src/BTreeMap.antt =====
-- Rust's `BTreeMap` as a list of entries in the order of the keys: what `std` documents of the
-- methods that the source calls. Iteration is in the order of the list.
pub mod Lookup
pub mod Sorted
use Prim.Native.Nat.Ordering.{lt, eq, gt}
use cloud_search.Prelude.{ℕ, Option, none, some, List, [], ◌∷◌, map, length}
use cloud_search.Prelude.Order.{Ord}

abbrev pub BTreeMap {ℓ κ} : Type ℓ → Type κ → Type (ℓ ⊔ κ)
BTreeMap K V = List (K × V)

module _ {ℓ κ} {K : Type ℓ} {V : Type κ} where
  abbrev pub keys : BTreeMap K V → List K
  keys = map (λ e. e.0)

  abbrev pub values : BTreeMap K V → List V
  values = map (λ e. e.1)

module _ {ℓ κ} {K : Type ℓ} {V : Type κ} ⦃o : Ord K⦄ where
  unfoldable pub get : K → BTreeMap K V → Option V
  get k [] = none
  get k ((j, w) ∷ m) = elim (o.cmp k j) [ eq ↦ some w | _ ↦ get k m ]

  unfoldable pub insert : K → V → BTreeMap K V → BTreeMap K V
  insert k v [] = (k, v) ∷ []
  insert k v ((j, w) ∷ m) = elim (o.cmp k j) [
    | lt ↦ (k, v) ∷ (j, w) ∷ m
    | eq ↦ (k, v) ∷ m
    | gt ↦ (j, w) ∷ insert k v m
  ]

  unfoldable pub remove : K → BTreeMap K V → BTreeMap K V
  remove k [] = []
  remove k ((j, w) ∷ m) = elim (o.cmp k j) [ eq ↦ remove k m | _ ↦ (j, w) ∷ remove k m ]

  -- `entry(k).or_insert(init)` changed by `f`.
  unfoldable pub upsert : K → V → (V → V) → BTreeMap K V → BTreeMap K V
  upsert k init f m = elim (get k m) [ none ↦ insert k (f init) m | some v ↦ insert k (f v) m ]

  -- A map that reads as another with one key changed.
  unfoldable pub update : K → Option V → (K → Option V) → K → Option V
  update k v f p = elim (o.cmp p k) [ eq ↦ v | _ ↦ f p ]
