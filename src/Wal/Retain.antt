-- ===== src/Wal/Retain.antt =====
-- A replay of the files that `trim_through` leaves.
use cloud_search.Prelude.{ℕ, ◌≤◌, ◌≡◌, refl, ◌∙◌, [], ◌∷◌, List, arith, All}
use cloud_search.Prelude.Order.{nat_ord}
use cloud_search.BTreeMap.{BTreeMap}
use cloud_search.BTreeMap.Sorted.{IsSorted, Above}
use cloud_search.Common.{ok}
use cloud_search.Wal.Records.{Codec}
use cloud_search.Wal.{WalEntry, WalManager, trim_through, replay_from}
use cloud_search.Wal.Spec.{Log, AllStorable, represent, replay, uncovered, trim}
use cloud_search.Wal.Refines.{replay_from-represent}
use cloud_search.Wal.Trim.{Ascends, trim_through-represent, replay-trim}

module _ (active n : ℕ) where
  pub All-uncovered :
      (P : ℕ × List WalEntry → Type 0) (m : BTreeMap ℕ (List WalEntry))
      → All P m
      → All P (uncovered active n m)
  unfolding uncovered
  All-uncovered P [] a = tt
  All-uncovered P ((g, es) ∷ m) a = ground (arith, All-uncovered P m a.1)

  Above-uncovered :
      (b : ℕ) (m : BTreeMap ℕ (List WalEntry)) → Above b m → Above b (uncovered active n m)
  unfolding uncovered
  Above-uncovered b [] a = tt
  Above-uncovered b ((g, es) ∷ m) a = ground (arith, Above-uncovered b m a.1)

  pub uncovered-IsSorted :
      (m : BTreeMap ℕ (List WalEntry)) → IsSorted m → IsSorted (uncovered active n m)
  unfolding uncovered
  uncovered-IsSorted [] s = tt
  uncovered-IsSorted ((g, es) ∷ m) s =
      ground (arith, uncovered-IsSorted m s.1, Above-uncovered g m s.0)

module _ (c : Codec) where
  -- In a log whose generations are sorted, storable and do not fall in their sequence numbers,
  -- `trim_through n` succeeds, and `replay_from x` of what it leaves gives the entries above `x` of the
  -- whole log, for every `x` from `n` on.
  pub replay_from-trim_through :
      (n x : ℕ) (a : Log)
      → IsSorted a.generations
      → AllStorable c a.generations
      → All (λ f. Ascends 0 f.1) a.generations
      → n ≤ x
      → (k : ℕ) × (d : WalManager) × (trim_through n (represent c a) ≡ ok (k, d))
        × (replay_from c x d ≡ ok (replay x a))
  replay_from-trim_through n x a s t h l = (
    _,
    represent c (trim n a),
    trim_through-represent c n a s t,
    replay_from-represent c x (trim n a)
          (unfold trim in uncovered-IsSorted a.active n a.generations s)
          (unfold trim in All-uncovered a.active n _ a.generations t)
        ∙ (rw (replay-trim x n a h l) refl),
  )
