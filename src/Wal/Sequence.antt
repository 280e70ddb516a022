-- ===== src/Wal/Sequence.antt =====
-- The next sequence number, and that a file's length is enough fuel for the loop over it.
use cloud_search.Prelude.{
  ℕ, zero, suc, ◌+◌, ◌<◌, ◌≤◌, ◌≡◌, refl, Bool, List, [], ◌∷◌, arith, drop, length, length-drop,
  All,
}
use cloud_search.Prelude.Order.{nat_ord}
use cloud_search.BTreeMap.Sorted.{IsSorted}
use cloud_search.Bytes.{Bytes, from_le, slice}
use cloud_search.Common.{ok}
use cloud_search.Wal.Records.{Codec}
use cloud_search.Wal.{WalEntry, header_len, scan, next_sequence_number, last_sequence}
use cloud_search.Wal.Spec.{Log, AllStorable, represent, replay}
use cloud_search.Wal.Refines.{replay_from-represent}
use cloud_search.Wal.Trim.{Ascends}

last_sequence-ge : (n : ℕ) (es : List WalEntry) → Ascends n es → n ≤ last_sequence n es
unfolding last_sequence
last_sequence-ge n [] a = omega arith
last_sequence-ge n (e ∷ es) a = omega (arith, last_sequence-ge e.sequence_number es a.1)

All-last_sequence :
    (n : ℕ) (es : List WalEntry)
    → Ascends n es
    → All (λ e. e.sequence_number < last_sequence n es + 1) es
unfolding last_sequence
All-last_sequence n [] a = tt
All-last_sequence n (e ∷ es) a = (
  omega (arith, last_sequence-ge e.sequence_number es a.1),
  All-last_sequence e.sequence_number es a.1,
)

module _ (c : Codec) where
  -- On the files of a log with sorted generations, entries that the format can hold, and sequence
  -- numbers that do not fall, `next_sequence_number` succeeds with a number above those of all the
  -- entries.
  pub next_sequence_number_fresh :
      (a : Log)
      → IsSorted a.generations
      → AllStorable c a.generations
      → Ascends 0 (replay 0 a)
      → (n : ℕ) × (next_sequence_number c (represent c a) ≡ ok n)
        × All (λ e. e.sequence_number < n) (replay 0 a)
  unfolding next_sequence_number
  next_sequence_number_fresh a o s h = (
    last_sequence 0 (replay 0 a) + 1,
    rw (replay_from-represent c 0 a o s),
    All-last_sequence 0 (replay 0 a) h,
  )

  -- Any two amounts of fuel that are at least the length of a file give the same scan of it,
  -- whatever its bytes are.
  pub scan_fuel :
      (active : Bool) (x f g : ℕ) (bs : Bytes)
      → length bs ≤ f
      → length bs ≤ g
      → scan c active x f bs ≡ scan c active x g bs
  unfolding scan
  scan_fuel active x zero zero bs h k = refl
  scan_fuel active x zero (suc g) bs h k = ground arith
  scan_fuel active x (suc f) zero bs h k = ground arith
  scan_fuel active x (suc f) (suc g) bs h k =
      let n = header_len + from_le (slice 2 4 bs) in
      ground (arith, length-drop n bs, scan_fuel active x f g (drop n bs))
