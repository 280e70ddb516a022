-- ===== src/Bytes/RoundTrip.antt =====
-- Reading back the bytes of an integer.
use cloud_search.Prelude.{
  ℕ, zero, suc, ◌/◌, ◌^◌, ◌<◌, ◌≡◌, refl, ap, arith, ◌++◌, length, take, drop, drop_front,
}
use cloud_search.Bytes.{Bytes, to_le, from_le}
use native.Mathlib.Nat.{pow-suc}

pub length-to_le : (k v : ℕ) → length (to_le k v) ≡ k
unfolding to_le
length-to_le zero v = refl
length-to_le (suc k) v = ap suc (length-to_le k (v / 256))

pub from_le-to_le : (k v : ℕ) → v < 256 ^ k → from_le (to_le k v) ≡ v
unfolding to_le from_le
from_le-to_le zero v h = omega arith
from_le-to_le (suc k) v h = omega (arith, from_le-to_le k (v / 256) (omega (arith, pow-suc 256 k)))

pub from_le_u32 : (v : ℕ) → v < 2 ^ 32 → from_le (to_le 4 v) ≡ v
from_le_u32 v h = from_le-to_le 4 v h

pub from_le_u64 : (v : ℕ) → v < 2 ^ 64 → from_le (to_le 8 v) ≡ v
from_le_u64 v h = from_le-to_le 8 v h

pub take_u32 : (v : ℕ) (rest : Bytes) → v < 2 ^ 32 → from_le (take 4 (to_le 4 v ++ rest)) ≡ v
unfolding to_le
take_u32 v rest h = from_le_u32 v h

pub take_u64 : (v : ℕ) (rest : Bytes) → v < 2 ^ 64 → from_le (take 8 (to_le 8 v ++ rest)) ≡ v
unfolding to_le
take_u64 v rest h = from_le_u64 v h

pub drop-to_le : (k v : ℕ) (rest : Bytes) → drop k (to_le k v ++ rest) ≡ rest
drop-to_le k v rest = rw (length-to_le k v) at (drop_front (to_le k v) rest)
