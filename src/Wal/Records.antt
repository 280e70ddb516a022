-- ===== src/Wal/Records.antt =====
-- The records of the log, and what the log takes from `serde_json` and `crc32c`.
use cloud_search.Prelude.{ℕ, ◌^◌, ◌<◌, ◌≡◌, Option, some}
use cloud_search.Bytes.{Bytes, Text}
use cloud_search.Common.{IndexDocument}

pub data WalRecord : Type 0 where
  index_document : IndexDocument → WalRecord
  delete_document : Text → WalRecord
  mapping_update : ℕ → Text → WalRecord

-- `serde_json::to_vec`, `serde_json::from_slice` and `crc32c::crc32c`. What is written reads back,
-- and a checksum is a `u32`.
pub record Codec : Type 0 where
  pub to_vec : WalRecord → Option Bytes
  pub from_slice : Bytes → Option WalRecord
  pub crc32c : Bytes → ℕ
  pub from_slice-to_vec : (r : WalRecord) (p : Bytes) → to_vec r ≡ some p → from_slice p ≡ some r
  pub crc32c-lt : (p : Bytes) → crc32c p < 2 ^ 32
