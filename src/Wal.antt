-- ===== src/Wal.antt =====
-- crates/cloudsearch-storage/src/lib.rs: the write-ahead log. `WalManager` keeps a directory of
-- generation files and a file CURRENT that names the active one.
pub mod Records
pub mod Spec
pub mod Scan
pub mod Refines
pub mod Crash
pub mod Trim
pub mod Sequence
pub mod Retain
pub mod Toy
mod Examples
use cloud_search.Prelude.{
  ℕ, zero, suc, ◌+◌, ◌-◌, ◌^◌, ◌<◌, ◌≤◌, Bool, true, false, not, Option, none, some, List, [], ◌∷◌,
  ◌++◌, length, drop, take, ltb, leb, ◌==◌, if◌then◌else◌,
}
use cloud_search.Prelude.Order.{nat_ord}
use cloud_search.BTreeMap.{BTreeMap, get, insert, remove, keys}
use cloud_search.Bytes.{Bytes, Text, to_le, from_le, slice}
use cloud_search.Common.{
  Result, ok, err, panic, invalid_wal_record, wal_checksum_mismatch, serde, io, ◌>>=◌, ◌>>◌,
}
use cloud_search.Wal.Records.{WalRecord, index_document, delete_document, mapping_update, Codec}

pub record WalEntry : Type 0 where
  pub sequence_number : ℕ
  -- The bit pattern of an `i64`.
  pub recorded_at_unix_ms : ℕ
  pub wal_record : WalRecord

-- The file CURRENT: absent, a text that parses as a number, or another text.
pub data Current : Type 0 where
  missing : Current
  holds : ℕ → Current
  garbled : Current

-- The directory of the log: CURRENT, the files NNNNNN.log by number with their bytes, and whether
-- a file `*.log` is there whose stem is no number.
pub record WalManager : Type 0 where
  pub current : Current
  pub generations : BTreeMap ℕ Bytes
  pub malformed : Bool

abbrev pub header_len : ℕ
header_len = 26

abbrev pub wal_version : ℕ
wal_version = 1

abbrev pub default_generation : ℕ
default_generation = 1

abbrev pub u32_max : ℕ
u32_max = 2 ^ 32 - 1

unfoldable pub record_type : WalRecord → ℕ
record_type (index_document d) = 1
record_type (delete_document id) = 2
record_type (mapping_update v r) = 3

unfoldable pub current_generation : WalManager → Result ℕ
current_generation d = elim d.current [
  | missing ↦ err io
  | holds n ↦ ok n
  | garbled ↦ err invalid_wal_record
]

unfoldable pub list_generations : WalManager → Result (List ℕ)
list_generations d = if d.malformed then err invalid_wal_record else ok (keys d.generations)

-- `open` creates CURRENT where it is absent.
unfoldable pub ensure_current_generation : WalManager → WalManager
ensure_current_generation d = elim d.current [
  | missing ↦ record d { current = holds default_generation }
  | _ ↦ d
]

unfoldable pub rollover : WalManager → Result (ℕ × WalManager)
rollover d = do g ← current_generation d; ok (g + 1, record d { current = holds (g + 1) })

unfoldable pub generation_bytes : ℕ → WalManager → Bytes
generation_bytes g d = elim (get g d.generations) [ none ↦ [] | some bs ↦ bs ]

-- The loop of `max_sequence_in_generation`: `rest` is `bytes[offset..]`, and each round that goes
-- on takes a header at least, so that the length of the file is enough fuel.
unfoldable pub max_sequence_loop : ℕ → Bytes → Option ℕ → Option ℕ
max_sequence_loop zero rest last = last
max_sequence_loop (suc fuel) rest last =
    let payload_len = from_le (slice 2 4 rest) in
    let more =
      max_sequence_loop fuel (drop (header_len + payload_len) rest)
        (some (from_le (slice 6 8 rest))) in
    if ltb (length rest) header_len
    then last
    else if ltb (length rest) (header_len + payload_len)
    then last
    else more

unfoldable pub max_sequence_in_generation : ℕ → WalManager → Option ℕ
max_sequence_in_generation g d = elim (get g d.generations) [
  | none ↦ none
  | some bs ↦ max_sequence_loop (length bs) bs none
]

-- One generation of `trim_through`.
unfoldable pub trim_step : ℕ → ℕ → ℕ → WalManager × ℕ → WalManager × ℕ
trim_step current inclusive g (d, trimmed) =
    if g == current then (d, trimmed) else elim (max_sequence_in_generation g d) [
      | none ↦ (d, trimmed)
      | some last ↦
          if leb last inclusive
          then (record d { generations = remove g d.generations }, trimmed + 1)
          else (d, trimmed)
    ]

unfoldable pub trim_loop : ℕ → ℕ → List ℕ → WalManager × ℕ → WalManager × ℕ
trim_loop current inclusive [] s = s
trim_loop current inclusive (g ∷ gs) s =
    trim_loop current inclusive gs (trim_step current inclusive g s)

unfoldable pub trim_through : ℕ → WalManager → Result (ℕ × WalManager)
trim_through inclusive d = do
  current ← current_generation d
  gs ← list_generations d
  let (d', trimmed) = trim_loop current inclusive gs (d, 0)
  ok (trimmed, d')

-- `entries.last().map_or(n, ..)`.
unfoldable pub last_sequence : ℕ → List WalEntry → ℕ
last_sequence n [] = n
last_sequence n (e ∷ es) = last_sequence e.sequence_number es

module _ (c : Codec) where
  unfoldable pub decode_record : ℕ → Bytes → Result WalRecord
  decode_record ty payload =
      if leb 1 ty
      then if leb ty 3
        then elim (c.from_slice payload) [ none ↦ err serde | some r ↦ ok r ]
        else err invalid_wal_record
      else err invalid_wal_record

  unfoldable pub header : WalEntry → Bytes → Bytes
  header e payload =
      wal_version
      ∷ record_type e.wal_record
      ∷ (to_le 4 (length payload)
          ++ (to_le 8 e.sequence_number
              ++ (to_le 8 e.recorded_at_unix_ms ++ to_le 4 (c.crc32c payload))))

  -- `timestamp` is what the clock says.
  unfoldable pub append : ℕ → WalRecord → ℕ → WalManager → Result WalManager
  append sequence_number rec timestamp d = do
    g ← current_generation d
    payload ← elim (c.to_vec rec) [ none ↦ err serde | some p ↦ ok p ]
    let entry : WalEntry = record {
      sequence_number = sequence_number;
      recorded_at_unix_ms = timestamp;
      wal_record = rec;
    }
    if ltb u32_max (length payload)
        then panic
        else ok (record d {
          generations =
              insert g (generation_bytes g d ++ (header entry payload ++ payload)) d.generations;
        })

  -- The loop over one file of `replay_from`; `rest` is `bytes[offset..]` again.
  unfoldable pub scan : Bool → ℕ → ℕ → Bytes → Result (List WalEntry)
  scan active exclusive zero rest = ok []
  scan active exclusive (suc fuel) rest =
      let payload_len = from_le (slice 2 4 rest) in
      let sequence_number = from_le (slice 6 8 rest) in
      let payload = slice header_len payload_len rest in
      let more = scan active exclusive fuel (drop (header_len + payload_len) rest) in
      let recorded = (do
        rec ← decode_record (from_le (slice 1 1 rest)) payload
        entries ← more
        ok (
            if ltb exclusive sequence_number
            then record {
              sequence_number = sequence_number;
              recorded_at_unix_ms = from_le (slice 14 8 rest);
              wal_record = rec;
            }
              ∷ entries
            else entries)) in
      if ltb (length rest) header_len
      then ok []
      else if not (from_le (slice 0 1 rest) == wal_version)
      then err invalid_wal_record
      else if ltb (length rest) (header_len + payload_len)
      then if active then ok [] else err invalid_wal_record
      else if not (c.crc32c payload == from_le (slice 22 4 rest))
      then err wal_checksum_mismatch
      else recorded

  unfoldable pub replay_loop : ℕ → ℕ → List ℕ → WalManager → Result (List WalEntry)
  replay_loop current exclusive [] d = ok []
  replay_loop current exclusive (g ∷ gs) d = do
    let bs = generation_bytes g d
    es ← scan (g == current) exclusive (length bs) bs
    rest ← replay_loop current exclusive gs d
    ok (es ++ rest)

  unfoldable pub replay_from : ℕ → WalManager → Result (List WalEntry)
  replay_from exclusive d = do
    current ← current_generation d
    gs ← list_generations d
    replay_loop current exclusive gs d

  unfoldable pub next_sequence_number : WalManager → Result ℕ
  next_sequence_number d = do es ← replay_from 0 d; ok (last_sequence 0 es + 1)
