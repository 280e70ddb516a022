-- ===== src/Wal/Examples.antt =====
-- Runs of the log over a toy codec, and the theorems at concrete logs.
use cloud_search.Prelude.{◌∙◌, ℕ, ◌<◌, ◌≡◌, refl, true, [], ◌∷◌, arith, All}
use cloud_search.Json.{object, end}
use cloud_search.Wal.Toy.{toy}
use cloud_search.Common.{ok}
use cloud_search.Wal.Records.{index_document, delete_document, mapping_update}
use cloud_search.Wal.{
  WalManager, WalEntry, append, replay_from, trim_through, scan, next_sequence_number,
}
use cloud_search.Wal.Spec.{
  Log, IsStorable, represent, write, replay, trim, after, gather, count_covered, uncovered, covered,
  last_of,
}
use cloud_search.Wal.Scan.{length-encode}
use cloud_search.Wal.Refines.{append-represent, replay_from-represent}
use cloud_search.Wal.Crash.{torn, replay_from-torn}
use cloud_search.Wal.Trim.{trim_through-represent}
use cloud_search.Wal.Retain.{replay_from-trim_through}
use cloud_search.Wal.Sequence.{next_sequence_number_fresh, scan_fuel}

abbrev first : WalEntry
first = record {
  sequence_number = 1;
  recorded_at_unix_ms = 1000;
  wal_record = index_document (record { id = b'a' ∷ []; source = object end });
}

abbrev second : WalEntry
second = record {
  sequence_number = 2;
  recorded_at_unix_ms = 1001;
  wal_record = delete_document (b'a' ∷ []);
}

abbrev third : WalEntry
third = record {
  sequence_number = 3;
  recorded_at_unix_ms = 1002;
  wal_record = mapping_update 7 (b'x' ∷ []);
}

-- Two generations, the second active.
abbrev two_files : Log
two_files = record { active = 2; generations = (1, first ∷ []) ∷ (2, second ∷ []) ∷ [] }

abbrev first-IsStorable : IsStorable toy first
first-IsStorable = record {
  payload = 2 ∷ b'a' ∷ [];
  stored = refl;
  payload_fits = omega arith;
  sequence_fits = omega arith;
  time_fits = omega arith;
}

abbrev second-IsStorable : IsStorable toy second
second-IsStorable = record {
  payload = 0 ∷ b'a' ∷ [];
  stored = refl;
  payload_fits = omega arith;
  sequence_fits = omega arith;
  time_fits = omega arith;
}

abbrev third-IsStorable : IsStorable toy third
third-IsStorable = record {
  payload = 1 ∷ 7 ∷ b'x' ∷ [];
  stored = refl;
  payload_fits = omega arith;
  sequence_fits = omega arith;
  time_fits = omega arith;
}

replay_runs : replay_from toy 1 (represent toy two_files) ≡ ok (second ∷ [])
replay_runs =
    replay_from-represent toy 1 two_files ((refl, tt), (tt, tt))
      ((first-IsStorable, tt), ((second-IsStorable, tt), tt))
    ∙ (unfold replay gather after in refl)

abbrev two_files_storable : All (λ f. All (IsStorable toy) f.1) two_files.generations
two_files_storable = ((first-IsStorable, tt), ((second-IsStorable, tt), tt))

append-represent_example :
    append toy 3 third.wal_record 1002 (represent toy two_files)
    ≡ ok (represent toy (write third two_files))
append-represent_example = append-represent toy two_files third third-IsStorable

replay_from-represent_example :
    replay_from toy 1 (represent toy two_files) ≡ ok (replay 1 two_files)
replay_from-represent_example =
    replay_from-represent toy 1 two_files ((refl, tt), (tt, tt)) two_files_storable

replay_from-torn_example : replay_from toy 0 (torn toy 27 third two_files) ≡ ok (replay 0 two_files)
replay_from-torn_example =
    replay_from-torn toy 27 0 third two_files third-IsStorable
      (omega (arith, length-encode toy third third-IsStorable)) ((refl, tt), (tt, tt))
      two_files_storable

trim_through-represent_example :
    trim_through 1 (represent toy two_files)
    ≡ ok (count_covered 2 1 two_files.generations, represent toy (trim 1 two_files))
trim_through-represent_example =
    trim_through-represent toy 1 two_files ((refl, tt), (tt, tt)) two_files_storable

-- The covered generation goes, the active one stays.
trim_runs : (trim 1 two_files).generations ≡ (2, second ∷ []) ∷ []
unfolding trim uncovered covered last_of
trim_runs = refl

replay_from-trim_through_example :
    (k : ℕ) × (d : WalManager) × (trim_through 1 (represent toy two_files) ≡ ok (k, d))
    × (replay_from toy 1 d ≡ ok (replay 1 two_files))
replay_from-trim_through_example =
    replay_from-trim_through toy 1 1 two_files ((refl, tt), (tt, tt)) two_files_storable
      (omega arith) (omega arith)

next_sequence_number_fresh_example :
    (n : ℕ) × (next_sequence_number toy (represent toy two_files) ≡ ok n)
    × All (λ e. e.sequence_number < n) (replay 0 two_files)
next_sequence_number_fresh_example =
    next_sequence_number_fresh toy two_files ((refl, tt), (tt, tt)) two_files_storable
      (unfold replay gather after in omega arith)

scan_fuel_example : scan toy true 0 3 (1 ∷ 2 ∷ 3 ∷ []) ≡ scan toy true 0 9 (1 ∷ 2 ∷ 3 ∷ [])
scan_fuel_example = scan_fuel toy true 0 3 9 (1 ∷ 2 ∷ 3 ∷ []) (omega arith) (omega arith)
