-- ===== src/Wal/Refines.antt =====
-- The directory of files does what the log of entries promises.
use cloud_search.Prelude.{
  ℕ, ◌+◌, ◌≡◌, refl, ap, Bool, false, none, some, List, [], ◌∷◌, ◌++◌, append-nil, append_assoc,
  arith, length, ◌==◌, ltb, All,
}
use cloud_search.Prelude.Order.{nat_ord}
use cloud_search.BTreeMap.{BTreeMap, get, insert, keys}
use cloud_search.BTreeMap.Sorted.{IsSorted, get_entries}
use cloud_search.Common.{ok}
use cloud_search.Wal.Records.{Codec}
use cloud_search.Wal.{
  WalEntry, WalManager, header, scan, append, replay_from, replay_loop, rollover, generation_bytes,
  u32_max, current_generation, list_generations,
}
use cloud_search.Wal.Spec.{
  Log, IsStorable, AllStorable, encode_all, encode_files, represent, entries_of, write, roll,
  replay, gather, after,
}
use cloud_search.Wal.Scan.{scan-encode_all, scan-nil, length-encode_all, encode-eq}

module _ (c : Codec) where
  -- The files of a log, read at a number.
  pub get-encode_files :
      (g : ℕ) (m : BTreeMap ℕ (List WalEntry))
      → get g (encode_files c m) ≡ elim (get g m) [ none ↦ none | some es ↦ some (encode_all c es) ]
  unfolding get encode_files
  get-encode_files g [] = refl
  get-encode_files g ((j, es) ∷ m) = ground (arith, get-encode_files g m)

  pub keys-encode_files : (m : BTreeMap ℕ (List WalEntry)) → keys (encode_files c m) ≡ keys m
  unfolding encode_files
  keys-encode_files [] = refl
  keys-encode_files ((j, es) ∷ m) = ap (λ t. j ∷ t) (keys-encode_files m)

  pub insert-encode_files :
      (g : ℕ) (es : List WalEntry) (m : BTreeMap ℕ (List WalEntry))
      → encode_files c (insert g es m) ≡ insert g (encode_all c es) (encode_files c m)
  unfolding insert encode_files
  insert-encode_files g es [] = refl
  insert-encode_files g es ((j, fs) ∷ m) = ground (arith, insert-encode_files g es m)

  encode_all-append :
      (xs ys : List WalEntry) → encode_all c (xs ++ ys) ≡ encode_all c xs ++ encode_all c ys
  unfolding encode_all
  encode_all-append [] ys = refl
  encode_all-append (x ∷ xs) ys = rw (encode_all-append xs ys, append_assoc)

  generation_bytes-represent :
      (g : ℕ) (a : Log) → generation_bytes g (represent c a) ≡ encode_all c (entries_of g a)
  unfolding generation_bytes represent entries_of encode_all
  generation_bytes-represent g a = ground (arith, get-encode_files g a.generations)

  encode_one :
      (e : WalEntry) (s : IsStorable c e)
      → encode_all c (e ∷ []) ≡ header c e s.payload ++ s.payload
  unfolding encode_all
  encode_one e s = rw (append-nil, encode-eq c e s)

  -- Appending an entry that the format can hold to the files of a log gives the files of the log
  -- with the entry at the end of its active generation.
  pub append-represent :
      (a : Log) (e : WalEntry)
      → IsStorable c e
      → append c e.sequence_number e.wal_record e.recorded_at_unix_ms (represent c a)
        ≡ ok (represent c (write e a))
  unfolding append current_generation represent write
  append-represent a e s =
      let room : ltb u32_max (length s.payload) ≡ false = ground arith in rw (s.stored, room, stays)
    where
      stays :
          insert a.active
            (generation_bytes a.active (represent c a) ++ (header c e s.payload ++ s.payload))
            (represent c a).generations
          ≡ (represent c (write e a)).generations
      stays = rw (
        generation_bytes-represent a.active a,
        ← encode_one e s,
        ← encode_all-append (entries_of a.active a) (e ∷ []),
        insert-encode_files,
      )

  -- What `replay_loop` gathers from files that each read as their entries.
  abbrev pub ReadsAs : ℕ → ℕ → WalManager → BTreeMap ℕ (List WalEntry) → Type 0
  ReadsAs current x d m =
      All
        (λ f.
          scan c (f.0 == current) x (length (generation_bytes f.0 d)) (generation_bytes f.0 d)
          ≡ ok (after x f.1))
        m

  pub replay_loop-ReadsAs :
      (current x : ℕ) (d : WalManager) (m : BTreeMap ℕ (List WalEntry))
      → ReadsAs current x d m
      → replay_loop c current x (keys m) d ≡ ok (gather x m)
  unfolding replay_loop gather
  replay_loop-ReadsAs current x d [] h = refl
  replay_loop-ReadsAs current x d ((g, es) ∷ m) h = rw (h.0, replay_loop-ReadsAs current x d m h.1)

  pub scan_file :
      (active : Bool) (x : ℕ) (es : List WalEntry)
      → All (IsStorable c) es
      → scan c active x (length (encode_all c es)) (encode_all c es) ≡ ok (after x es)
  scan_file active x es s = rw append-nil at (
      scan-encode_all c active x (length (encode_all c es)) es [] s (length-encode_all c es s)
        (scan-nil c active x))

  represent-ReadsAs :
      (x : ℕ) (a : Log) (m : BTreeMap ℕ (List WalEntry))
      → AllStorable c m
      → All (λ f. get f.0 a.generations ≡ some f.1) m
      → ReadsAs a.active x (represent c a) m
  represent-ReadsAs x a [] s h = tt
  represent-ReadsAs x a ((g, es) ∷ m) s h = (
    rw (generation_bytes-represent g a, reads) (scan_file (g == a.active) x es s.0),
    represent-ReadsAs x a m s.1 h.1,
  )
    where
      reads : entries_of g a ≡ es
      reads = unfold entries_of in ground (arith, h.0)

  -- On the files of a log with sorted generations and entries that the format can hold, `replay_from
  -- x` returns the entries above `x`, generation by generation and in order.
  pub replay_from-represent :
      (x : ℕ) (a : Log)
      → IsSorted a.generations
      → AllStorable c a.generations
      → replay_from c x (represent c a) ≡ ok (replay x a)
  unfolding replay_from current_generation list_generations represent replay
  replay_from-represent x a o s = rw (
    keys-encode_files a.generations,
    replay_loop-ReadsAs a.active x (represent c a) a.generations
        (represent-ReadsAs x a a.generations s (get_entries a.generations o)),
  )

  pub rollover-represent :
      (a : Log) → rollover (represent c a) ≡ ok (a.active + 1, represent c (roll a))
  unfolding rollover current_generation represent roll
  rollover-represent a = refl
