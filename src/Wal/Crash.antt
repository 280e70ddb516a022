-- ===== src/Wal/Crash.antt =====
-- A crash while a record is written leaves a part of it at the end of the active generation.
use cloud_search.Prelude.{
  ℕ, ◌<◌, ◌≡◌, refl, sym, ap, ◌∙◌, inl, inr, true, false, none, some, List, [], ◌∷◌, ◌++◌, arith,
  length, take, length-append, ◌==◌, Option-cases, Bool-cases, ==_iff, All,
}
use cloud_search.Prelude.Order.{nat_ord}
use cloud_search.BTreeMap.{BTreeMap, get, insert, keys, update}
use cloud_search.BTreeMap.Lookup.{get-insert, keys-insert, All-insert, All-get}
use cloud_search.BTreeMap.Sorted.{IsSorted, insert-IsSorted, get_entries, insert_again}
use cloud_search.Common.{ok}
use cloud_search.Wal.Records.{Codec}
use cloud_search.Wal.{
  WalEntry, WalManager, scan, replay_from, current_generation, list_generations, generation_bytes,
}
use cloud_search.Wal.Spec.{
  Log, IsStorable, AllStorable, encode, encode_all, encode_files, represent, entries_of, replay,
  gather, after,
}
use cloud_search.Wal.Scan.{scan-encode_all, scan-torn, length-encode_all}
use cloud_search.Wal.Refines.{
  ReadsAs, replay_loop-ReadsAs, scan_file, get-encode_files, insert-encode_files, keys-encode_files,
}

-- The log with the active generation's file created, if it was not there.
touched : Log → BTreeMap ℕ (List WalEntry)
touched a = insert a.active (entries_of a.active a) a.generations

gather_fresh :
    (x g : ℕ) (m : BTreeMap ℕ (List WalEntry))
    → get g m ≡ none
    → gather x (insert g [] m) ≡ gather x m
unfolding get insert gather after
gather_fresh x g [] h = refl
gather_fresh x g ((j, w) ∷ m) h = ground (arith, gather_fresh x g m)

pub entries_fresh : (g : ℕ) (a : Log) → get g a.generations ≡ none → entries_of g a ≡ []
unfolding entries_of
entries_fresh g a h = ground arith

pub entries_there :
    (g : ℕ) (a : Log) (es : List WalEntry) → get g a.generations ≡ some es → entries_of g a ≡ es
unfolding entries_of
entries_there g a es h = ground arith

gather-touched : (x : ℕ) (a : Log) → IsSorted a.generations → gather x (touched a) ≡ replay x a
unfolding touched replay
gather-touched x a o = elim (Option-cases (get a.active a.generations)) [
  | inl e ↦ rw (entries_fresh a.active a e) (gather_fresh x a.active a.generations e)
  | inr (es, e) ↦ rw (entries_there a.active a es e, insert_again a.active es a.generations o e)
]

module _ (c : Codec) where
  -- The first `n` bytes of the record have reached the file.
  unfoldable pub torn : ℕ → WalEntry → Log → WalManager
  torn n e a = record (represent c a) {
    generations =
        insert a.active (encode_all c (entries_of a.active a) ++ take n (encode c e))
          (represent c a).generations;
  }

  generation_bytes-torn_active :
      (n : ℕ) (e : WalEntry) (a : Log)
      → generation_bytes a.active (torn n e a)
        ≡ encode_all c (entries_of a.active a) ++ take n (encode c e)
  unfolding generation_bytes torn update
  generation_bytes-torn_active n e a = ground (
    arith,
    get-insert a.active (encode_all c (entries_of a.active a) ++ take n (encode c e))
        (represent c a).generations a.active,
  )

  generation_bytes-torn_other :
      (n : ℕ) (e : WalEntry) (a : Log) (g : ℕ) (es : List WalEntry)
      → (g == a.active) ≡ false
      → get g (touched a) ≡ some es
      → generation_bytes g (torn n e a) ≡ encode_all c es
  unfolding generation_bytes torn update touched represent
  generation_bytes-torn_other n e a g es h k = ground (
    arith,
    get-insert a.active (entries_of a.active a) a.generations g,
    get-encode_files c g a.generations,
    get-insert a.active (encode_all c (entries_of a.active a) ++ take n (encode c e))
        (encode_files c a.generations) g,
  )

  torn_file :
      (n x : ℕ) (e : WalEntry) (s : IsStorable c e) (a : Log)
      → n < length (encode c e)
      → All (IsStorable c) (entries_of a.active a)
      → scan c true x
          (length (encode_all c (entries_of a.active a) ++ take n (encode c e)))
          (encode_all c (entries_of a.active a) ++ take n (encode c e))
        ≡ ok (after x (entries_of a.active a))
  torn_file n x e s a h all =
      let es = entries_of a.active a in
      scan-encode_all c true x _ es (take n (encode c e)) all
        (omega (
          arith,
          length-append (encode_all c es) (take n (encode c e)),
          length-encode_all c es all,
        ))
        (λ f. scan-torn c x f n e s h)

  torn_active_file :
      (n x : ℕ) (e : WalEntry) (s : IsStorable c e) (a : Log) (g : ℕ) (es : List WalEntry)
      → n < length (encode c e)
      → All (IsStorable c) es
      → (g == a.active) ≡ true
      → get g (touched a) ≡ some es
      → scan c true x (length (generation_bytes g (torn n e a))) (generation_bytes g (torn n e a))
        ≡ ok (after x es)
  torn_active_file n x e s a g es h all t k =
      rw (at_active, generation_bytes-torn_active n e a, same)
        (torn_file n x e s a h (rw same at all))
    where
      at_active : g ≡ a.active
      at_active = (==_iff g a.active).0 t

      same : es ≡ entries_of a.active a
      same =
          unfold touched update in
          ground (arith, k, at_active, get-insert a.active (entries_of a.active a) a.generations g)

  torn-ReadsAs :
      (n x : ℕ) (e : WalEntry) (s : IsStorable c e) (a : Log) (m : BTreeMap ℕ (List WalEntry))
      → n < length (encode c e)
      → AllStorable c m
      → All (λ f. get f.0 (touched a) ≡ some f.1) m
      → ReadsAs c a.active x (torn n e a) m
  torn-ReadsAs n x e s a [] h all k = tt
  torn-ReadsAs n x e s a ((g, es) ∷ m) h all k = (
    elim (Bool-cases (g == a.active)) [
      | inl t ↦ rw t (torn_active_file n x e s a g es h all.0 t k.0)
      | inr f ↦ rw (f, generation_bytes-torn_other n e a g es f k.0) (scan_file c false x es all.0)
    ],
    torn-ReadsAs n x e s a m h all.1 k.1,
  )

  keys-torn : (n : ℕ) (e : WalEntry) (a : Log) → keys (torn n e a).generations ≡ keys (touched a)
  unfolding torn touched represent
  keys-torn n e a =
      let m = a.generations in
      let es = entries_of a.active a in
      keys-insert a.active (encode_all c es ++ take n (encode c e)) (encode_all c es)
        (encode_files c m)
      ∙ ap keys (sym (insert-encode_files c a.active es m))
      ∙ keys-encode_files c (insert a.active es m)

  pub entries_of-AllStorable :
      (g : ℕ) (a : Log) → AllStorable c a.generations → All (IsStorable c) (entries_of g a)
  entries_of-AllStorable g a s = elim (Option-cases (get g a.generations)) [
    | inl e ↦ rw (entries_fresh g a e) tt
    | inr (es, e) ↦
        rw (entries_there g a es e) (All-get (All (IsStorable c)) g es a.generations s e)
  ]

  touched-AllStorable : (a : Log) → AllStorable c a.generations → AllStorable c (touched a)
  unfolding touched
  touched-AllStorable a s =
      All-insert (λ f. All (IsStorable c) f.1) a.active (entries_of a.active a) a.generations
        (entries_of-AllStorable a.active a s) s

  -- After a crash that left only the first `n` bytes of a record at the end of the active generation
  -- of a log with sorted generations and entries that the format can hold, where `n` is less than
  -- the length of the record, a replay succeeds and returns what it would have returned before the
  -- write.
  pub replay_from-torn :
      (n x : ℕ) (e : WalEntry) (a : Log)
      → IsStorable c e
      → n < length (encode c e)
      → IsSorted a.generations
      → AllStorable c a.generations
      → replay_from c x (torn n e a) ≡ ok (replay x a)
  unfolding replay_from current_generation list_generations torn represent
  replay_from-torn n x e a s h o all = rw (
    keys-torn n e a,
    replay_loop-ReadsAs c a.active x (torn n e a) (touched a) (
        torn-ReadsAs n x e s a (touched a) h (touched-AllStorable a all)
          (get_entries (touched a) touched_sorted)),
    gather-touched x a o,
  )
    where
      touched_sorted : IsSorted (touched a)
      touched_sorted =
          unfold touched in insert-IsSorted a.active (entries_of a.active a) a.generations o
