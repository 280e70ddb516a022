-- ===== src/Wal/Trim.antt =====
-- `trim_through` deletes the covered generations, and a replay does not miss them.
use cloud_search.Prelude.{
  ℕ, zero, suc, ◌+◌, ◌≤◌, ◌≡◌, refl, ap, ◌∙◌, inl, inr, true, none, some, Option, List, [], ◌∷◌,
  ◌++◌, append_assoc, arith, length, drop, if◌then◌else◌, Option-cases, Bool-cases, All,
}
use cloud_search.Prelude.Order.{nat_ord}
use cloud_search.BTreeMap.{BTreeMap, get, remove, keys}
use cloud_search.BTreeMap.Sorted.{IsSorted, remove_middle, remove-IsSorted, get_middle}
use cloud_search.Bytes.{Bytes, from_le, slice}
use cloud_search.Common.{ok}
use cloud_search.Wal.Records.{Codec}
use cloud_search.Wal.{
  WalEntry, WalManager, header, header_len, current_generation, list_generations, max_sequence_loop,
  max_sequence_in_generation, trim_step, trim_loop, trim_through,
}
use cloud_search.Wal.Spec.{
  Log, IsStorable, AllStorable, encode, encode_all, encode_files, represent, replay, gather, after,
  last_of, covered, uncovered, count_covered, trim,
}
use cloud_search.Wal.Scan.{
  header_payload_len, header_sequence, image_rest, length-image, encode-eq, length-encode_all,
}
use cloud_search.Wal.Refines.{get-encode_files, keys-encode_files}

-- A round of the loop over bytes that begin with a whole record.
max_sequence_whole :
    (fuel : ℕ) (bs rest : Bytes) (last : Option ℕ) (payload_len sequence_number : ℕ)
    → from_le (slice 2 4 bs) ≡ payload_len
    → from_le (slice 6 8 bs) ≡ sequence_number
    → drop (header_len + payload_len) bs ≡ rest
    → length bs ≡ 26 + payload_len + length rest
    → max_sequence_loop (suc fuel) bs last ≡ max_sequence_loop fuel rest (some sequence_number)
unfolding max_sequence_loop
max_sequence_whole fuel bs rest last payload_len sequence_number h k d l =
    rw (h, k, d) (ground (arith, l))

module _ (c : Codec) where
  max_sequence_round :
      (fuel : ℕ) (e : WalEntry) (s : IsStorable c e) (rest : Bytes) (last : Option ℕ)
      → max_sequence_loop (suc fuel) (encode c e ++ rest) last
        ≡ max_sequence_loop fuel rest (some e.sequence_number)
  max_sequence_round fuel e s rest last =
      let p = s.payload in
      rw (encode-eq c e s, append_assoc)
        (max_sequence_whole fuel (header c e p ++ (p ++ rest)) rest last (length p)
          e.sequence_number (header_payload_len c e p rest s.payload_fits)
          (header_sequence c e p rest s.sequence_fits) (image_rest c e p rest)
          (length-image c e p rest))

  max_sequence_loop-encode_all :
      (fuel : ℕ) (es : List WalEntry) (last : Option ℕ)
      → All (IsStorable c) es
      → length es ≤ fuel
      → max_sequence_loop fuel (encode_all c es) last ≡ last_of es last
  unfolding encode_all last_of
  max_sequence_loop-encode_all zero [] last s h = unfold max_sequence_loop in refl
  max_sequence_loop-encode_all (suc fuel) [] last s h = unfold max_sequence_loop in refl
  max_sequence_loop-encode_all zero (e ∷ es) last s h = absurd (omega arith)
  max_sequence_loop-encode_all (suc fuel) (e ∷ es) last s h =
      max_sequence_round fuel e s.0 (encode_all c es) last
      ∙ max_sequence_loop-encode_all fuel es (some e.sequence_number) s.1 (omega arith)

  -- The directory with these files, under CURRENT.
  abbrev files : ℕ → BTreeMap ℕ (List WalEntry) → WalManager
  files active m = represent c (record { active = active; generations = m })

  max_sequence_in_generation-files :
      (active g : ℕ) (es : List WalEntry) (m : BTreeMap ℕ (List WalEntry))
      → All (IsStorable c) es
      → get g m ≡ some es
      → max_sequence_in_generation g (files active m) ≡ last_of es none
  unfolding max_sequence_in_generation represent
  max_sequence_in_generation-files active g es m s h = ground (
    arith,
    get-encode_files c g m,
    max_sequence_loop-encode_all (length (encode_all c es)) es none s (length-encode_all c es s),
  )

  remove-encode_files :
      (g : ℕ) (m : BTreeMap ℕ (List WalEntry))
      → remove g (encode_files c m) ≡ encode_files c (remove g m)
  unfolding remove encode_files
  remove-encode_files g [] = refl
  remove-encode_files g ((j, es) ∷ m) = ground (arith, remove-encode_files g m)

  trim_step-files :
      (active n g k : ℕ) (es : List WalEntry) (front m : BTreeMap ℕ (List WalEntry))
      → All (IsStorable c) es
      → IsSorted (front ++ ((g, es) ∷ m))
      → trim_step active n g (files active (front ++ ((g, es) ∷ m)), k) ≡ (
          if covered active n g es
          then (files active (front ++ m), k + 1)
          else (files active (front ++ ((g, es) ∷ m)), k))
  unfolding trim_step covered represent
  trim_step-files active n g k es front m s o = ground (
    arith,
    max_sequence_in_generation-files active g es (front ++ ((g, es) ∷ m)) s
        (get_middle front g es m o),
    remove-encode_files g (front ++ ((g, es) ∷ m)),
    remove_middle front g es m o,
  )

  trim_loop-files :
      (active n k : ℕ) (front m : BTreeMap ℕ (List WalEntry))
      → AllStorable c m
      → IsSorted (front ++ m)
      → trim_loop active n (keys m) (files active (front ++ m), k)
        ≡ (files active (front ++ uncovered active n m), k + count_covered active n m)
  unfolding trim_loop uncovered count_covered
  trim_loop-files active n k front [] s o = ground arith
  trim_loop-files active n k front ((g, es) ∷ m) s o =
      ap (λ st. trim_loop active n (keys m) st) (trim_step-files active n g k es front m s.0 o)
      ∙ elim (Bool-cases (covered active n g es)) [
        | inl t ↦ rw t (trim_loop-files active n (k + 1) front m s.1 (less t) ∙ counted)
        | inr f ↦ rw f (
            rw
              (
                append_assoc front ((g, es) ∷ []) m,
                append_assoc front ((g, es) ∷ []) (uncovered active n m),
              )
              at (trim_loop-files active n k (front ++ ((g, es) ∷ [])) m s.1 (rw append_assoc o)))
      ]
    where
      less : covered active n g es ≡ true → IsSorted (front ++ m)
      less t = rw (remove_middle front g es m o) at (remove-IsSorted g (front ++ ((g, es) ∷ m)) o)

      counted :
          ◌≡◌ {A = WalManager × ℕ}
            (files active (front ++ uncovered active n m), (k + 1) + count_covered active n m)
            (files active (front ++ uncovered active n m), k + (count_covered active n m + 1))
      counted = ap (λ q. (files active (front ++ uncovered active n m), q)) (omega arith)

  -- On the files of a log with sorted generations and entries that the format can hold,
  -- `trim_through n` deletes the generations that are not active and whose last entry is at most
  -- `n`, keeps all others, and answers how many it deleted.
  pub trim_through-represent :
      (n : ℕ) (a : Log)
      → IsSorted a.generations
      → AllStorable c a.generations
      → trim_through n (represent c a)
        ≡ ok (count_covered a.active n a.generations, represent c (trim n a))
  unfolding trim_through current_generation list_generations represent
  trim_through-represent n a o s = simp (keys-encode_files c a.generations, loop)
    where
      loop :
          trim_loop a.active n (keys a.generations) (represent c a, 0)
          ≡ (represent c (trim n a), count_covered a.active n a.generations)
      loop =
          unfold trim in
          trim_loop-files a.active n 0 [] a.generations s o
          ∙ ap (λ q. (files a.active (uncovered a.active n a.generations), q)) (omega arith)

-- The sequence numbers do not fall.
abbrev pub Ascends : ℕ → List WalEntry → Type 0
Ascends n [] = Unit
Ascends n (e ∷ es) = (n ≤ e.sequence_number) × Ascends e.sequence_number es

after_last :
    (x n : ℕ) (es : List WalEntry) (last : ℕ)
    → Ascends n es
    → last_of es (some n) ≡ some last
    → last ≤ x
    → (n ≤ last) × (after x es ≡ [])
unfolding last_of after
after_last x n [] last a h l = ground arith
after_last x n (e ∷ es) last a h l = ground (arith, after_last x e.sequence_number es last a.1 h l)

after_covered :
    (x n : ℕ) (es : List WalEntry) (last : ℕ)
    → Ascends n es
    → last_of es none ≡ some last
    → last ≤ x
    → after x es ≡ []
unfolding last_of after
after_covered x n [] last a h l = refl
after_covered x n (e ∷ es) last a h l =
    ground (arith, after_last x e.sequence_number es last a.1 h l)

covered_after :
    (x n active g : ℕ) (es : List WalEntry)
    → Ascends 0 es
    → n ≤ x
    → covered active n g es ≡ true
    → after x es ≡ []
unfolding covered
covered_after x n active g es a h t = elim (Option-cases (last_of es none)) [
  | inl e ↦ absurd (ground (arith, e, t))
  | inr (last, e) ↦ after_covered x 0 es last a e (ground (arith, e, t))
]

gather-uncovered :
    (x n active : ℕ) (m : BTreeMap ℕ (List WalEntry))
    → All (λ f. Ascends 0 f.1) m
    → n ≤ x
    → gather x (uncovered active n m) ≡ gather x m
unfolding gather uncovered
gather-uncovered x n active [] a h = refl
gather-uncovered x n active ((g, es) ∷ m) a h =
    ground (arith, gather-uncovered x n active m a.1 h, covered_after x n active g es a.0 h)

-- Trimming up to `n` changes no replay from `n` on, where the sequence numbers of each generation
-- do not fall.
pub replay-trim :
    (x n : ℕ) (a : Log)
    → All (λ f. Ascends 0 f.1) a.generations
    → n ≤ x
    → replay x (trim n a) ≡ replay x a
unfolding replay trim
replay-trim x n a h le = gather-uncovered x n a.active a.generations h le
