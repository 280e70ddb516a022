-- ===== src/Wal/Spec.antt =====
-- What the log promises: generations of entries, no bytes. `represent` is the directory that stands
-- for such a log.
use cloud_search.Prelude.{
  ℕ, ◌+◌, ◌^◌, ◌<◌, ◌≡◌, Bool, false, not, ◌&&◌, Option, none, some, List, [], ◌∷◌, ◌++◌, length,
  ltb, leb, ◌==◌, if◌then◌else◌, All,
}
use cloud_search.Prelude.Order.{nat_ord}
use cloud_search.BTreeMap.{BTreeMap, get, insert}
use cloud_search.Bytes.{Bytes}
use cloud_search.Wal.Records.{Codec}
use cloud_search.Wal.{WalEntry, WalManager, holds, header}

pub record Log : Type 0 where
  pub active : ℕ
  pub generations : BTreeMap ℕ (List WalEntry)

unfoldable pub entries_of : ℕ → Log → List WalEntry
entries_of g a = elim (get g a.generations) [ none ↦ [] | some es ↦ es ]

unfoldable pub write : WalEntry → Log → Log
unfolding entries_of
write e a = record a {
  generations = insert a.active (entries_of a.active a ++ e ∷ []) a.generations;
}

unfoldable pub roll : Log → Log
roll a = record a { active = a.active + 1 }

-- The entries above a sequence number.
unfoldable pub after : ℕ → List WalEntry → List WalEntry
after x [] = []
after x (e ∷ es) = let rest = after x es in if ltb x e.sequence_number then e ∷ rest else rest

unfoldable pub gather : ℕ → BTreeMap ℕ (List WalEntry) → List WalEntry
gather x [] = []
gather x ((g, es) ∷ m) = after x es ++ gather x m

unfoldable pub replay : ℕ → Log → List WalEntry
replay x a = gather x a.generations

-- The sequence number of the last entry.
unfoldable pub last_of : List WalEntry → Option ℕ → Option ℕ
last_of [] last = last
last_of (e ∷ es) last = last_of es (some e.sequence_number)

-- A generation that may go: not the active one, and its last entry is covered.
unfoldable pub covered : ℕ → ℕ → ℕ → List WalEntry → Bool
unfolding last_of
covered active n g es =
    not (g == active) && elim (last_of es none) [ none ↦ false | some last ↦ leb last n ]

unfoldable pub uncovered : ℕ → ℕ → BTreeMap ℕ (List WalEntry) → BTreeMap ℕ (List WalEntry)
uncovered active n [] = []
uncovered active n ((g, es) ∷ m) =
    let rest = uncovered active n m in if covered active n g es then rest else (g, es) ∷ rest

unfoldable pub count_covered : ℕ → ℕ → BTreeMap ℕ (List WalEntry) → ℕ
count_covered active n [] = 0
count_covered active n ((g, es) ∷ m) =
    let rest = count_covered active n m in if covered active n g es then rest + 1 else rest

unfoldable pub trim : ℕ → Log → Log
trim n a = record a { generations = uncovered a.active n a.generations }

module _ (c : Codec) where
  -- An entry that the format can hold.
  pub record IsStorable (e : WalEntry) : Type 0 where
    pub payload : Bytes
    pub stored : c.to_vec e.wal_record ≡ some payload
    pub payload_fits : length payload < 2 ^ 32
    pub sequence_fits : e.sequence_number < 2 ^ 64
    pub time_fits : e.recorded_at_unix_ms < 2 ^ 64

  unfoldable pub encode : WalEntry → Bytes
  encode e = elim (c.to_vec e.wal_record) [ none ↦ [] | some p ↦ header c e p ++ p ]

  unfoldable pub encode_all : List WalEntry → Bytes
  encode_all [] = []
  encode_all (e ∷ es) = encode e ++ encode_all es

  unfoldable pub encode_files : BTreeMap ℕ (List WalEntry) → BTreeMap ℕ Bytes
  encode_files [] = []
  encode_files ((g, es) ∷ m) = (g, encode_all es) ∷ encode_files m

  unfoldable pub represent : Log → WalManager
  represent a = record {
    current = holds a.active;
    generations = encode_files a.generations;
    malformed = false;
  }

  abbrev pub AllStorable : BTreeMap ℕ (List WalEntry) → Type 0
  AllStorable m = All (λ f. All IsStorable f.1) m
