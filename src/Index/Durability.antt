-- ===== src/Index/Durability.antt =====
-- What a crash does not lose: opening the files that the operations leave gives the documents that
-- `get_document` read before.
use cloud_search.Prelude.{
  ℕ, ◌<◌, ◌≤◌, ◌≡◌, refl, sym, ap, ◌∙◌, ◌⊎◌, inl, inr, none, some, List, [], ◌∷◌, ◌++◌, append-nil,
  append_assoc, arith, All, Option-cases,
}
use cloud_search.Prelude.Order.{nat_ord, text_ord}
use cloud_search.BTreeMap.{BTreeMap, get, insert, remove}
use cloud_search.BTreeMap.Sorted.{IsSorted, Above}
use cloud_search.Bytes.{Text}
use cloud_search.Common.{IndexDocument, IndexMetadata}
use cloud_search.Wal.{WalEntry}
use cloud_search.Wal.Records.{WalRecord}
use cloud_search.Wal.Spec.{gather, after}
use cloud_search.Index.{Env}
use cloud_search.Index.Operations.{extract_document_timestamp}
use cloud_search.Index.Recovery.{recover, recover_entry, recover_timestamp, Recovered}

nat_cases : (a b : ℕ) → (a < b) ⊎ ((a ≡ b) ⊎ (b < a))
nat_cases a b = ground arith

after-append : (x : ℕ) (a b : List WalEntry) → after x (a ++ b) ≡ after x a ++ after x b
unfolding after
after-append x [] b = refl
after-append x (e ∷ a) b = ground (arith, after-append x a b)

nothing-Above :
    (j k : ℕ) (m : BTreeMap ℕ (List WalEntry)) → k ≡ j → Above j m → All (λ f. f.0 ≤ k) m → m ≡ []
nothing-Above j k [] e a b = refl
nothing-Above j k ((i, w) ∷ m) e a b = absurd (let above = a.0 in let below = b.0 in ground arith)

abbrev pub entries_at : ℕ → BTreeMap ℕ (List WalEntry) → List WalEntry
entries_at g m = elim (get g m) [ none ↦ [] | some es ↦ es ]

write_here :
    (j : ℕ) (e : WalEntry) (w : List WalEntry) (m : BTreeMap ℕ (List WalEntry))
    → insert j (entries_at j ((j, w) ∷ m) ++ e ∷ []) ((j, w) ∷ m) ≡ (j, w ++ e ∷ []) ∷ m
unfolding insert get
write_here j e w m = ground arith

write_behind :
    (k j : ℕ) (e : WalEntry) (w : List WalEntry) (m : BTreeMap ℕ (List WalEntry))
    → j < k
    → insert k (entries_at k ((j, w) ∷ m) ++ e ∷ []) ((j, w) ∷ m)
      ≡ (j, w) ∷ insert k (entries_at k m ++ e ∷ []) m
unfolding insert get
write_behind k j e w m h = ground arith

ends :
    (x : ℕ) (e : WalEntry) (w : List WalEntry)
    → after x (w ++ e ∷ []) ++ [] ≡ (after x w ++ []) ++ after x (e ∷ [])
ends x e w = rw (append-nil, append-nil) (after-append x w (e ∷ []))

-- In a log whose last generation is the active one, a written entry is replayed last.
pub gather-write :
    (x active : ℕ) (e : WalEntry) (m : BTreeMap ℕ (List WalEntry))
    → IsSorted m
    → All (λ f. f.0 ≤ active) m
    → gather x (insert active (entries_at active m ++ e ∷ []) m) ≡ gather x m ++ after x (e ∷ [])
unfolding gather insert get
gather-write x active e [] s a = append-nil (after x (e ∷ []))
gather-write x active e ((j, w) ∷ m) s a = elim (nat_cases active j) [
  | inl lt' ↦ absurd (let small = a.0 in ground arith)
  | inr (inl same) ↦
      let alone = nothing-Above j active m same s.0 a.1 in
      rw (same, write_here j e w m, alone) (ends x e w)
  | inr (inr gt') ↦ rw (write_behind active j e w m gt') (
      ap (λ r. after x w ++ r) (gather-write x active e m s.1 a.1)
      ∙ sym (append_assoc (after x w) (gather x m) (after x (e ∷ []))))
]

unfoldable pub replayed_one : WalRecord → BTreeMap Text IndexDocument → BTreeMap Text IndexDocument
replayed_one (WalRecord.index_document d) docs = insert d.id d docs
replayed_one (WalRecord.delete_document id) docs = remove id docs
replayed_one (WalRecord.mapping_update v raw) docs = docs

-- The documents that the entries of a log make of others.
unfoldable pub replayed : List WalEntry → BTreeMap Text IndexDocument → BTreeMap Text IndexDocument
replayed [] docs = docs
replayed (e ∷ es) docs = replayed es (replayed_one e.wal_record docs)

pub replayed-append :
    (es fs : List WalEntry) (docs : BTreeMap Text IndexDocument)
    → replayed (es ++ fs) docs ≡ replayed fs (replayed es docs)
unfolding replayed
replayed-append [] fs docs = refl
replayed-append (e ∷ es) fs docs = replayed-append es fs (replayed_one e.wal_record docs)

-- The expiry of each document of the entries is in range.
abbrev pub IsDatable : Env → IndexMetadata → WalEntry → Type 0
IsDatable env md e =
    (d : IndexDocument) (ts retention : ℕ)
    → e.wal_record ≡ WalRecord.index_document d
    → extract_document_timestamp env md d ≡ some ts
    → md.settings.retention_secs ≡ some retention
    → (expiry : ℕ) × (env.add_seconds ts retention ≡ some expiry)

recover_timestamp-some :
    (env : Env) (md : IndexMetadata) (d : IndexDocument) (m : BTreeMap Text ℕ)
    → ((ts retention : ℕ)
        → extract_document_timestamp env md d ≡ some ts
        → md.settings.retention_secs ≡ some retention
        → (expiry : ℕ) × (env.add_seconds ts retention ≡ some expiry))
    → (n : BTreeMap Text ℕ) × (recover_timestamp env md d m ≡ some n)
unfolding recover_timestamp
recover_timestamp-some env md d m h = elim (Option-cases (extract_document_timestamp env md d)) [
  | inl e ↦ (m, rw (recover_timestamp, e) refl)
  | inr (ts, e) ↦ elim (Option-cases md.settings.retention_secs) [
    | inl f ↦ (m, rw (recover_timestamp, e, f) refl)
    | inr (r, f) ↦
        let (expiry, g) = h ts r e f in (insert d.id expiry m, rw (recover_timestamp, e, f, g) refl)
  ]
]

recover_entry-some :
    (env : Env) (md : IndexMetadata) (n at : ℕ) (rec : WalRecord) (r : Recovered)
    → IsDatable env md (record { sequence_number = n; recorded_at_unix_ms = at; wal_record = rec })
    → (s : Recovered) × (recover_entry env md
          (record { sequence_number = n; recorded_at_unix_ms = at; wal_record = rec })
          r
        ≡ some s)
      × (s.documents ≡ replayed_one rec r.documents)
unfolding recover_entry replayed_one
recover_entry-some env md n at (WalRecord.index_document d) r h =
    let (m, e) = recover_timestamp-some env md d r.timestamps (λ ts s a b. h d ts s refl a b) in
    (
      record { documents = insert d.id d r.documents; timestamps = m; last_sequence_number = n },
      rw (recover_entry, e) refl,
      refl,
    )
recover_entry-some env md n at (WalRecord.delete_document id) r h = (_, refl, refl)
recover_entry-some env md n at (WalRecord.mapping_update v raw) r h = (_, refl, refl)

pub recover-some :
    (env : Env) (md : IndexMetadata) (es : List WalEntry) (r : Recovered)
    → All (IsDatable env md) es
    → (s : Recovered) × (recover env md es r ≡ some s) × (s.documents ≡ replayed es r.documents)
unfolding recover replayed
recover-some env md [] r h = (r, refl, refl)
recover-some env md (e ∷ es) r h =
    let (s, f, g) =
      recover_entry-some env md e.sequence_number e.recorded_at_unix_ms e.wal_record r h.0 in
    let (t, i, j) = recover-some env md es s h.1 in (t, rw (recover, f) i, j ∙ (rw g refl))
