-- ===== src/Index/Runs.antt =====
-- What the operations that write to the log do, on every branch: the record is logged and the
-- operation noted, or nothing of the two changes.
use cloud_search.Prelude.{
  ℕ, ◌+◌, ◌≡◌, refl, ap, ◌∙◌, ◌⊎◌, inl, inr, none, some, List, [], ◌∷◌, Option-cases,
}
use cloud_search.Prelude.Order.{text_ord}
use cloud_search.BTreeMap.{BTreeMap, insert}
use cloud_search.Bytes.{Text}
use cloud_search.Json.{Value}
use cloud_search.Common.{Result, ok, err, panic, CloudSearchError, IndexDocument}
use cloud_search.Wal.{append}
use cloud_search.Wal.Records.{WalRecord}
use cloud_search.Index.{Env, IndexHandle, PendingOperation, upsert_op, delete_op}
use cloud_search.Index.Tokens.{extract_positions}
use cloud_search.Index.Mappings.{validated, validate_and_update_mappings}
use cloud_search.Index.Operations.{
  log_operation, stamp, note_positions, index_document, delete_document, extract_document_timestamp,
  unwrap_or,
}

-- The log and the documents of a handle are those of another.
pub record Keeps (h k : IndexHandle) : Type 0 where
  pub wal : k.wal ≡ h.wal
  pub pending : k.pending_operations ≡ h.pending_operations
  pub searchable : k.searchable_documents ≡ h.searchable_documents
  pub last : k.last_sequence_number ≡ h.last_sequence_number
  pub dir : k.segments_dir ≡ h.segments_dir
  pub manifest : k.manifest ≡ h.manifest

-- One record went to the log under the next number, and its operation is pending.
pub record Logged (env : Env) (rec : WalRecord) (id : Text) (op : PendingOperation) (now : ℕ)
    (h k : IndexHandle) : Type 0 where
  pub wal : append env.codec (h.last_sequence_number + 1) rec now h.wal ≡ ok k.wal
  pub pending : k.pending_operations ≡ insert id op h.pending_operations
  pub searchable : k.searchable_documents ≡ h.searchable_documents
  pub last : k.last_sequence_number ≡ h.last_sequence_number + 1
  pub dir : k.segments_dir ≡ h.segments_dir
  pub manifest : k.manifest ≡ h.manifest

abbrev pub Fails {ℓ} : {A : Type ℓ} → Result A → Type 0
Fails (ok a) = ⊥
Fails (err e) = Unit
Fails panic = Unit

abbrev pub Runs :
    Env → WalRecord → Text → PendingOperation → ℕ → IndexHandle → Result ℕ → IndexHandle → Type 0
Runs env rec id op now h r k =
    ((r ≡ ok (h.last_sequence_number + 1)) × Logged env rec id op now h k) ⊎ (Fails r × Keeps h k)

pub Result-cases {ℓ} :
    {A : Type ℓ} (r : Result A)
    → ((a : A) × (r ≡ ok a)) ⊎ (((e : CloudSearchError) × (r ≡ err e)) ⊎ (r ≡ panic))
Result-cases (ok a) = inl (a, refl)
Result-cases (err e) = inr (inl (e, refl))
Result-cases panic = inr (inr refl)

Keeps-self : (h : IndexHandle) → Keeps h h
Keeps-self h = record {
  wal = refl;
  pending = refl;
  searchable = refl;
  last = refl;
  dir = refl;
  manifest = refl;
}

Keeps-trans : (h k l : IndexHandle) → Keeps h k → Keeps k l → Keeps h l
Keeps-trans h k l a b = record {
  wal = b.wal ∙ a.wal;
  pending = b.pending ∙ a.pending;
  searchable = b.searchable ∙ a.searchable;
  last = b.last ∙ a.last;
  dir = b.dir ∙ a.dir;
  manifest = b.manifest ∙ a.manifest;
}

pub log_operation-Runs :
    (env : Env) (rec : WalRecord) (id : Text) (op : PendingOperation) (now : ℕ) (h : IndexHandle)
    → let (r, k) = log_operation env rec id op now h in Runs env rec id op now h r k
unfolding log_operation
log_operation-Runs env rec id op now h =
    elim (Result-cases (append env.codec (h.last_sequence_number + 1) rec now h.wal)) [
      | inl (w, e) ↦
          rw (log_operation, e)
            (inl (
              refl,
              record {
                wal = e;
                pending = refl;
                searchable = refl;
                last = refl;
                dir = refl;
                manifest = refl;
              },
            ))
      | inr (inl (x, e)) ↦ rw (log_operation, e) (inr (tt, Keeps-self h))
      | inr (inr e) ↦ rw (log_operation, e) (inr (tt, Keeps-self h))
    ]

validate_and_update_mappings-Keeps :
    (env : Env) (source : Value) (h : IndexHandle)
    → Keeps h (validate_and_update_mappings env source h).1
unfolding validate_and_update_mappings
validate_and_update_mappings-Keeps env source h =
    elim (Result-cases (validated env h.metadata source)) [
      | inl (none, e) ↦ rw (validate_and_update_mappings, e) (Keeps-self h)
      | inl (some m, e) ↦
          rw (validate_and_update_mappings, e)
            (record {
              wal = refl;
              pending = refl;
              searchable = refl;
              last = refl;
              dir = refl;
              manifest = refl;
            })
      | inr (inl (x, e)) ↦ rw (validate_and_update_mappings, e) (Keeps-self h)
      | inr (inr e) ↦ rw (validate_and_update_mappings, e) (Keeps-self h)
    ]

stamp-Keeps :
    (env : Env) (d : IndexDocument) (h : IndexHandle)
    → (stamp env d h ≡ none) ⊎ ((k : IndexHandle) × (stamp env d h ≡ some k) × Keeps h k)
unfolding stamp
stamp-Keeps env d h = elim (Option-cases (extract_document_timestamp env h.metadata d)) [
  | inl e ↦ rw (stamp, e) (inr (h, refl, Keeps-self h))
  | inr (ts, e) ↦
      elim (Option-cases (env.add_seconds ts (unwrap_or h.metadata.settings.retention_secs 0))) [
        | inl f ↦ rw (stamp, e, f) (inl refl)
        | inr (expiry, f) ↦
            rw (stamp, e, f)
              (inr (
                _,
                refl,
                record {
                  wal = refl;
                  pending = refl;
                  searchable = refl;
                  last = refl;
                  dir = refl;
                  manifest = refl;
                },
              ))
      ]
]

note_positions-Keeps : (d : IndexDocument) (h : IndexHandle) → Keeps h (note_positions d h)
unfolding note_positions
note_positions-Keeps d h = noted (extract_positions d) refl
  where
    noted : (m : BTreeMap Text (List ℕ)) → extract_positions d ≡ m → Keeps h (note_positions d h)
    noted [] e = rw (note_positions, e) (Keeps-self h)
    noted (x ∷ m) e =
        rw (note_positions, e)
          (record {
            wal = refl;
            pending = refl;
            searchable = refl;
            last = refl;
            dir = refl;
            manifest = refl;
          })

-- A handle before and one after that differ in nothing that the record of the run reads.
Logged-between :
    (env : Env) (rec : WalRecord) (id : Text) (op : PendingOperation) (now : ℕ)
    (h k l m : IndexHandle)
    → Keeps h k
    → Logged env rec id op now k l
    → Keeps l m
    → Logged env rec id op now h m
Logged-between env rec id op now h k l m a b c = record {
  wal = rw (← a.wal, ← a.last, c.wal) b.wal;
  pending = c.pending ∙ b.pending ∙ ap (insert id op) a.pending;
  searchable = c.searchable ∙ b.searchable ∙ a.searchable;
  last = c.last ∙ b.last ∙ ap (λ n. n + 1) a.last;
  dir = c.dir ∙ b.dir ∙ a.dir;
  manifest = c.manifest ∙ b.manifest ∙ a.manifest;
}

-- Indexing a document either answers the next sequence number, and then its record is in the log
-- under that number, its upsert is pending, and the searchable documents, the segments and the
-- manifest are as before; or it fails, and then the log, the pending and the searchable documents,
-- the sequence number, the segments and the manifest are all as before.
pub index_document-Runs :
    (env : Env) (now : ℕ) (d : IndexDocument) (h : IndexHandle)
    → let (r, k) = index_document env now d h in
      Runs env (WalRecord.index_document d) d.id (upsert_op d) now h r k
unfolding index_document
index_document-Runs env now d h =
    let h1 = (validate_and_update_mappings env d.source h).1 in
    let a = validate_and_update_mappings-Keeps env d.source h in
    elim (Result-cases (validate_and_update_mappings env d.source h).0) [
      | inr (inl (x, e)) ↦ rw (index_document, e) (inr (tt, a))
      | inr (inr e) ↦ rw (index_document, e) (inr (tt, a))
      | inl (u, e) ↦ elim (stamp-Keeps env d h1) [
        | inl f ↦ rw (index_document, e, f) (inr (tt, a))
        | inr (h2, f, b) ↦
            let run =
              log_operation-Runs env (WalRecord.index_document d) d.id (upsert_op d) now h2 in
            let kept = Keeps-trans h h1 h2 a b in
            elim run [
              | inl (r, l) ↦
                  rw (index_document, e, f, r)
                    (inl (
                      ap (λ n. ok (n + 1)) kept.last,
                      Logged-between env _ d.id (upsert_op d) now h h2 _ _ kept l
                          (note_positions-Keeps d _),
                    ))
              | inr (bad, l) ↦
                  elim (Result-cases
                    (log_operation env (WalRecord.index_document d) d.id (upsert_op d) now h2).0) [
                      | inl (n, r) ↦ absurd (rw r at bad)
                      | inr (inl (x, r)) ↦
                          rw (index_document, e, f, r) (inr (tt, Keeps-trans h h2 _ kept l))
                      | inr (inr r) ↦
                          rw (index_document, e, f, r) (inr (tt, Keeps-trans h h2 _ kept l))
                    ]
            ]
      ]
    ]

-- Deleting a document either answers the next sequence number, with its record in the log under that
-- number and the deletion pending, or fails and changes neither the log nor any document.
pub delete_document-Runs :
    (env : Env) (now : ℕ) (id : Text) (h : IndexHandle)
    → let (r, k) = delete_document env now id h in
      Runs env (WalRecord.delete_document id) id delete_op now h r k
unfolding delete_document
delete_document-Runs env now id h =
    log_operation-Runs env (WalRecord.delete_document id) id delete_op now h
