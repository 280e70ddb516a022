-- ===== src/Index/Reopen.antt =====
-- The invariant that ties a handle to its files, that the operations keep it, and what opening the
-- files then gives.
use cloud_search.Prelude.{
  ℕ, ◌+◌, ◌<◌, ◌≤◌, ◌≡◌, refl, sym, ap, ◌∙◌, ◌⊎◌, inl, inr, Option, List, [], ◌∷◌, ◌++◌, arith, All,
  All-append, Option-cases,
}
use cloud_search.Prelude.Order.{nat_ord, text_ord}
use cloud_search.BTreeMap.{BTreeMap, get, update}
use cloud_search.BTreeMap.Lookup.{get-insert, get-remove, All-insert, All-get}
use cloud_search.BTreeMap.Sorted.{IsSorted, insert-IsSorted}
use cloud_search.Bytes.{Text}
use cloud_search.Common.{ok, IndexDocument, IndexMetadata}
use cloud_search.Wal.{WalEntry, ensure_current_generation}
use cloud_search.Wal.Records.{WalRecord}
use cloud_search.Wal.Spec.{
  Log, IsStorable, AllStorable, represent, write, replay, after, entries_of,
}
use cloud_search.Wal.Refines.{append-represent, replay_from-represent}
use cloud_search.Suggest.{SuggestIndex}
use cloud_search.Index.{Env, IndexHandle, PendingOperation, upsert_op, delete_op}
use cloud_search.Index.Operations.{get_document, refresh, index_document, delete_document}
use cloud_search.Index.Recovery.{
  open_manifest, load_segments, load_all_suggest_readers, load_all_positions_readers,
  load_doc_values, open_index,
}
use cloud_search.Index.Runs.{Keeps, Logged, Fails, index_document-Runs, delete_document-Runs}
use cloud_search.Index.Views.{
  outcome, get_document-Keeps, get_document-Logged, get_document-refresh, update_at,
}
use cloud_search.Index.Durability.{
  gather-write, replayed, replayed_one, replayed-append, IsDatable, recover-some,
}

-- The documents of the segments on disk, and the highest sequence number that these cover.
abbrev pub flushed : IndexHandle → BTreeMap Text IndexDocument × ℕ
flushed h = load_segments h.segments_dir h.manifest.segments [] 0

-- The directory holds the log `a`, and its segments with that log read as the documents do.
pub record IsDurable (env : Env) (h : IndexHandle) (a : Log) : Type 0 where
  pub wal : h.wal ≡ represent env.codec a
  pub sorted : IsSorted a.generations
  pub storable : AllStorable env.codec a.generations
  pub newest : All (λ f. f.0 ≤ a.active) a.generations
  pub opened : open_manifest h.segments_dir ≡ (h.manifest, h.segments_dir)
  pub covered : (flushed h).1 ≤ h.last_sequence_number
  pub pending_sorted : IsSorted h.pending_operations
  pub read : (p : Text) → get_document p h ≡ get p (replayed (replay (flushed h).1 a) (flushed h).0)

abbrev pub next_entry : WalRecord → ℕ → IndexHandle → WalEntry
next_entry rec now h = record {
  sequence_number = h.last_sequence_number + 1;
  recorded_at_unix_ms = now;
  wal_record = rec;
}

-- A record says of the documents what the pending operation does.
abbrev Agrees : WalRecord → Text → PendingOperation → Type 0
Agrees rec id op =
    (docs : BTreeMap Text IndexDocument) (p : Text)
    → get p (replayed_one rec docs) ≡ update id (outcome op) (λ q. get q docs) p

replay-write :
    (x : ℕ) (e : WalEntry) (a : Log)
    → IsSorted a.generations
    → All (λ f. f.0 ≤ a.active) a.generations
    → x < e.sequence_number
    → replay x (write e a) ≡ replay x a ++ e ∷ []
unfolding replay write entries_of after
replay-write x e a s n h = gather-write x a.active e a.generations s n ∙ ground arith

entries_of-storable :
    (env : Env) (a : Log)
    → AllStorable env.codec a.generations
    → All (IsStorable env.codec) (entries_of a.active a)
unfolding entries_of
entries_of-storable env a s = elim (Option-cases (get a.active a.generations)) [
  | inl e ↦ rw (entries_of, e) tt
  | inr (es, e) ↦
      rw (entries_of, e) (All-get (All (IsStorable env.codec)) a.active es a.generations s e)
]

flushed-eq :
    (h k : IndexHandle)
    → k.segments_dir ≡ h.segments_dir
    → k.manifest ≡ h.manifest
    → flushed k ≡ flushed h
flushed-eq h k d m = rw (d, m) refl

Logged-IsDurable :
    (env : Env) (rec : WalRecord) (id : Text) (op : PendingOperation) (now : ℕ) (h k : IndexHandle)
    (a : Log)
    → Agrees rec id op
    → IsStorable env.codec (next_entry rec now h)
    → Logged env rec id op now h k
    → IsDurable env h a
    → IsDurable env k (write (next_entry rec now h) a)
Logged-IsDurable env rec id op now h k a g s l i =
    let e = next_entry rec now h in
    let same = flushed-eq h k l.dir l.manifest in
    let docs = replayed (replay (flushed h).1 a) (flushed h).0 in
    record {
      wal = cc (rw i.wal at l.wal, append-represent env.codec a e s);
      sorted = unfold write in insert-IsSorted a.active _ a.generations i.sorted;
      storable =
          unfold write in
          All-insert (λ f. All (IsStorable env.codec) f.1) a.active _ a.generations
            (All-append _ (entries_of a.active a) (e ∷ []) (entries_of-storable env a i.storable)
              (s, tt))
            i.storable;
      newest =
          unfold write in
          All-insert (λ f. f.0 ≤ a.active) a.active _ a.generations (omega arith) i.newest;
      opened = rw (l.dir, l.manifest) i.opened;
      covered = rw (same, l.last) (let c = i.covered in omega arith);
      pending_sorted = rw l.pending (insert-IsSorted id op h.pending_operations i.pending_sorted);
      read = λ p.
          get_document-Logged env rec id op now h k p l
          ∙ update_at id (outcome op) _ (λ q. get q docs) p (i.read p)
          ∙ sym (g docs p)
          ∙ rw
              (
                same,
                replay-write (flushed h).1 e a i.sorted i.newest (let c = i.covered in omega arith),
                replayed-append (replay (flushed h).1 a),
              )
              (unfold replayed in refl);
    }

Keeps-IsDurable :
    (env : Env) (h k : IndexHandle) (a : Log) → Keeps h k → IsDurable env h a → IsDurable env k a
Keeps-IsDurable env h k a s i =
    let same = flushed-eq h k s.dir s.manifest in
    record {
      wal = s.wal ∙ i.wal;
      sorted = i.sorted;
      storable = i.storable;
      newest = i.newest;
      opened = rw (s.dir, s.manifest) i.opened;
      covered = rw (same, s.last) i.covered;
      pending_sorted = rw s.pending i.pending_sorted;
      read = λ p. get_document-Keeps h k p s ∙ i.read p ∙ (rw same refl);
    }

-- Indexing a document keeps the handle durable: with the entry written to the log where it succeeds,
-- and with the same log where it fails.
pub index_document-IsDurable :
    (env : Env) (now : ℕ) (d : IndexDocument) (h : IndexHandle) (a : Log)
    → IsStorable env.codec (next_entry (WalRecord.index_document d) now h)
    → IsDurable env h a
    → let (r, k) = index_document env now d h in
      ((r ≡ ok (h.last_sequence_number + 1))
        × IsDurable env k (write (next_entry (WalRecord.index_document d) now h) a))
      ⊎ (Fails r × IsDurable env k a)
index_document-IsDurable env now d h a s i = elim (index_document-Runs env now d h) [
  | inl (r, l) ↦ inl (
    r,
    Logged-IsDurable env _ d.id (upsert_op d) now h _ a
        (λ docs p. unfold replayed_one outcome in get-insert d.id d docs p) s l i,
  )
  | inr (r, l) ↦ inr (r, Keeps-IsDurable env h _ a l i)
]

-- Deleting a document keeps the handle durable, in the same way.
pub delete_document-IsDurable :
    (env : Env) (now : ℕ) (id : Text) (h : IndexHandle) (a : Log)
    → IsStorable env.codec (next_entry (WalRecord.delete_document id) now h)
    → IsDurable env h a
    → let (r, k) = delete_document env now id h in
      ((r ≡ ok (h.last_sequence_number + 1))
        × IsDurable env k (write (next_entry (WalRecord.delete_document id) now h) a))
      ⊎ (Fails r × IsDurable env k a)
delete_document-IsDurable env now id h a s i = elim (delete_document-Runs env now id h) [
  | inl (r, l) ↦ inl (
    r,
    Logged-IsDurable env _ id delete_op now h _ a
        (λ docs p. unfold replayed_one outcome in get-remove id docs p) s l i,
  )
  | inr (r, l) ↦ inr (r, Keeps-IsDurable env h _ a l i)
]

-- A refresh keeps the handle durable, with the same log.
pub refresh-IsDurable :
    (env : Env) (h : IndexHandle) (a : Log) → IsDurable env h a → IsDurable env (refresh h).1 a
refresh-IsDurable env h a i = record {
  wal = unfold refresh in i.wal;
  sorted = i.sorted;
  storable = i.storable;
  newest = i.newest;
  opened = unfold refresh in i.opened;
  covered = unfold refresh in i.covered;
  pending_sorted = unfold refresh in tt;
  read = λ p. (get_document-refresh h p i.pending_sorted).1 ∙ i.read p ∙ (unfold refresh in refl);
}

ensure-represent :
    (env : Env) (a : Log)
    → ensure_current_generation (represent env.codec a) ≡ represent env.codec a
unfolding ensure_current_generation represent
ensure-represent env a = refl

-- Opening the files of a durable handle succeeds and gives a handle that reads every document as
-- that one did, pending or not, if the expiries of the replayed entries are in range and the
-- suggest files load.
pub open_index-get_document :
    (env : Env) (h : IndexHandle) (a : Log) (md : IndexMetadata) (rs : List (Option SuggestIndex))
    → IsDurable env h a
    → All (IsDatable env md) (replay (flushed h).1 a)
    → load_all_suggest_readers h.segments_dir h.manifest.segments ≡ ok rs
    → (k : IndexHandle) × (open_index env md h.wal h.segments_dir ≡ ok k)
      × ((p : Text) → get_document p k ≡ get_document p h)
unfolding open_index get_document get
open_index-get_document env h a md rs i t l =
    let (docs, max_seq) = flushed h in
    let (r, f, g) =
      recover-some env md (replay max_seq a)
        (record { documents = docs; timestamps = []; last_sequence_number = max_seq }) t in
    (
      record {
        metadata = md;
        stored_metadata = md;
        wal = represent env.codec a;
        segments_dir = h.segments_dir;
        manifest = h.manifest;
        searchable_documents = r.documents;
        pending_operations = [];
        last_sequence_number = r.last_sequence_number;
        document_timestamps = r.timestamps;
        per_doc_inverted_index = [];
        positions_readers = load_all_positions_readers h.segments_dir h.manifest.segments;
        suggest_readers = rs;
        doc_values_reader = load_doc_values h.segments_dir;
      },
      rw
          (
            i.wal,
            ensure-represent env a,
            i.opened,
            replay_from-represent env.codec max_seq a i.sorted i.storable,
            f,
            l,
          )
          refl,
      λ p. ap (get p) g ∙ sym (i.read p),
    )
