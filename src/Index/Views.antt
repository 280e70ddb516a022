-- ===== src/Index/Views.antt =====
-- What a reader sees of the documents: `get_document` at once, `documents` after a refresh.
use cloud_search.Prelude.{
  ℕ, ◌+◌, ◌≡◌, refl, sym, ◌∙◌, ◌⊎◌, inl, inr, Option, none, some, [], ◌∷◌, arith, Option-cases,
}
use cloud_search.Prelude.Order.{text_ord}
use cloud_search.BTreeMap.{BTreeMap, get, insert, remove, update}
use cloud_search.BTreeMap.Lookup.{get-insert, get-remove, get-cases, update_self, update_ne}
use cloud_search.BTreeMap.Sorted.{IsSorted, get-Above}
use cloud_search.Bytes.{Text}
use cloud_search.Common.{ok, IndexDocument}
use cloud_search.Wal.Records.{WalRecord}
use cloud_search.Index.{Env, IndexHandle, PendingOperation, upsert_op, delete_op}
use cloud_search.Index.Runs.{Keeps, Logged, Fails, index_document-Runs, delete_document-Runs}
use cloud_search.Index.Operations.{
  get_document, documents, apply_pending, refresh, index_document, delete_document,
}

-- What an operation leaves of a document.
unfoldable pub outcome : PendingOperation → Option IndexDocument
outcome (upsert_op d) = some d
outcome delete_op = none

unfoldable pub overlay : Option PendingOperation → Option IndexDocument → Option IndexDocument
overlay none d = d
overlay (some op) d = outcome op

pub get_document-overlay :
    (id : Text) (h : IndexHandle)
    → get_document id h ≡ overlay (get id h.pending_operations) (get id h.searchable_documents)
unfolding get_document overlay outcome
get_document-overlay id h = elim (Option-cases (get id h.pending_operations)) [
  | inl e ↦ rw (get_document, e) refl
  | inr (upsert_op d, e) ↦ rw (get_document, e) refl
  | inr (delete_op, e) ↦ rw (get_document, e) refl
]

pub overlay_again :
    (op : Option PendingOperation) (d : Option IndexDocument)
    → overlay op (overlay op d) ≡ overlay op d
unfolding overlay
overlay_again none d = refl
overlay_again (some op) d = refl

apply_pending-cons :
    (id : Text) (op : PendingOperation) (ops : BTreeMap Text PendingOperation)
    (docs : BTreeMap Text IndexDocument)
    → (docs' : BTreeMap Text IndexDocument) × (apply_pending ((id, op) ∷ ops) docs
        ≡ apply_pending ops docs')
      × ((p : Text) → get p docs' ≡ update id (outcome op) (λ q. get q docs) p)
unfolding apply_pending outcome
apply_pending-cons id (upsert_op d) ops docs = (insert id d docs, refl, get-insert id d docs)
apply_pending-cons id delete_op ops docs = (remove id docs, refl, get-remove id docs)

pub get-apply_pending :
    (ops : BTreeMap Text PendingOperation) (docs : BTreeMap Text IndexDocument) (p : Text)
    → IsSorted ops
    → get p (apply_pending ops docs) ≡ overlay (get p ops) (get p docs)
get-apply_pending [] docs p s = unfold apply_pending get overlay in refl
get-apply_pending ((id, op) ∷ ops) docs p s =
    let (docs', step, reads) = apply_pending-cons id op ops docs in
    let later = get-apply_pending ops docs' p s.1 in
    elim (get-cases p id op ops) [
      | inl (same, found) ↦
          let gone : get p ops ≡ none = rw same (get-Above id ops s.0) in
          let now : get p docs' ≡ outcome op =
            reads p ∙ (rw same (update_self id (outcome op) _)) in
          rw (step, later, gone, found) (unfold overlay in now)
      | inr (other, found) ↦
          rw (step, later, found, reads p, update_ne id (outcome op) (λ q. get q docs) p other) refl
    ]

-- Where the pending operations are sorted, a refresh makes each searchable document what
-- `get_document` read before it, and leaves what `get_document` reads.
pub get_document-refresh :
    (h : IndexHandle) (id : Text)
    → IsSorted h.pending_operations
    → (get id (documents (refresh h).1) ≡ get_document id h)
      × (get_document id (refresh h).1 ≡ get_document id h)
unfolding documents refresh
get_document-refresh h id s =
    let read =
      get-apply_pending h.pending_operations h.searchable_documents id s
      ∙ sym (get_document-overlay id h) in
    (read, get_document-overlay id _ ∙ (unfold overlay get in read))

pub get_document-Keeps :
    (h k : IndexHandle) (p : Text) → Keeps h k → get_document p k ≡ get_document p h
get_document-Keeps h k p s =
    get_document-overlay p k ∙ (rw (s.pending, s.searchable) refl) ∙ sym (get_document-overlay p h)

overlay-update :
    (id : Text) (op : PendingOperation) (f : Text → Option PendingOperation)
    (g : Text → Option IndexDocument) (p : Text)
    → overlay (update id (some op) f p) (g p) ≡ update id (outcome op) (λ q. overlay (f q) (g q)) p
unfolding update overlay
overlay-update id op f g p = ground arith

pub update_at :
    (id : Text) (v : Option IndexDocument) (f g : Text → Option IndexDocument) (p : Text)
    → f p ≡ g p
    → update id v f p ≡ update id v g p
unfolding update
update_at id v f g p h = ground arith

-- After a logged operation, a document reads as the operation leaves it, and the others as before.
pub get_document-Logged :
    (env : Env) (rec : WalRecord) (id : Text) (op : PendingOperation) (now : ℕ) (h k : IndexHandle)
    (p : Text)
    → Logged env rec id op now h k
    → get_document p k ≡ update id (outcome op) (λ q. get_document q h) p
get_document-Logged env rec id op now h k p l =
    get_document-overlay p k
    ∙ (rw (l.pending, l.searchable, get-insert id op h.pending_operations p) refl)
    ∙ overlay-update id op (λ q. get q h.pending_operations) (λ q. get q h.searchable_documents) p
    ∙ update_at id (outcome op) _ (λ q. get_document q h) p (sym (get_document-overlay p h))

-- A document that was indexed is read back at once, the others read as before, and the searchable
-- documents do not change; where indexing fails, every document reads as before.
pub get_document-index_document :
    (env : Env) (now : ℕ) (d : IndexDocument) (h : IndexHandle) (p : Text)
    → let (r, k) = index_document env now d h in
      (documents k ≡ documents h)
      × (((r ≡ ok (h.last_sequence_number + 1))
            × (get_document p k ≡ update d.id (some d) (λ q. get_document q h) p))
          ⊎ (Fails r × (get_document p k ≡ get_document p h)))
unfolding documents
get_document-index_document env now d h p = elim (index_document-Runs env now d h) [
  | inl (r, l) ↦ (
    l.searchable,
    inl (r, get_document-Logged env _ d.id (upsert_op d) now h _ p l ∙ (unfold outcome in refl)),
  )
  | inr (r, s) ↦ (s.searchable, inr (r, get_document-Keeps h _ p s))
]

-- A document that was deleted is gone at once, the others read as before, and the searchable
-- documents do not change; where the deletion fails, every document reads as before.
pub get_document-delete_document :
    (env : Env) (now : ℕ) (id : Text) (h : IndexHandle) (p : Text)
    → let (r, k) = delete_document env now id h in
      (documents k ≡ documents h)
      × (((r ≡ ok (h.last_sequence_number + 1))
            × (get_document p k ≡ update id none (λ q. get_document q h) p))
          ⊎ (Fails r × (get_document p k ≡ get_document p h)))
unfolding documents
get_document-delete_document env now id h p = elim (delete_document-Runs env now id h) [
  | inl (r, l) ↦ (
    l.searchable,
    inl (r, get_document-Logged env _ id delete_op now h _ p l ∙ (unfold outcome in refl)),
  )
  | inr (r, s) ↦ (s.searchable, inr (r, get_document-Keeps h _ p s))
]
