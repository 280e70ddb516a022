-- ===== src/Index/Steps.antt =====
-- A crash between any two operations: sequences of the operations as a relation between handles.
use cloud_search.Prelude.{◌≡◌, refl, ◌∙◌, inl, inr, ℕ, Option, none, List, All, [], ◌∷◌}
use cloud_search.Bytes.{Text}
use cloud_search.Common.{ok, IndexDocument, IndexMetadata}
use cloud_search.Wal.{WalEntry}
use cloud_search.Wal.Records.{WalRecord}
use cloud_search.Wal.Spec.{Log, IsStorable, replay}
use cloud_search.Suggest.{SuggestIndex}
use cloud_search.Index.{Env, IndexHandle}
use cloud_search.Index.Operations.{get_document, refresh, index_document, delete_document}
use cloud_search.Index.Recovery.{load_all_suggest_readers, open_index}
use cloud_search.Index.Runs.{index_document-Runs, delete_document-Runs}
use cloud_search.Index.Durability.{IsDatable}
use cloud_search.Index.Reopen.{
  IsDurable, flushed, next_entry, index_document-IsDurable, delete_document-IsDurable,
  refresh-IsDurable, open_index-get_document,
}

-- The operations of a client, each with an entry that the log can hold; one that fails counts too.
pub data Step (env : Env) : IndexHandle → IndexHandle → Type 0 where
  indexed :
      (now : ℕ) (d : IndexDocument) (h : IndexHandle)
      → IsStorable env.codec (next_entry (WalRecord.index_document d) now h)
      → Step env h (index_document env now d h).1
  deleted :
      (now : ℕ) (id : Text) (h : IndexHandle)
      → IsStorable env.codec (next_entry (WalRecord.delete_document id) now h)
      → Step env h (delete_document env now id h).1
  refreshed : (h : IndexHandle) → Step env h (refresh h).1

pub data Steps (env : Env) : IndexHandle → IndexHandle → Type 0 where
  stays : (h : IndexHandle) → Steps env h h
  goes_on : (h k l : IndexHandle) → Step env h k → Steps env k l → Steps env h l

-- The segments of a handle.
abbrev SameSegments : IndexHandle → IndexHandle → Type 0
SameSegments h k = (k.segments_dir ≡ h.segments_dir) × (k.manifest ≡ h.manifest)

Step-IsDurable :
    (env : Env) (h k : IndexHandle) (a : Log)
    → Step env h k
    → IsDurable env h a
    → ((b : Log) × IsDurable env k b) × SameSegments h k
Step-IsDurable env _ _ a (indexed now d h s) i = (
  elim (index_document-IsDurable env now d h a s i) [ inl (r, j) ↦ (_, j) | inr (r, j) ↦ (a, j) ],
  elim (index_document-Runs env now d h) [
    | inl (r, l) ↦ (l.dir, l.manifest)
    | inr (r, l) ↦ (l.dir, l.manifest)
  ],
)
Step-IsDurable env _ _ a (deleted now id h s) i = (
  elim (delete_document-IsDurable env now id h a s i) [ inl (r, j) ↦ (_, j) | inr (r, j) ↦ (a, j) ],
  elim (delete_document-Runs env now id h) [
    | inl (r, l) ↦ (l.dir, l.manifest)
    | inr (r, l) ↦ (l.dir, l.manifest)
  ],
)
Step-IsDurable env _ _ a (refreshed h) i =
    ((a, refresh-IsDurable env h a i), (unfold refresh in (refl, refl)))

-- Every sequence of operations leaves a durable handle, over the same segments.
pub Steps-IsDurable :
    (env : Env) (h k : IndexHandle) (a : Log)
    → Steps env h k
    → IsDurable env h a
    → ((b : Log) × IsDurable env k b) × SameSegments h k
Steps-IsDurable env _ _ a (stays h) i = ((a, i), (refl, refl))
Steps-IsDurable env _ _ a (goes_on h k l s t) i =
    let ((b, j), same) = Step-IsDurable env h k a s i in
    let (c, after) = Steps-IsDurable env k l b t j in (c, (after.0 ∙ same.0, after.1 ∙ same.1))

no_retention :
    (env : Env) (md : IndexMetadata) (es : List WalEntry)
    → md.settings.retention_secs ≡ none
    → All (IsDatable env md) es
no_retention env md [] e = tt
no_retention env md (x ∷ es) e = ((λ d ts r w t s. cc), no_retention env md es e)

-- After any sequence of writes, deletions and refreshes on a durable handle, each with an entry
-- that the log can hold, failed ones included, opening the files again succeeds and gives a handle
-- that reads every document as the last one did, if the index has no retention and its suggest
-- files load.
pub open_index-Steps :
    (env : Env) (h k : IndexHandle) (a : Log) (md : IndexMetadata) (rs : List (Option SuggestIndex))
    → IsDurable env h a
    → Steps env h k
    → md.settings.retention_secs ≡ none
    → load_all_suggest_readers h.segments_dir h.manifest.segments ≡ ok rs
    → (l : IndexHandle) × (open_index env md k.wal k.segments_dir ≡ ok l)
      × ((p : Text) → get_document p l ≡ get_document p k)
open_index-Steps env h k a md rs i s e r =
    let ((b, j), same) = Steps-IsDurable env h k a s i in
    open_index-get_document env k b md rs j (no_retention env md (replay (flushed k).1 b) e)
      (rw (same.0, same.1) r)
