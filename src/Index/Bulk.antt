-- ===== src/Index/Bulk.antt =====
-- `bulk_apply`: one item for each operation, in order, and a flag that tells whether one failed.
use cloud_search.Prelude.{ℕ, ◌≡◌, Bool, true, false, ◌||◌, List, [], ◌∷◌}
use cloud_search.Common.{CloudSearchError, ok, err, panic, IndexDocument}
use cloud_search.Bytes.{Text}
use cloud_search.Index.{Env, IndexHandle}
use cloud_search.Index.Operations.{
  BulkOperation, BulkItem, created, deleted, failed_with, index_op, remove_op, index_document,
  delete_document, apply_one,
}

abbrev pub has_failed : BulkItem → Bool
has_failed item = elim item.outcome [ failed_with e ↦ true | _ ↦ false ]

unfoldable pub any_failed : List BulkItem → Bool
any_failed [] = false
any_failed (i ∷ is) = has_failed i || any_failed is

-- What one operation, on a handle, gives for an item and for the handle afterwards: the sequence
-- number that it was given, or the error and no number.
pub data Reports (env : Env) (now : ℕ) (h k : IndexHandle) : BulkOperation → BulkItem → Type 0 where
  indexed :
      {d : IndexDocument} {n : ℕ}
      → index_document env now d h ≡ (ok n, k)
      → Reports env now h k
          (index_op d)
          (record { id = d.id; outcome = created; sequence_number = n })
  not_indexed :
      {d : IndexDocument} {x : CloudSearchError}
      → index_document env now d h ≡ (err x, k)
      → Reports env now h k
          (index_op d)
          (record { id = d.id; outcome = failed_with x; sequence_number = 0 })
  removed :
      {id : Text} {n : ℕ}
      → delete_document env now id h ≡ (ok n, k)
      → Reports env now h k
          (remove_op id)
          (record { id = id; outcome = deleted; sequence_number = n })
  not_removed :
      {id : Text} {x : CloudSearchError}
      → delete_document env now id h ≡ (err x, k)
      → Reports env now h k
          (remove_op id)
          (record { id = id; outcome = failed_with x; sequence_number = 0 })

-- The items of the operations one after the other, each on the handle that the one before it left.
pub data ReportsAll (env : Env) (now : ℕ)
    : IndexHandle → IndexHandle → List BulkOperation → List BulkItem → Type 0 where
  no_more : {h : IndexHandle} → ReportsAll env now h h [] []
  one_more :
      {h j k : IndexHandle} {op : BulkOperation} {ops : List BulkOperation} {item : BulkItem}
      {items : List BulkItem}
      → Reports env now h j op item
      → ReportsAll env now j k ops items
      → ReportsAll env now h k (op ∷ ops) (item ∷ items)

-- An operation panics, after others that gave items.
pub data Panics (env : Env) (now : ℕ) : IndexHandle → List BulkOperation → Type 0 where
  panics_here :
      {h : IndexHandle} {op : BulkOperation} {ops : List BulkOperation}
      → (apply_one env now op h).0 ≡ panic
      → Panics env now h (op ∷ ops)
  panics_later :
      {h j : IndexHandle} {op : BulkOperation} {ops : List BulkOperation} {item : BulkItem}
      → Reports env now h j op item
      → Panics env now j ops
      → Panics env now h (op ∷ ops)
