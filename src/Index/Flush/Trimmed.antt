-- ===== src/Index/Flush/Trimmed.antt =====
-- What a flush leaves of the log, with or without its merge, and opening the files after it.
use cloud_search.Prelude.{ℕ, ◌+◌, ◌≤◌, ◌≡◌, refl, ◌∙◌, Option, List, [], ◌∷◌, arith, All}
use cloud_search.Prelude.Order.{nat_ord, text_ord}
use cloud_search.BTreeMap.{BTreeMap, get}
use cloud_search.BTreeMap.Sorted.{IsSorted}
use cloud_search.Bytes.{Text}
use cloud_search.Common.{ok, IndexMetadata}
use cloud_search.Wal.{WalEntry}
use cloud_search.Wal.Spec.{represent, Log, roll, trim, replay}
use cloud_search.Wal.Trim.{replay-trim, Ascends}
use cloud_search.Wal.Retain.{All-uncovered, uncovered-IsSorted}
use cloud_search.Suggest.{SuggestIndex}
use cloud_search.Index.{Env, IndexHandle}
use cloud_search.Index.Operations.{get_document}
use cloud_search.Index.Recovery.{open_manifest, load_all_suggest_readers, open_index}
use cloud_search.Index.Merge.Numbers.{Ascending}
use cloud_search.Index.Durability.{replayed}
use cloud_search.Index.Reopen.{IsDurable, flushed, open_index-get_document}
use cloud_search.Index.Flush.Reopened.{over, IsKeyed, get-insert_documents, IsFlushed}

-- What a flush asks of the handle: its segment numbers ascend, the searchable documents are sorted
-- and stand under their ids, and the log does not fall and has nothing above the last number.
pub record IsReady (h : IndexHandle) (a : Log) : Type 0 where
  pub ascending : Ascending h.manifest.segments
  pub sorted : IsSorted h.searchable_documents
  pub keyed : IsKeyed h.searchable_documents
  pub ascends : All (λ f. Ascends 0 f.1) a.generations
  pub nothing_above : replay h.last_sequence_number a ≡ []

All_mono :
    (n : ℕ) (m : BTreeMap ℕ (List WalEntry)) → All (λ e. e.0 ≤ n) m → All (λ e. e.0 ≤ n + 1) m
All_mono n [] x = tt
All_mono n (e ∷ m) x = (omega (arith, x.0), All_mono n m x.1)

-- The files of `k` after a flush of `h`: the segments cover the last number of `h`, and the log was
-- rolled over and trimmed through it.
pub record IsTrimmed (env : Env) (a : Log) (h k : IndexHandle) : Type 0 where
  pub covers : (flushed k).1 ≡ h.last_sequence_number
  pub opened : open_manifest k.segments_dir ≡ (k.manifest, k.segments_dir)
  pub last : k.last_sequence_number ≡ h.last_sequence_number
  pub log : k.wal ≡ represent env.codec (trim h.last_sequence_number (roll a))

module _ (env : Env) (h k : IndexHandle) (a : Log) (i : IsDurable env h a) (r : IsReady h a)
    (t : IsTrimmed env a h k) where
  nothing_left : replay ((flushed k).1) (trim h.last_sequence_number (roll a)) ≡ []
  nothing_left = rw (t.covers) (
      replay-trim h.last_sequence_number h.last_sequence_number (roll a) (unfold roll in r.ascends)
        (omega arith)
      ∙ (unfold roll replay in (unfold replay in r.nothing_above)))

  -- The files under any handle that reads as they do.
  pub left-IsDurable :
      (l : IndexHandle)
      → l.wal ≡ k.wal
      → l.segments_dir ≡ k.segments_dir
      → l.manifest ≡ k.manifest
      → l.last_sequence_number ≡ k.last_sequence_number
      → IsSorted l.pending_operations
      → ((p : Text) → get_document p l ≡ get p ((flushed k).0))
      → IsDurable env l (trim h.last_sequence_number (roll a))
  left-IsDurable l w d m n ps e =
      let same : flushed l ≡ flushed k = rw (d, m) refl in
      record {
        wal = w ∙ t.log;
        sorted =
            unfold trim roll in
            uncovered-IsSorted (a.active + 1) h.last_sequence_number a.generations i.sorted;
        storable =
            unfold trim roll in
            All-uncovered (a.active + 1) h.last_sequence_number _ a.generations i.storable;
        newest =
            unfold trim roll in
            All-uncovered (a.active + 1) h.last_sequence_number _ a.generations
              (All_mono a.active a.generations i.newest);
        opened = rw (d, m) (t.opened);
        covered = rw (same, n, t.last, t.covers) (omega arith);
        pending_sorted = ps;
        read = λ p. e p ∙ (rw (same, nothing_left) (unfold replayed in refl));
      }

  pub open_index-flushed :
      (md : IndexMetadata) (rs : List (Option SuggestIndex))
      → load_all_suggest_readers k.segments_dir k.manifest.segments ≡ ok rs
      → (l : IndexHandle) × (open_index env md k.wal k.segments_dir ≡ ok l)
        × ((p : Text) → get_document p l ≡ get p ((flushed k).0))
  open_index-flushed md rs s =
      let view : IndexHandle = record k {
        pending_operations = [];
        searchable_documents = (flushed k).0;
      } in
      let j = left-IsDurable view refl refl refl refl tt (λ p. unfold get_document get in refl) in
      let (l, opened, same) =
        open_index-get_document env view (trim h.last_sequence_number (roll a)) md rs j
          (rw nothing_left tt) s in
      (l, opened, λ p. same p ∙ (unfold get_document get in refl))

pub flushed-IsTrimmed :
    (env : Env) (h k : IndexHandle) (a : Log)
    → IsDurable env h a
    → IsFlushed env a h k
    → IsTrimmed env a h k
flushed-IsTrimmed env h k a i f = record {
  covers = rw (f.read) (let c = i.covered in omega (arith, c));
  opened = f.opened;
  last = f.last;
  log = f.log;
}

pub flushed_reads :
    (env : Env) (h k : IndexHandle) (a : Log) (p : Text)
    → IsReady h a
    → IsFlushed env a h k
    → get p ((flushed k).0) ≡ over (get p h.searchable_documents) (get p ((flushed h).0))
flushed_reads env h k a p r f =
    rw (f.read) (get-insert_documents h.searchable_documents ((flushed h).0) p r.sorted r.keyed)
