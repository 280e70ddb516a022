-- ===== src/Index/Flush/Durable.antt =====
-- What a flush, with the merge that it may end with, does not lose, and what it loses.
use cloud_search.Prelude.{
  ◌≡◌, refl, sym, ap, ◌∙◌, ◌⊎◌, inl, inr, Option, none, some, List, [], Option-cases, All,
}
use cloud_search.Prelude.Order.{nat_ord, text_ord}
use cloud_search.BTreeMap.{get}
use cloud_search.Bytes.{Text}
use cloud_search.Common.{Result, ok, err, panic, IndexDocument, IndexMetadata}
use cloud_search.Wal.Spec.{Log, roll, trim}
use cloud_search.Suggest.{SuggestIndex}
use cloud_search.Index.{Env, IndexHandle, SegmentMeta}
use cloud_search.Index.Operations.{get_document, apply_pending}
use cloud_search.Index.Views.{overlay, get_document-overlay}
use cloud_search.Index.Recovery.{load_all_suggest_readers, open_index}
use cloud_search.Index.MergePlan.{plan_merge}
use cloud_search.Index.Merge.{read_documents, apply_merge_plan}
use cloud_search.Index.Reopen.{IsDurable, flushed}
use cloud_search.Index.Snapshots.Restored.{OpKeyed}
use cloud_search.Index.Flush.{FlushResponse, after_merge, flush_files, flush_merge, flush}
use cloud_search.Index.Flush.Sidecars.{Answers-ok}
use cloud_search.Index.Flush.Reopened.{over, IsFlushed, flush_files-IsFlushed}
use cloud_search.Index.Flush.Trimmed.{
  IsReady, IsTrimmed, left-IsDurable, open_index-flushed, flushed-IsTrimmed, flushed_reads,
}
use cloud_search.Index.Flush.Merged.{
  outside, IsMerged, apply_merge_plan-IsMerged, merged-IsTrimmed, merged_reads,
  plan_merge-not_empty,
}

-- The handle before the merge, and whether there was one.
abbrev Ends : Env → FlushResponse → IndexHandle → IndexHandle → Type 0
Ends env response j k =
    ((plan_merge j ≡ none) × (j ≡ k))
    ⊎ ((plan : List SegmentMeta) × (plan_merge j ≡ some plan)
        × (apply_merge_plan env plan j ≡ (ok tt, k)))

after_merge-ok :
    (response : FlushResponse) (r : Result (Unit {0}) × IndexHandle) (answer : FlushResponse)
    (k : IndexHandle)
    → after_merge response r ≡ (ok answer, k)
    → (response ≡ answer) × (r ≡ (ok tt, k))
after_merge-ok response (ok tt, l) answer k e = let same : l ≡ k = cc in (cc, rw same refl)
after_merge-ok response (err x, l) answer k e = cc
after_merge-ok response (panic, l) answer k e = cc

flush_merge-Ends :
    (env : Env) (r : Result FlushResponse × IndexHandle) (response : FlushResponse)
    (k : IndexHandle)
    → flush_merge env r ≡ (ok response, k)
    → (r ≡ (ok response, r.1)) × Ends env response (r.1) k
unfolding flush_merge
flush_merge-Ends env (err x, j) response k e = cc
flush_merge-Ends env (panic, j) response k e = cc
flush_merge-Ends env (ok answer, j) response k e = elim (Option-cases (plan_merge j)) [
  | inl n ↦
      let done : (ok answer, j) ≡ (ok response, k) = rw (flush_merge, n) at e in
      let same : answer ≡ response = cc in (rw same refl, inl (n, cc))
  | inr (plan, n) ↦
      let (same, merged) =
        after_merge-ok answer (apply_merge_plan env plan j) response k (rw (flush_merge, n) at e) in
      (rw same refl, inr (plan, n, merged))
]

module _ (env : Env) (h k : IndexHandle) (a : Log) (response : FlushResponse)
    (i : IsDurable env h a) (r : IsReady h a) (e : flush env h ≡ (ok response, k)) where
  -- The handle before the merge.
  abbrev before : IndexHandle
  before = (flush_files env h).1

  ended : (flush_files env h ≡ (ok response, before)) × Ends env response before k
  unfolding flush
  ended = flush_merge-Ends env (flush_files env h) response k e

  before-IsFlushed : IsFlushed env a h before
  before-IsFlushed =
      Answers-ok response before (flush_files-IsFlushed env h a i r.ascending) (ended.0)

  after-IsMerged :
      (plan : List SegmentMeta)
      → plan_merge before ≡ some plan
      → apply_merge_plan env plan before ≡ (ok tt, k)
      → IsMerged plan before k
  after-IsMerged plan n m =
      let (s, ss, same) = plan_merge-not_empty before plan n in
      rw same (
        Answers-ok tt k (apply_merge_plan-IsMerged env s ss before (before-IsFlushed.ascending))
          (rw same at m))

  after-IsTrimmed : IsTrimmed env a h k
  after-IsTrimmed =
      let t = flushed-IsTrimmed env h before a i before-IsFlushed in
      elim (ended.1) [
        | inl (n, same) ↦ rw (← same) t
        | inr (plan, n, m) ↦ merged-IsTrimmed env a plan h before k t (after-IsMerged plan n m)
      ]

-- What is read after the files of a flush were opened: `j` is the handle before the merge of the plan.
unfoldable pub flush_read :
    IndexHandle → IndexHandle → Text → Option (List SegmentMeta) → Option IndexDocument
flush_read h j p none = over (get p h.searchable_documents) (get p ((flushed h).0))
flush_read h j p (some plan) =
    over (overlay (get p h.pending_operations) (get p (read_documents j.segments_dir plan [])))
      (get p ((outside plan j).0))

-- Where the handle is durable and ready, the pending operations stand under their ids, the flush
-- succeeds and the suggest files load, opening the files that the flush left, with the merge that it
-- may end with, succeeds. Each document is then read, if no merge was planned, as it was searchable,
-- and else as the segments before had it, whatever was pending; and if a merge was planned, as the
-- pending operations over the segments of the plan have it, and else as the other segments have it.
pub open_index-flush :
    (env : Env) (h k : IndexHandle) (a : Log) (response : FlushResponse) (md : IndexMetadata)
    (rs : List (Option SuggestIndex)) (p : Text)
    → IsDurable env h a
    → IsReady h a
    → All OpKeyed h.pending_operations
    → flush env h ≡ (ok response, k)
    → load_all_suggest_readers k.segments_dir k.manifest.segments ≡ ok rs
    → let j = (flush_files env h).1 in
      (l : IndexHandle) × (open_index env md k.wal k.segments_dir ≡ ok l)
      × (get_document p l ≡ flush_read h j p (plan_merge j))
unfolding flush_read
open_index-flush env h k a response md rs p i r o e s =
    let t = after-IsTrimmed env h k a response i r e in
    let f = before-IsFlushed env h k a response i r e in
    let (l, opened, same) = open_index-flushed env h k a i r t md rs s in
    let j = (flush_files env h).1 in
    let read : get p ((flushed k).0) ≡ flush_read h j p (plan_merge j) =
      elim ((ended env h k a response i r e).1) [
        | inl (n, q) ↦ rw (n, ← q) (flushed_reads env h j a p r f)
        | inr (plan, n, m) ↦
            let read_merged =
              merged_reads plan j k p (rw (f.pending) (i.pending_sorted)) (rw (f.pending) o)
                (after-IsMerged env h k a response i r e plan n m) in
            let same_ops =
              ap
                (λ ops.
                  over (overlay (get p ops) (get p (read_documents j.segments_dir plan [])))
                    (get p ((outside plan j).0)))
                (f.pending) in
            read_merged ∙ (rw n same_ops)
      ] in
    (l, opened, same p ∙ read)

over-same : (d e : Option IndexDocument) → (d ≡ none → e ≡ none) → over d e ≡ d
unfolding over
over-same none e h = h refl
over-same (some d) e h = refl

-- A flush that succeeds, with the merge that it may end with, keeps the handle durable, where the
-- handle is ready, nothing is pending, each document of the segments before is searchable, and the
-- segments of the merge's plan, if there is one, have each document that the others have.
pub flush-IsDurable :
    (env : Env) (h k : IndexHandle) (a : Log) (response : FlushResponse)
    → IsDurable env h a
    → IsReady h a
    → h.pending_operations ≡ []
    → ((p : Text) → get p h.searchable_documents ≡ none → get p ((flushed h).0) ≡ none)
    → let j = (flush_files env h).1 in
      ((plan : List SegmentMeta)
        → plan_merge j ≡ some plan
        → (p : Text) → get p (read_documents j.segments_dir plan []) ≡ none
        → get p ((outside plan j).0) ≡ none)
      → flush env h ≡ (ok response, k)
      → IsDurable env k (trim h.last_sequence_number (roll a))
flush-IsDurable env h k a response i r none_pending kept covered e =
    let t = after-IsTrimmed env h k a response i r e in
    let f = before-IsFlushed env h k a response i r e in
    let j = (flush_files env h).1 in
    let nothing : j.pending_operations ≡ [] = f.pending ∙ none_pending in
    elim ((ended env h k a response i r e).1) [
      | inl (n, q) ↦
          left-IsDurable env h k a i r t k refl refl refl refl (rw (← q, nothing) tt) (λ p.
            get_document-overlay p k
            ∙ (rw (← q, nothing, f.searchable) (unfold overlay get in refl))
            ∙ sym (over-same _ _ (kept p))
            ∙ sym (rw (← q) (flushed_reads env h j a p r f)))
      | inr (plan, n, m) ↦
          let g = after-IsMerged env h k a response i r e plan n m in
          left-IsDurable env h k a i r t k refl refl refl refl (rw (g.pending, nothing) tt) (λ p.
            get_document-overlay p k
            ∙ (rw (g.pending, g.searchable, nothing) (unfold overlay get apply_pending in refl))
            ∙ sym (over-same _ _ (covered plan n p))
            ∙ sym (
                merged_reads plan j k p (rw nothing tt) (rw nothing tt) g
                ∙ (rw nothing (unfold overlay get in refl))))
    ]
