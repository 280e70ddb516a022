-- ===== src/Index/Flush/Sidecars.antt =====
-- `flush` after the segment and the manifest are written: the sidecars and the trimmed log, and what
-- these leave alone.
use mathlib.Core.Path.{subst}
use cloud_search.Prelude.{ℕ, ◌≡◌, refl, inl, inr, [], ◌∷◌, ◌⊎◌, ◌∙◌}
use cloud_search.Prelude.Order.{nat_ord, text_ord}
use cloud_search.BTreeMap.{insert}
use cloud_search.Common.{Result, ok, err, panic, CloudSearchError}
use cloud_search.Wal.{trim_through}
use cloud_search.Positions.{InvertedIndex}
use cloud_search.Suggest.{SuggestIndex, to_bytes}
use cloud_search.DocValues.{build_from_documents}
use cloud_search.Index.{Env, IndexHandle, SegmentSnapshot, SegmentsDir}
use cloud_search.Index.Runs.{Result-cases}
use cloud_search.Index.Merge.{write_positions_file}
use cloud_search.Index.SuggestBuild.{build_suggest_index}
use cloud_search.Index.Flush.{
  flush_trim, flush_suggest, flush_positions, flush_doc_values, flushed_positions, reloaded_suggest,
}
use cloud_search.Positions

-- What holds of an answer and the handle with it, where there is one.
pub data Answers {A : Type 0} (P : A → IndexHandle → Type 0) : Result A × IndexHandle → Type 0 where
  answers_ok : {a : A} {k : IndexHandle} → P a k → Answers P (ok a, k)
  answers_err : {e : CloudSearchError} {k : IndexHandle} → Answers P (err e, k)
  answers_panic : {k : IndexHandle} → Answers P (panic, k)

pub Answers-mono :
    {A : Type 0} {P : A → IndexHandle → Type 0} (Q : A → IndexHandle → Type 0)
    {r : Result A × IndexHandle}
    → Answers P r
    → ((a : A) (k : IndexHandle) → P a k → Q a k)
    → Answers Q r
Answers-mono Q (answers_ok p) f = answers_ok (f _ _ p)
Answers-mono Q answers_err f = answers_err
Answers-mono Q answers_panic f = answers_panic

-- The segments and the documents are as before, and the log was trimmed.
pub record SidecarsOnly (snapshot : SegmentSnapshot) (h k : IndexHandle) : Type 0 where
  pub files : k.segments_dir.segment_files ≡ h.segments_dir.segment_files
  pub manifest_file : k.segments_dir.manifest_file ≡ h.segments_dir.manifest_file
  pub manifest : k.manifest ≡ h.manifest
  pub pending : k.pending_operations ≡ h.pending_operations
  pub searchable : k.searchable_documents ≡ h.searchable_documents
  pub last : k.last_sequence_number ≡ h.last_sequence_number
  pub trimmed : (n : ℕ) × (trim_through snapshot.last_sequence_number h.wal ≡ ok (n, k.wal))

flush_trim-SidecarsOnly :
    (snapshot : SegmentSnapshot) (h : IndexHandle)
    → Answers (λ r k. SidecarsOnly snapshot h k) (flush_trim snapshot h)
unfolding flush_trim
flush_trim-SidecarsOnly snapshot h =
    elim (Result-cases (trim_through snapshot.last_sequence_number h.wal)) [
      | inl ((n, wal), e) ↦
          rw (flush_trim, e)
            (answers_ok (record {
              files = refl;
              manifest_file = refl;
              manifest = refl;
              pending = refl;
              searchable = refl;
              last = refl;
              trimmed = (n, e);
            }))
      | inr (inl (x, e)) ↦ rw (flush_trim, e) answers_err
      | inr (inr e) ↦ rw (flush_trim, e) answers_panic
    ]

-- The same fields, of a handle that differs in its sidecars.
again :
    (snapshot : SegmentSnapshot) (h g k : IndexHandle)
    → g.segments_dir.segment_files ≡ h.segments_dir.segment_files
    → g.segments_dir.manifest_file ≡ h.segments_dir.manifest_file
    → g.manifest ≡ h.manifest
    → g.pending_operations ≡ h.pending_operations
    → g.searchable_documents ≡ h.searchable_documents
    → g.last_sequence_number ≡ h.last_sequence_number
    → g.wal ≡ h.wal
    → SidecarsOnly snapshot g k
    → SidecarsOnly snapshot h k
again snapshot h g k a b c d e f w s = record {
  files = s.files ∙ a;
  manifest_file = s.manifest_file ∙ b;
  manifest = s.manifest ∙ c;
  pending = s.pending ∙ d;
  searchable = s.searchable ∙ e;
  last = s.last ∙ f;
  trimmed = (s.trimmed.0, rw w at (s.trimmed.1));
}

SuggestIndex-cases : (m : SuggestIndex) → (m ≡ []) ⊎ ((f : _) × (fs : SuggestIndex) × (m ≡ f ∷ fs))
SuggestIndex-cases [] = inl refl
SuggestIndex-cases (f ∷ fs) = inr (f, fs, refl)

flush_suggest-SidecarsOnly :
    (env : Env) (snapshot : SegmentSnapshot) (n : ℕ) (h : IndexHandle)
    → Answers (λ r k. SidecarsOnly snapshot h k) (flush_suggest env snapshot n h)
unfolding flush_suggest
flush_suggest-SidecarsOnly env snapshot n h =
    elim (SuggestIndex-cases (build_suggest_index env snapshot.documents h.metadata.mappings)) [
      | inl e ↦ rw (flush_suggest, e) (flush_trim-SidecarsOnly snapshot h)
      | inr (f, fs, e) ↦ elim (Result-cases (to_bytes (f ∷ fs))) [
        | inr (inl (x, t)) ↦ rw (flush_suggest, e, t) answers_err
        | inr (inr t) ↦ rw (flush_suggest, e, t) answers_panic
        | inl (bs, t) ↦
            let dir : SegmentsDir = record h.segments_dir {
              suggest_files = insert n bs h.segments_dir.suggest_files;
            } in
            elim (Result-cases (reloaded_suggest dir h.manifest.segments)) [
              | inr (inl (x, s)) ↦ rw (flush_suggest, e, t, s) answers_err
              | inr (inr s) ↦ rw (flush_suggest, e, t, s) answers_panic
              | inl (readers, s) ↦
                  rw (flush_suggest, e, t, s)
                    (Answers-mono _ (flush_trim-SidecarsOnly snapshot _)
                      (λ r k p. again snapshot h _ k refl refl refl refl refl refl refl p))
            ]
      ]
    ]

pub write_positions_file-kept :
    (n : ℕ) (index : InvertedIndex) (dir new : SegmentsDir)
    → write_positions_file n index dir ≡ ok new
    → (new.segment_files ≡ dir.segment_files) × (new.manifest_file ≡ dir.manifest_file)
unfolding write_positions_file
write_positions_file-kept n [] dir new h = let same : new ≡ dir = cc in (rw same refl, rw same refl)
write_positions_file-kept n (t ∷ ts) dir new h =
    elim (Result-cases (Positions.build (Positions.copy_index (t ∷ ts) []))) [
      | inl (bs, e) ↦
          let made : ok (record dir { positions_files = insert n bs dir.positions_files })
              ≡ ok new =
            rw (write_positions_file, e) at h in
          let same : record dir { positions_files = insert n bs dir.positions_files } ≡ new = cc in
          (rw (← same) refl, rw (← same) refl)
      | inr (inl (x, e)) ↦ cc (rw (write_positions_file, e) at h)
      | inr (inr e) ↦ cc (rw (write_positions_file, e) at h)
    ]

flush_positions-SidecarsOnly :
    (env : Env) (snapshot : SegmentSnapshot) (n : ℕ) (h : IndexHandle)
    → Answers (λ r k. SidecarsOnly snapshot h k) (flush_positions env snapshot n h)
unfolding flush_positions
flush_positions-SidecarsOnly env snapshot n h =
    let index = flushed_positions env h.per_doc_inverted_index snapshot.documents [] in
    elim (Result-cases (write_positions_file n index h.segments_dir)) [
      | inr (inl (x, e)) ↦ rw (flush_positions, e) answers_err
      | inr (inr e) ↦ rw (flush_positions, e) answers_panic
      | inl (dir, e) ↦
          let (files, manifest) = write_positions_file-kept n index h.segments_dir dir e in
          rw (flush_positions, e)
            (Answers-mono _ (flush_suggest-SidecarsOnly env snapshot n _)
              (λ r k p. again snapshot h _ k files manifest refl refl refl refl refl p))
    ]

pub flush_doc_values-SidecarsOnly :
    (env : Env) (snapshot : SegmentSnapshot) (n : ℕ) (h : IndexHandle)
    → Answers (λ r k. SidecarsOnly snapshot h k) (flush_doc_values env snapshot n h)
unfolding flush_doc_values
flush_doc_values-SidecarsOnly env snapshot n h =
    elim (Result-cases (build_from_documents env.f64_of snapshot.documents h.metadata.mappings)) [
      | inr (inl (x, e)) ↦ rw (flush_doc_values, e) answers_err
      | inr (inr e) ↦ rw (flush_doc_values, e) answers_panic
      | inl (columns, e) ↦
          rw (flush_doc_values, e)
            (Answers-mono _ (flush_positions-SidecarsOnly env snapshot n _)
              (λ r k p. again snapshot h _ k refl refl refl refl refl refl refl p))
    ]

pub Answers-ok :
    {A : Type 0} {P : A → IndexHandle → Type 0} {r : Result A × IndexHandle} (a : A)
    (k : IndexHandle)
    → Answers P r
    → r ≡ (ok a, k)
    → P a k
Answers-ok {A} {P} a k (answers_ok {a = b} {k = l} p) e =
    let same : b ≡ a = cc in
    let at_handle : l ≡ k = cc in subst (P a) at_handle (subst (λ x. P x l) same p)
Answers-ok a k answers_err e = cc
Answers-ok a k answers_panic e = cc
