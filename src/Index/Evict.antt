-- ===== src/Index/Evict.antt =====
-- What `evict_expired_documents` does to what is read.
use cloud_search.Prelude.{
  ◌<◌, ◌≤◌, leb, some, if◌then◌else◌, Bool-cases, false, ap, ℕ, ◌+◌, ◌≡◌, refl, sym, ◌∙◌, inl, inr,
  true, Option, none, List, [], ◌∷◌, arith, length,
}
use cloud_search.Prelude.Order.{text_ord}
use cloud_search.BTreeMap.{BTreeMap, get, update, remove}
use cloud_search.BTreeMap.Lookup.{get-remove, get-cases, update_self, update_ne}
use cloud_search.BTreeMap.Sorted.{IsSorted, get-Above}
use cloud_search.Bytes.{Text}
use cloud_search.Common.{ok}
use cloud_search.Wal.Records.{WalRecord}
use cloud_search.Index.{Env, IndexHandle, PendingOperation, delete_op}
use cloud_search.Wal.{append}
use cloud_search.Index.Operations.{
  get_document, has_retention_policy, log_operation, expired_ids, evict_loop,
  evict_expired_documents,
}
use cloud_search.Index.Runs.{Result-cases, log_operation-Runs}
use cloud_search.Index.Views.{get_document-overlay, get_document-Logged, outcome}

-- What a map reads as without the keys of the list.
unfoldable pub without {ℓ} : {A : Type ℓ} → List Text → (Text → Option A) → Text → Option A
without [] f p = f p
without (id ∷ ids) f p = without ids (update id none f) p

without_same {ℓ} :
    {A : Type ℓ} (ids : List Text) (f g : Text → Option A) (p : Text)
    → ((q : Text) → f q ≡ g q)
    → without ids f p ≡ without ids g p
unfolding without update
without_same [] f g p h = h p
without_same (id ∷ ids) f g p h =
    without_same ids (update id none f) (update id none g) p (λ q. ground (arith, h q))

untimed :
    (h : IndexHandle) (ts : BTreeMap Text ℕ) (p : Text)
    → get_document p (record h { document_timestamps = ts }) ≡ get_document p h
untimed h ts p = get_document-overlay p _ ∙ sym (get_document-overlay p h)

leb_yes : (a b : ℕ) → a ≤ b → leb a b ≡ true
leb_yes a b h = ground arith

leb_no : (a b : ℕ) → b < a → leb a b ≡ false
leb_no a b h = ground arith

log_operation-kept :
    (env : Env) (rec : WalRecord) (id : Text) (op : PendingOperation) (now : ℕ) (h : IndexHandle)
    → (log_operation env rec id op now h).1.document_timestamps ≡ h.document_timestamps
unfolding log_operation
log_operation-kept env rec id op now h =
    elim (Result-cases (append env.codec (h.last_sequence_number + 1) rec now h.wal)) [
      | inl (w, e) ↦ rw (log_operation, e) refl
      | inr (inl (x, e)) ↦ rw (log_operation, e) refl
      | inr (inr e) ↦ rw (log_operation, e) refl
    ]

-- What an eviction of the documents of the list leaves.
abbrev Evicted : List Text → IndexHandle → IndexHandle → Type 0
Evicted ids h k =
    ((p : Text) → get_document p k ≡ without ids (λ q. get_document q h) p)
    × ((p : Text) → get p k.document_timestamps ≡ without ids (λ q. get q h.document_timestamps) p)

evict_loop-Evicted :
    (env : Env) (now : ℕ) (ids : List Text) (n m : ℕ) (h : IndexHandle)
    → (evict_loop env now ids n h).0 ≡ ok m
    → (m ≡ n + length ids) × Evicted ids h (evict_loop env now ids n h).1
unfolding evict_loop without
evict_loop-Evicted env now [] n m h r = (let e : n ≡ m = cc in omega arith, (λ p. refl, λ p. refl))
evict_loop-Evicted env now (id ∷ ids) n m h r =
    let rec = WalRecord.delete_document id in
    let h1 = (log_operation env rec id delete_op now h).1 in
    let h2 = record h1 { document_timestamps = remove id h1.document_timestamps } in
    elim (Result-cases (log_operation env rec id delete_op now h).0) [
      | inr (inl (x, e)) ↦ cc (rw (evict_loop, e) at r)
      | inr (inr e) ↦ cc (rw (evict_loop, e) at r)
      | inl (k, e) ↦
          let (count, (read, timed)) =
            evict_loop-Evicted env now ids (n + 1) m h2 (rw (evict_loop, e) at r) in
          elim (log_operation-Runs env rec id delete_op now h) [
            | inr (bad, s) ↦ absurd (rw e at bad)
            | inl (q, l) ↦ (
              omega (arith, count),
              (
                λ p.
                    rw (evict_loop, e)
                      (read p
                        ∙ without_same ids (λ q. get_document q h2)
                            (update id none (λ q. get_document q h)) p
                            (λ q.
                              untimed h1 _ q
                              ∙ get_document-Logged env rec id delete_op now h h1 q l
                              ∙ (unfold outcome in refl))),
                λ p.
                    rw (evict_loop, e)
                      (timed p
                        ∙ without_same ids (λ q. get q h2.document_timestamps)
                            (update id none (λ q. get q h.document_timestamps)) p
                            (λ q.
                              get-remove id h1.document_timestamps q
                              ∙ ap (λ ts. update id none (λ x. get x ts) q)
                                  (log_operation-kept env rec id delete_op now h))),
              ),
            )
          ]
    ]

without-none {ℓ} :
    {A : Type ℓ} (ids : List Text) (f : Text → Option A) (p : Text)
    → f p ≡ none
    → without ids f p ≡ none
unfolding without update
without-none [] f p e = e
without-none (id ∷ ids) f p e = without-none ids (update id none f) p (ground (arith, e))

-- A key that is not in the map, or is not due, is kept.
without-expired_kept {ℓ} :
    {A : Type ℓ} (now : ℕ) (m : BTreeMap Text ℕ) (f : Text → Option A) (p : Text)
    → IsSorted m
    → ((t : ℕ) → get p m ≡ some t → now < t)
    → without (expired_ids now m) f p ≡ f p
unfolding without expired_ids
without-expired_kept now [] f p s k = refl
without-expired_kept {A = A} now ((id, t) ∷ m) f p s k = elim (get-cases p id t m) [
  | inl (same, found) ↦
      let late = k t found in
      let gone : get p m ≡ none = rw same (get-Above id m s.0) in
      let rest = without-expired_kept now m f p s.1 (λ u e. cc) in
      rw (expired_ids, leb_no t now late) rest
  | inr (other, found) ↦
      let rest =
        λ (g : Text → Option A). without-expired_kept now m g p s.1 (λ u e. k u (found ∙ e)) in
      elim (Bool-cases (leb t now)) [
        | inl b ↦ rw (expired_ids, b) (rest (update id none f) ∙ update_ne id none f p other)
        | inr b ↦ rw (expired_ids, b) (rest f)
      ]
]

-- A key that is due is not.
without-expired_gone {ℓ} :
    {A : Type ℓ} (now : ℕ) (m : BTreeMap Text ℕ) (f : Text → Option A) (p : Text) (t : ℕ)
    → get p m ≡ some t
    → t ≤ now
    → without (expired_ids now m) f p ≡ none
unfolding without expired_ids get
without-expired_gone now [] f p t g l = cc
without-expired_gone {A = A} now ((id, u) ∷ m) f p t g l = elim (get-cases p id u m) [
  | inl (same, found) ↦
      let due : u ≡ t = cc in
      rw (expired_ids, leb_yes u now (rw due l))
        (without-none (expired_ids now m) (update id none f) p (rw same (update_self id none f)))
  | inr (other, found) ↦
      let rest = λ (f' : Text → Option A). without-expired_gone now m f' p t (sym found ∙ g) l in
      elim (Bool-cases (leb u now)) [
        | inl b ↦ rw (expired_ids, b) (rest (update id none f))
        | inr b ↦ rw (expired_ids, b) (rest f)
      ]
]

-- How many of the times are due.
unfoldable pub due : ℕ → BTreeMap Text ℕ → ℕ
due now [] = 0
due now ((id, t) ∷ m) = (if leb t now then 1 else 0) + due now m

length-expired_ids : (now : ℕ) (m : BTreeMap Text ℕ) → length (expired_ids now m) ≡ due now m
unfolding expired_ids due
length-expired_ids now [] = refl
length-expired_ids now ((id, t) ∷ m) = ground (arith, length-expired_ids now m)

-- On an index with a retention policy whose times are sorted, an eviction that succeeds answers how
-- many of the times are at or before now. The documents of these times are not read any more and have
-- no time, and all others are read as before and keep theirs.
pub get_document-evict_expired_documents :
    (env : Env) (now m : ℕ) (h : IndexHandle)
    → has_retention_policy h.metadata ≡ true
    → IsSorted h.document_timestamps
    → (evict_expired_documents env now h).0 ≡ ok m
    → let k = (evict_expired_documents env now h).1 in
      (m ≡ due now h.document_timestamps)
      × ((p : Text) (t : ℕ)
          → get p h.document_timestamps ≡ some t
          → t ≤ now
          → (get_document p k ≡ none) × (get p k.document_timestamps ≡ none))
      × ((p : Text)
          → ((t : ℕ) → get p h.document_timestamps ≡ some t → now < t)
          → (get_document p k ≡ get_document p h)
            × (get p k.document_timestamps ≡ get p h.document_timestamps))
unfolding evict_expired_documents
get_document-evict_expired_documents env now m h e s r =
    let ids = expired_ids now h.document_timestamps in
    let (count, (read, timed)) =
      evict_loop-Evicted env now ids 0 m h (rw (evict_expired_documents, e) at r) in
    let counted = length-expired_ids now h.document_timestamps in
    (
      omega (arith, count, counted),
      λ p t g l.
          rw (evict_expired_documents, e)
            (
              read p ∙ without-expired_gone now h.document_timestamps _ p t g l,
              timed p ∙ without-expired_gone now h.document_timestamps _ p t g l,
            ),
      λ p k.
          rw (evict_expired_documents, e)
            (
              read p ∙ without-expired_kept now h.document_timestamps _ p s k,
              timed p ∙ without-expired_kept now h.document_timestamps _ p s k,
            ),
    )
