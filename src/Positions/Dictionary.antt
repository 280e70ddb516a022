-- ===== src/Positions/Dictionary.antt =====
-- The dictionary of positions.bin: where each list begins, and reading it back.
use cloud_search.Prelude.{
  ℕ, suc, ◌+◌, ◌^◌, ◌<◌, ◌≤◌, ◌≡◌, refl, ap, true, false, List, [], ◌∷◌, ◌++◌, append-nil,
  append_assoc, arith, length, take, drop, length-append, take_front, drop_front, All, ltb,
}
use cloud_search.Prelude.Order.{text_ord}
use cloud_search.BTreeMap.{BTreeMap, insert}
use cloud_search.BTreeMap.Sorted.{IsSorted, Above, insert_last}
use cloud_search.Bytes.{Bytes, Text, to_le, from_le, is_utf8}
use cloud_search.Bytes.RoundTrip.{length-to_le, take_u32, take_u64, drop-to_le}
use cloud_search.Common.{ok}
use cloud_search.Positions.{InvertedIndex, u32_max, body_loop, dictionary_loop, parsed, read_terms}
use cloud_search.Positions.Layout.{FitsList, list_bytes, write_list-list_bytes}

-- Where each list begins, if the first begins at `n`.
unfoldable pub offsets : ℕ → InvertedIndex → List (Text × ℕ)
offsets n [] = []
offsets n ((t, docs) ∷ m) = (t, n) ∷ offsets (n + length (list_bytes docs)) m

unfoldable pub body_bytes : InvertedIndex → Bytes
body_bytes [] = []
body_bytes ((t, docs) ∷ m) = list_bytes docs ++ body_bytes m

-- The index can be written: the terms are texts and the numbers fit their fields.
pub record FitsIndex (m : InvertedIndex) : Type 0 where
  pub lists : All (λ f. FitsList f.1) m
  pub texts : All (λ f. (is_utf8 f.0 ≡ true) × (length f.0 < 2 ^ 32)) m
  pub few : length m < 2 ^ 32
  pub small : length (body_bytes m) < 2 ^ 64

pub body_loop-eq :
    (m : InvertedIndex) (os : List (Text × ℕ)) (body : Bytes)
    → All (λ f. FitsList f.1) m
    → body_loop m os body ≡ ok (os ++ offsets (length body) m, body ++ body_bytes m)
unfolding body_loop offsets body_bytes
body_loop-eq [] os body h = simp append-nil
body_loop-eq ((t, docs) ∷ m) os body h = rw (
  write_list-list_bytes docs h.0,
  body_loop-eq m (os ++ (t, length body) ∷ []) (body ++ list_bytes docs) h.1,
  length-append,
  append_assoc os ((t, length body) ∷ []),
  append_assoc body (list_bytes docs) (body_bytes m),
)

-- The entries of the dictionary as bytes.
unfoldable pub dictionary_bytes : List (Text × ℕ) → Bytes
dictionary_bytes [] = []
dictionary_bytes ((t, o) ∷ m) = to_le 4 (length t) ++ (t ++ (to_le 8 o ++ dictionary_bytes m))

abbrev IsEntry : Text × ℕ → Type 0
IsEntry f = (is_utf8 f.0 ≡ true) × (length f.0 < 2 ^ 32) × (f.1 < 2 ^ 64)

pub dictionary_loop-eq :
    (os : List (Text × ℕ)) → All IsEntry os → dictionary_loop os ≡ ok (dictionary_bytes os)
unfolding dictionary_loop dictionary_bytes
dictionary_loop-eq [] h = refl
dictionary_loop-eq ((t, o) ∷ m) h =
    let room : ltb u32_max (length t) ≡ false = (let fits = h.0.1 in ground arith) in
    rw (dictionary_loop-eq m h.1, room)

pub offsets-IsEntry :
    (n k : ℕ) (m : InvertedIndex)
    → All (λ f. (is_utf8 f.0 ≡ true) × (length f.0 < 2 ^ 32)) m
    → n + length (body_bytes m) ≤ k
    → k < 2 ^ 64
    → All IsEntry (offsets n m)
unfolding offsets body_bytes
offsets-IsEntry n k [] h l r = tt
offsets-IsEntry n k ((t, docs) ∷ m) h l r =
    let split = length-append (list_bytes docs) (body_bytes m) in
    (
      (h.0.0, h.0.1, omega (arith, split)),
      offsets-IsEntry (n + length (list_bytes docs)) k m h.1 (omega (arith, split)) r,
    )

offsets-Above : (b : Text) (n : ℕ) (m : InvertedIndex) → Above b m → Above b (offsets n m)
unfolding offsets
offsets-Above b n [] a = tt
offsets-Above b n ((t, docs) ∷ m) a = (a.0, offsets-Above b (n + length (list_bytes docs)) m a.1)

pub offsets-IsSorted : (n : ℕ) (m : InvertedIndex) → IsSorted m → IsSorted (offsets n m)
unfolding offsets
offsets-IsSorted n [] s = tt
offsets-IsSorted n ((t, docs) ∷ m) s =
    let k = n + length (list_bytes docs) in (offsets-Above t k m s.0, offsets-IsSorted k m s.1)

pub length-offsets : (n : ℕ) (m : InvertedIndex) → length (offsets n m) ≡ length m
unfolding offsets
length-offsets n [] = refl
length-offsets n ((t, docs) ∷ m) = ap suc (length-offsets (n + length (list_bytes docs)) m)

read_terms_round :
    (n : ℕ) (bs behind tail rest term : Bytes) (len offset : ℕ) (dict : BTreeMap Text ℕ)
    → from_le (take 4 bs) ≡ len
    → drop 4 bs ≡ behind
    → take len behind ≡ term
    → drop len behind ≡ tail
    → from_le (take 8 tail) ≡ offset
    → drop 8 tail ≡ rest
    → 4 ≤ length bs
    → len ≤ length behind
    → is_utf8 term ≡ true
    → 8 ≤ length tail
    → read_terms (suc n) bs dict ≡ read_terms n rest (insert term offset dict)
unfolding read_terms
read_terms_round n bs behind tail rest term len offset dict l b t d o r h k u w =
    rw (l, b, t, d, o, r, u) (ground arith)

pub read_terms-dictionary :
    (os dict : List (Text × ℕ)) (body : Bytes)
    → All IsEntry os
    → IsSorted (dict ++ os)
    → read_terms (length os) (dictionary_bytes os ++ body) dict
      ≡ parsed (record { term_dict = dict ++ os; body_data = body })
read_terms-dictionary [] dict body h s = unfold read_terms dictionary_bytes in rw append-nil refl
read_terms-dictionary ((t, o) ∷ m) dict body h s =
    rw (image, round, insert_last dict t o m s)
      (rw (append_assoc dict ((t, o) ∷ []) m) at
        (read_terms-dictionary m (dict ++ ((t, o) ∷ [])) body h.1 (rw append_assoc s)))
  where
    tail : Bytes
    tail = to_le 8 o ++ (dictionary_bytes m ++ body)

    image : dictionary_bytes ((t, o) ∷ m) ++ body ≡ to_le 4 (length t) ++ (t ++ tail)
    image = unfold dictionary_bytes in simp append_assoc

    round :
        read_terms (suc (length m)) (to_le 4 (length t) ++ (t ++ tail)) dict
        ≡ read_terms (length m) (dictionary_bytes m ++ body) (insert t o dict)
    round =
        read_terms_round (length m) (to_le 4 (length t) ++ (t ++ tail)) (t ++ tail) tail
          (dictionary_bytes m ++ body) t (length t) o dict (take_u32 (length t) (t ++ tail) h.0.1)
          (drop-to_le 4 (length t) (t ++ tail)) (take_front t tail) (drop_front t tail)
          (take_u64 o (dictionary_bytes m ++ body) h.0.2)
          (drop-to_le 8 o (dictionary_bytes m ++ body))
          (omega (arith, length-append (to_le 4 (length t)) (t ++ tail), length-to_le 4 (length t)))
          (omega (arith, length-append t tail)) h.0.0
          (omega (arith, length-append (to_le 8 o) (dictionary_bytes m ++ body), length-to_le 8 o))
