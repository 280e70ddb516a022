-- ===== src/Wal/Scan.antt =====
-- The loop of `replay_from` over one file: a whole record, a run of records, a torn record.
use Prim.Native.Nat.add
use native.Mathlib.Nat.{zero-add}
use native.Mathlib.Decide.{dec_lt}
use cloud_search.Prelude.{
  ℕ, zero, suc, ◌+◌, ◌-◌, ◌^◌, ◌<◌, ◌≤◌, ◌≡◌, refl, sym, ap, ◌∙◌, Bool, true, some, List, [], ◌∷◌,
  ◌++◌, append_assoc, arith, length, take, drop, length-append, length-take, take_front, drop_front,
  ltb, if◌then◌else◌, All,
}
use cloud_search.Bytes.{Bytes, to_le, from_le, slice}
use cloud_search.Bytes.RoundTrip.{from_le_u32, from_le_u64}
use cloud_search.Common.{ok, err, ◌>>=◌, invalid_wal_record}
use cloud_search.Wal.Records.{Codec, index_document, delete_document, mapping_update, WalRecord}
use cloud_search.Wal.{WalEntry, header, scan, record_type, decode_record, header_len}
use cloud_search.Wal.Spec.{IsStorable, encode, encode_all, after}

drop_nil {ℓ} : {A : Type ℓ} (k : ℕ) → drop {A = A} k [] ≡ []
drop_nil zero = refl
drop_nil (suc k) = refl

pub drop_add {ℓ} : {A : Type ℓ} (m n : ℕ) (xs : List A) → drop (m + n) xs ≡ drop n (drop m xs)
drop_add zero n xs = rw zero-add
drop_add (suc m) n [] = rw add.suc (sym (drop_nil n))
drop_add (suc m) n (x ∷ xs) = rw add.suc (drop_add m n xs)

take_beyond {ℓ} :
    {A : Type ℓ} (m k : ℕ) (xs ys : List A)
    → length xs ≡ m
    → take (m + k) (xs ++ ys) ≡ xs ++ take k ys
take_beyond zero k [] ys h = rw zero-add
take_beyond zero k (x ∷ xs) ys h = absurd (omega arith)
take_beyond (suc m) k [] ys h = absurd (omega arith)
take_beyond (suc m) k (x ∷ xs) ys h =
    rw add.suc (ap (λ t. x ∷ t) (take_beyond m k xs ys (omega arith)))

module _ (c : Codec) (e : WalEntry) (p rest : Bytes) where
  abbrev image : Bytes
  image = header c e p ++ (p ++ rest)

  pub header_version : from_le (slice 0 1 image) ≡ 1
  unfolding header from_le
  header_version = refl

  pub header_type : from_le (slice 1 1 image) ≡ record_type e.wal_record
  unfolding header from_le
  header_type = omega arith

  pub header_payload_len : length p < 2 ^ 32 → from_le (slice 2 4 image) ≡ length p
  unfolding header to_le
  header_payload_len h = from_le_u32 (length p) h

  pub header_sequence : e.sequence_number < 2 ^ 64 → from_le (slice 6 8 image) ≡ e.sequence_number
  unfolding header to_le
  header_sequence h = from_le_u64 e.sequence_number h

  pub header_time :
      e.recorded_at_unix_ms < 2 ^ 64 → from_le (slice 14 8 image) ≡ e.recorded_at_unix_ms
  unfolding header to_le
  header_time h = from_le_u64 e.recorded_at_unix_ms h

  pub header_checksum : from_le (slice 22 4 image) ≡ c.crc32c p
  unfolding header to_le
  header_checksum = from_le_u32 (c.crc32c p) (c.crc32c-lt p)

  pub image_payload : slice header_len (length p) image ≡ p
  unfolding header to_le
  image_payload = take_front p rest

  pub image_rest : drop (header_len + length p) image ≡ rest
  image_rest = drop_add header_len (length p) image ∙ after_header
    where
      after_header : drop (length p) (drop header_len image) ≡ rest
      after_header = unfold header to_le in drop_front p rest

  pub length-image : length image ≡ 26 + length p + length rest
  unfolding header to_le
  length-image = omega (arith, length-append p rest)

record_type_bounds : (r : WalRecord) → (1 ≤ record_type r) × (record_type r ≤ 3)
unfolding record_type
record_type_bounds (index_document d) = omega arith
record_type_bounds (delete_document id) = omega arith
record_type_bounds (mapping_update v s) = omega arith

module _ (c : Codec) where
  decode_written :
      (r : WalRecord) (p : Bytes) → c.to_vec r ≡ some p → decode_record c (record_type r) p ≡ ok r
  unfolding decode_record
  decode_written r p h = ground (arith, record_type_bounds r, c.from_slice-to_vec r p h)

  -- One whole record is read, whatever follows it.
  scan_round :
      (active : Bool) (x fuel : ℕ) (e : WalEntry) (rest : Bytes) (s : IsStorable c e)
      → scan c active x (suc fuel) (header c e s.payload ++ (s.payload ++ rest))
        ≡ (do es ← scan c active x fuel rest; ok (if ltb x e.sequence_number then e ∷ es else es))
  unfolding scan
  scan_round active x fuel e rest s =
      let p = s.payload in
      ground (
        arith,
        header_version c e p rest,
        header_type c e p rest,
        header_payload_len c e p rest s.payload_fits,
        header_sequence c e p rest s.sequence_fits,
        header_time c e p rest s.time_fits,
        header_checksum c e p rest,
        image_payload c e p rest,
        image_rest c e p rest,
        length-image c e p rest,
        decode_written e.wal_record p s.stored,
      )

  pub encode-eq :
      (e : WalEntry) (s : IsStorable c e) → encode c e ≡ header c e s.payload ++ s.payload
  unfolding encode
  encode-eq e s = rw (s.stored, encode)

  length-header : (e : WalEntry) (p : Bytes) → length (header c e p) ≡ 26
  unfolding header to_le
  length-header e p = refl

  pub length-encode :
      (e : WalEntry) (s : IsStorable c e) → length (encode c e) ≡ 26 + length s.payload
  length-encode e s =
      rw (encode-eq e s)
        (omega (arith, length-header e s.payload, length-append (header c e s.payload) s.payload))

  scan-encode :
      (active : Bool) (x fuel : ℕ) (e : WalEntry) (rest : Bytes)
      → IsStorable c e
      → scan c active x (suc fuel) (encode c e ++ rest)
        ≡ (do es ← scan c active x fuel rest; ok (if ltb x e.sequence_number then e ∷ es else es))
  scan-encode active x fuel e rest s =
      rw (encode-eq e s, append_assoc) (scan_round active x fuel e rest s)

  -- A run of whole records is read, where what is behind them reads as nothing.
  pub scan-encode_all :
      (active : Bool) (x fuel : ℕ) (es : List WalEntry) (tail : Bytes)
      → All (IsStorable c) es
      → length es ≤ fuel
      → ((f : ℕ) → scan c active x f tail ≡ ok [])
      → scan c active x fuel (encode_all c es ++ tail) ≡ ok (after x es)
  unfolding encode_all after
  scan-encode_all active x fuel [] tail s h k = k fuel
  scan-encode_all active x zero (e ∷ es) tail s h k = absurd (omega arith)
  scan-encode_all active x (suc fuel) (e ∷ es) tail s h k = rw (
    append_assoc,
    scan-encode active x fuel e (encode_all c es ++ tail) s.0,
    scan-encode_all active x fuel es tail s.1 (omega arith) k,
  )

  pub length-encode_all :
      (es : List WalEntry) → All (IsStorable c) es → length es ≤ length (encode_all c es)
  unfolding encode_all
  length-encode_all [] s = omega arith
  length-encode_all (e ∷ es) s =
      rw length-append (omega (arith, length-encode e s.0, length-encode_all es s.1))

  pub scan-nil : (active : Bool) (x f : ℕ) → scan c active x f [] ≡ ok []
  unfolding scan
  scan-nil active x zero = refl
  scan-nil active x (suc f) = refl

  scan_short :
      (active : Bool) (x f : ℕ) (bs : Bytes) → length bs < 26 → scan c active x f bs ≡ ok []
  unfolding scan
  scan_short active x zero bs h = refl
  scan_short active x (suc f) bs h = ground arith

  -- A record whose payload is cut off: the active generation passes over it, any other is refused.
  scan_cut_payload :
      (active : Bool) (x f : ℕ) (e : WalEntry) (s : IsStorable c e) (front : Bytes)
      → length front < length s.payload
      → from_le (slice 0 1 (header c e s.payload ++ front)) ≡ 1
      → from_le (slice 2 4 (header c e s.payload ++ front)) ≡ length s.payload
      → length (header c e s.payload ++ front) ≡ 26 + length front
      → scan c active x (suc f) (header c e s.payload ++ front)
        ≡ (if active then ok [] else err invalid_wal_record)
  unfolding scan
  scan_cut_payload active x f e s front h v l n = ground arith

  header_cut :
      (e : WalEntry) (s : IsStorable c e) (front : Bytes)
      → (from_le (slice 0 1 (header c e s.payload ++ front)) ≡ 1)
        × (from_le (slice 2 4 (header c e s.payload ++ front)) ≡ length s.payload)
        × (length (header c e s.payload ++ front) ≡ 26 + length front)
  header_cut e s front =
      (unfold header from_le in refl, fits s.payload_fits, unfold header to_le in omega arith)
    where
      fits :
          length s.payload < 2 ^ 32
          → from_le (slice 2 4 (header c e s.payload ++ front)) ≡ length s.payload
      fits h = unfold header to_le in from_le_u32 (length s.payload) h

  -- What a crash may leave of a record at the end of a file: its first bytes, not all of them.
  pub scan_torn_payload :
      (active : Bool) (x f : ℕ) (e : WalEntry) (s : IsStorable c e) (front : Bytes)
      → length front < length s.payload
      → scan c active x (suc f) (header c e s.payload ++ front)
        ≡ (if active then ok [] else err invalid_wal_record)
  scan_torn_payload active x f e s front h =
      let (v, l, n) = header_cut e s front in scan_cut_payload active x f e s front h v l n

  pub scan-torn :
      (x f n : ℕ) (e : WalEntry) (s : IsStorable c e)
      → n < length (encode c e)
      → scan c true x f (take n (encode c e)) ≡ ok []
  scan-torn x zero n e s h = unfold scan in refl
  scan-torn x (suc f) n e s h =
      let cut : n < 26 + length s.payload = omega (arith, length-encode e s) in
      elim (dec_lt n 26) [
        | yes short ↦
            scan_short true x (suc f) (take n (encode c e))
              (omega (arith, length-take n (encode c e)))
        | no long ↦
            let k = n - 26 in
            rw
              (
                encode-eq e s,
                at_least n long,
                take_beyond 26 k _ s.payload (length-header e s.payload),
              )
              (scan_torn_payload true x f e s (take k s.payload)
                (omega (arith, length-take k s.payload)))
      ]
    where
      at_least : (n : ℕ) → ¬ (n < 26) → n ≡ 26 + (n - 26)
      at_least n h = omega arith
