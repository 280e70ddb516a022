-- ===== src/Query/Bm25.antt =====
-- crates/cloudsearch-index/src/lib.rs: `Bm25Context` and what the scoring functions share. The
-- arithmetic of `f32` is a parameter.
use Prim.Native.Nat.{Ordering}
use Prim.Native.Nat.Ordering.{eq}
use cloud_search.Prelude.{
  ℕ, suc, ◌+◌, ◌%◌, ◌^◌, Bool, true, false, Option, none, some, List, [], ◌∷◌, get_elem?, ltb, ◌==◌,
  if◌then◌else◌,
}
use cloud_search.Prelude.Order.{text_ord}
use cloud_search.BTreeMap.{BTreeMap, get}
use cloud_search.Bytes.{Text}
use cloud_search.Json.{Number}
use cloud_search.Positions.{PositionsReader, PostingList, get_postings}

-- What scoring calls of other code: the operations of `f32` and `f64` on bit patterns, with `of_nat`
-- for `as f32` and `f64_of` for `as_f64`, `str::to_lowercase`, `binary_search_by` for a doc id,
-- `Regex::new` with `is_match`, `regex::escape` of a character, and chrono's instants.
pub record QueryEnv : Type 0 where
  pub add : ℕ → ℕ → ℕ
  pub sub : ℕ → ℕ → ℕ
  pub mul : ℕ → ℕ → ℕ
  pub div : ℕ → ℕ → ℕ
  pub max_f32 : ℕ → ℕ → ℕ
  pub ln : ℕ → ℕ
  pub of_nat : ℕ → ℕ
  pub sum : List ℕ → ℕ
  pub partial_cmp : ℕ → ℕ → Option Ordering
  pub f64_partial_cmp : ℕ → ℕ → Option Ordering
  pub f64_of : Number → ℕ
  pub to_lowercase : Text → Text
  pub binary_search_by_doc_id : PostingList → ℕ → Option ℕ
  pub regex_new : Text → Option (Text → Bool)
  pub regex_escape : Text → Text
  pub parse_from_rfc3339 : Text → Option ℕ

abbrev pub f32_zero : ℕ
f32_zero = 0

abbrev pub f32_tenth : ℕ
f32_tenth = 0x3DCCCCCD

abbrev pub f32_half : ℕ
f32_half = 0x3F000000

abbrev pub f32_one : ℕ
f32_one = 0x3F800000

pub record Bm25Context : Type 0 where
  pub idf_map : BTreeMap Text ℕ
  pub avg_field_lens : BTreeMap Text ℕ
  pub k1 : ℕ
  pub b : ℕ

-- `unwrap_or`.
abbrev pub unwrap_or {ℓ} : {A : Type ℓ} → A → Option A → A
unwrap_or a none = a
unwrap_or a (some x) = x

unfoldable pub get_avg_field_len : Bm25Context → Text → ℕ
get_avg_field_len ctx name = unwrap_or f32_one (get name ctx.avg_field_lens)

unfoldable pub bm25_term_score : QueryEnv → Bm25Context → ℕ → ℕ → ℕ → Text → ℕ
bm25_term_score env ctx tf doc_len idf name =
    let t = env.of_nat tf in
    let avg_len = get_avg_field_len ctx name in
    let numerator = env.mul t (env.add ctx.k1 f32_one) in
    let share = env.div (env.mul ctx.b (env.of_nat doc_len)) (env.max_f32 avg_len f32_one) in
    let denominator = env.add t (env.mul ctx.k1 (env.add (env.sub f32_one ctx.b) share)) in
    env.div (env.mul idf numerator) denominator

unfoldable pub bm25_idf : QueryEnv → ℕ → ℕ → ℕ
bm25_idf env df n_docs =
    let n = env.of_nat n_docs in
    let d = env.of_nat df in
    let ratio = env.div (env.add (env.sub n d) f32_half) (env.add d f32_half) in
    if df == 0 then f32_one else env.max_f32 (env.ln ratio) f32_zero

-- The idf of a term, 1.0 for one that has none.
unfoldable pub idf_of : Bm25Context → Text → ℕ
idf_of ctx token = unwrap_or f32_one (get token ctx.idf_map)

-- The frequency that a reader's postings give for the document.
unfoldable pub posting_freq : QueryEnv → PostingList → ℕ → ℕ
posting_freq env docs doc_id = elim (env.binary_search_by_doc_id docs doc_id) [
  | none ↦ 0
  | some i ↦ elim (get_elem? docs i) [ none ↦ 0 | some p ↦ p.term_freq ]
]

-- The loop over the segments' readers. `tf` is a `u32`.
unfoldable pub postings_tf : QueryEnv → List PositionsReader → Text → ℕ → ℕ → ℕ
postings_tf env [] token doc_id tf = tf
postings_tf env (r ∷ rs) token doc_id tf = elim (get_postings token r) [
  | none ↦ postings_tf env rs token doc_id tf
  | some docs ↦ postings_tf env rs token doc_id ((tf + posting_freq env docs doc_id) % 2 ^ 32)
]

abbrev pub same_token : Text → Text → Bool
same_token s t = elim (text_ord.cmp s t) [ eq ↦ true | _ ↦ false ]

unfoldable pub count_token : Text → List Text → ℕ
count_token token [] = 0
count_token token (t ∷ ts) =
    let rest = count_token token ts in if same_token t token then suc rest else rest

-- `u32::try_from(n).unwrap_or(0)`.
unfoldable pub u32_or_zero : ℕ → ℕ
u32_or_zero n = if ltb n (2 ^ 32) then n else 0

unfoldable pub contains_token : Text → List Text → Bool
contains_token token [] = false
contains_token token (t ∷ ts) =
    let rest = contains_token token ts in if same_token t token then true else rest
