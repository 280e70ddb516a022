-- ===== src/Query/Validate/Fits.antt =====
-- `validate_query`: which queries are accepted.
use cloud_search.Prelude.{
  ℕ, ◌≡◌, ◌≢◌, ◌⊎◌, refl, sym, ap, ◌∙◌, inl, inr, Bool, true, none, some, List, [], ◌∷◌, All,
  Option-cases, Bool-cases,
}
use mathlib.Core.Path.{subst}
use cloud_search.Prelude.Order.{text_ord}
use cloud_search.BTreeMap.{BTreeMap, get, keys}
use cloud_search.Bytes.{Text}
use cloud_search.Json.{Value}
use cloud_search.Common.{Result, ok, err, ◌>>◌, FieldType, invalid_search_request}
use cloud_search.Query.{
  SearchQuery, Queries, match_all, term_query, terms_query, range_query, bool_query, prefix_query,
  wildcard_query, match_query, phrase_query, multi_match_query, mlt_query, nil, cons, MltQuery,
}
use cloud_search.Query.Validate.{
  Mappings, refuse_unless, if_mapped, is_scalar, is_text, is_range, ensure_scalar_field,
  ensure_text_field, ensure_range_field, ensure_text_fields, validate_fields, validate_mlt,
  validate_query, validate_queries,
}

-- The field is not mapped, or to a type that passes the test.
abbrev pub FieldFits : (FieldType → Bool) → Mappings → Text → Type 0
FieldFits test ms name = (t : FieldType) → get name ms ≡ some t → test t ≡ true

-- One of the two is given, and not both.
abbrev pub HasOneSource : MltQuery → Type 0
HasOneSource q =
    ((q.doc_id ≡ none) × ((v : Value) × (q.like ≡ some v)))
    ⊎ ((q.like ≡ none) × ((id : Text) × (q.doc_id ≡ some id)))

-- Each clause has a field that it can work on.
unfoldable mutual
  pub Fits : Mappings → SearchQuery → Type 0
  Fits ms match_all = Unit
  Fits ms (term_query q) = FieldFits is_scalar ms q.field
  Fits ms (terms_query q) = FieldFits is_scalar ms q.field
  Fits ms (range_query q) = FieldFits is_range ms q.field
  Fits ms (bool_query must should filter must_not minimum) =
      FitsAll ms must × (FitsAll ms should × (FitsAll ms filter × FitsAll ms must_not))
  Fits ms (prefix_query q) = FieldFits is_scalar ms q.field
  Fits ms (wildcard_query q) = FieldFits is_scalar ms q.field
  Fits ms (match_query q) = FieldFits is_text ms q.field
  Fits ms (phrase_query q) = FieldFits is_text ms q.field
  Fits ms (multi_match_query q) = (q.fields ≢ []) × All (FieldFits is_text ms) (keys q.fields)
  Fits ms (mlt_query q) = HasOneSource q × All (FieldFits is_text ms) q.fields

  pub FitsAll : Mappings → Queries → Type 0
  FitsAll ms nil = Unit
  FitsAll ms (cons q qs) = Fits ms q × FitsAll ms qs

-- A check that passes just where something holds.
pub data Judges (P : Type 0) : Result (Unit {0}) → Type 0 where
  accepts : P → Judges P (ok tt)
  refuses : ¬ P → Judges P (err invalid_search_request)

Judges-then :
    {P Q : Type 0} {r s : Result (Unit {0})} → Judges P r → Judges Q s → Judges (P × Q) (r >> s)
Judges-then (accepts p) (accepts q) = accepts (p, q)
Judges-then (accepts p) (refuses n) = refuses (λ h. n (h.1))
Judges-then (refuses n) j = refuses (λ h. n (h.0))

Judges-as : {P Q : Type 0} {r : Result (Unit {0})} → (P → Q) → (Q → P) → Judges P r → Judges Q r
Judges-as f g (accepts p) = accepts (f p)
Judges-as f g (refuses n) = refuses (λ q. n (g q))

Judges-at : {P : Type 0} {r s : Result (Unit {0})} → r ≡ s → Judges P s → Judges P r
Judges-at {P} e j = subst (Judges P) (sym e) j

if_mapped-FieldFits :
    (test : FieldType → Bool) (ms : Mappings) (name : Text)
    → Judges (FieldFits test ms name) (if_mapped test (get name ms))
if_mapped-FieldFits test ms name = elim (Option-cases (get name ms)) [
  | inl e ↦ Judges-at (ap (if_mapped test) e) (accepts (λ t f. cc))
  | inr (u, e) ↦ elim (Bool-cases (test u)) [
    | inl h ↦
        Judges-at (ap (if_mapped test) e ∙ ap refuse_unless h)
          (accepts (λ t f. let same : u ≡ t = cc in rw (← same) h))
    | inr h ↦
        Judges-at (ap (if_mapped test) e ∙ ap refuse_unless h)
          (refuses (λ k. let passed = k u e in cc))
  ]
]

text_fields-Fit :
    (ms : Mappings) (names : List Text)
    → Judges (All (FieldFits is_text ms) names) (ensure_text_fields ms names)
unfolding ensure_text_fields ensure_text_field
text_fields-Fit ms [] = accepts tt
text_fields-Fit ms (name ∷ names) =
    Judges-then (if_mapped-FieldFits is_text ms name) (text_fields-Fit ms names)

fields-Fit :
    (ms : Mappings) (fs : BTreeMap Text ℕ)
    → Judges ((fs ≢ []) × All (FieldFits is_text ms) (keys fs)) (validate_fields ms fs)
unfolding validate_fields
fields-Fit ms [] = refuses (λ h. h.0 refl)
fields-Fit ms ((name, w) ∷ fs) =
    Judges-as (λ a. ((λ e. cc), a)) (λ h. h.1) (text_fields-Fit ms (keys ((name, w) ∷ fs)))

neither : (q : MltQuery) → HasOneSource q → q.doc_id ≡ none → q.like ≡ none → ⊥
neither q (inl (d, (v, l))) a b = cc
neither q (inr (l, (id, d))) a b = cc

both :
    (q : MltQuery) (id : Text) (v : Value)
    → HasOneSource q
    → q.doc_id ≡ some id
    → q.like ≡ some v
    → ⊥
both q id v (inl (d, x)) a b = cc
both q id v (inr (l, x)) a b = cc

mlt-Fits :
    (ms : Mappings) (q : MltQuery)
    → Judges (HasOneSource q × All (FieldFits is_text ms) q.fields) (validate_mlt ms q)
unfolding validate_mlt
mlt-Fits ms q = elim (Option-cases q.doc_id) [
  | inl d ↦ elim (Option-cases q.like) [
    | inl l ↦ Judges-at (rw (validate_mlt, d, l) refl) (refuses (λ h. neither q h.0 d l))
    | inr (v, l) ↦
        Judges-at (rw (validate_mlt, d, l) refl)
          (Judges-as (λ a. (inl (d, (v, l)), a)) (λ h. h.1) (text_fields-Fit ms q.fields))
  ]
  | inr (id, d) ↦ elim (Option-cases q.like) [
    | inl l ↦
        Judges-at (rw (validate_mlt, d, l) refl)
          (Judges-as (λ a. (inr (l, (id, d)), a)) (λ h. h.1) (text_fields-Fit ms q.fields))
    | inr (v, l) ↦ Judges-at (rw (validate_mlt, d, l) refl) (refuses (λ h. both q id v h.0 d l))
  ]
]

mutual
  unfolding validate_query validate_queries Fits FitsAll ensure_scalar_field ensure_text_field
      ensure_range_field

  query-Fits : (ms : Mappings) (q : SearchQuery) → Judges (Fits ms q) (validate_query ms q)
  query-Fits ms match_all = accepts tt
  query-Fits ms (term_query q) = if_mapped-FieldFits is_scalar ms q.field
  query-Fits ms (terms_query q) = if_mapped-FieldFits is_scalar ms q.field
  query-Fits ms (range_query q) = if_mapped-FieldFits is_range ms q.field
  query-Fits ms (bool_query must should filter must_not minimum) =
      Judges-then (queries-Fit ms must) (
        Judges-then (queries-Fit ms should)
          (Judges-then (queries-Fit ms filter) (queries-Fit ms must_not)))
  query-Fits ms (prefix_query q) = if_mapped-FieldFits is_scalar ms q.field
  query-Fits ms (wildcard_query q) = if_mapped-FieldFits is_scalar ms q.field
  query-Fits ms (match_query q) = if_mapped-FieldFits is_text ms q.field
  query-Fits ms (phrase_query q) = if_mapped-FieldFits is_text ms q.field
  query-Fits ms (multi_match_query q) = fields-Fit ms q.fields
  query-Fits ms (mlt_query q) = mlt-Fits ms q

  queries-Fit : (ms : Mappings) (qs : Queries) → Judges (FitsAll ms qs) (validate_queries ms qs)
  queries-Fit ms nil = accepts tt
  queries-Fit ms (cons q qs) = Judges-then (query-Fits ms q) (queries-Fit ms qs)

-- `validate_query` accepts a query just where each clause in it, however deep, has fields that are
-- not mapped or mapped to a type that the clause can work on, each multi_match names a field, and
-- each mlt has one source; and else it fails with an invalid search request.
pub validate_query-Judges :
    (ms : Mappings) (q : SearchQuery) → Judges (Fits ms q) (validate_query ms q)
validate_query-Judges ms q = query-Fits ms q
