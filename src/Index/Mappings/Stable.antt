-- ===== src/Index/Mappings/Stable.antt =====
-- Validating a document never changes the type of a field, nor lets the mappings grow past the limit.
use mathlib.Core.Path.{subst}
use cloud_search.Prelude.{
  suc, ◌+◌, ◌≤◌, ◌≡◌, refl, ◌∙◌, inl, inr, Option, none, some, List, [], ◌∷◌, arith, length, ltb,
  Bool-cases, Option-cases, All,
}
use cloud_search.Prelude.Order.{text_ord}
use cloud_search.BTreeMap.{BTreeMap, get, insert}
use cloud_search.BTreeMap.Lookup.{get-insert, update_ne}
use cloud_search.Bytes.{Text}
use cloud_search.Json.{Value, as_object, entries}
use cloud_search.Common.{
  Result, ok, FieldType, FieldType-discrete, MappingMode, IndexMetadata, strict, controlled_dynamic,
}
use cloud_search.Index.{Env}
use cloud_search.Index.Runs.{Result-cases}
use cloud_search.Index.Mappings.{
  max_fields_per_index, infer_field_type, matching, unmapped, check_field, collect_mappings,
  insert_mappings, validated,
}

-- None of the fields is mapped yet.
abbrev AreNew : BTreeMap Text FieldType → List (Text × FieldType) → Type 0
AreNew m new = All (λ n. get n.0 m ≡ none) new

module _ (m : BTreeMap Text FieldType) (f : Text) (rest : Result (List (Text × FieldType)))
    (ih : (r : List (Text × FieldType)) → rest ≡ ok r → AreNew m r) where
  matching-AreNew :
      {u t : FieldType} (d : Dec (u ≡ t)) (new : List (Text × FieldType))
      → matching d rest ≡ ok new
      → AreNew m new
  unfolding matching
  matching-AreNew (yes e) new h = ih new h
  matching-AreNew (no n) new h = cc

  unmapped-AreNew :
      (mode : MappingMode) (t : FieldType) (new : List (Text × FieldType))
      → get f m ≡ none
      → unmapped mode f t rest ≡ ok new
      → AreNew m new
  unfolding unmapped
  unmapped-AreNew strict t new g h = cc
  unmapped-AreNew controlled_dynamic t new g h = elim (Result-cases rest) [
    | inl (r, e) ↦ let same : (f, t) ∷ r ≡ new = cc (rw e at h) in subst (AreNew m) same (g, ih r e)
    | inr (inl (x, e)) ↦ cc (rw e at h)
    | inr (inr e) ↦ cc (rw e at h)
  ]

  check_field-AreNew :
      (mode : MappingMode) (inferred existing : Option FieldType) (new : List (Text × FieldType))
      → get f m ≡ existing
      → check_field mode f inferred existing rest ≡ ok new
      → AreNew m new
  unfolding check_field
  check_field-AreNew mode none existing new g h = ih new h
  check_field-AreNew mode (some t) (some u) new g h = matching-AreNew (FieldType-discrete u t) new h
  check_field-AreNew mode (some t) none new g h = unmapped-AreNew mode t new g h

collect_mappings-AreNew :
    (env : Env) (md : IndexMetadata) (fs : List (Text × Value)) (new : List (Text × FieldType))
    → collect_mappings env md fs ≡ ok new
    → AreNew md.mappings new
unfolding collect_mappings
collect_mappings-AreNew env md [] [] h = tt
collect_mappings-AreNew env md [] (n ∷ new) h = cc
collect_mappings-AreNew env md ((f, v) ∷ fs) new h =
    elim (Result-cases (infer_field_type env f v)) [
      | inr (inl (x, e)) ↦ cc (rw (collect_mappings, e) at h)
      | inr (inr e) ↦ cc (rw (collect_mappings, e) at h)
      | inl (inferred, e) ↦
          check_field-AreNew md.mappings f (collect_mappings env md fs)
            (collect_mappings-AreNew env md fs) md.settings.mapping_mode inferred
            (get f md.mappings) new refl (rw (collect_mappings, e) at h)
    ]

insert_mappings-get :
    (m n : BTreeMap Text FieldType) (new : List (Text × FieldType)) (f : Text) (t : FieldType)
    → AreNew m new
    → get f m ≡ some t
    → get f n ≡ some t
    → get f (insert_mappings new n) ≡ some t
unfolding insert_mappings
insert_mappings-get m n [] f t a g h = h
insert_mappings-get m n ((k, u) ∷ new) f t a g h =
    insert_mappings-get m (insert k u n) new f t a.1 g
      (get-insert k u n f ∙ update_ne k (some u) (λ q. get q n) f (λ e. cc (a.0, g, e)) ∙ h)

length-insert :
    (k : Text) (u : FieldType) (n : BTreeMap Text FieldType)
    → length (insert k u n) ≤ suc (length n)
unfolding insert
length-insert k u [] = omega arith
length-insert k u ((j, w) ∷ n) = ground (arith, length-insert k u n)

length-insert_mappings :
    (new : List (Text × FieldType)) (n : BTreeMap Text FieldType)
    → length (insert_mappings new n) ≤ length n + length new
unfolding insert_mappings
length-insert_mappings [] n = omega arith
length-insert_mappings ((k, u) ∷ new) n =
    omega (arith, length-insert_mappings new (insert k u n), length-insert k u n)

abbrev IsStable : BTreeMap Text FieldType → BTreeMap Text FieldType → Type 0
IsStable n m =
    ((f : Text) (t : FieldType) → get f n ≡ some t → get f m ≡ some t)
    × (length m ≤ max_fields_per_index)

insert_mappings-IsStable :
    (n m : BTreeMap Text FieldType) (new : List (Text × FieldType))
    → AreNew n new
    → length n + length new ≤ max_fields_per_index
    → insert_mappings new n ≡ m
    → IsStable n m
insert_mappings-IsStable n m new a l e = (
  λ f t g. rw (← e) (insert_mappings-get n n new f t a g g),
  rw (← e) (omega (arith, length-insert_mappings new n)),
)

-- Where a document brings new mappings, every field that was mapped keeps its type, and the
-- mappings are at most as many as the limit allows.
pub validated-stable :
    (env : Env) (md : IndexMetadata) (source : Value) (m : BTreeMap Text FieldType)
    → validated env md source ≡ ok (some m)
    → ((f : Text) (t : FieldType) → get f md.mappings ≡ some t → get f m ≡ some t)
      × (length m ≤ max_fields_per_index)
unfolding validated
validated-stable env md source m h = elim (Option-cases (as_object source)) [
  | inl e ↦ cc (rw (validated, e) at h)
  | inr (obj, e) ↦ elim (Result-cases (collect_mappings env md (entries obj))) [
    | inr (inl (x, g)) ↦ cc (rw (validated, e, g) at h)
    | inr (inr g) ↦ cc (rw (validated, e, g) at h)
    | inl (new, g) ↦
        elim (Bool-cases (ltb max_fields_per_index (length md.mappings + length new))) [
          | inl over ↦ cc (rw (validated, e, g, over) at h)
          | inr room ↦
              changed new (collect_mappings-AreNew env md (entries obj) new g) (ground arith)
                (rw (validated, e, g, room) at h)
        ]
  ]
]
  where
    changed :
        (new : List (Text × FieldType))
        → AreNew md.mappings new
        → length md.mappings + length new ≤ max_fields_per_index
        → ◌≡◌ {A = Result (Option (BTreeMap Text FieldType))}
            (ok (elim new [ [] ↦ none | (n ∷ ns) ↦ some (insert_mappings (n ∷ ns) md.mappings) ]))
            (ok (some m))
        → IsStable md.mappings m
    changed [] a l q = cc
    changed (n ∷ ns) a l q = insert_mappings-IsStable md.mappings m (n ∷ ns) a l (cc)
