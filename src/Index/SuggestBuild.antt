-- ===== src/Index/SuggestBuild.antt =====
-- `build_suggest_index`: the terms of the text fields with the number of documents that have them.
use cloud_search.Prelude.{
  ℕ, ◌%◌, ◌^◌, max, Bool, true, false, none, some, List, [], ◌∷◌, map, length,
}
use cloud_search.Prelude.Order.{text_ord}
use cloud_search.BTreeMap.{BTreeMap, get, insert, upsert, keys}
use cloud_search.Bytes.{Text}
use cloud_search.Json.{Value, as_object, as_str, entries}
use cloud_search.Common.{IndexDocument, FieldType}
use cloud_search.Sort.{sort_by}
use cloud_search.Suggest.{SuggestEntry, SuggestIndex}
use cloud_search.Index.{Env}
use cloud_search.Index.Tokens.{tokenize}

-- A `BTreeSet` of texts.
abbrev pub TextSet : Type 0
TextSet = BTreeMap Text (Unit {0})

abbrev pub FieldTerms : Type 0
FieldTerms = BTreeMap Text (BTreeMap Text TextSet)

unfoldable pub is_text_field : BTreeMap Text FieldType → Text → Bool
is_text_field mappings name = elim (get name mappings) [
  | none ↦ true
  | some FieldType.keyword ↦ true
  | some _ ↦ false
]

unfoldable pub text_set : List Text → TextSet → TextSet
text_set [] set = set
text_set (t ∷ ts) set = text_set ts (insert t tt set)

unfoldable pub add_tokens : Text → List Text → BTreeMap Text TextSet → BTreeMap Text TextSet
add_tokens id [] terms = terms
add_tokens id (t ∷ ts) terms = add_tokens id ts (upsert t [] (insert id tt) terms)

unfoldable pub suggest_fields :
    BTreeMap Text FieldType → Text → List (Text × Value) → FieldTerms → FieldTerms
suggest_fields mappings id [] terms = terms
suggest_fields mappings id ((name, value) ∷ fs) terms = elim (is_text_field mappings name) [
  | false ↦ suggest_fields mappings id fs terms
  | true ↦ elim (as_str value) [
    | none ↦ suggest_fields mappings id fs terms
    | some text ↦
        suggest_fields mappings id fs
          (upsert name [] (add_tokens id (keys (text_set (tokenize text) []))) terms)
  ]
]

unfoldable pub suggest_terms :
    BTreeMap Text FieldType → List IndexDocument → FieldTerms → FieldTerms
suggest_terms mappings [] terms = terms
suggest_terms mappings (d ∷ ds) terms = elim (as_object d.source) [
  | none ↦ suggest_terms mappings ds terms
  | some obj ↦ suggest_terms mappings ds (suggest_fields mappings d.id (entries obj) terms)
]

-- The number of documents is cast to a `u32`.
unfoldable pub suggest_entry : Env → ℕ → Text × TextSet → SuggestEntry
suggest_entry env n_docs (term, doc_ids) = record {
  term = term;
  doc_freq = length doc_ids % 2 ^ 32;
  score = env.doc_freq_score (length doc_ids % 2 ^ 32) n_docs;
}

unfoldable pub suggest_index_of : Env → ℕ → FieldTerms → SuggestIndex → SuggestIndex
suggest_index_of env n_docs [] index = index
suggest_index_of env n_docs ((name, terms) ∷ fs) index = suggest_index_of env n_docs fs (
    insert name
      (sort_by (λ (a b : SuggestEntry). text_ord.cmp a.term b.term)
        (map (suggest_entry env n_docs) terms))
      index)

unfoldable pub build_suggest_index :
    Env → List IndexDocument → BTreeMap Text FieldType → SuggestIndex
build_suggest_index env documents mappings =
    suggest_index_of env (max (length documents) 1) (suggest_terms mappings documents []) []
