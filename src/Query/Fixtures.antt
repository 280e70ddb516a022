-- ===== src/Query/Fixtures.antt =====
-- A document and a scorer with no arithmetic, for examples.
use Prim.Native.Nat.{compare}
use cloud_search.Prelude.{none, some, [], ◌∷◌, ◌+◌}
use cloud_search.Bytes.{Text}
use cloud_search.Json.{string, object, field, end}
use cloud_search.Common.{IndexDocument}
use cloud_search.Query.Bm25.{QueryEnv, Bm25Context}

abbrev pub query_env : QueryEnv
query_env = record {
  add = λ a b. a + b;
  sub = λ a b. a;
  mul = λ a b. a;
  div = λ a b. a;
  max_f32 = λ a b. a;
  ln = λ a. a;
  of_nat = λ n. n;
  sum = λ xs. 0;
  partial_cmp = λ a b. some (compare a b);
  f64_partial_cmp = λ a b. some (compare a b);
  f64_of = λ n. 0;
  to_lowercase = λ t. t;
  binary_search_by_doc_id = λ docs id. none;
  regex_new = λ t. none;
  regex_escape = λ t. t;
  parse_from_rfc3339 = λ t. none;
}

abbrev pub context : Bm25Context
context = record { idf_map = []; avg_field_lens = []; k1 = 1; b = 1 }

abbrev pub tag_name : Text
tag_name = b't' ∷ b'a' ∷ b'g' ∷ []

-- It has the tag `b`.
abbrev pub document : IndexDocument
document = record { id = b'd' ∷ []; source = object (field tag_name (string (b'b' ∷ [])) end) }
