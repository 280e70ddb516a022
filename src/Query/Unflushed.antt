-- ===== src/Query/Unflushed.antt =====
-- crates/cloudsearch-index/src/lib.rs, `score_match_query`: which documents match while no segment has
-- postings of them.
use cloud_search.Prelude.{
  ℕ, zero, suc, ◌≡◌, refl, Bool, true, false, ◌||◌, none, some, List, [], ◌∷◌, inl, inr, Bool-cases,
  Option-cases, arith, length,
}
use cloud_search.Bytes.{Text}
use cloud_search.Common.{IndexDocument}
use cloud_search.Index.Tokens.{tokenize}
use cloud_search.Query.{MatchQuery}
use cloud_search.Query.Bm25.{
  QueryEnv, Bm25Context, f32_zero, bm25_term_score, idf_of, postings_tf, count_token,
  contains_token, u32_or_zero,
}
use cloud_search.Query.Match.{field_text, token_tf, match_tokens, if_matched, score_match_query}
use cloud_search.Query.Score.{is_some}

-- One of the tokens is among the others.
unfoldable pub shares_token : List Text → List Text → Bool
shares_token [] tokens = false
shares_token (t ∷ ts) tokens = contains_token t tokens || shares_token ts tokens

abbrev positive : ℕ → Bool
positive zero = false
positive (suc n) = true

module _ (env : QueryEnv) (ctx : Bm25Context) (name : Text) (tokens : List Text) (doc_id : ℕ) where
  match_tokens-shares_token :
      (ts : List Text) (total n : ℕ)
      → is_some (if_matched (match_tokens env ctx [] name tokens doc_id ts (total, n)))
        ≡ (positive n || shares_token ts tokens)
  unfolding match_tokens token_tf postings_tf shares_token
  match_tokens-shares_token [] total zero = refl
  match_tokens-shares_token [] total (suc n) = refl
  match_tokens-shares_token (t ∷ ts) total n = elim (Bool-cases (contains_token t tokens)) [
    | inl e ↦
        let tf = u32_or_zero (count_token t tokens) in
        let more = env.add total (bm25_term_score env ctx tf (length tokens) (idf_of ctx t) name) in
        rw (match_tokens, token_tf, postings_tf, e)
          (ground (arith, match_tokens-shares_token ts more (suc n)))
    | inr e ↦ rw (match_tokens, token_tf, postings_tf, e) (match_tokens-shares_token ts total n)
  ]

-- While no segment has postings, a match query matches just the documents that have a text in the
-- field with which the query shares a token, whatever the arithmetic of the scores.
pub score_match_query-shares_token :
    (env : QueryEnv) (document : IndexDocument) (q : MatchQuery) (doc_id : ℕ) (ctx : Bm25Context)
    → is_some (score_match_query env document q doc_id [] ctx)
      ≡ elim (field_text q.field document) [
        | none ↦ false
        | some text ↦ shares_token (tokenize q.value) (tokenize text)
      ]
unfolding score_match_query
score_match_query-shares_token env document q doc_id ctx =
    elim (Option-cases (field_text q.field document)) [
      | inl e ↦ rw (score_match_query, e) refl
      | inr (text, e) ↦ rw (score_match_query, e) (by_tokens (tokenize q.value) text)
    ]
  where
    by_tokens :
        (ts : List Text) (text : Text)
        → is_some (elim ts [
          | [] ↦ none
          | t ∷ us ↦
              if_matched
                (match_tokens env ctx [] q.field (tokenize text) doc_id (t ∷ us) (f32_zero, 0))
        ])
          ≡ shares_token ts (tokenize text)
    by_tokens [] text = unfold shares_token in refl
    by_tokens (t ∷ us) text =
        match_tokens-shares_token env ctx q.field (tokenize text) doc_id (t ∷ us) f32_zero 0
