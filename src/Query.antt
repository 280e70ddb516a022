-- ===== src/Query.antt =====
-- The search queries of crates/cloudsearch-common/src/lib.rs. A `f32` is its bit pattern.
pub mod Bm25
pub mod Values
pub mod Match
pub mod Phrase
pub mod MultiMatch
pub mod Patterns
pub mod Fuzzy
pub mod Score
pub mod Clauses
pub mod Validate
pub mod Unflushed
pub mod Fixtures
mod Examples
use cloud_search.Prelude.{ℕ, Bool, true, false, Option, List}
use cloud_search.BTreeMap.{BTreeMap}
use cloud_search.Bytes.{Text}
use cloud_search.Json.{Value}

pub record PrefixQuery : Type 0 where
  pub field : Text
  pub value : Text

pub record WildcardQuery : Type 0 where
  pub field : Text
  pub value : Text

pub record MatchQuery : Type 0 where
  pub field : Text
  pub value : Text

pub record PhraseQuery : Type 0 where
  pub field : Text
  pub value : Text

pub data MultiMatchType : Type 0 where
  best_fields most_fields phrase phrase_prefix : MultiMatchType

pub record MultiMatchQuery : Type 0 where
  pub query : Text
  pub fields : BTreeMap Text ℕ
  pub multi_match_type : MultiMatchType
  pub tie_breaker : ℕ

pub record MltQuery : Type 0 where
  pub doc_id : Option Text
  pub like : Option Value
  pub fields : List Text
  pub min_term_freq : ℕ
  pub min_doc_freq : ℕ
  pub max_query_terms : ℕ
  pub min_word_length : Option ℕ
  pub max_word_length : Option ℕ
  pub field_boost_factor : ℕ

pub data Fuzziness : Type 0 where
  auto : Fuzziness
  exact : ℕ → Fuzziness

pub record TermQuery : Type 0 where
  pub field : Text
  pub value : Value
  pub fuzziness : Option Fuzziness
  pub boost : Option ℕ

pub record TermsQuery : Type 0 where
  pub field : Text
  pub values : List Value

pub record RangeQuery : Type 0 where
  pub field : Text
  pub gte : Option Value
  pub gt : Option Value
  pub lte : Option Value
  pub lt : Option Value

-- `bool_query must should filter must_not minimum_should_match` is the variant with its struct, and
-- `Queries` is a `Vec` of queries.
mutual
  pub data SearchQuery : Type 0 where
    match_all : SearchQuery
    term_query : TermQuery → SearchQuery
    terms_query : TermsQuery → SearchQuery
    range_query : RangeQuery → SearchQuery
    bool_query : Queries → Queries → Queries → Queries → Option ℕ → SearchQuery
    prefix_query : PrefixQuery → SearchQuery
    wildcard_query : WildcardQuery → SearchQuery
    match_query : MatchQuery → SearchQuery
    phrase_query : PhraseQuery → SearchQuery
    multi_match_query : MultiMatchQuery → SearchQuery
    mlt_query : MltQuery → SearchQuery

  pub data Queries : Type 0 where
    nil : Queries
    cons : SearchQuery → Queries → Queries

abbrev pub extend : Queries → Queries → Queries
extend nil rs = rs
extend (cons q qs) rs = cons q (extend qs rs)

abbrev pub one : SearchQuery → Queries
one q = cons q nil

abbrev pub is_empty : Queries → Bool
is_empty nil = true
is_empty (cons q qs) = false
