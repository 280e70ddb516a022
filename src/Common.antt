-- ===== src/Common.antt =====
-- The shared types of crates/cloudsearch-common: errors, documents, mappings and settings.
use cloud_search.Prelude.{ℕ, Option}
use cloud_search.BTreeMap.{BTreeMap}
use cloud_search.Bytes.{Text}
use cloud_search.Json.{Value}

-- The texts of the messages are left out; the names that a variant carries are kept.
pub data CloudSearchError : Type 0 where
  index_already_exists index_not_found document_not_found : Text → CloudSearchError
  invalid_index_name : Text → CloudSearchError
  invalid_namespace invalid_search_request : CloudSearchError
  mapping_conflict : CloudSearchError
  unknown_field_rejected unsupported_array_field : Text → CloudSearchError
  mapping_limit_exceeded resource_limit_exceeded : CloudSearchError
  invalid_wal_record wal_checksum_mismatch : CloudSearchError
  snapshot_not_found : Text → CloudSearchError
  io serde : CloudSearchError

-- `Result<T, CloudSearchError>`, and `panic` for an `unwrap` or an index that fails.
pub data Result {ℓ} (A : Type ℓ) : Type ℓ where
  ok : A → Result A
  err : CloudSearchError → Result A
  panic : Result A

infixl 5 ◌>>=◌ ◌>>◌
abbrev pub ◌>>=◌ {ℓ κ} : {A : Type ℓ} {B : Type κ} → Result A → (A → Result B) → Result B
ok a >>= f = f a
err e >>= f = err e
panic >>= f = panic

abbrev pub ◌>>◌ {ℓ} : {B : Type ℓ} → Result (Unit {0}) → Result B → Result B
m >> k = m >>= λ _. k

pub record IndexDocument : Type 0 where
  pub id : Text
  pub source : Value

pub data MappingMode : Type 0 where
  strict controlled_dynamic : MappingMode

pub record IndexSettings : Type 0 where
  pub mapping_mode : MappingMode
  pub primary_time_field : Option Text
  pub namespace : Option Text
  pub retention_secs : Option ℕ
  pub merge_threshold_docs : Option ℕ

pub data FieldType : Type 0 where
  keyword boolean integer long double timestamp object : FieldType

pub FieldType-discrete : Discrete FieldType
FieldType-discrete = hlevel

pub record IndexMetadata : Type 0 where
  pub name : Text
  pub settings : IndexSettings
  pub mappings : BTreeMap Text FieldType
