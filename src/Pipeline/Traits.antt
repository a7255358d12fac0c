-- ===== src/Pipeline/Traits.antt =====
-- The traits `SignatureVerifier`, `Storage` and `Emitter` of crates/hookbox/src/traits.rs, and
-- what the pipeline uses of `sha2`, `hex`, `http` and `serde_json`.
use hookbox.Prelude.{ℕ, String, List, [], ◌∷◌, Option, Result, err}
use hookbox.Domain.{
  Uuid, WebhookReceipt, NormalizedEvent, ReceiptFilter, VerificationResult, ProcessingState,
  StoreResult, StorageError, EmitError,
}
use hookbox.Postgres.Exec.{Database}
use hookbox.Postgres.Receipts.{store, get, update_state, query, store_with_deliveries}

pub record SignatureVerifier (Headers : Type 0) : Type 0 where
  pub provider_name : String
  pub verify : Headers → List ℕ → VerificationResult

-- A call takes the state behind `&self` and returns it with its answer.
pub record Storage (Json S : Type 0) : Type 0 where
  pub store : WebhookReceipt Json → S → Result StoreResult StorageError × S
  pub get : Uuid → S → Result (Option (WebhookReceipt Json)) StorageError × S
  pub update_state : Uuid → ProcessingState → Option String → S → Result (Unit {0}) StorageError × S
  pub query : ReceiptFilter → S → Result (List (WebhookReceipt Json)) StorageError × S
  pub store_with_deliveries :
      WebhookReceipt Json → List String → S → Result StoreResult StorageError × S

-- The body of `store_with_deliveries` in the trait, for backends that do not override it.
unfoldable pub default_store_with_deliveries :
    {Json S : Type 0}
    → (WebhookReceipt Json → S → Result StoreResult StorageError × S)
    → WebhookReceipt Json
    → List String
    → S
    → Result StoreResult StorageError × S
default_store_with_deliveries store r [] s = store r s
default_store_with_deliveries store r (name ∷ names) s =
    (err StorageError.fan_out_not_implemented, s)

pub record Emitter (Json E : Type 0) : Type 0 where
  pub emit : NormalizedEvent Json → E → Result (Unit {0}) EmitError × E

-- `PostgresStorage`, of crates/hookbox-postgres/src/storage.rs.
unfoldable pub postgres_storage : {Json : Type 0} → Storage Json (Database Json)
unfolding store get update_state query store_with_deliveries
postgres_storage = record {
  store = store;
  get = get;
  update_state = update_state;
  query = query;
  store_with_deliveries = store_with_deliveries;
}

-- Third-party code. `header_values` are the texts that `to_str` gives for the values of a name,
-- `none` where it fails; `object` inserts the fields in turn.
pub record Library (Json Headers : Type 0) : Type 0 where
  pub sha256_hex : List ℕ → String
  pub header_keys : Headers → List String
  pub header_values : Headers → String → List (Option String)
  pub parse : List ℕ → Option Json
  pub text : String → Json
  pub object : List (String × Json) → Json
