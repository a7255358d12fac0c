-- ===== src/Cli/Listings.antt =====
-- crates/hookbox-cli/src/commands: the commands that only read, which are those of receipts.rs,
-- emitters.rs and config_validate.rs, and `list` and `inspect` of dlq.rs. A printed or logged line
-- is a value that holds what is printed in it; the terminal takes every line.
use hookbox.Prelude.{
  ℕ, ℤ, String, List, [], ◌∷◌, ◌++◌, Option, none, some, Result, ok, err, ◌>>=◌, map, map_err,
  length,
}
use hookbox.Domain.{
  Uuid, ReceiptId, DeliveryId, DateTime, ProcessingState, DeliveryState, WebhookReceipt,
  WebhookDelivery, ReceiptFilter, StorageError,
}
use hookbox.Postgres.Columns.{SerdeJson, quoted, variant_of, processing_states}
use hookbox.Postgres.Exec.{Database}
use hookbox.Postgres.Receipts.{get, query, query_by_external_reference}
use hookbox.Postgres.Deliveries.{get_delivery, list_dlq}
use hookbox.Config.Validate.{ConfigError}

pub data Line (Json : Type 0) : Type 0 where
  receipt : ReceiptId → String → ProcessingState → DateTime → Line Json
  total : ℕ → Line Json
  no_results : Line Json
  receipt_json : WebhookReceipt Json → Line Json
  dead_letter : DeliveryId → ReceiptId → String → DeliveryState → ℤ → DateTime → Line Json
  dead_letters : ℕ → Line Json
  delivery_json : WebhookDelivery → WebhookReceipt Json → Line Json
  warning : String → Line Json
  titles : Line Json
  -- The name, the type and the counts of the dead letters, the pending rows and those in flight.
  counts : String → String → ℕ → ℕ → ℕ → Line Json
  configured : ℕ → Line Json
  entry : String → String → Line Json

-- What the texts of the errors say; `missing` is a receipt or a delivery.
pub data ListError : Type 0 where
  unreadable no_connection invalid_state : String → ListError
  config : ConfigError → ListError
  storage : StorageError → ListError
  missing : ListError

-- How a command ends, what it has printed until then, and the database.
abbrev pub Screen : Type 0 → Type 0
Screen Json = Result (Unit {0}) ListError × List (Line Json) × Database Json

-- `ReceiptsCommand`, and the two commands of `DlqCommand` that read; the URL is left out.
pub data ReceiptsCommand : Type 0 where
  list : Option String → Option String → ℤ → ReceiptsCommand
  inspect : Uuid → ReceiptsCommand
  search : String → ℤ → ReceiptsCommand

pub data DlqQuery : Type 0 where
  list : Option String → ℤ → ℤ → DlqQuery
  inspect : DeliveryId → DlqQuery

-- `parse_processing_state`.
unfoldable pub parse_processing_state : SerdeJson → String → Result ProcessingState String
unfolding variant_of
parse_processing_state serde s = do
  name ← serde.from_str (quoted s)
  variant_of serde processing_states name

-- The option under `transpose()`.
unfoldable pub parse_state : SerdeJson → Option String → Result (Option ProcessingState) ListError
unfolding parse_processing_state
parse_state serde none = ok none
parse_state serde (some s) = do
  state ← map_err ListError.invalid_state (parse_processing_state serde s)
  ok (some state)

abbrev pub list_filter : Option String → Option ProcessingState → ℤ → ReceiptFilter
list_filter provider state limit = record {
  provider_name = provider;
  processing_state = state;
  external_reference = none;
  provider_event_id = none;
  limit = some limit;
  offset = none;
}

module _ {Json : Type 0} where
  abbrev receipt_line : WebhookReceipt Json → Line Json
  receipt_line r = Line.receipt r.receipt_id r.provider_name r.processing_state r.received_at

  abbrev pub receipt_lines : List (WebhookReceipt Json) → List (Line Json)
  receipt_lines rs = map receipt_line rs ++ Line.total (length rs) ∷ []

  abbrev pub found_lines : List (WebhookReceipt Json) → List (Line Json)
  found_lines [] = Line.no_results ∷ Line.total 0 ∷ []
  found_lines (r ∷ rs) = receipt_lines (r ∷ rs)

  abbrev pub dead_lines : List (WebhookDelivery × WebhookReceipt Json) → List (Line Json)
  dead_lines rows =
      map
        (λ (row : WebhookDelivery × WebhookReceipt Json).
          Line.dead_letter row.0.delivery_id row.1.receipt_id row.0.emitter_name row.0.state
            row.0.attempt_count row.0.next_attempt_at)
        rows
      ++ Line.dead_letters (length rows) ∷ []

  abbrev pub printed :
      {A : Type 0} → (A → List (Line Json)) → Result A StorageError × Database Json → Screen Json
  printed lines (ok a, db) = (ok tt, lines a, db)
  printed lines (err e, db) = (err (ListError.storage e), [], db)

  abbrev pub inspected :
      {A : Type 0} → (A → Line Json) → Result (Option A) StorageError × Database Json → Screen Json
  inspected line (ok (some a), db) = (ok tt, line a ∷ [], db)
  inspected line (ok none, db) = (err ListError.missing, [], db)
  inspected line (err e, db) = (err (ListError.storage e), [], db)

  abbrev pub connected :
      Result (Unit {0}) String → (Database Json → Screen Json) → Database Json → Screen Json
  connected (err e) k db = (err (ListError.no_connection e), [], db)
  connected (ok _) k db = k db

  unfoldable pub list_where :
      Option String → ℤ → Result (Option ProcessingState) ListError → Database Json → Screen Json
  unfolding query
  list_where provider limit (err e) db = (err e, [], db)
  list_where provider limit (ok state) db =
      printed receipt_lines (query (list_filter provider state limit) db)

  -- `connection` is what `db::connect` gives.
  unfoldable pub run_receipts :
      SerdeJson → Result (Unit {0}) String → ReceiptsCommand → Database Json → Screen Json
  unfolding query query_by_external_reference get parse_state
  run_receipts serde connection (ReceiptsCommand.list provider state limit) db =
      connected connection (list_where provider limit (parse_state serde state)) db
  run_receipts serde connection (ReceiptsCommand.inspect id) db =
      connected connection (λ db. inspected Line.receipt_json (get id db)) db
  run_receipts serde connection (ReceiptsCommand.search external_ref limit) db =
      connected connection
        (λ db. printed found_lines (query_by_external_reference external_ref (some limit) db)) db

  unfoldable pub run_dlq : Result (Unit {0}) String → DlqQuery → Database Json → Screen Json
  unfolding list_dlq get_delivery
  run_dlq connection (DlqQuery.list emitter limit offset) db =
      connected connection (λ db. printed dead_lines (list_dlq emitter limit offset db)) db
  run_dlq connection (DlqQuery.inspect id) db =
      connected connection
        (λ db.
          inspected
            (λ (row : WebhookDelivery × WebhookReceipt Json). Line.delivery_json row.0 row.1)
            (get_delivery id db))
        db
