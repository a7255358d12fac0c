-- ===== src/Routes/Listings.antt =====
-- crates/hookbox-server/src/routes/admin.rs: the handlers that only read. A JSON value is given by
-- what it is made of.
use hookbox.Prelude.{
  ℤ, pos, String, List, [], ◌∷◌, Option, none, some, Result, ok, err, map, unwrap_or, order_by, leb,
}
use hookbox.Domain.{
  Uuid, DeliveryId, WebhookReceipt, WebhookDelivery, ProcessingState, DeliveryState, ReceiptFilter,
  StorageError,
}
use hookbox.Transitions.Latest.{receipt_deliveries_summary}
use hookbox.Transitions.Aggregate.{receipt_aggregate_state}
use hookbox.Postgres.Exec.{Database, Sql, pure, ◌>>=◌}
use hookbox.Postgres.Receipts.{get, query}
use hookbox.Postgres.Deliveries.{get_delivery, get_deliveries_for_receipt, list_dlq}
use hookbox.Worker.Dispatch.{EmitterHealth}
use hookbox.Routes.Health.{EmitterHealthSnapshot, snapshot, synthesize_missing_emitters}
use hookbox.Routes.Admin.{AppState, Reply, check_auth, storage_error_text}

-- The receipt with its derived state, and what is inserted into its object.
pub record ListItem (Json : Type 0) : Type 0 where
  pub receipt : WebhookReceipt Json
  pub deliveries_summary : List (String × DeliveryState)

pub record Detail (Json : Type 0) : Type 0 where
  pub item : ListItem Json
  pub deliveries : List WebhookDelivery

-- The body of the answer: a `failure` has the code 500, `missing` 404, and what follows them 200.
pub data View (Json : Type 0) : Type 0 where
  reply : Reply → View Json
  failure : String → View Json
  missing : String → View Json
  receipts : List (ListItem Json) → View Json
  detail : Detail Json → View Json
  delivery : WebhookDelivery → WebhookReceipt Json → View Json
  dead_letters : List (WebhookDelivery × WebhookReceipt Json) → View Json
  emitters : List (String × EmitterHealthSnapshot) → View Json

abbrev pub Page : Type 0 → Type 0
Page Json = View Json × Database Json

-- `ListReceiptsQuery` and `ListDlqQuery`.
pub record ListReceiptsQuery : Type 0 where
  pub provider : Option String
  pub state : Option ProcessingState
  pub limit : Option ℤ
  pub offset : Option ℤ

pub record ListDlqQuery : Type 0 where
  pub emitter : Option String
  pub limit : Option ℤ
  pub offset : Option ℤ

unfoldable pub filter_of : ListReceiptsQuery → ReceiptFilter
filter_of q = record {
  provider_name = q.provider;
  processing_state = q.state;
  external_reference = none;
  provider_event_id = none;
  limit = q.limit;
  offset = q.offset;
}

module _ {Json : Type 0} where
  unfoldable pub receipt_list_item : WebhookReceipt Json → List WebhookDelivery → ListItem Json
  unfolding receipt_aggregate_state receipt_deliveries_summary
  receipt_list_item r ds = record {
    receipt = record r { processing_state = receipt_aggregate_state ds r.processing_state };
    deliveries_summary = receipt_deliveries_summary ds;
  }

  unfoldable pub receipt_detail : WebhookReceipt Json → List WebhookDelivery → Detail Json
  unfolding receipt_list_item
  receipt_detail r ds = record { item = receipt_list_item r ds; deliveries = ds }

  -- The loop over the receipts.
  unfoldable pub list_items : List (WebhookReceipt Json) → Sql Json (List (ListItem Json))
  unfolding get_deliveries_for_receipt receipt_list_item
  list_items [] = pure []
  list_items (r ∷ rs) = do
    ds ← get_deliveries_for_receipt r.receipt_id
    items ← list_items rs
    pure (receipt_list_item r ds ∷ items)

  abbrev failed : StorageError → View Json
  failed e = View.failure (storage_error_text e)

  unfoldable pub shown :
      {A : Type 0} → (A → View Json) → Result A StorageError × Database Json → Page Json
  unfolding storage_error_text
  shown view (ok a, db) = (view a, db)
  shown view (err e, db) = (failed e, db)

  -- `if let Err(resp) = check_auth(..) { return resp }` before the handler.
  unfoldable pub authorized : Option Reply → (Database Json → Page Json) → Database Json → Page Json
  authorized (some r) k db = (View.reply r, db)
  authorized none k db = k db

  module _ (st : AppState) (authorization : Option (Option String)) where
    unfoldable pub list_receipts : ListReceiptsQuery → Database Json → Page Json
    unfolding check_auth authorized shown filter_of query list_items
    list_receipts q db =
        authorized (check_auth st.admin_token authorization)
          (λ db. shown View.receipts ((query (filter_of q) >>= λ rs. list_items rs) db)) db

    abbrev detail_of : Option (WebhookReceipt Json) → Sql Json (View Json)
    detail_of none = pure (View.missing "receipt not found")
    detail_of (some r) = do
      ds ← get_deliveries_for_receipt r.receipt_id
      pure (View.detail (receipt_detail r (order_by (λ d e. leb d.created_at e.created_at) ds)))

    unfoldable pub get_receipt : Uuid → Database Json → Page Json
    unfolding check_auth authorized shown get get_deliveries_for_receipt receipt_detail
    get_receipt id db =
        authorized (check_auth st.admin_token authorization)
          (λ db. shown (λ v. v) ((get id >>= λ found. detail_of found) db)) db

    abbrev delivery_of : Option (WebhookDelivery × WebhookReceipt Json) → View Json
    delivery_of none = View.missing "delivery not found"
    delivery_of (some (d, r)) = View.delivery d r

    unfoldable pub show_delivery : DeliveryId → Database Json → Page Json
    unfolding check_auth authorized shown get_delivery
    show_delivery id db =
        authorized (check_auth st.admin_token authorization)
          (λ db. shown delivery_of (get_delivery id db)) db

    unfoldable pub show_dlq : ListDlqQuery → Database Json → Page Json
    unfolding check_auth authorized shown list_dlq
    show_dlq q db =
        authorized (check_auth st.admin_token authorization)
          (λ db.
            shown View.dead_letters
              (list_dlq q.emitter (unwrap_or q.limit (pos 100)) (unwrap_or q.offset (pos 0)) db))
          db

    -- `emitter_health` holds the emitters in the order of their names.
    unfoldable pub list_emitters : List (String × EmitterHealth) → Database Json → Page Json
    unfolding check_auth authorized snapshot synthesize_missing_emitters
    list_emitters emitter_health db =
        authorized (check_auth st.admin_token authorization)
          (λ db. (
            View.emitters (
                synthesize_missing_emitters
                  (map (λ (e : String × EmitterHealth). (e.0, snapshot e.1)) emitter_health)
                  st.emitter_names),
            db,
          ))
          db
