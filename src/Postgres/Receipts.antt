-- ===== src/Postgres/Receipts.antt =====
-- crates/hookbox-postgres/src/storage.rs, `Storage for PostgresStorage` and the queries of the
-- retry worker and the command line. The columns `processing_state` and `state` hold the
-- enumerations themselves, in place of their names as text.
use mathlib.Core.Bool.{decide}
use hookbox.Prelude.{
  ok, Result, ℕ, suc, zero, ◌==◌, String, Bool, true, false, not, ◌&&◌, Option, none, some, List,
  [], ◌∷◌, ◌++◌, ℤ, pos, negsuc, ◌+ℤ◌, ltb_ℤ, leb_ℤ, leb, if◌then◌else◌, str_eq, any, select,
  select_one, update_where, count, order_by, take, drop, unwrap_or, i32_max,
}
use hookbox.Domain.{
  Uuid, DateTime, ReceiptId, DeliveryId, WebhookReceipt, WebhookDelivery, ReceiptFilter,
  StorageError, StoreResult, ProcessingState, DeliveryState, ProcessingState-discrete,
  is_emit_failed,
}
use hookbox.Postgres.Exec.{
  Database, Tables, Sql, statement, pure, raise, refuse, begin, or_rollback, rollback, commit,
  ◌>>=◌, ◌>>◌,
}

-- A filter that is NULL lets every row through.
abbrev pub matches_text : Option String → Option String → Bool
matches_text none column = true
matches_text (some t) none = false
matches_text (some t) (some c) = str_eq c t

abbrev pub matches_state : Option ProcessingState → ProcessingState → Bool
matches_state none s = true
matches_state (some t) s = decide (ProcessingState-discrete s t)

abbrev pub is_failed_or_dead : ProcessingState → Bool
is_failed_or_dead ProcessingState.emit_failed = true
is_failed_or_dead ProcessingState.dead_lettered = true
is_failed_or_dead _ = false

abbrev pub has_delivery_id : DeliveryId → WebhookDelivery → Bool
has_delivery_id id d = d.delivery_id == id

-- The row that `store_with_deliveries` and `insert_replay` insert; the columns that they leave
-- out have the defaults of migrations/0002.
unfoldable pub pending_delivery : DeliveryId → ReceiptId → String → DateTime → WebhookDelivery
pending_delivery id receipt_id name now = record {
  delivery_id = id;
  receipt_id = receipt_id;
  emitter_name = name;
  state = DeliveryState.pending;
  attempt_count = pos 0;
  last_error = none;
  last_attempt_at = none;
  next_attempt_at = now;
  emitted_at = none;
  immutable = false;
  created_at = now;
}

-- LIMIT and OFFSET, which refuse negative numbers.
abbrev pub page {ℓ} : {A : Type ℓ} → ℤ → ℤ → List A → Option (List A)
page (pos limit) (pos offset) rows = some (take limit (drop offset rows))
page (pos limit) (negsuc n) rows = none
page (negsuc n) offset rows = none

module _ {Json : Type 0} where
  abbrev pub has_key : String → WebhookReceipt Json → Bool
  has_key key r = str_eq r.dedupe_key key

  abbrev pub has_receipt_id : ReceiptId → WebhookReceipt Json → Bool
  has_receipt_id id r = r.receipt_id == id

  -- INSERT INTO webhook_receipts ... ON CONFLICT (dedupe_key) DO NOTHING RETURNING receipt_id:
  -- whether a row was inserted. The two tests are those for the key and for the primary key.
  unfoldable pub add_receipt :
      Bool → Bool → WebhookReceipt Json → Database Json → Result Bool StorageError × Database Json
  add_receipt true taken r db = (ok false, db)
  add_receipt false true r db = refuse db
  add_receipt false false r db =
      (ok true, record db { tables = record db.tables { receipts = db.tables.receipts ++ r ∷ [] } })

  unfoldable pub insert_receipt : WebhookReceipt Json → Sql Json Bool
  unfolding add_receipt
  insert_receipt r = statement λ db.
      add_receipt (any (has_key r.dedupe_key) db.tables.receipts)
        (any (has_receipt_id r.receipt_id) db.tables.receipts) r db

  abbrev pub found_id : Option (WebhookReceipt Json) → Sql Json ReceiptId
  found_id none = refuse
  found_id (some r) = pure r.receipt_id

  -- SELECT receipt_id FROM webhook_receipts WHERE dedupe_key = $1, of one row.
  unfoldable pub existing_id : String → Sql Json ReceiptId
  existing_id key = statement λ db. found_id (select_one (has_key key) db.tables.receipts) db

  unfoldable pub duplicate_of : WebhookReceipt Json → Sql Json StoreResult
  unfolding existing_id
  duplicate_of r = do id ← existing_id r.dedupe_key; pure (StoreResult.duplicate id)

  unfoldable pub store : WebhookReceipt Json → Sql Json StoreResult
  unfolding insert_receipt duplicate_of
  store r = do
    inserted ← insert_receipt r
    if inserted then pure StoreResult.stored else duplicate_of r

  -- INSERT INTO webhook_deliveries: the delivery id is the primary key, and the receipt has to
  -- be there.
  unfoldable pub place :
      Bool
      → DeliveryId
      → ReceiptId
      → String
      → Database Json
      → Result DeliveryId StorageError × Database Json
  unfolding pending_delivery
  place true id receipt_id name db = (
    ok id,
    record db {
      tables = record db.tables {
        deliveries = db.tables.deliveries ++ pending_delivery id receipt_id name db.now ∷ [];
      };
      drawn = suc db.drawn;
    },
  )
  place false id receipt_id name db = refuse (record db { drawn = suc db.drawn })

  unfoldable pub insert_delivery : ReceiptId → String → Sql Json DeliveryId
  unfolding place
  insert_delivery receipt_id name = statement λ db.
      let id = db.uuid db.drawn in
      let there = any (has_receipt_id receipt_id) db.tables.receipts in
      let taken = any (has_delivery_id id) db.tables.deliveries in
      place (there && not taken) id receipt_id name db

  -- The loop over the emitter names; a transaction is around it.
  unfoldable pub insert_deliveries : ReceiptId → List String → Sql Json (List DeliveryId)
  unfolding insert_delivery
  insert_deliveries receipt_id [] = pure []
  insert_deliveries receipt_id (name ∷ names) = do
    id ← insert_delivery receipt_id name
    ids ← insert_deliveries receipt_id names
    pure (id ∷ ids)

  -- The receipt is new: its deliveries, and the commit.
  unfoldable pub store_new : Tables Json → WebhookReceipt Json → List String → Sql Json StoreResult
  unfolding insert_deliveries commit
  store_new saved r names = do
    or_rollback saved (insert_deliveries r.receipt_id names)
    or_rollback saved commit
    pure StoreResult.stored

  -- Its key is taken: the explicit rollback, and the id of the row that has it.
  unfoldable pub store_old : Tables Json → WebhookReceipt Json → Sql Json StoreResult
  unfolding rollback duplicate_of
  store_old saved r = do rollback saved; duplicate_of r

  unfoldable pub store_with_deliveries : WebhookReceipt Json → List String → Sql Json StoreResult
  unfolding begin insert_receipt store_new store_old
  store_with_deliveries r names = do
    saved ← begin
    inserted ← or_rollback saved (insert_receipt r)
    if inserted then store_new saved r names else store_old saved r

  -- `get`: SELECT ... WHERE receipt_id = $1.
  unfoldable pub get : Uuid → Sql Json (Option (WebhookReceipt Json))
  get id = statement λ db. pure (select_one (has_receipt_id id) db.tables.receipts) db

  -- UPDATE webhook_receipts SET f WHERE receipt_id = $1, with the number of rows.
  abbrev pub update_receipts : Uuid → (WebhookReceipt Json → WebhookReceipt Json) → Sql Json ℕ
  update_receipts id f = statement λ db.
      pure (count (has_receipt_id id) db.tables.receipts) (record db {
        tables = record db.tables {
          receipts = update_where (has_receipt_id id) f db.tables.receipts;
        };
      })

  -- A row that is not there is logged, and is no error.
  unfoldable pub update_state : Uuid → ProcessingState → Option String → Sql Json (Unit {0})
  update_state id state error = do
    affected ← update_receipts id (λ r. record r { processing_state = state; last_error = error })
    pure tt

  -- The CASE of `retry_failed`.
  unfoldable pub after_failed_retry : ℤ → WebhookReceipt Json → WebhookReceipt Json
  after_failed_retry max_attempts r = record r {
    emit_count = r.emit_count +ℤ pos 1;
    processing_state =
        if leb_ℤ max_attempts (r.emit_count +ℤ pos 1)
        then ProcessingState.dead_lettered
        else ProcessingState.emit_failed;
  }

  -- UPDATE, whose test tells whether an `emit_count` is at the limit of INTEGER: that refuses it.
  unfoldable pub count_up : Bool → Uuid → ℤ → Sql Json (Unit {0})
  unfolding after_failed_retry
  count_up true id max_attempts db = refuse db
  count_up false id max_attempts db = (
    ok tt,
    record db {
      tables = record db.tables {
        receipts =
            update_where (has_receipt_id id) (after_failed_retry max_attempts) db.tables.receipts;
      };
    },
  )

  unfoldable pub retry_failed : Uuid → ℤ → Sql Json (Unit {0})
  unfolding count_up
  retry_failed id max_attempts = statement λ db.
      count_up
        (any (λ r. has_receipt_id id r && leb_ℤ (pos i32_max) r.emit_count) db.tables.receipts) id
        max_attempts db

  abbrev pub none_affected : ℕ → Sql Json (Unit {0})
  none_affected zero = raise (StorageError.internal "no receipt found with id")
  none_affected (suc n) = pure tt

  unfoldable pub reset_for_retry : Uuid → Sql Json (Unit {0})
  reset_for_retry id = do
    affected ←
        update_receipts id
          (λ r. record r { processing_state = ProcessingState.emit_failed; emit_count = pos 0 })
    none_affected affected

  abbrev pub or_refuse : {A : Type 0} → Option A → Sql Json A
  or_refuse none = refuse
  or_refuse (some a) = pure a

  -- ORDER BY received_at, oldest or newest first.
  abbrev pub oldest_first : WebhookReceipt Json → WebhookReceipt Json → Bool
  oldest_first r s = leb r.received_at s.received_at

  abbrev pub newest_first : WebhookReceipt Json → WebhookReceipt Json → Bool
  newest_first r s = leb s.received_at r.received_at

  -- The eligible receipts of the retry worker, at most 100, oldest first.
  unfoldable pub query_for_retry : ℤ → Sql Json (List (WebhookReceipt Json))
  query_for_retry max_attempts = statement λ db.
      pure
        (take 100 (
          order_by oldest_first (
            select (λ r. is_emit_failed r.processing_state && ltb_ℤ r.emit_count max_attempts)
              db.tables.receipts)))
        db

  unfoldable pub query : ReceiptFilter → Sql Json (List (WebhookReceipt Json))
  query filter = statement λ db.
      or_refuse
        (page (unwrap_or filter.limit (pos 1000)) (unwrap_or filter.offset (pos 0)) (
          order_by newest_first (
            select
              (λ r.
                matches_text filter.provider_name (some r.provider_name)
                && matches_state filter.processing_state r.processing_state
                && matches_text filter.external_reference r.external_reference
                && matches_text filter.provider_event_id r.provider_event_id)
              db.tables.receipts)))
        db

  unfoldable pub query_by_external_reference :
      String → Option ℤ → Sql Json (List (WebhookReceipt Json))
  query_by_external_reference external_ref limit = statement λ db.
      or_refuse
        (page (unwrap_or limit (pos 50)) (pos 0) (
          order_by newest_first (
            select (λ r. matches_text (some external_ref) r.external_reference)
              db.tables.receipts)))
        db

  unfoldable pub query_failed_since :
      Option String → DateTime → Option ℤ → Sql Json (List (WebhookReceipt Json))
  query_failed_since provider since limit = statement λ db.
      or_refuse
        (page (unwrap_or limit (pos 100)) (pos 0) (
          order_by oldest_first (
            select
              (λ r.
                is_failed_or_dead r.processing_state
                && leb since r.received_at
                && matches_text provider (some r.provider_name))
              db.tables.receipts)))
        db
