-- ===== src/Postgres/Rows.antt =====
-- crates/hookbox-postgres/src/storage.rs: from rows to receipts and deliveries, and what the inserts
-- bind.
use hookbox.Prelude.{String, List, [], ◌∷◌, Result, ok, ◌>>=◌, map_err}
use hookbox.Domain.{WebhookReceipt, WebhookDelivery, StorageError}
use hookbox.Postgres.Columns.{
  PgRow, SerdeJson, ReceiptRow, DeliveryRow, processing_state_name, verification_status_name,
  processing_states, verification_statuses, delivery_states, serialize_enum, deserialize_enum,
}

abbrev column : {A : Type 0} → Result A String → Result A StorageError
column r = map_err StorageError.internal r

unfoldable pub delivery_from_row : SerdeJson → DeliveryRow → Result WebhookDelivery StorageError
unfolding deserialize_enum
delivery_from_row serde row = do
  state ← deserialize_enum serde delivery_states row.state
  ok (record {
    delivery_id = row.delivery_id;
    receipt_id = row.receipt_id;
    emitter_name = row.emitter_name;
    state = state;
    attempt_count = row.attempt_count;
    last_error = row.last_error;
    last_attempt_at = row.last_attempt_at;
    next_attempt_at = row.next_attempt_at;
    emitted_at = row.emitted_at;
    immutable = row.immutable;
    created_at = row.created_at;
  })

module _ {Json : Type 0} where
  unfoldable pub pg_row_to_receipt_row : PgRow Json → Result (ReceiptRow Json) StorageError
  pg_row_to_receipt_row r = do
    receipt_id ← column (r.uuid "receipt_id")
    provider_name ← column (r.text "provider_name")
    provider_event_id ← column (r.optional_text "provider_event_id")
    external_reference ← column (r.optional_text "external_reference")
    dedupe_key ← column (r.text "dedupe_key")
    payload_hash ← column (r.text "payload_hash")
    raw_body ← column (r.bytes "raw_body")
    parsed_payload ← column (r.optional_json "parsed_payload")
    raw_headers ← column (r.json "raw_headers")
    normalized_event_type ← column (r.optional_text "normalized_event_type")
    verification_status ← column (r.text "verification_status")
    verification_reason ← column (r.optional_text "verification_reason")
    processing_state ← column (r.text "processing_state")
    emit_count ← column (r.int4 "emit_count")
    last_error ← column (r.optional_text "last_error")
    received_at ← column (r.time "received_at")
    processed_at ← column (r.optional_time "processed_at")
    metadata ← column (r.json "metadata")
    ok (record {
      receipt_id = receipt_id;
      provider_name = provider_name;
      provider_event_id = provider_event_id;
      external_reference = external_reference;
      dedupe_key = dedupe_key;
      payload_hash = payload_hash;
      raw_body = raw_body;
      parsed_payload = parsed_payload;
      raw_headers = raw_headers;
      normalized_event_type = normalized_event_type;
      verification_status = verification_status;
      verification_reason = verification_reason;
      processing_state = processing_state;
      emit_count = emit_count;
      last_error = last_error;
      received_at = received_at;
      processed_at = processed_at;
      metadata = metadata;
    })

  unfoldable pub pg_row_to_delivery_row : PgRow Json → Result DeliveryRow StorageError
  pg_row_to_delivery_row r = do
    delivery_id ← column (r.uuid "delivery_id")
    receipt_id ← column (r.uuid "receipt_id")
    emitter_name ← column (r.text "emitter_name")
    state ← column (r.text "state")
    attempt_count ← column (r.int4 "attempt_count")
    last_error ← column (r.optional_text "last_error")
    last_attempt_at ← column (r.optional_time "last_attempt_at")
    next_attempt_at ← column (r.time "next_attempt_at")
    emitted_at ← column (r.optional_time "emitted_at")
    immutable ← column (r.bool "immutable")
    created_at ← column (r.time "created_at")
    ok (record {
      delivery_id = delivery_id;
      receipt_id = receipt_id;
      emitter_name = emitter_name;
      state = state;
      attempt_count = attempt_count;
      last_error = last_error;
      last_attempt_at = last_attempt_at;
      next_attempt_at = next_attempt_at;
      emitted_at = emitted_at;
      immutable = immutable;
      created_at = created_at;
    })

  module _ (serde : SerdeJson) where
    unfoldable pub receipt_from_row : ReceiptRow Json → Result (WebhookReceipt Json) StorageError
    unfolding deserialize_enum
    receipt_from_row row = do
      verification_status ← deserialize_enum serde verification_statuses row.verification_status
      processing_state ← deserialize_enum serde processing_states row.processing_state
      ok (record {
        receipt_id = row.receipt_id;
        provider_name = row.provider_name;
        provider_event_id = row.provider_event_id;
        external_reference = row.external_reference;
        dedupe_key = row.dedupe_key;
        payload_hash = row.payload_hash;
        raw_body = row.raw_body;
        parsed_payload = row.parsed_payload;
        raw_headers = row.raw_headers;
        normalized_event_type = row.normalized_event_type;
        verification_status = verification_status;
        verification_reason = row.verification_reason;
        processing_state = processing_state;
        emit_count = row.emit_count;
        last_error = row.last_error;
        received_at = row.received_at;
        processed_at = row.processed_at;
        metadata = row.metadata;
      })

    -- What the two `INSERT INTO webhook_receipts` bind to the columns.
    unfoldable pub bound_receipt : WebhookReceipt Json → Result (ReceiptRow Json) StorageError
    unfolding serialize_enum processing_state_name verification_status_name
    bound_receipt r = do
      processing_state ← serialize_enum serde (processing_state_name r.processing_state)
      verification_status ← serialize_enum serde (verification_status_name r.verification_status)
      ok (record {
        receipt_id = r.receipt_id;
        provider_name = r.provider_name;
        provider_event_id = r.provider_event_id;
        external_reference = r.external_reference;
        dedupe_key = r.dedupe_key;
        payload_hash = r.payload_hash;
        raw_body = r.raw_body;
        parsed_payload = r.parsed_payload;
        raw_headers = r.raw_headers;
        normalized_event_type = r.normalized_event_type;
        verification_status = verification_status;
        verification_reason = r.verification_reason;
        processing_state = processing_state;
        emit_count = r.emit_count;
        last_error = r.last_error;
        received_at = r.received_at;
        processed_at = r.processed_at;
        metadata = r.metadata;
      })

    -- `rows.iter().map(|r| pg_row_to_receipt_row(r).and_then(receipt_from_row)).collect()`.
    unfoldable pub receipts_of :
        List (PgRow Json) → Result (List (WebhookReceipt Json)) StorageError
    unfolding pg_row_to_receipt_row receipt_from_row
    receipts_of [] = ok []
    receipts_of (row ∷ rows) = do
      r ← pg_row_to_receipt_row row >>= receipt_from_row
      rs ← receipts_of rows
      ok (r ∷ rs)

    unfoldable pub deliveries_of : List (PgRow Json) → Result (List WebhookDelivery) StorageError
    unfolding pg_row_to_delivery_row delivery_from_row
    deliveries_of [] = ok []
    deliveries_of (row ∷ rows) = do
      d ← pg_row_to_delivery_row row >>= delivery_from_row serde
      ds ← deliveries_of rows
      ok (d ∷ ds)
