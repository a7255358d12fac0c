-- ===== src/Domain/Receipt.antt =====
-- crates/hookbox/src/types.rs. `Json` stands for `serde_json::Value`; bytes are numbers.
use hookbox.Prelude.{ℕ, ℤ, String, Option}
use hookbox.Prelude.{List}
use hookbox.Domain.State.{ReceiptId, DateTime, VerificationStatus, ProcessingState}

pub record WebhookReceipt (Json : Type 0) : Type 0 where
  pub receipt_id : ReceiptId
  pub provider_name : String
  pub provider_event_id : Option String
  pub external_reference : Option String
  pub dedupe_key : String
  pub payload_hash : String
  pub raw_body : List ℕ
  pub parsed_payload : Option Json
  pub raw_headers : Json
  pub normalized_event_type : Option String
  pub verification_status : VerificationStatus
  pub verification_reason : Option String
  pub processing_state : ProcessingState
  pub emit_count : ℤ
  pub last_error : Option String
  pub received_at : DateTime
  pub processed_at : Option DateTime
  pub metadata : Json

pub record NormalizedEvent (Json : Type 0) : Type 0 where
  pub receipt_id : ReceiptId
  pub provider_name : String
  pub event_type : Option String
  pub external_reference : Option String
  pub parsed_payload : Option Json
  pub payload_hash : String
  pub received_at : DateTime
  pub metadata : Json

unfoldable pub from_receipt : {Json : Type 0} → WebhookReceipt Json → NormalizedEvent Json
from_receipt r = record {
  receipt_id = r.receipt_id;
  provider_name = r.provider_name;
  event_type = r.normalized_event_type;
  external_reference = r.external_reference;
  parsed_payload = r.parsed_payload;
  payload_hash = r.payload_hash;
  received_at = r.received_at;
  metadata = r.metadata;
}

pub record ReceiptFilter : Type 0 where
  pub provider_name : Option String
  pub processing_state : Option ProcessingState
  pub external_reference : Option String
  pub provider_event_id : Option String
  pub limit : Option ℤ
  pub offset : Option ℤ
