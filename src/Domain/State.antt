-- ===== src/Domain/State.antt =====
-- crates/hookbox/src/state.rs. A `Uuid` is a number, a `DateTime<Utc>` the number of
-- microseconds since a fixed origin, which is what a TIMESTAMPTZ keeps of it (`chrono` has the
-- nanoseconds too, until the time is bound), an `i32` an integer.
use hookbox.Prelude.{ℕ, ℤ, String, Bool, true, false, Option}

abbrev pub Uuid : Type 0
Uuid = ℕ

abbrev pub DateTime : Type 0
DateTime = ℕ

abbrev pub ReceiptId : Type 0
ReceiptId = Uuid

abbrev pub DeliveryId : Type 0
DeliveryId = Uuid

pub data ProcessingState : Type 0 where
  received verified verification_failed duplicate stored emitted processed emit_failed dead_lettered
        replayed :
      ProcessingState

pub data VerificationStatus : Type 0 where
  verified failed skipped : VerificationStatus

pub record VerificationResult : Type 0 where
  pub status : VerificationStatus
  pub reason : Option String

pub data DedupeDecision : Type 0 where
  new duplicate conflict : DedupeDecision

pub data StoreResult : Type 0 where
  stored : StoreResult
  duplicate : ReceiptId → StoreResult

pub data IngestResult : Type 0 where
  accepted : ReceiptId → IngestResult
  duplicate : ReceiptId → IngestResult
  verification_failed : String → IngestResult

pub data DeliveryState : Type 0 where
  pending in_flight emitted failed dead_lettered : DeliveryState

-- The derived `PartialEq`s that the program uses.
abbrev pub same_delivery_state : DeliveryState → DeliveryState → Bool
same_delivery_state DeliveryState.pending DeliveryState.pending = true
same_delivery_state DeliveryState.in_flight DeliveryState.in_flight = true
same_delivery_state DeliveryState.emitted DeliveryState.emitted = true
same_delivery_state DeliveryState.failed DeliveryState.failed = true
same_delivery_state DeliveryState.dead_lettered DeliveryState.dead_lettered = true
same_delivery_state _ _ = false

abbrev pub is_emit_failed : ProcessingState → Bool
is_emit_failed ProcessingState.emit_failed = true
is_emit_failed _ = false

abbrev pub is_duplicate : DedupeDecision → Bool
is_duplicate DedupeDecision.duplicate = true
is_duplicate _ = false

pub record WebhookDelivery : Type 0 where
  pub delivery_id : DeliveryId
  pub receipt_id : ReceiptId
  pub emitter_name : String
  pub state : DeliveryState
  pub attempt_count : ℤ
  pub last_error : Option String
  pub last_attempt_at : Option DateTime
  pub next_attempt_at : DateTime
  pub emitted_at : Option DateTime
  pub immutable : Bool
  pub created_at : DateTime

-- `Display` for `DeliveryState`, which is also the text that the database holds.
unfoldable pub fmt : DeliveryState → String
fmt DeliveryState.pending = "pending"
fmt DeliveryState.in_flight = "in_flight"
fmt DeliveryState.emitted = "emitted"
fmt DeliveryState.failed = "failed"
fmt DeliveryState.dead_lettered = "dead_lettered"

pub DeliveryState-discrete : Discrete DeliveryState
DeliveryState-discrete = hlevel

pub ProcessingState-discrete : Discrete ProcessingState
ProcessingState-discrete = hlevel
