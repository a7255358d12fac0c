-- ===== src/Postgres/Columns.antt =====
-- crates/hookbox-postgres/src/storage.rs: the rows of the two tables and the texts that stand for
-- the enumerations. What `sqlx` gives of a row is a parameter, and so is `serde_json` on texts.
use Prim.Native.Char.{code}
use Prim.Native.String.{◌++◌ as text_append}
use hookbox.Prelude.{
  ℕ, ℤ, String, Bool, List, [], ◌∷◌, Option, none, some, Result, ok, err, ◌>>=◌, map_err, lookup,
  ◌==◌, if◌then◌else◌,
}
use hookbox.Domain.{
  Uuid, DateTime, ProcessingState, VerificationStatus, DeliveryState, StorageError,
}

-- `try_get` by the type of the column, with the text of its error.
pub record PgRow (Json : Type 0) : Type 0 where
  pub uuid : String → Result Uuid String
  pub text : String → Result String String
  pub optional_text : String → Result (Option String) String
  pub bytes : String → Result (List ℕ) String
  pub json : String → Result Json String
  pub optional_json : String → Result (Option Json) String
  pub int4 : String → Result ℤ String
  pub bool : String → Result Bool String
  pub time : String → Result DateTime String
  pub optional_time : String → Result (Option DateTime) String

-- `to_string` and `from_str` between a text and its JSON, and the text of the error for a name that
-- no variant has.
pub record SerdeJson : Type 0 where
  pub to_string : String → Result String String
  pub from_str : String → Result String String
  pub unknown_variant : String → String

pub record ReceiptRow (Json : Type 0) : Type 0 where
  pub receipt_id : Uuid
  pub provider_name : String
  pub provider_event_id : Option String
  pub external_reference : Option String
  pub dedupe_key : String
  pub payload_hash : String
  pub raw_body : List ℕ
  pub parsed_payload : Option Json
  pub raw_headers : Json
  pub normalized_event_type : Option String
  pub verification_status : String
  pub verification_reason : Option String
  pub processing_state : String
  pub emit_count : ℤ
  pub last_error : Option String
  pub received_at : DateTime
  pub processed_at : Option DateTime
  pub metadata : Json

pub record DeliveryRow : Type 0 where
  pub delivery_id : Uuid
  pub receipt_id : Uuid
  pub emitter_name : String
  pub state : String
  pub attempt_count : ℤ
  pub last_error : Option String
  pub last_attempt_at : Option DateTime
  pub next_attempt_at : DateTime
  pub emitted_at : Option DateTime
  pub immutable : Bool
  pub created_at : DateTime

-- The names under `rename_all = "snake_case"`.
unfoldable pub processing_state_name : ProcessingState → String
processing_state_name ProcessingState.received = "received"
processing_state_name ProcessingState.verified = "verified"
processing_state_name ProcessingState.verification_failed = "verification_failed"
processing_state_name ProcessingState.duplicate = "duplicate"
processing_state_name ProcessingState.stored = "stored"
processing_state_name ProcessingState.emitted = "emitted"
processing_state_name ProcessingState.processed = "processed"
processing_state_name ProcessingState.emit_failed = "emit_failed"
processing_state_name ProcessingState.dead_lettered = "dead_lettered"
processing_state_name ProcessingState.replayed = "replayed"

unfoldable pub verification_status_name : VerificationStatus → String
verification_status_name VerificationStatus.verified = "verified"
verification_status_name VerificationStatus.failed = "failed"
verification_status_name VerificationStatus.skipped = "skipped"

abbrev pub processing_states : List (String × ProcessingState)
processing_states =
    ("received", ProcessingState.received)
    ∷ ("verified", ProcessingState.verified)
    ∷ ("verification_failed", ProcessingState.verification_failed)
    ∷ ("duplicate", ProcessingState.duplicate)
    ∷ ("stored", ProcessingState.stored)
    ∷ ("emitted", ProcessingState.emitted)
    ∷ ("processed", ProcessingState.processed)
    ∷ ("emit_failed", ProcessingState.emit_failed)
    ∷ ("dead_lettered", ProcessingState.dead_lettered)
    ∷ ("replayed", ProcessingState.replayed)
    ∷ []

abbrev pub verification_statuses : List (String × VerificationStatus)
verification_statuses =
    ("verified", VerificationStatus.verified)
    ∷ ("failed", VerificationStatus.failed)
    ∷ ("skipped", VerificationStatus.skipped)
    ∷ []

abbrev pub delivery_states : List (String × DeliveryState)
delivery_states =
    ("pending", DeliveryState.pending)
    ∷ ("in_flight", DeliveryState.in_flight)
    ∷ ("emitted", DeliveryState.emitted)
    ∷ ("failed", DeliveryState.failed)
    ∷ ("dead_lettered", DeliveryState.dead_lettered)
    ∷ []

-- `trim_matches('"')`.
trim_start_quotes : String → String
trim_start_quotes String.[] = String.[]
trim_start_quotes (String.◌∷◌ c s) =
    let rest = trim_start_quotes s in if code c == 34 then rest else String.◌∷◌ c s

trim_end_quotes : String → String
trim_end_quotes String.[] = String.[]
trim_end_quotes (String.◌∷◌ c s) = elim (trim_end_quotes s) [
  | String.[] ↦ if code c == 34 then String.[] else String.◌∷◌ c String.[]
  | String.◌∷◌ d rest ↦ String.◌∷◌ c (String.◌∷◌ d rest)
]

unfoldable pub trim_quotes : String → String
unfolding trim_start_quotes trim_end_quotes
trim_quotes s = trim_end_quotes (trim_start_quotes s)

abbrev pub quoted : String → String
quoted s = text_append "\"" (text_append s "\"")

module _ (serde : SerdeJson) where
  -- The derived `Deserialize` on the name of a variant.
  unfoldable pub variant_of : {A : Type 0} → List (String × A) → String → Result A String
  variant_of variants name = elim (lookup name variants) [
    | none ↦ err (serde.unknown_variant name)
    | some a ↦ ok a
  ]

  -- On a variant of that name.
  unfoldable pub serialize_enum : String → Result String StorageError
  unfolding trim_quotes
  serialize_enum name = do
    json ← map_err StorageError.serialization (serde.to_string name)
    ok (trim_quotes json)

  unfoldable pub deserialize_enum :
      {A : Type 0} → List (String × A) → String → Result A StorageError
  unfolding variant_of lookup
  deserialize_enum variants s =
      map_err StorageError.serialization (serde.from_str (quoted s) >>= variant_of variants)
