-- ===== src/Postgres/Decoded.antt =====
-- The texts of the enumerations in crates/hookbox-postgres/src/storage.rs, written and read back.
use Prim.Native.Char.{code}
use hookbox.Prelude.{
  String, Bool, true, List, some, ok, ◌>>=◌, lookup, leb, ◌==◌, ◌&&◌, ◌||◌, ◌≡◌, refl, arith,
}
use hookbox.Domain.{ProcessingState, VerificationStatus, DeliveryState, fmt}
use hookbox.Postgres.Columns.{
  SerdeJson, processing_state_name, verification_status_name, processing_states,
  verification_statuses, delivery_states, trim_quotes, quoted, serialize_enum, deserialize_enum,
}

-- Lower-case letters and underscores.
abbrev pub is_name : String → Bool
is_name String.[] = true
is_name (String.◌∷◌ c s) = ((code c == 95) || (leb 97 (code c) && leb (code c) 122)) && is_name s

-- The JSON of such a name is the name in quotes.
pub record ReadsNames (serde : SerdeJson) : Type 0 where
  pub prints : (s : String) → is_name s ≡ true → serde.to_string s ≡ ok (quoted s)
  pub reads : (s : String) → is_name s ≡ true → serde.from_str (quoted s) ≡ ok s

module _ (serde : SerdeJson) (laws : ReadsNames serde) where
  serialize-name :
      (s : String) → is_name s ≡ true → trim_quotes (quoted s) ≡ s → serialize_enum serde s ≡ ok s
  unfolding serialize_enum
  serialize-name s n e = ground (arith, laws.prints s n)

  deserialize-name :
      {A : Type 0} (variants : List (String × A)) (s : String) (a : A)
      → is_name s ≡ true
      → lookup s variants ≡ some a
      → deserialize_enum serde variants s ≡ ok a
  unfolding deserialize_enum
  deserialize-name variants s a n e = ground (arith, laws.reads s n)

  serialize-state :
      (s : ProcessingState)
      → serialize_enum serde (processing_state_name s) ≡ ok (processing_state_name s)
  unfolding processing_state_name trim_quotes
  serialize-state ProcessingState.received = serialize-name "received" refl refl
  serialize-state ProcessingState.verified = serialize-name "verified" refl refl
  serialize-state ProcessingState.verification_failed =
      serialize-name "verification_failed" refl refl
  serialize-state ProcessingState.duplicate = serialize-name "duplicate" refl refl
  serialize-state ProcessingState.stored = serialize-name "stored" refl refl
  serialize-state ProcessingState.emitted = serialize-name "emitted" refl refl
  serialize-state ProcessingState.processed = serialize-name "processed" refl refl
  serialize-state ProcessingState.emit_failed = serialize-name "emit_failed" refl refl
  serialize-state ProcessingState.dead_lettered = serialize-name "dead_lettered" refl refl
  serialize-state ProcessingState.replayed = serialize-name "replayed" refl refl

  deserialize-state :
      (s : ProcessingState)
      → deserialize_enum serde processing_states (processing_state_name s) ≡ ok s
  unfolding processing_state_name lookup
  deserialize-state ProcessingState.received = deserialize-name _ _ _ refl refl
  deserialize-state ProcessingState.verified = deserialize-name _ _ _ refl refl
  deserialize-state ProcessingState.verification_failed = deserialize-name _ _ _ refl refl
  deserialize-state ProcessingState.duplicate = deserialize-name _ _ _ refl refl
  deserialize-state ProcessingState.stored = deserialize-name _ _ _ refl refl
  deserialize-state ProcessingState.emitted = deserialize-name _ _ _ refl refl
  deserialize-state ProcessingState.processed = deserialize-name _ _ _ refl refl
  deserialize-state ProcessingState.emit_failed = deserialize-name _ _ _ refl refl
  deserialize-state ProcessingState.dead_lettered = deserialize-name _ _ _ refl refl
  deserialize-state ProcessingState.replayed = deserialize-name _ _ _ refl refl

  serialize-status :
      (s : VerificationStatus)
      → serialize_enum serde (verification_status_name s) ≡ ok (verification_status_name s)
  unfolding verification_status_name trim_quotes
  serialize-status VerificationStatus.verified = serialize-name "verified" refl refl
  serialize-status VerificationStatus.failed = serialize-name "failed" refl refl
  serialize-status VerificationStatus.skipped = serialize-name "skipped" refl refl

  deserialize-status :
      (s : VerificationStatus)
      → deserialize_enum serde verification_statuses (verification_status_name s) ≡ ok s
  unfolding verification_status_name lookup
  deserialize-status VerificationStatus.verified = deserialize-name _ _ _ refl refl
  deserialize-status VerificationStatus.failed = deserialize-name _ _ _ refl refl
  deserialize-status VerificationStatus.skipped = deserialize-name _ _ _ refl refl

  deserialize-delivery_state :
      (s : DeliveryState) → deserialize_enum serde delivery_states (fmt s) ≡ ok s
  unfolding fmt lookup
  deserialize-delivery_state DeliveryState.pending = deserialize-name _ _ _ refl refl
  deserialize-delivery_state DeliveryState.in_flight = deserialize-name _ _ _ refl refl
  deserialize-delivery_state DeliveryState.emitted = deserialize-name _ _ _ refl refl
  deserialize-delivery_state DeliveryState.failed = deserialize-name _ _ _ refl refl
  deserialize-delivery_state DeliveryState.dead_lettered = deserialize-name _ _ _ refl refl

  -- Where `serde_json` puts a name in quotes: every processing state and verification status that is
  -- written reads back as itself, and so does the text that a delivery state is displayed as.
  pub deserialize_enum-serialize_enum :
      (s : ProcessingState) (v : VerificationStatus) (d : DeliveryState)
      → ((serialize_enum serde (processing_state_name s)
            >>= deserialize_enum serde processing_states)
          ≡ ok s)
        × ((serialize_enum serde (verification_status_name v)
              >>= deserialize_enum serde verification_statuses)
            ≡ ok v)
        × (deserialize_enum serde delivery_states (fmt d) ≡ ok d)
  deserialize_enum-serialize_enum s v d = (
    rw (serialize-state s) (deserialize-state s),
    rw (serialize-status v) (deserialize-status v),
    deserialize-delivery_state d,
  )
