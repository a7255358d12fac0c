-- ===== src/Domain/Errors.antt =====
-- crates/hookbox/src/error.rs.
use hookbox.Prelude.{String}

pub data StorageError : Type 0 where
  internal serialization : String → StorageError
  fan_out_not_implemented : StorageError

pub data DedupeError : Type 0 where
  internal : String → DedupeError

pub data EmitError : Type 0 where
  downstream timeout : String → EmitError

pub data VerificationError : Type 0 where
  internal : String → VerificationError

pub data IngestError : Type 0 where
  storage : StorageError → IngestError
  dedupe : DedupeError → IngestError
  emit : EmitError → IngestError
  verification : VerificationError → IngestError
