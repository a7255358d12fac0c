-- ===== src/Config/Validate.antt =====
-- `validate_emitter_entries` of crates/hookbox-server/src/config.rs.
use hookbox.Prelude.{
  ℕ, pos, String, Option, none, some, Bool, true, false, List, [], ◌∷◌, Result, ok, err, ◌>>◌,
  str_eq, ◌==◌, ◌||◌, not, ltb_ℤ, if◌then◌else◌, any,
}
use hookbox.Config.Float.{less, zero_f64, one_f64}
use hookbox.Config.Emitters.{EmitterEntry}
use hookbox.Config.Names.{is_valid_emitter_name}

-- What the text of `ConfigError::Validation` says, with the emitter that it names.
pub data Violation : Type 0 where
  both_sections no_emitters : Violation
  bad_name duplicate_name zero_concurrency zero_poll_interval bad_jitter bad_max_attempts :
      String → Violation
  zero_lease : String → Violation
  missing_section : String → String → Violation
  unknown_type : String → String → Violation

pub data ConfigError : Type 0 where
  validation : Violation → ConfigError
  -- The text of `toml::de::Error`.
  parse : String → ConfigError

-- `if b { return Err(ConfigError::Validation(violation)); }`
unfoldable pub forbid : Bool → Violation → Result (Unit {0}) ConfigError
forbid true violation = err (ConfigError.validation violation)
forbid false violation = ok tt

abbrev pub is_none {ℓ} : {A : Type ℓ} → Option A → Bool
is_none none = true
is_none (some a) = false

abbrev pub is_zero_lease : Option ℕ → Bool
is_zero_lease none = false
is_zero_lease (some n) = n == 0

-- The `match` on the type.
unfoldable pub validate_backend : EmitterEntry → Result (Unit {0}) ConfigError
unfolding forbid
validate_backend e =
    if str_eq e.emitter_type "channel"
    then ok tt
    else if str_eq e.emitter_type "kafka"
    then forbid (is_none e.kafka) (Violation.missing_section e.name "kafka")
    else if str_eq e.emitter_type "nats"
    then forbid (is_none e.nats) (Violation.missing_section e.name "nats")
    else if str_eq e.emitter_type "sqs"
    then forbid (is_none e.sqs) (Violation.missing_section e.name "sqs")
    else if str_eq e.emitter_type "redis"
    then forbid (is_none e.redis) (Violation.missing_section e.name "redis")
    else err (ConfigError.validation (Violation.unknown_type e.name e.emitter_type))

-- The body of the loop, with the names inserted so far.
unfoldable pub validate_entry : List String → EmitterEntry → Result (Unit {0}) ConfigError
unfolding is_valid_emitter_name forbid less validate_backend
validate_entry seen e = do
  forbid (not (is_valid_emitter_name e.name)) (Violation.bad_name e.name)
  forbid (any (str_eq e.name) seen) (Violation.duplicate_name e.name)
  forbid (e.concurrency == 0) (Violation.zero_concurrency e.name)
  forbid (e.poll_interval_seconds == 0) (Violation.zero_poll_interval e.name)
  forbid (less e.retry.jitter zero_f64 || less one_f64 e.retry.jitter) (Violation.bad_jitter e.name)
  forbid (ltb_ℤ e.retry.max_attempts (pos 1)) (Violation.bad_max_attempts e.name)
  forbid (is_zero_lease e.lease_duration_seconds) (Violation.zero_lease e.name)
  validate_backend e

unfoldable pub validate_entries : List String → List EmitterEntry → Result (Unit {0}) ConfigError
unfolding validate_entry
validate_entries seen [] = ok tt
validate_entries seen (e ∷ entries) =
    let rest = validate_entries (e.name ∷ seen) entries in do validate_entry seen e; rest

unfoldable pub validate_emitter_entries : List EmitterEntry → Result (Unit {0}) ConfigError
unfolding validate_entries
validate_emitter_entries entries = validate_entries [] entries
