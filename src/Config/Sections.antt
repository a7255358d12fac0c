-- ===== src/Config/Sections.antt =====
-- The sections of crates/hookbox-server/src/config.rs that do not concern emitters, with their
-- defaults.
use hookbox.Prelude.{ℕ, ℤ, pos, String, Option}

pub record ServerConfig : Type 0 where
  pub host : String
  pub port : ℕ
  pub body_limit : ℕ

abbrev pub default_host : String
default_host = "0.0.0.0"

abbrev pub default_port : ℕ
default_port = 8080

abbrev pub default_body_limit : ℕ
default_body_limit = 1048576

unfoldable pub default_server : ServerConfig
default_server = record {
  host = default_host;
  port = default_port;
  body_limit = default_body_limit;
}

pub record DatabaseConfig : Type 0 where
  pub url : String
  pub max_connections : ℕ

abbrev pub default_max_connections : ℕ
default_max_connections = 10

pub record ProviderConfig : Type 0 where
  pub verifier_type : String
  pub secret : Option String
  pub public_key : Option String
  pub header : Option String
  pub tolerance_seconds : Option ℕ

abbrev pub default_provider_type : String
default_provider_type = "hmac-sha256"

pub record DedupeConfig : Type 0 where
  pub lru_capacity : ℕ

abbrev pub default_lru_capacity : ℕ
default_lru_capacity = 10000

unfoldable pub default_dedupe : DedupeConfig
default_dedupe = record { lru_capacity = default_lru_capacity }

pub record AdminConfig : Type 0 where
  pub bearer_token : Option String

pub record RetryConfig : Type 0 where
  pub interval_seconds : ℕ
  pub max_attempts : ℤ

abbrev pub default_retry_interval : ℕ
default_retry_interval = 30

abbrev pub default_max_attempts : ℤ
default_max_attempts = pos 5

unfoldable pub default_retry : RetryConfig
default_retry = record {
  interval_seconds = default_retry_interval;
  max_attempts = default_max_attempts;
}
