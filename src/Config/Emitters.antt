-- ===== src/Config/Emitters.antt =====
-- The emitter sections of crates/hookbox-server/src/config.rs, the legacy one and the list, and the
-- conversions between them.
use hookbox.Prelude.{◌*◌, ℕ, ℤ, pos, String, Option, none, Bool, List}
use hookbox.Config.Float.{F64, two_f64, fifth_f64}
use hookbox.Config.Sections.{
  ServerConfig, DatabaseConfig, ProviderConfig, DedupeConfig, AdminConfig, RetryConfig,
}

pub record KafkaEmitterConfig : Type 0 where
  pub brokers : String
  pub topic : String
  pub client_id : String
  pub acks : String
  pub timeout_ms : ℕ

pub record NatsEmitterConfig : Type 0 where
  pub url : String
  pub subject : String

pub record SqsEmitterConfig : Type 0 where
  pub queue_url : String
  pub region : Option String
  pub fifo : Bool
  pub endpoint_url : Option String

pub record RedisEmitterConfig : Type 0 where
  pub url : String
  pub stream : String
  pub maxlen : Option ℕ
  pub timeout_ms : ℕ

pub record EmitterConfig : Type 0 where
  pub emitter_type : String
  pub kafka : Option KafkaEmitterConfig
  pub nats : Option NatsEmitterConfig
  pub sqs : Option SqsEmitterConfig
  pub redis : Option RedisEmitterConfig

abbrev pub default_emitter_type : String
default_emitter_type = "channel"

unfoldable pub default_emitter : EmitterConfig
default_emitter = record {
  emitter_type = default_emitter_type;
  kafka = none;
  nats = none;
  sqs = none;
  redis = none;
}

pub record RetryPolicyConfig : Type 0 where
  pub max_attempts : ℤ
  pub initial_backoff_seconds : ℕ
  pub max_backoff_seconds : ℕ
  pub backoff_multiplier : F64
  pub jitter : F64

unfoldable pub default_retry_policy : RetryPolicyConfig
default_retry_policy = record {
  max_attempts = pos 5;
  initial_backoff_seconds = 30;
  max_backoff_seconds = 3600;
  backoff_multiplier = two_f64;
  jitter = fifth_f64;
}

-- `RetryPolicy` of crates/hookbox/src/state.rs, with the durations in nanoseconds.
pub record RetryPolicy : Type 0 where
  pub max_attempts : ℤ
  pub initial_backoff : ℕ
  pub max_backoff : ℕ
  pub backoff_multiplier : F64
  pub jitter : F64

unfoldable pub into_policy : RetryPolicyConfig → RetryPolicy
into_policy c = record {
  max_attempts = c.max_attempts;
  initial_backoff = c.initial_backoff_seconds * 1000000000;
  max_backoff = c.max_backoff_seconds * 1000000000;
  backoff_multiplier = c.backoff_multiplier;
  jitter = c.jitter;
}

-- `RetryPolicy::default()`.
unfoldable pub default_policy : RetryPolicy
default_policy = record {
  max_attempts = pos 5;
  initial_backoff = 30000000000;
  max_backoff = 3600000000000;
  backoff_multiplier = two_f64;
  jitter = fifth_f64;
}

pub record EmitterEntry : Type 0 where
  pub name : String
  pub emitter_type : String
  pub poll_interval_seconds : ℕ
  pub concurrency : ℕ
  pub lease_duration_seconds : Option ℕ
  pub kafka : Option KafkaEmitterConfig
  pub nats : Option NatsEmitterConfig
  pub sqs : Option SqsEmitterConfig
  pub redis : Option RedisEmitterConfig
  pub retry : RetryPolicyConfig

abbrev pub default_poll_interval : ℕ
default_poll_interval = 5

abbrev pub default_concurrency : ℕ
default_concurrency = 1

unfoldable pub default_entry : EmitterEntry
unfolding default_retry_policy
default_entry = record {
  name = "";
  emitter_type = "";
  poll_interval_seconds = default_poll_interval;
  concurrency = default_concurrency;
  lease_duration_seconds = none;
  kafka = none;
  nats = none;
  sqs = none;
  redis = none;
  retry = default_retry_policy;
}

-- The policy of the default, with the attempts of the global section.
unfoldable pub legacy_retry : RetryConfig → RetryPolicyConfig
unfolding default_retry_policy
legacy_retry global_retry = record {
  max_attempts = global_retry.max_attempts;
  initial_backoff_seconds = default_retry_policy.initial_backoff_seconds;
  max_backoff_seconds = default_retry_policy.max_backoff_seconds;
  backoff_multiplier = default_retry_policy.backoff_multiplier;
  jitter = default_retry_policy.jitter;
}

unfoldable pub from_legacy : EmitterConfig → RetryConfig → EmitterEntry
unfolding default_entry legacy_retry
from_legacy legacy global_retry = record {
  name = "default";
  emitter_type = legacy.emitter_type;
  poll_interval_seconds = global_retry.interval_seconds;
  concurrency = default_entry.concurrency;
  lease_duration_seconds = default_entry.lease_duration_seconds;
  kafka = legacy.kafka;
  nats = legacy.nats;
  sqs = legacy.sqs;
  redis = legacy.redis;
  retry = legacy_retry global_retry;
}

unfoldable pub to_emitter_config : EmitterEntry → EmitterConfig
to_emitter_config e = record {
  emitter_type = e.emitter_type;
  kafka = e.kafka;
  nats = e.nats;
  sqs = e.sqs;
  redis = e.redis;
}

-- `providers` is a map, here by its entries.
pub record HookboxConfig : Type 0 where
  pub server : ServerConfig
  pub database : DatabaseConfig
  pub providers : List (String × ProviderConfig)
  pub dedupe : DedupeConfig
  pub admin : AdminConfig
  pub retry : RetryConfig
  pub emitter : Option EmitterConfig
  pub emitters : List EmitterEntry
