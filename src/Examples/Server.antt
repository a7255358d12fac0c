-- ===== src/Examples/Server.antt =====
-- The theorems on the configuration and the start of crates/hookbox-server, and on
-- crates/hookbox-cli, at concrete values.
use mathlib.Core.List.{Memᴰ}
use hookbox.Prelude.{ℤ, ℕ, String, none, some, List, [], ◌∷◌, ◌≡◌, ◌↔◌, refl, ok, All, order_by}
use hookbox.Domain.{WebhookDelivery, DeliveryState}
use hookbox.Postgres.Exec.{Database}
use hookbox.Config.Sections.{ProviderConfig, default_server, default_dedupe, default_retry}
use hookbox.Config.Emitters.{
  EmitterEntry, HookboxConfig, from_legacy, default_entry, default_emitter, to_emitter_config,
}
use hookbox.Config.Validate.{validate_emitter_entries}
use hookbox.Config.WellFormed.{WellFormed, DistinctNames, validate_emitter_entries-WellFormed}
use hookbox.Config.Normalize.{normalize, with_emitters, deprecation}
use hookbox.Config.Normalized.{Normalized, normalize-Normalized}
use hookbox.Providers.Boxed.{BoxedVerifier}
use hookbox.Bootstrap.Verifiers.{build_provider_verifiers, name_le}
use hookbox.Bootstrap.Built.{Matches, build_provider_verifiers-Matches}
use hookbox.Bootstrap.Factory.{Works, build_emitter, build_emitter-normalize}
use hookbox.Cli.Dlq.{Retried, run_dlq_retry, run_dlq_retry-Retried}
use hookbox.Cli.Tallied.{Tallied, run_emitters_list-Tallied}
use hookbox.Cli.Counts.{run_emitters_list}
use hookbox.Cli.Main.{Commands, Terminal, run_command}
use hookbox.Cli.Safe.{Safe, run_command-Safe}
use hookbox.Examples.Rows.{serde}
use hookbox.Examples.Duration.{unbounded}
use hookbox.Examples.Data.{fresh_db, row_waiting}
use hookbox.Examples.Keys.{crypto, brokers, channels}

abbrev kafka_entry : EmitterEntry
unfolding default_entry
kafka_entry = record default_entry {
  name = "kafka";
  emitter_type = "kafka";
  kafka = some (record {
    brokers = "localhost";
    topic = "hooks";
    client_id = "hookbox";
    acks = "all";
    timeout_ms = 5000;
  });
}

validate_emitter_entries-WellFormed_example :
    (validate_emitter_entries (kafka_entry ∷ []) ≡ ok tt)
    ↔ (All WellFormed (kafka_entry ∷ []) × DistinctNames [] (kafka_entry ∷ []))
validate_emitter_entries-WellFormed_example = validate_emitter_entries-WellFormed (kafka_entry ∷ [])

valid_entry : validate_emitter_entries (kafka_entry ∷ []) ≡ ok tt
unfolding validate_emitter_entries kafka_entry
valid_entry = refl

abbrev config : HookboxConfig
unfolding default_server default_dedupe default_retry
config = record {
  server = default_server;
  database = record { url = "postgres://"; max_connections = 10 };
  providers = [];
  dedupe = default_dedupe;
  admin = record { bearer_token = none };
  retry = default_retry;
  emitter = none;
  emitters = kafka_entry ∷ [];
}

abbrev legacy : HookboxConfig
unfolding default_emitter
legacy = record config { emitter = some default_emitter; emitters = [] }

abbrev upgraded : HookboxConfig
unfolding with_emitters from_legacy default_emitter
upgraded = with_emitters legacy (from_legacy default_emitter legacy.retry ∷ [])

upgrades : normalize legacy ≡ ok (upgraded, deprecation ∷ [])
unfolding normalize legacy upgraded config kafka_entry
upgrades = refl

normalize-Normalized_example : Normalized legacy upgraded (deprecation ∷ [])
normalize-Normalized_example = normalize-Normalized legacy upgraded (deprecation ∷ []) upgrades

accepted : normalize config ≡ ok (config, [])
unfolding normalize config kafka_entry
accepted = refl

build_emitter-normalize_example :
    Works brokers channels (build_emitter brokers channels (to_emitter_config kafka_entry) 0)
unfolding config
build_emitter-normalize_example =
    build_emitter-normalize brokers channels config config [] accepted kafka_entry (Memᴰ.head refl)
      0

abbrev providers : List (String × ProviderConfig)
providers =
    (
      "stripe",
      record {
        verifier_type = "stripe";
        secret = some "k";
        public_key = none;
        header = none;
        tolerance_seconds = some 60;
      },
    )
    ∷ []

abbrev verifiers : List (BoxedVerifier (Unit {0}))
verifiers = BoxedVerifier.stripe (record { provider = "stripe"; secret = "k"; tolerance = 60 }) ∷ []

built : build_provider_verifiers crypto providers ≡ ok verifiers
unfolding build_provider_verifiers
built = refl

build_provider_verifiers-Matches_example : Matches crypto (order_by name_le providers) verifiers
build_provider_verifiers-Matches_example =
    build_provider_verifiers-Matches crypto providers verifiers built

abbrev row_dead : WebhookDelivery
row_dead = record row_waiting { state = DeliveryState.dead_lettered }

abbrev dead_db : Database ℕ
dead_db = record fresh_db {
  tables = record { receipts = fresh_db.tables.receipts; deliveries = row_dead ∷ [] };
}

run_dlq_retry-Retried_example :
    Retried
      (λ text. ok config)
      row_dead.delivery_id
      (ok "text")
      dead_db
      (run_dlq_retry (λ text. ok config) (ok "text") (ok tt) row_dead.delivery_id dead_db)
run_dlq_retry-Retried_example =
    run_dlq_retry-Retried (λ text. ok config) row_dead.delivery_id (ok "text") (ok tt) dead_db

run_emitters_list-Tallied_example :
    Tallied
      (λ text. ok config)
      (ok "text")
      dead_db
      (run_emitters_list (λ text. ok config) (ok "text") (ok tt) dead_db)
run_emitters_list-Tallied_example =
    run_emitters_list-Tallied (λ text. ok config) (ok "text") (ok tt) dead_db

abbrev terminal : Terminal ℤ
terminal = record {
  serde = serde;
  from_str = λ text. ok config;
  raw = ok "text";
  connection = ok tt;
  migrated = ok tt;
  chrono = unbounded;
  now = 100;
}

run_command-Safe_example :
    Safe terminal
      (Commands.dlq_retry row_dead.delivery_id)
      dead_db.tables
      (run_command terminal (Commands.dlq_retry row_dead.delivery_id) dead_db)
run_command-Safe_example =
    run_command-Safe terminal (Commands.dlq_retry row_dead.delivery_id) dead_db refl
