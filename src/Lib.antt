-- ===== src/Lib.antt =====
-- hookbox: a webhook inbox. A request goes through the pipeline (verify, advisory dedupe,
-- durable store with one delivery row per emitter); a worker per emitter leases the rows, emits
-- them and records the outcome; a retry worker does the same on receipts.
--
-- Which file models which part (paths from the repository's root):
-- - Domain: crates/hookbox/src/state.rs, types.rs, error.rs. A uuid, a time in microseconds and
--   a byte are natural numbers, an i32 is an integer, `serde_json::Value` is a parameter.
-- - Transitions: crates/hookbox/src/transitions.rs. Labels; Retry: `retry_next_state`; Backoff
--   and Delays: `compute_backoff` and its cap; Latest and Newest: `latest_mutable_per_emitter`;
--   Aggregate: `receipt_aggregate_state`.
-- - Dedupe: crates/hookbox/src/dedupe.rs and the trait `DedupeStrategy`. Recent:
--   `InMemoryRecentDedupe`; Layered: `LayeredDedupe`; Window and Memory: what they keep.
-- - Postgres: crates/hookbox-postgres/src/storage.rs and the constraints of its migrations.
--   Exec: a database is its tables, the time, the ids to come and a script that says which of
--   the coming statements fail; an operation is a function from a database to a result and a
--   database. Receipts and Deliveries: the operations, under the names of the source. Rules:
--   proof rules for statements. Inserts, Store and Replays: the transactions that insert.
--   Consistent, Keeping, Claimed, Steps: the constraints in any history. Moves and Histories:
--   how rows change. Advice: `StorageDedupe` of dedupe.rs. Columns, Rows and Decoded: the
--   columns of the tables and the texts in them, written and read back; elsewhere a row is the
--   receipt or the delivery itself. Interface: the trait `DeliveryStorage`. Reads: what only
--   reads.
-- - Pipeline: crates/hookbox/src/pipeline.rs, hash.rs and traits.rs. Traits: the interfaces;
--   Ingest: `ingest` and the builder, with the metrics as a list of events; Contract, Counters,
--   Advisory, Durable: what `ingest` promises.
-- - Providers: crates/hookbox-providers/src. A text is the list of its bytes. Crypto: hex,
--   base64, HMAC, RSA and the header map as parameters, and the early returns; Text: `split`,
--   `strip_prefix`, `split_whitespace`, `parse::<u64>`, `as_bytes` and the test for UTF-8;
--   Fields: the fields of a signature header; Stripe, TripleaCrypto, Walapay, GenericHmac,
--   Adyen, Bvnk, TripleaFiat: the verifiers; Boxed: all of them as one type; Timestamped,
--   StripeAccepts, TripleaAccepts, Svix, Plain: what they accept.
-- - Config: crates/hookbox-server/src/config.rs. Float: `f64` with its comparison; Sections and
--   Emitters: the sections, their defaults and conversions; Names, Validate: the validation;
--   Normalize: `normalize`; Backends, WellFormed, Normalized: what they accept and give.
-- - Emitters: crates/hookbox/src/emitter.rs (Local), and crates/hookbox-emitter-kafka, -nats,
--   -sqs and -redis, over clients that are parameters (Brokers).
-- - Bootstrap: crates/hookbox-server/src/bootstrap.rs (Verifiers; Steps, Keys and Built: what is
--   built) and emitter_factory.rs (Factory).
-- - Worker: crates/hookbox-server/src/worker.rs. Dispatch: `dispatch_one`, `update_health` and
--   `retry_one`; Loop: one turn of each loop; Shutdown: the loops, over the wakes to come;
--   Leases, Outcomes, Settles, Batches, Health: what they do.
-- - Serve: crates/hookbox-server/src/serve.rs. Assembly: `build_pipeline`; Tasks: the handles of
--   tasks, `drain_worker_handles` and `supervise_worker`; Workers: `spawn_emitter_workers`;
--   Inner: `serve_inner`; Waits and Drained: what is awaited; Supervised and Started: what
--   `readyz` shows.
-- - Cli: crates/hookbox-cli/src/commands. Replay: `run_replay_id` of replay.rs, with `name_set`
--   for a `BTreeSet` (Names); Historical, Replayed: what a replay does. Duration:
--   `parse_duration` and `replay failed`. Dlq: `dlq retry` of dlq.rs. Serve: `run` of serve.rs.
--   Listings and Counts: the commands that print; Tallied: what `emitters list` shows. Main: the
--   commands of main.rs but `serve`; Safe: what they change.
-- - Routes: crates/hookbox-server/src/routes, and lib.rs (Router). Ingest: `ingest_webhook` of
--   ingest.rs; Health: `readyz` of health.rs; Admin, Authority and Redelivery: `check_auth`,
--   `replay_receipt` and `replay_delivery` of admin.rs; Listings: its handlers that read,
--   `get_delivery` as `show_delivery` and `list_dlq` as `show_dlq`; Listed: what the first of
--   them shows.
-- - Prelude: tests, lists, integers, tables. Examples: the theorems at concrete values.
--
-- The parts meet in interfaces: the pipeline takes a `Storage`, a `DedupeStrategy` and
-- verifiers; `postgres_storage` and `recent_strategy` implement them, and `ingest-Durable` is
-- the pipeline over PostgreSQL. The worker acts on the same database as the pipeline, and so
-- does the command line. `build_provider_verifiers` makes the verifiers, and `build_emitter` the
-- emitters, from what `normalize` gives.
--
-- Bounds: the worker is that of a release build; the counter of failures is a u32 and wraps;
-- attempt counts are i32 with the wrap of a release build; the SQL refuses an `emit_count` at
-- its limit. No function runs on fuel: all loops are over lists; a worker's loop is over the
-- list of the wakes to come, and the retry worker's, which has no end, over the number of its
-- rounds.
--
-- Not modelled: statements run whole, one after the other, so row locks do not occur, and the
-- dispatches of a batch run in turn; a background task is known by its handle, and what runs in
-- it is the worker of Worker; the rounding arithmetic of `f64` and its random numbers, SHA-256,
-- HMAC, RSA, the HTTP header map, the JSON and TOML parsers, `sqlx` on a row and the clients of
-- the queues are parameters; the texts of configuration errors are data types; logging,
-- time-outs, the signals of the operating system, the arguments of the command line and the
-- statements of the migrations are left out. A time is what a TIMESTAMPTZ keeps of it, so the
-- nanoseconds that are cut off when it is bound never appear; a panic of `compute_backoff` in a
-- worker is not followed; a commit whose answer is lost is not distinguished from one that fails
-- without effect; an association list stands for a map.
pub mod Prelude
pub mod Domain
pub mod Transitions
pub mod Dedupe
pub mod Postgres
pub mod Pipeline
pub mod Providers
pub mod Config
pub mod Emitters
pub mod Bootstrap
pub mod Worker
pub mod Routes
pub mod Serve
pub mod Cli
pub mod Examples
