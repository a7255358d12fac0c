-- ===== src/Cli/Main.antt =====
-- crates/hookbox-cli/src/main.rs: the commands other than `serve`, with the tables that they leave
-- behind. Parsing the arguments is clap's.
use hookbox.Prelude.{ℤ, String, Bool, true, false, Option, Result, ok, err}
use hookbox.Domain.{Uuid, DeliveryId, DateTime}
use hookbox.Postgres.Exec.{Database}
use hookbox.Postgres.Columns.{SerdeJson}
use hookbox.Config.Emitters.{HookboxConfig}
use hookbox.Cli.Replay.{run_replay_id}
use hookbox.Cli.Duration.{Chrono, Ended, run_failed}
use hookbox.Cli.Dlq.{run_dlq_retry}
use hookbox.Cli.Listings.{Screen, ReceiptsCommand, DlqQuery, run_receipts, run_dlq}
use hookbox.Cli.Counts.{run_emitters_list, run_config_validate}

-- `Commands`, less `Serve`, each with the arguments that its handler uses.
pub data Commands : Type 0 where
  receipts : ReceiptsCommand → Commands
  replay_id : Uuid → Option String → Commands
  replay_failed : Option String → String → ℤ → Commands
  dlq : DlqQuery → Commands
  dlq_retry : DeliveryId → Commands
  emitters validate : Commands

-- Those that only look.
abbrev pub is_reading : Commands → Bool
is_reading (Commands.receipts command) = true
is_reading (Commands.dlq command) = true
is_reading Commands.emitters = true
is_reading Commands.validate = true
is_reading (Commands.replay_id id emitter) = false
is_reading (Commands.replay_failed provider since limit) = false
is_reading (Commands.dlq_retry id) = false

-- All but `replay failed`, which resets one receipt after the other.
abbrev pub is_whole : Commands → Bool
is_whole (Commands.replay_failed provider since limit) = false
is_whole _ = true

-- What the command line meets: the file of the configuration, the connection, the migration, which
-- is sqlx's, and the clock.
pub record Terminal (Duration : Type 0) : Type 0 where
  pub serde : SerdeJson
  pub from_str : String → Result HookboxConfig String
  pub raw : Result String String
  pub connection : Result (Unit {0}) String
  pub migrated : Result (Unit {0}) String
  pub chrono : Chrono Duration
  pub now : DateTime

abbrev pub is_ok : {A E : Type 0} → Result A E → Bool
is_ok (ok a) = true
is_ok (err e) = false

abbrev pub is_finished : Ended → Bool
is_finished Ended.finished = true
is_finished _ = false

module _ {Duration Json : Type 0} (t : Terminal Duration) where
  abbrev on_screen : Screen Json → Bool × Database Json
  on_screen (r, lines, db) = (is_ok r, db)

  abbrev migrated_then :
      Result (Unit {0}) String
      → Result (Unit {0}) String
      → (Database Json → Ended × Database Json)
      → Database Json
      → Bool × Database Json
  migrated_then (ok _) (ok _) k db = let done = k db in (is_finished done.0, done.1)
  migrated_then (ok _) (err e) k db = (false, db)
  migrated_then (err e) migration k db = (false, db)

  -- Whether the command ends without an error, and the database after it.
  unfoldable pub run_command : Commands → Database Json → Bool × Database Json
  unfolding run_receipts run_dlq run_emitters_list run_config_validate run_replay_id run_failed
      run_dlq_retry
  run_command (Commands.receipts command) db =
      on_screen (run_receipts t.serde t.connection command db)
  run_command (Commands.replay_id id emitter) db =
      let done = run_replay_id t.from_str t.raw t.connection id emitter db in (is_ok done.0, done.1)
  run_command (Commands.replay_failed provider since limit) db =
      migrated_then t.connection t.migrated (run_failed t.chrono provider since limit t.now) db
  run_command (Commands.dlq query) db = on_screen (run_dlq t.connection query db)
  run_command (Commands.dlq_retry id) db =
      let done = run_dlq_retry t.from_str t.raw t.connection id db in (is_ok done.0, done.1)
  run_command Commands.emitters db = on_screen (run_emitters_list t.from_str t.raw t.connection db)
  run_command Commands.validate db =
      (is_ok (run_config_validate {Json = Json} t.from_str t.raw), db)
