-- ===== src/Cli/Replay.antt =====
-- crates/hookbox-cli/src/commands/replay.rs.
use hookbox.Prelude.{
  ℤ, String, Option, none, some, List, [], ◌∷◌, Result, ok, err, map, not, if◌then◌else◌, select,
}
use hookbox.Domain.{Uuid, DateTime, WebhookReceipt, WebhookDelivery, StorageError}
use hookbox.Postgres.Exec.{Database, Sql, pure, ◌>>=◌, ◌>>◌}
use hookbox.Postgres.Receipts.{query_failed_since, reset_for_retry}
use hookbox.Postgres.Deliveries.{insert_replay, insert_replays, get_deliveries_for_receipt}
use hookbox.Config.Emitters.{HookboxConfig, EmitterEntry}
use hookbox.Config.Validate.{ConfigError}
use hookbox.Config.Normalize.{parse_and_normalize}
use hookbox.Cli.Names.{name_set, has_name}

-- What the texts of the errors say.
pub data ReplayError : Type 0 where
  unreadable no_connection not_configured : String → ReplayError
  config : ConfigError → ReplayError
  storage : StorageError → ReplayError
  no_deliveries : ReplayError
  stale : List String → ReplayError

abbrev pub Answer : Type 0 → Type 0
Answer Json = Result (Unit {0}) ReplayError × Database Json

abbrev pub emitter_names : HookboxConfig → List String
emitter_names c = map (λ (e : EmitterEntry). e.name) c.emitters

module _ {Json : Type 0} where
  unfoldable pub inserted : {A : Type 0} → Result A StorageError × Database Json → Answer Json
  inserted (ok _, db) = (ok tt, db)
  inserted (err e, db) = (err (ReplayError.storage e), db)

  unfoldable pub replay_all : Uuid → List String → Database Json → Answer Json
  unfolding inserted insert_replays
  replay_all id names db = inserted (insert_replays id names db)

  -- The guards on the historical emitters.
  unfoldable pub after_stale : List String → Uuid → List String → Database Json → Answer Json
  unfolding replay_all
  after_stale [] id names db = replay_all id names db
  after_stale (n ∷ ns) id names db = (err (ReplayError.stale (n ∷ ns)), db)

  unfoldable pub after_deliveries :
      List String → Uuid → Result (List WebhookDelivery) StorageError × Database Json → Answer Json
  unfolding name_set after_stale
  after_deliveries configured id (err e, db) = (err (ReplayError.storage e), db)
  after_deliveries configured id (ok [], db) = (err ReplayError.no_deliveries, db)
  after_deliveries configured id (ok (d ∷ ds), db) =
      let historical = name_set (map (λ (d : WebhookDelivery). d.emitter_name) (d ∷ ds)) in
      after_stale (select (λ n. not (has_name configured n)) historical) id historical db

  -- With an emitter, and without.
  unfoldable pub replay : List String → Uuid → Option String → Database Json → Answer Json
  unfolding inserted insert_replay after_deliveries get_deliveries_for_receipt
  replay configured id (some name) db =
      if has_name configured name
      then inserted (insert_replay id name db)
      else (err (ReplayError.not_configured name), db)
  replay configured id none db = after_deliveries configured id (get_deliveries_for_receipt id db)

  abbrev connected :
      Result (Unit {0}) String → (Database Json → Answer Json) → Database Json → Answer Json
  connected (err e) k db = (err (ReplayError.no_connection e), db)
  connected (ok _) k db = k db

  unfoldable pub after_config :
      Result (HookboxConfig × List String) ConfigError
      → Result (Unit {0}) String
      → Uuid
      → Option String
      → Database Json
      → Answer Json
  unfolding name_set replay
  after_config (err e) connection id emitter db = (err (ReplayError.config e), db)
  after_config (ok (c, warnings)) connection id emitter db =
      connected connection (replay (name_set (emitter_names c)) id emitter) db

  -- `raw` is what `read_to_string` gives, `from_str` is `toml::from_str`, and `connection` is what
  -- `db::connect` gives.
  unfoldable pub run_replay_id :
      (String → Result HookboxConfig String)
      → Result String String
      → Result (Unit {0}) String
      → Uuid
      → Option String
      → Database Json
      → Answer Json
  unfolding parse_and_normalize after_config
  run_replay_id from_str (err e) connection id emitter db = (err (ReplayError.unreadable e), db)
  run_replay_id from_str (ok raw) connection id emitter db =
      after_config (parse_and_normalize from_str raw) connection id emitter db

  -- The loop of `replay failed`, which stops at the first error.
  unfoldable pub reset_all : List (WebhookReceipt Json) → Sql Json (Unit {0})
  unfolding reset_for_retry
  reset_all [] = pure tt
  reset_all (r ∷ rs) = do reset_for_retry r.receipt_id; reset_all rs

  -- `replay failed`, from the time that the duration gives.
  unfoldable pub replay_failed : Option String → DateTime → ℤ → Sql Json (Unit {0})
  unfolding query_failed_since reset_all
  replay_failed provider since limit = do
    receipts ← query_failed_since provider since (some limit)
    reset_all receipts
