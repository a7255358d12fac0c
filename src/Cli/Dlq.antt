-- ===== src/Cli/Dlq.antt =====
-- `dlq retry` of crates/hookbox-cli/src/commands/dlq.rs, and what it promises.
use mathlib.Core.List.{Memᴰ}
use hookbox.Prelude.{
  String, Bool, true, false, List, [], ◌∷◌, ◌++◌, Option, none, some, Result, ok, err, not,
  if◌then◌else◌, ◌≡◌, refl, subst, arith,
}
use hookbox.Domain.{DeliveryId, DeliveryState, WebhookReceipt, WebhookDelivery, StorageError}
use hookbox.Postgres.Exec.{Database}
use hookbox.Postgres.Receipts.{pending_delivery}
use hookbox.Postgres.Deliveries.{get_delivery, insert_replay, is_dead}
use hookbox.Config.Emitters.{HookboxConfig}
use hookbox.Config.Validate.{ConfigError}
use hookbox.Config.Normalize.{parse_and_normalize}
use hookbox.Cli.Names.{has_name, has_name-Mem}
use hookbox.Cli.Replay.{emitter_names}
use hookbox.Routes.Redelivery.{Found, get_delivery-Found, Placed, insert_replay-Placed}

-- What the texts of the errors say.
pub data RetryError : Type 0 where
  unreadable no_connection not_configured : String → RetryError
  config : ConfigError → RetryError
  storage : StorageError → RetryError
  not_found : RetryError
  not_dead_lettered : DeliveryState → RetryError

abbrev pub Outcome : Type 0 → Type 0
Outcome Json = Result (Unit {0}) RetryError × Database Json

module _ {Json : Type 0} where
  unfoldable pub queued : Result DeliveryId StorageError × Database Json → Outcome Json
  queued (ok id, db) = (ok tt, db)
  queued (err e, db) = (err (RetryError.storage e), db)

  unfoldable pub retry_dead :
      List String → WebhookDelivery → WebhookReceipt Json → Database Json → Outcome Json
  unfolding queued insert_replay
  retry_dead configured d r db =
      if not (is_dead d.state)
      then (err (RetryError.not_dead_lettered d.state), db)
      else if not (has_name configured d.emitter_name)
      then (err (RetryError.not_configured d.emitter_name), db)
      else queued (insert_replay r.receipt_id d.emitter_name db)

  unfoldable pub after_fetch :
      List String
      → Result (Option (WebhookDelivery × WebhookReceipt Json)) StorageError × Database Json
      → Outcome Json
  unfolding retry_dead
  after_fetch configured (err e, db) = (err (RetryError.storage e), db)
  after_fetch configured (ok none, db) = (err RetryError.not_found, db)
  after_fetch configured (ok (some (d, r)), db) = retry_dead configured d r db

  unfoldable pub retry_with :
      Result (HookboxConfig × List String) ConfigError
      → Result (Unit {0}) String
      → DeliveryId
      → Database Json
      → Outcome Json
  unfolding after_fetch get_delivery
  retry_with (err e) connection id db = (err (RetryError.config e), db)
  retry_with (ok (c, warnings)) (err e) id db = (err (RetryError.no_connection e), db)
  retry_with (ok (c, warnings)) (ok _) id db = after_fetch (emitter_names c) (get_delivery id db)

  -- The arguments are those of `run_replay_id`.
  unfoldable pub run_dlq_retry :
      (String → Result HookboxConfig String)
      → Result String String
      → Result (Unit {0}) String
      → DeliveryId
      → Database Json
      → Outcome Json
  unfolding parse_and_normalize retry_with
  run_dlq_retry from_str (err e) connection id db = (err (RetryError.unreadable e), db)
  run_dlq_retry from_str (ok raw) connection id db =
      retry_with (parse_and_normalize from_str raw) connection id db

module _ {Json : Type 0} (from_str : String → Result HookboxConfig String) (id : DeliveryId) where
  -- The delivery was dead-lettered, its emitter is configured, and one pending row was added; or
  -- there is an error and no change.
  unfoldable pub Retried : Result String String → Database Json → Outcome Json → Type 0
  Retried raw db (err e, db') = db'.tables ≡ db.tables
  Retried raw db (ok _, db') =
      (db'.tables.receipts ≡ db.tables.receipts)
      × ((text : String) × (c : HookboxConfig) × (warnings : List String) × (d : WebhookDelivery)
          × (r : WebhookReceipt Json) × (new_id : DeliveryId) × (raw ≡ ok text)
          × (parse_and_normalize from_str text ≡ ok (c, warnings))
          × ((get_delivery id db).0 ≡ ok (some (d, r)))
          × (d.state ≡ DeliveryState.dead_lettered)
          × Memᴰ d.emitter_name (emitter_names c)
          × (db'.tables.deliveries
              ≡ db.tables.deliveries
                ++ pending_delivery new_id r.receipt_id d.emitter_name db.now ∷ []))

  module _ (text : String) (c : HookboxConfig) (warnings : List String) (db : Database Json)
      (parsed : parse_and_normalize from_str text ≡ ok (c, warnings)) where
    dead-Retried :
        (d : WebhookDelivery) (r : WebhookReceipt Json) (db' : Database Json)
        → (get_delivery id db).0 ≡ ok (some (d, r))
        → db'.tables ≡ db.tables
        → db'.now ≡ db.now
        → Retried (ok text) db (retry_dead (emitter_names c) d r db')
    unfolding retry_dead queued Retried
    dead-Retried d r db' fetched same same_now =
        tested (is_dead d.state) refl (has_name (emitter_names c) d.emitter_name) refl
      where
        added :
            d.state ≡ DeliveryState.dead_lettered
            → Memᴰ d.emitter_name (emitter_names c)
            → (o : Result DeliveryId StorageError × Database Json)
            → Placed r.receipt_id d.emitter_name db.tables db.now o
            → Retried (ok text) db (queued o)
        added dead there (ok new_id, db'') p =
            (p.0, (text, c, warnings, d, r, new_id, refl, parsed, fetched, dead, there, p.1))
        added dead there (err e, db'') p = p

        tested :
            (dead : Bool)
            → is_dead d.state ≡ dead
            → (there : Bool) → has_name (emitter_names c) d.emitter_name ≡ there
            → Retried (ok text) db (
                if not dead
                then (err (RetryError.not_dead_lettered d.state), db')
                else if not there
                then (err (RetryError.not_configured d.emitter_name), db')
                else queued (insert_replay r.receipt_id d.emitter_name db'))
        tested false e b f = same
        tested true e false f = same
        tested true e true f =
            added (ground (arith, e)) (has_name-Mem (emitter_names c) d.emitter_name f) _ (
              subst
                (λ n.
                  Placed r.receipt_id d.emitter_name db.tables n
                    (insert_replay r.receipt_id d.emitter_name db'))
                same_now
                (subst
                  (λ t.
                    Placed r.receipt_id d.emitter_name t db'.now
                      (insert_replay r.receipt_id d.emitter_name db'))
                  same (insert_replay-Placed r.receipt_id d.emitter_name db')))

    fetch-Retried :
        (o : Result (Option (WebhookDelivery × WebhookReceipt Json)) StorageError × Database Json)
        → (get_delivery id db).0 ≡ o.0
        → Found id db.tables db.now o
        → Retried (ok text) db (after_fetch (emitter_names c) o)
    unfolding after_fetch Retried
    fetch-Retried (err e, db') fetched same = same
    fetch-Retried (ok none, db') fetched same = same
    fetch-Retried (ok (some (d, r)), db') fetched (_, same, same_now) =
        dead-Retried d r db' fetched same same_now

  -- A retry from the dead letters either changes no table, or it read a configuration that
  -- `normalize` accepts, the delivery was dead-lettered and its emitter is configured, and exactly
  -- one pending row, due now, was added for the emitter and the receipt of the delivery.
  pub run_dlq_retry-Retried :
      (raw : Result String String) (connection : Result (Unit {0}) String) (db : Database Json)
      → Retried raw db (run_dlq_retry from_str raw connection id db)
  unfolding run_dlq_retry retry_with Retried
  run_dlq_retry-Retried (err e) connection db = refl
  run_dlq_retry-Retried (ok text) connection db =
      configured (parse_and_normalize from_str text) connection refl
    where
      configured :
          (o : Result (HookboxConfig × List String) ConfigError)
          (connection : Result (Unit {0}) String)
          → parse_and_normalize from_str text ≡ o
          → Retried (ok text) db (retry_with o connection id db)
      configured (err x) connection e = refl
      configured (ok (c, ws)) (err x) e = refl
      configured (ok (c, ws)) (ok _) e =
          fetch-Retried text c ws db e (get_delivery id db) refl (get_delivery-Found id db)
