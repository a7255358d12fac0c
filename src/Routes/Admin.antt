-- ===== src/Routes/Admin.antt =====
-- crates/hookbox-server/src/routes/admin.rs: `check_auth`, `replay_receipt` and
-- `replay_delivery`. A status code is a number; `uuid_text` is `Display` for `Uuid`.
use hookbox.Prelude.{
  ℕ, String, Bool, any, List, [], ◌∷◌, Option, none, some, Result, ok, err, str_eq, if◌then◌else◌,
}
use hookbox.Domain.{Uuid, ReceiptId, DeliveryId, WebhookReceipt, StorageError}
use hookbox.Postgres.Exec.{Database}
use hookbox.Postgres.Receipts.{get}
use hookbox.Postgres.Deliveries.{insert_replays}
use Prim.Native.String.{◌++◌ as text_append}

pub data Value : Type 0 where
  text : String → Value
  uuid : Uuid → Value
  uuids : List Uuid → Value

abbrev pub Reply : Type 0
Reply = ℕ × List (String × Value)

pub record AppState : Type 0 where
  pub admin_token : Option String
  pub emitter_names : List String
  pub uuid_text : Uuid → String

-- `Display` for `StorageError`.
unfoldable pub storage_error_text : StorageError → String
storage_error_text (StorageError.internal e) = text_append "storage error: " e
storage_error_text (StorageError.serialization e) = text_append "serialization error: " e
storage_error_text StorageError.fan_out_not_implemented =
    "fan-out not implemented by this Storage backend; override store_with_deliveries to transactionally insert delivery rows"

abbrev pub denied : String → Option Reply
denied why = some (401, ("error", Value.text why) ∷ [])

-- The `authorization` header: `none` where there is none, `some none` where it is no text. The
-- result is the reply that ends the request.
unfoldable pub check_auth : Option String → Option (Option String) → Option Reply
check_auth none authorization = none
check_auth (some expected) none = denied "missing authorization header"
check_auth (some expected) (some none) = denied "invalid authorization header"
check_auth (some expected) (some (some auth)) =
    if str_eq auth (text_append "Bearer " expected) then none else denied "invalid token"

abbrev pub contains : List String → String → Bool
contains names name = any (λ n. str_eq n name) names

-- The emitters to replay to; `none` for one that is not configured.
unfoldable pub replay_targets : Option String → List String → Option (List String)
replay_targets none names = some names
replay_targets (some name) names = if contains names name then some (name ∷ []) else none

abbrev pub server_error : StorageError → Reply
server_error e = (500, ("error", Value.text (storage_error_text e)) ∷ [])

abbrev pub name_of : Option String → String
name_of none = ""
name_of (some name) = name

module _ (st : AppState) where
  unfoldable pub not_configured : String → ReceiptId → Reply
  not_configured name id = (
    400,
    (
      "error",
      Value.text (text_append (text_append "emitter '" name) "' is not currently configured"),
    )
        ∷ (
          "hint",
          Value.text (
              text_append (text_append "use POST /api/receipts/" (st.uuid_text id))
                "/replay?emitter=<configured-name>"),
        )
        ∷ [],
  )

  module _ {Json : Type 0} where
    unfoldable pub after_replays :
        Result (List DeliveryId) StorageError × Database Json → Reply × Database Json
    unfolding storage_error_text
    after_replays (ok ids, db) = ((202, ("delivery_ids", Value.uuids ids) ∷ []), db)
    after_replays (err e, db) = (server_error e, db)

    unfoldable pub replay_to :
        Option (List String) → String → Uuid → ReceiptId → Database Json → Reply × Database Json
    unfolding after_replays not_configured insert_replays
    replay_to none name id receipt_id db = (not_configured name id, db)
    replay_to (some names) name id receipt_id db =
        after_replays (insert_replays receipt_id names db)

    unfoldable pub after_get :
        Uuid
        → Option String
        → Result (Option (WebhookReceipt Json)) StorageError × Database Json
        → Reply × Database Json
    unfolding replay_to replay_targets storage_error_text
    after_get id emitter (ok (some r), db) =
        replay_to (replay_targets emitter st.emitter_names) (name_of emitter) id r.receipt_id db
    after_get id emitter (ok none, db) = ((404, ("error", Value.text "receipt not found") ∷ []), db)
    after_get id emitter (err e, db) = (server_error e, db)

    unfoldable pub authorized_replay :
        Option Reply → Uuid → Option String → Database Json → Reply × Database Json
    unfolding after_get get
    authorized_replay (some reply) id emitter db = (reply, db)
    authorized_replay none id emitter db = after_get id emitter (get id db)

    unfoldable pub replay_receipt :
        Option (Option String) → Uuid → Option String → Database Json → Reply × Database Json
    unfolding authorized_replay check_auth
    replay_receipt authorization id emitter db =
        authorized_replay (check_auth st.admin_token authorization) id emitter db
