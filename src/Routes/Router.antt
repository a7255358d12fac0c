-- ===== src/Routes/Router.antt =====
-- crates/hookbox-server/src/lib.rs, `build_router`: the table of routes, and the handlers of the
-- administration behind it, which all ask for the token. axum applies the limit on bodies.
use Prim.Native.String.{◌++◌ as text_append}
use hookbox.Prelude.{
  String, Bool, true, false, List, [], ◌∷◌, Option, none, some, ◌≡◌, ◌≢◌, refl, str_eq, str_eq_iff,
  ap,
}
use hookbox.Domain.{Uuid, DeliveryId}
use hookbox.Postgres.Exec.{Database}
use hookbox.Worker.Dispatch.{EmitterHealth}
use hookbox.Routes.Admin.{AppState, Reply, Value, check_auth, authorized_replay, replay_receipt}
use hookbox.Routes.Redelivery.{authorized_redelivery, replay_delivery}
use hookbox.Routes.Authority.{denied_code}
use hookbox.Routes.Listings.{
  View, Page, ListReceiptsQuery, ListDlqQuery, authorized, list_receipts, get_receipt,
  show_delivery, show_dlq, list_emitters,
}

pub data Method : Type 0 where
  get post : Method

pub data Endpoint : Type 0 where
  ingest healthz readyz receipts receipt replay dlq delivery redelivery emitters metrics : Endpoint

unfoldable pub build_router : List (Method × String × Endpoint)
build_router =
    (Method.post, "/webhooks/{provider}", Endpoint.ingest)
    ∷ (Method.get, "/healthz", Endpoint.healthz)
    ∷ (Method.get, "/readyz", Endpoint.readyz)
    ∷ (Method.get, "/api/receipts", Endpoint.receipts)
    ∷ (Method.get, "/api/receipts/{id}", Endpoint.receipt)
    ∷ (Method.post, "/api/receipts/{id}/replay", Endpoint.replay)
    ∷ (Method.get, "/api/dlq", Endpoint.dlq)
    ∷ (Method.get, "/api/deliveries/{id}", Endpoint.delivery)
    ∷ (Method.post, "/api/deliveries/{id}/replay", Endpoint.redelivery)
    ∷ (Method.get, "/api/emitters", Endpoint.emitters)
    ∷ (Method.get, "/metrics", Endpoint.metrics)
    ∷ []

-- A request to the administration, with what its route and its query give.
pub data AdminCall : Type 0 where
  receipts : ListReceiptsQuery → AdminCall
  receipt : Uuid → AdminCall
  replay : Uuid → Option String → AdminCall
  dlq : ListDlqQuery → AdminCall
  delivery redelivery : DeliveryId → AdminCall
  emitters : AdminCall

unfoldable pub endpoint_of : AdminCall → Endpoint
endpoint_of (AdminCall.receipts q) = Endpoint.receipts
endpoint_of (AdminCall.receipt id) = Endpoint.receipt
endpoint_of (AdminCall.replay id emitter) = Endpoint.replay
endpoint_of (AdminCall.dlq q) = Endpoint.dlq
endpoint_of (AdminCall.delivery id) = Endpoint.delivery
endpoint_of (AdminCall.redelivery id) = Endpoint.redelivery
endpoint_of AdminCall.emitters = Endpoint.emitters

module _ {Json : Type 0} where
  abbrev replied : Reply × Database Json → Page Json
  replied (r, db) = (View.reply r, db)

  module _ (st : AppState) (emitter_health : List (String × EmitterHealth))
      (authorization : Option (Option String)) where
    unfoldable pub run_admin : AdminCall → Database Json → Page Json
    unfolding list_receipts get_receipt show_dlq show_delivery list_emitters replay_receipt
        replay_delivery
    run_admin (AdminCall.receipts q) db = list_receipts st authorization q db
    run_admin (AdminCall.receipt id) db = get_receipt st authorization id db
    run_admin (AdminCall.replay id emitter) db =
        replied (replay_receipt st authorization id emitter db)
    run_admin (AdminCall.dlq q) db = show_dlq st authorization q db
    run_admin (AdminCall.delivery id) db = show_delivery st authorization id db
    run_admin (AdminCall.redelivery id) db = replied (replay_delivery st authorization id db)
    run_admin AdminCall.emitters db = list_emitters st authorization emitter_health db

    -- 401, and the database as it was: not even a statement was run.
    abbrev pub Denied : Database Json → Page Json → Type 0
    Denied db page = (r : Reply) × (page ≡ (View.reply r, db)) × (r.0 ≡ 401)

    denied-run :
        (call : AdminCall) (db : Database Json) (r : Reply)
        → check_auth st.admin_token authorization ≡ some r
        → run_admin call db ≡ (View.reply r, db)
    unfolding run_admin authorized authorized_replay authorized_redelivery
    denied-run (AdminCall.receipts q) db r e = rw e refl
    denied-run (AdminCall.receipt id) db r e = rw e refl
    denied-run (AdminCall.replay id emitter) db r e = rw e refl
    denied-run (AdminCall.dlq q) db r e = rw e refl
    denied-run (AdminCall.delivery id) db r e = rw e refl
    denied-run (AdminCall.redelivery id) db r e = rw e refl
    denied-run AdminCall.emitters db r e = rw e refl

    -- With a token configured, a request without the header, with one that is no text, or with
    -- another text than `Bearer` and the token, is denied by every handler of the administration,
    -- and changes nothing.
    pub run_admin-Denied :
        (token : String) (call : AdminCall) (db : Database Json)
        → st.admin_token ≡ some token
        → authorization ≢ some (some (text_append "Bearer " token))
        → Denied db (run_admin call db)
    unfolding check_auth
    run_admin-Denied token call db e other =
        let (r, denies) = refused authorization other in
        let found : check_auth st.admin_token authorization ≡ some r = rw e denies in
        (r, denied-run call db r found, denied_code st.admin_token authorization r found)
      where
        compared :
            (auth : String) (b : Bool)
            → str_eq auth (text_append "Bearer " token) ≡ b
            → some (some auth) ≢ some (some (text_append "Bearer " token))
            → (r : Reply) × (check_auth (some token) (some (some auth)) ≡ some r)
        compared auth true f n = absurd (n (ap (λ t. some (some t)) ((str_eq_iff _ _).0 f)))
        compared auth false f n = ((401, ("error", Value.text "invalid token") ∷ []), rw f refl)

        refused :
            (o : Option (Option String))
            → o ≢ some (some (text_append "Bearer " token))
            → (r : Reply) × (check_auth (some token) o ≡ some r)
        refused none n = (_, refl)
        refused (some none) n = (_, refl)
        refused (some (some auth)) n = compared auth _ refl n
