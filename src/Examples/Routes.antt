-- ===== src/Examples/Routes.antt =====
-- The theorems on crates/hookbox-server/src/routes at concrete values.
use Prim.Native.String.{◌++◌ as text_append}
use hookbox.Prelude.{
  Bool, Option, ◌≢◌, str_eq, map, select, ℕ, String, true, false, any, all, List, [], ◌∷◌, ◌≡◌, ◌↔◌,
  refl, none, some, arith,
}
use hookbox.Domain.{VerificationStatus}
use hookbox.Dedupe.Recent.{recent_strategy}
use hookbox.Postgres.Receipts.{has_key}
use hookbox.Pipeline.Traits.{SignatureVerifier, postgres_storage}
use hookbox.Pipeline.Ingest.{dedupe_key_of}
use hookbox.Pipeline.Durable.{postgres_pipeline}
use hookbox.Worker.Dispatch.{EmitterHealth}
use hookbox.Routes.Health.{Ping, has_name, is_unhealthy, readyz, readyz-ok}
use hookbox.Routes.Admin.{AppState, replay_receipt}
use hookbox.Routes.Authority.{Replied, replay_receipt-Replied}
use hookbox.Routes.Listings.{ListReceiptsQuery, list_receipts}
use hookbox.Routes.Listed.{Listed, list_receipts-Listed}
use hookbox.Routes.Router.{
  Method, Endpoint, AdminCall, Denied, build_router, endpoint_of, run_admin, run_admin-Denied,
}
use hookbox.Routes.Redelivery.{Redelivered, replay_delivery, replay_delivery-Redelivered}
use hookbox.Routes.Ingest.{ingest_webhook, ingest_webhook-acknowledged, ingest_webhook-refused}
use hookbox.Examples.Data.{fresh_db, library, names, verifiers, request, world, health}

readyz-ok_example : ((readyz (some Ping.answered) (("kafka", health) ∷ []) names).0 ≡ 200) ↔ (
    (some Ping.answered ≡ some Ping.answered)
    × (all (λ name. has_name name (("kafka", health) ∷ [])) names ≡ true)
    × (any (λ (e : String × EmitterHealth). is_unhealthy e.1.status) (("kafka", health) ∷ [])
        ≡ false))
readyz-ok_example = readyz-ok (some Ping.answered) (("kafka", health) ∷ []) names

ingest_webhook-acknowledged_example :
    any
      (has_key (dedupe_key_of library request))
      (ingest_webhook library
        (postgres_pipeline recent_strategy names verifiers)
        request
        world).1.storage.tables.receipts
    ≡ true
unfolding ingest_webhook postgres_storage
ingest_webhook-acknowledged_example =
    ingest_webhook-acknowledged library recent_strategy names verifiers request world refl

abbrev refusing : List (String × SignatureVerifier ℕ)
refusing =
    (
      "stripe",
      record {
        provider_name = "stripe";
        verify = λ headers body. record {
          status = VerificationStatus.failed;
          reason = some "signature_mismatch";
        };
      },
    )
    ∷ []

not_200 : ¬ (◌≡◌ {A = ℕ} 401 200)
not_200 e = omega (arith, e)

ingest_webhook-refused_example :
    (ingest_webhook library
      (postgres_pipeline recent_strategy names refusing)
      request
      world).1.storage.tables
    ≡ world.storage.tables
unfolding ingest_webhook
ingest_webhook-refused_example =
    ingest_webhook-refused library recent_strategy names refusing request world not_200

abbrev admin : AppState
admin = record { admin_token = some "secret"; emitter_names = names; uuid_text = λ id. "1" }

replay_receipt-Replied_example :
    Replied admin
      (some (some "Bearer secret"))
      1
      (some "kafka")
      fresh_db.tables
      100
      (replay_receipt admin (some (some "Bearer secret")) 1 (some "kafka") fresh_db)
replay_receipt-Replied_example =
    replay_receipt-Replied admin (some (some "Bearer secret")) 1 (some "kafka") fresh_db

replay_delivery-Redelivered_example :
    Redelivered admin
      (some (some "Bearer secret"))
      12
      fresh_db.tables
      100
      (replay_delivery admin (some (some "Bearer secret")) 12 fresh_db)
replay_delivery-Redelivered_example =
    replay_delivery-Redelivered admin (some (some "Bearer secret")) 12 fresh_db

abbrev anything : ListReceiptsQuery
anything = record { provider = none; state = none; limit = none; offset = none }

list_receipts-Listed_example :
    Listed admin
      (some (some "Bearer secret"))
      anything
      fresh_db
      (list_receipts admin (some (some "Bearer secret")) anything fresh_db)
list_receipts-Listed_example =
    list_receipts-Listed admin (some (some "Bearer secret")) anything fresh_db

not_secret :
    ◌≢◌ {A = Option (Option String)}
      (some (some "Bearer guess"))
      (some (some (text_append "Bearer " "secret")))
not_secret e = cc e

run_admin-Denied_example :
    Denied admin []
      (some (some "Bearer guess"))
      fresh_db
      (run_admin admin [] (some (some "Bearer guess")) (AdminCall.redelivery 12) fresh_db)
run_admin-Denied_example =
    run_admin-Denied admin [] (some (some "Bearer guess")) "secret" (AdminCall.redelivery 12)
      fresh_db refl not_secret

-- The routes below /api are those of the administration.
abbrev is_api : String → Bool
is_api (String.◌∷◌ a (String.◌∷◌ b (String.◌∷◌ c (String.◌∷◌ d (String.◌∷◌ e rest))))) =
    str_eq (String.◌∷◌ a (String.◌∷◌ b (String.◌∷◌ c (String.◌∷◌ d (String.◌∷◌ e String.[])))))
      "/api/"
is_api _ = false

api_routes :
    map (λ (r : Method × String × Endpoint). r.2) (select (λ r. is_api r.1) build_router)
    ≡ map endpoint_of (
        AdminCall.receipts anything
        ∷ AdminCall.receipt 1
        ∷ AdminCall.replay 1 none
        ∷ AdminCall.dlq (record { emitter = none; limit = none; offset = none })
        ∷ AdminCall.delivery 1
        ∷ AdminCall.redelivery 1
        ∷ AdminCall.emitters
        ∷ [])
unfolding build_router endpoint_of
api_routes = refl
