-- ===== src/Routes/Redelivery.antt =====
-- crates/hookbox-server/src/routes/admin.rs: `replay_delivery`, and what it promises.
use hookbox.Prelude.{
  String, Bool, true, false, [], ◌∷◌, ◌++◌, Option, none, some, Result, ok, err, ◌≡◌, ◌≢◌, ◌⊎◌, inl,
  inr, refl, subst, arith, select_one,
}
use hookbox.Domain.{ReceiptId, DeliveryId, DateTime, WebhookReceipt, WebhookDelivery, StorageError}
use hookbox.Postgres.Exec.{Tables, Database, pure}
use hookbox.Postgres.Rules.{statement_rule, bind_rule, spent}
use hookbox.Postgres.Receipts.{get, has_delivery_id, insert_delivery, place, pending_delivery}
use hookbox.Postgres.Deliveries.{get_delivery, insert_replay, with_receipt, or_missing}
use hookbox.Routes.Authority.{denied_code}
use hookbox.Routes.Admin.{
  AppState, Reply, Value, check_auth, contains, server_error, not_configured, storage_error_text,
}

module _ (st : AppState) {Json : Type 0} where
  unfoldable pub after_replay :
      Result DeliveryId StorageError × Database Json → Reply × Database Json
  unfolding storage_error_text
  after_replay (ok id, db) = ((202, ("delivery_id", Value.uuid id) ∷ []), db)
  after_replay (err e, db) = (server_error e, db)

  -- The test is whether the emitter is still configured.
  unfoldable pub redeliver : Bool → WebhookDelivery → Database Json → Reply × Database Json
  unfolding after_replay not_configured insert_replay
  redeliver true d db = after_replay (insert_replay d.receipt_id d.emitter_name db)
  redeliver false d db = (not_configured st d.emitter_name d.receipt_id, db)

  unfoldable pub after_lookup :
      Result (Option (WebhookDelivery × WebhookReceipt Json)) StorageError × Database Json
      → Reply × Database Json
  unfolding redeliver storage_error_text
  after_lookup (ok (some (d, r)), db) = redeliver (contains st.emitter_names d.emitter_name) d db
  after_lookup (ok none, db) = ((404, ("error", Value.text "delivery not found") ∷ []), db)
  after_lookup (err e, db) = (server_error e, db)

  unfoldable pub authorized_redelivery :
      Option Reply → DeliveryId → Database Json → Reply × Database Json
  unfolding after_lookup get_delivery
  authorized_redelivery (some reply) id db = (reply, db)
  authorized_redelivery none id db = after_lookup (get_delivery id db)

  unfoldable pub replay_delivery :
      Option (Option String) → DeliveryId → Database Json → Reply × Database Json
  unfolding authorized_redelivery check_auth
  replay_delivery authorization id db =
      authorized_redelivery (check_auth st.admin_token authorization) id db

module _ {Json : Type 0} (id : DeliveryId) where
  abbrev Row :
      Tables Json → DateTime → Result (Option WebhookDelivery) StorageError × Database Json → Type 0
  Row t now (ok o, db) =
      (select_one (has_delivery_id id) t.deliveries ≡ o) × (db.tables ≡ t) × (db.now ≡ now)
  Row t now (err e, db) = db.tables ≡ t

  abbrev pub Found :
      Tables Json
      → DateTime
      → Result (Option (WebhookDelivery × WebhookReceipt Json)) StorageError × Database Json
      → Type 0
  Found t now (ok (some (d, r)), db) =
      (select_one (has_delivery_id id) t.deliveries ≡ some d) × (db.tables ≡ t) × (db.now ≡ now)
  Found t now (ok none, db) = db.tables ≡ t
  Found t now (err e, db) = db.tables ≡ t

  abbrev Same :
      {A : Type 0} → Tables Json → DateTime → Result A StorageError × Database Json → Type 0
  Same t now (r, db) = (db.tables ≡ t) × (db.now ≡ now)

  with_receipt-Found :
      (o : Option WebhookDelivery) (t : Tables Json) (now : DateTime) (db : Database Json)
      → select_one (has_delivery_id id) t.deliveries ≡ o
      → db.tables ≡ t
      → db.now ≡ now
      → Found t now (with_receipt o db)
  unfolding get
  with_receipt-Found none t now db e same same_now = same
  with_receipt-Found (some d) t now db e same same_now =
      bind_rule (Same t now) (Found t now) _ (get d.receipt_id db)
        (statement_rule (Same t now) _ db (λ _. (same, same_now)) (same, same_now))
        (λ found d' q.
          bind_rule (Same t now) (Found t now) (λ r. pure (some (d, r))) (or_missing found d')
            (kept found d' q) (λ r d'' w. (e, w.0, w.1)) (λ x d'' w. w.0))
        (λ x d' q. q.0)
    where
      kept :
          (found : Option (WebhookReceipt Json)) (d' : Database Json)
          → (d'.tables ≡ t) × (d'.now ≡ now)
          → Same t now (or_missing found d')
      kept none d' q = q
      kept (some r) d' q = q

  pub get_delivery-Found : (db : Database Json) → Found db.tables db.now (get_delivery id db)
  unfolding get_delivery
  get_delivery-Found db =
      bind_rule (Row db.tables db.now) (Found db.tables db.now) with_receipt _
        (statement_rule (Row db.tables db.now)
          (λ d. pure (select_one (has_delivery_id id) d.tables.deliveries) d) db (λ e. refl)
          (refl, refl, refl))
        (λ o d q. with_receipt-Found o db.tables db.now d q.0 q.1 q.2) (λ e d q. q)

module _ {Json : Type 0} where
  abbrev pub Placed :
      ReceiptId
      → String
      → Tables Json
      → DateTime
      → Result DeliveryId StorageError × Database Json
      → Type 0
  Placed receipt_id name t now (ok id, db) =
      (db.tables.receipts ≡ t.receipts)
      × (db.tables.deliveries ≡ t.deliveries ++ pending_delivery id receipt_id name now ∷ [])
  Placed receipt_id name t now (err e, db) = db.tables ≡ t

  pub insert_replay-Placed :
      (receipt_id : ReceiptId) (name : String) (db : Database Json)
      → Placed receipt_id name db.tables db.now (insert_replay receipt_id name db)
  unfolding insert_replay insert_delivery place
  insert_replay-Placed receipt_id name db =
      statement_rule (Placed receipt_id name db.tables db.now) _ db (λ e. refl)
        (placed _ _ (spent db))
    where
      placed :
          (b : Bool) (id : DeliveryId) (d : Database Json)
          → Placed receipt_id name d.tables d.now (place b id receipt_id name d)
      placed true id d = (refl, refl)
      placed false id d = refl

module _ (st : AppState) {Json : Type 0} (authorization : Option (Option String))
    (id : DeliveryId) where
  -- `t` and `now` before, the reply and the database after.
  abbrev pub Redelivered : Tables Json → DateTime → Reply × Database Json → Type 0
  Redelivered t now (reply, db) =
      ((reply.0 ≢ 202) × (db.tables ≡ t))
      ⊎ ((reply.0 ≡ 202)
          × (check_auth st.admin_token authorization ≡ none)
          × (db.tables.receipts ≡ t.receipts)
          × ((d : WebhookDelivery) × (new_id : DeliveryId) × (select_one (has_delivery_id id)
                  t.deliveries
                ≡ some d)
              × (contains st.emitter_names d.emitter_name ≡ true)
              × (db.tables.deliveries
                  ≡ t.deliveries ++ pending_delivery new_id d.receipt_id d.emitter_name now ∷ [])))

  after_replay-Redelivered :
      (t : Tables Json) (now : DateTime) (d : WebhookDelivery)
      (o : Result DeliveryId StorageError × Database Json)
      → check_auth st.admin_token authorization ≡ none
      → select_one (has_delivery_id id) t.deliveries ≡ some d
      → contains st.emitter_names d.emitter_name ≡ true
      → Placed d.receipt_id d.emitter_name t now o
      → Redelivered t now (after_replay st o)
  unfolding after_replay
  after_replay-Redelivered t now d (ok new_id, db) allowed there named (receipts, rows) =
      inr (refl, allowed, receipts, (d, new_id, there, named, rows))
  after_replay-Redelivered t now d (err e, db) allowed there named same =
      inl (λ c. omega (arith, c), same)

  redeliver-Redelivered :
      (b : Bool) (t : Tables Json) (now : DateTime) (d : WebhookDelivery) (db : Database Json)
      → check_auth st.admin_token authorization ≡ none
      → select_one (has_delivery_id id) t.deliveries ≡ some d
      → contains st.emitter_names d.emitter_name ≡ b
      → db.tables ≡ t
      → db.now ≡ now
      → Redelivered t now (redeliver st b d db)
  unfolding redeliver not_configured
  redeliver-Redelivered false t now d db allowed there named same same_now =
      inl (λ c. omega (arith, c), same)
  redeliver-Redelivered true t now d db allowed there named same same_now =
      after_replay-Redelivered t now d (insert_replay d.receipt_id d.emitter_name db) allowed there
        named
        (subst
          (λ n.
            Placed d.receipt_id d.emitter_name t n (insert_replay d.receipt_id d.emitter_name db))
          same_now
          (subst
            (λ u.
              Placed d.receipt_id d.emitter_name u db.now
                (insert_replay d.receipt_id d.emitter_name db))
            same (insert_replay-Placed d.receipt_id d.emitter_name db)))

  after_lookup-Redelivered :
      (t : Tables Json) (now : DateTime)
      (o : Result (Option (WebhookDelivery × WebhookReceipt Json)) StorageError × Database Json)
      → check_auth st.admin_token authorization ≡ none
      → Found id t now o
      → Redelivered t now (after_lookup st o)
  unfolding after_lookup
  after_lookup-Redelivered t now (ok (some (d, r)), db) allowed (there, same, same_now) =
      redeliver-Redelivered _ t now d db allowed there refl same same_now
  after_lookup-Redelivered t now (ok none, db) allowed same = inl (λ c. omega (arith, c), same)
  after_lookup-Redelivered t now (err e, db) allowed same = inl (λ c. omega (arith, c), same)

  authorized-Redelivered :
      (o : Option Reply) (db : Database Json)
      → check_auth st.admin_token authorization ≡ o
      → Redelivered db.tables db.now (authorized_redelivery st o id db)
  unfolding authorized_redelivery
  authorized-Redelivered (some reply) db e =
      inl (λ c. omega (arith, c, denied_code st.admin_token authorization reply e), refl)
  authorized-Redelivered none db e =
      after_lookup-Redelivered db.tables db.now (get_delivery id db) e (get_delivery-Found id db)

  -- The replay of a delivery either answers 202, and then the request was authorized, the row
  -- exists, its emitter is still configured, and one pending row for the same receipt and emitter
  -- was added after the others; or it answers something else and both tables are as they were.
  pub replay_delivery-Redelivered :
      (db : Database Json) → Redelivered db.tables db.now (replay_delivery st authorization id db)
  unfolding replay_delivery
  replay_delivery-Redelivered db = authorized-Redelivered _ db refl
