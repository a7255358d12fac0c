-- ===== src/Postgres/Interface.antt =====
-- crates/hookbox-postgres/src/storage.rs: the trait `DeliveryStorage`, its default method, and its
-- implementations for `PostgresStorage` and for `Arc`.
use hookbox.Prelude.{ℕ, ℤ, String, List, [], ◌∷◌, Option, Result, ok, err, ◌≡◌, refl}
use hookbox.Domain.{ReceiptId, DeliveryId, DateTime, WebhookReceipt, WebhookDelivery, StorageError}
use hookbox.Postgres.Exec.{Database, and_then, pure, ◌>>=◌}
use hookbox.Postgres.Receipts.{insert_delivery, insert_deliveries}
use hookbox.Postgres.Deliveries.{
  claim_pending, reclaim_expired, mark_emitted, mark_failed, mark_dead_lettered, count_dlq,
  count_pending, count_in_flight, insert_replay, insert_replays, get_delivery,
  get_deliveries_for_receipt, list_dlq,
}

-- A call takes the state behind `&self` and returns it with its answer.
abbrev pub Answers : Type 0 → Type 0 → Type 0
Answers S A = S → Result A StorageError × S

pub record DeliveryStorage (Json S : Type 0) : Type 0 where
  pub claim_pending : String → ℤ → Answers S (List (WebhookDelivery × WebhookReceipt Json))
  pub reclaim_expired : String → ℕ → Answers S ℕ
  pub mark_emitted : DeliveryId → Answers S (Unit {0})
  pub mark_failed : DeliveryId → ℤ → DateTime → String → Answers S (Unit {0})
  pub mark_dead_lettered : DeliveryId → String → Answers S (Unit {0})
  pub count_dlq : String → Answers S ℕ
  pub count_pending : String → Answers S ℕ
  pub count_in_flight : String → Answers S ℕ
  pub insert_replay : ReceiptId → String → Answers S DeliveryId
  pub insert_replays : ReceiptId → List String → Answers S (List DeliveryId)
  pub get_delivery : DeliveryId → Answers S (Option (WebhookDelivery × WebhookReceipt Json))
  pub get_deliveries_for_receipt : ReceiptId → Answers S (List WebhookDelivery)
  pub list_dlq : Option String → ℤ → ℤ → Answers S (List (WebhookDelivery × WebhookReceipt Json))

-- The body of `insert_replays` in the trait, over an `insert_replay`.
module _ {S : Type 0} (insert_replay : ReceiptId → String → Answers S DeliveryId) where
  abbrev push_id :
      DeliveryId
      → Result (List DeliveryId) StorageError × S
      → Result (List DeliveryId) StorageError × S
  push_id id (ok ids, s) = (ok (id ∷ ids), s)
  push_id id (err e, s) = (err e, s)

  abbrev after_insert :
      (S → Result (List DeliveryId) StorageError × S)
      → Result DeliveryId StorageError × S
      → Result (List DeliveryId) StorageError × S
  after_insert rest (ok id, s) = push_id id (rest s)
  after_insert rest (err e, s) = (err e, s)

  unfoldable pub default_insert_replays : ReceiptId → List String → Answers S (List DeliveryId)
  default_insert_replays id [] s = (ok [], s)
  default_insert_replays id (name ∷ names) s =
      after_insert (default_insert_replays id names) (insert_replay id name s)

module _ {Json : Type 0} where
  unfoldable pub postgres_delivery_storage : DeliveryStorage Json (Database Json)
  postgres_delivery_storage = record {
    claim_pending = claim_pending;
    reclaim_expired = reclaim_expired;
    mark_emitted = mark_emitted;
    mark_failed = mark_failed;
    mark_dead_lettered = mark_dead_lettered;
    count_dlq = count_dlq;
    count_pending = count_pending;
    count_in_flight = count_in_flight;
    insert_replay = insert_replay;
    insert_replays = insert_replays;
    get_delivery = get_delivery;
    get_deliveries_for_receipt = get_deliveries_for_receipt;
    list_dlq = list_dlq;
  }

  -- `(**self)` for an `Arc<T>`.
  unfoldable pub arc_delivery_storage :
      {S : Type 0} → DeliveryStorage Json S → DeliveryStorage Json S
  arc_delivery_storage inner = record {
    claim_pending = λ name batch_size. inner.claim_pending name batch_size;
    reclaim_expired = λ name lease_duration. inner.reclaim_expired name lease_duration;
    mark_emitted = λ id. inner.mark_emitted id;
    mark_failed = λ id attempt_count next_attempt_at last_error.
        inner.mark_failed id attempt_count next_attempt_at last_error;
    mark_dead_lettered = λ id last_error. inner.mark_dead_lettered id last_error;
    count_dlq = λ name. inner.count_dlq name;
    count_pending = λ name. inner.count_pending name;
    count_in_flight = λ name. inner.count_in_flight name;
    insert_replay = λ id name. inner.insert_replay id name;
    insert_replays = λ id names. inner.insert_replays id names;
    get_delivery = λ id. inner.get_delivery id;
    get_deliveries_for_receipt = λ id. inner.get_deliveries_for_receipt id;
    list_dlq = λ name limit offset. inner.list_dlq name limit offset;
  }

  -- Over PostgreSQL the default does what the transaction does between its BEGIN and its COMMIT.
  default_insert_replays-insert_deliveries :
      (id : ReceiptId) (names : List String) (db : Database Json)
      → default_insert_replays insert_replay id names db ≡ insert_deliveries id names db
  unfolding default_insert_replays insert_deliveries insert_replay
  default_insert_replays-insert_deliveries id [] db = refl
  default_insert_replays-insert_deliveries id (name ∷ names) db =
      after (insert_delivery id name db) (default_insert_replays-insert_deliveries id names)
    where
      after :
          (o : Result DeliveryId StorageError × Database Json)
          → ((db : Database Json)
              → default_insert_replays insert_replay id names db ≡ insert_deliveries id names db)
          → after_insert insert_replay (default_insert_replays insert_replay id names) o
            ≡ and_then o (λ d. insert_deliveries id names >>= λ ds. pure (d ∷ ds))
      after (ok d, db) ih = rw (ih db) (pushed (insert_deliveries id names db))
        where
          pushed :
              (o : Result (List DeliveryId) StorageError × Database Json)
              → push_id insert_replay d o ≡ and_then o (λ ds. pure (d ∷ ds))
          pushed (ok ds, db) = refl
          pushed (err e, db) = refl
      after (err e, db) ih = refl
