-- ===== src/Postgres/Keeping.antt =====
-- The transactions of crates/hookbox-postgres/src/storage.rs keep the constraints.
use hookbox.Prelude.{
  none, some, some, String, List, [], ◌∷◌, Option, Bool, true, false, if◌then◌else◌,
}
use hookbox.Domain.{StoreResult, ReceiptId, DeliveryId, WebhookReceipt, WebhookDelivery}
use hookbox.Postgres.Exec.{Tables, commit, rollback, or_rollback, ◌>>=◌, ◌>>◌, pure}
use hookbox.Postgres.Rules.{Keeps, Keeps-statement, Keeps-bind, Keeps-undo, Keeps-begin}
use hookbox.Postgres.Receipts.{
  insert_receipt, existing_id, found_id, duplicate_of, store, insert_delivery, insert_deliveries,
  store_new, store_old, store_with_deliveries, get,
}
use hookbox.Postgres.Deliveries.{with_receipts, or_missing, insert_replays}

module _ {Json : Type 0} where
  -- Reading changes no table.
  module _ (P : Tables Json → Type 0) where
    pub with_receipts-Keeps : (ds : List WebhookDelivery) → Keeps P (with_receipts ds)
    unfolding with_receipts get
    with_receipts-Keeps [] = λ db h. h
    with_receipts-Keeps (d ∷ ds) =
        Keeps-bind P (get d.receipt_id) _ (Keeps-statement P _ (λ db h. h)) (λ found.
          Keeps-bind P (or_missing found) _ (or_missing-Keeps found)
            (λ r. Keeps-bind P (with_receipts ds) _ (with_receipts-Keeps ds) (λ rest db h. h)))
      where
        or_missing-Keeps : (o : Option (WebhookReceipt Json)) → Keeps P (or_missing o)
        or_missing-Keeps none = λ db h. h
        or_missing-Keeps (some r) = λ db h. h

    pub duplicate_of-Keeps : (r : WebhookReceipt Json) → Keeps P (duplicate_of r)
    unfolding duplicate_of existing_id
    duplicate_of-Keeps r =
        Keeps-bind P (existing_id r.dedupe_key) _ (Keeps-statement P _ (λ db h. found-Keeps _ db h))
          (λ id db h. h)
      where
        found-Keeps : (o : Option (WebhookReceipt Json)) → Keeps P (found_id o)
        found-Keeps none = λ db h. h
        found-Keeps (some r) = λ db h. h

module _ {Json : Type 0} (P : Tables Json → Type 0)
    (inserts_receipt : (r : WebhookReceipt Json) → Keeps P (insert_receipt r))
    (inserts_delivery : (id : ReceiptId) (name : String) → Keeps P (insert_delivery id name)) where
  insert_deliveries-Keeps :
      (receipt_id : ReceiptId) (names : List String) → Keeps P (insert_deliveries receipt_id names)
  unfolding insert_deliveries
  insert_deliveries-Keeps receipt_id [] = λ db c. c
  insert_deliveries-Keeps receipt_id (name ∷ names) =
      Keeps-bind P (insert_delivery receipt_id name) _ (inserts_delivery receipt_id name) (λ id.
        Keeps-bind P (insert_deliveries receipt_id names) _
          (insert_deliveries-Keeps receipt_id names) (λ ids db c. c))

  pub store-Keeps : (r : WebhookReceipt Json) → Keeps P (store r)
  unfolding store
  store-Keeps r = Keeps-bind P (insert_receipt r) _ (inserts_receipt r) after
    where
      after : (b : Bool) → Keeps P (if b then pure StoreResult.stored else duplicate_of r)
      after true = λ db c. c
      after false = duplicate_of-Keeps P r

  rollback-Keeps : (saved : Tables Json) → P saved → Keeps P (rollback saved)
  unfolding rollback
  rollback-Keeps saved s = Keeps-undo P saved _ s (Keeps-statement P _ (λ db c. s))

  -- Rows for some emitters, and the commit.
  delivers-Keeps :
      {A : Type 0} (saved : Tables Json) (id : ReceiptId) (names : List String)
      (a : List DeliveryId → A)
      → P saved
      → Keeps P (
          or_rollback saved (insert_deliveries id names) >>= λ ids.
          or_rollback saved commit >> pure (a ids))
  unfolding commit
  delivers-Keeps saved id names a s =
      Keeps-bind P (or_rollback saved (insert_deliveries id names))
        (λ ids. or_rollback saved commit >> pure (a ids))
        (Keeps-undo P saved (insert_deliveries id names) s (insert_deliveries-Keeps id names))
        (λ ids.
          Keeps-bind P (or_rollback saved commit) (λ _. pure (a ids))
            (Keeps-undo P saved commit s (Keeps-statement P _ (λ db c. c))) (λ u db c. c))

  store_old-Keeps :
      (saved : Tables Json) (r : WebhookReceipt Json) → P saved → Keeps P (store_old saved r)
  unfolding store_old
  store_old-Keeps saved r s =
      Keeps-bind P (rollback saved) _ (rollback-Keeps saved s) (λ u. duplicate_of-Keeps P r)

  pub store_with_deliveries-Keeps :
      (r : WebhookReceipt Json) (names : List String) → Keeps P (store_with_deliveries r names)
  unfolding store_with_deliveries store_new
  store_with_deliveries-Keeps r names = Keeps-begin P _ (λ saved s.
      Keeps-bind P (or_rollback saved (insert_receipt r))
        (λ b. if b then store_new saved r names else store_old saved r)
        (Keeps-undo P saved (insert_receipt r) s (inserts_receipt r)) (after saved s))
    where
      after :
          (saved : Tables Json)
          → P saved
          → (b : Bool) → Keeps P (if b then store_new saved r names else store_old saved r)
      after saved s true = delivers-Keeps saved r.receipt_id names (λ ids. StoreResult.stored) s
      after saved s false = store_old-Keeps saved r s

  pub insert_replays-Keeps :
      (id : ReceiptId) (names : List String) → Keeps P (insert_replays id names)
  unfolding insert_replays
  insert_replays-Keeps id names =
      Keeps-begin P _ (λ saved s. delivers-Keeps saved id names (λ ids. ids) s)
