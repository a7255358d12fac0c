-- ===== src/Postgres/Steps.antt =====
-- Every operation of crates/hookbox-postgres/src/storage.rs that changes the tables, as a step
-- of the database, and the constraints that every history keeps.
use hookbox.Prelude.{
  ℕ, zero, suc, ◌≤◌, ◌≡◌, refl, String, List, Option, Bool, true, false, ℤ, pos, negsuc, arith,
  update_where,
}
use hookbox.Domain.{
  Uuid, DateTime, ReceiptId, DeliveryId, WebhookReceipt, WebhookDelivery, ProcessingState,
}
use hookbox.Postgres.Exec.{Tables, Database, Sql, statement, ◌>>=◌, pure}
use hookbox.Postgres.Rules.{Keeps, Keeps-statement, Keeps-bind}
use hookbox.Postgres.Receipts.{
  insert_receipt, insert_delivery, count_up, has_receipt_id, store, store_with_deliveries,
  update_state, update_receipts, retry_failed, after_failed_retry, reset_for_retry, none_affected,
}
use hookbox.Postgres.Deliveries.{
  claim_pending, claim_rows, is_ready, take_lease, reclaim_expired, is_expired, update_deliveries,
  holds_lease, mark_emitted, mark_failed, mark_dead_lettered, insert_replay, insert_replays,
  release_lease, to_emitted, to_failed, to_dead_lettered,
}
use hookbox.Postgres.Claimed.{is_ready_of_among}
use hookbox.Postgres.Consistent.{
  place-IsConsistent, add_receipt-IsConsistent, IsConsistent, IsLeasable,
  update_receipts-IsConsistent, update_where-IsConsistent,
}
use hookbox.Postgres.Keeping.{
  with_receipts-Keeps, store-Keeps, store_with_deliveries-Keeps, insert_replays-Keeps,
}

module _ {Json : Type 0} where
  -- A worker, the pipeline, an operator or the passing of time.
  pub data Step : Database Json → Database Json → Type 0 where
    stores : (db : Database Json) (r : WebhookReceipt Json) → Step db (store r db).1
    stores_with_deliveries :
        (db : Database Json) (r : WebhookReceipt Json) (names : List String)
        → Step db (store_with_deliveries r names db).1
    updates_state :
        (db : Database Json) (id : Uuid) (s : ProcessingState) (e : Option String)
        → Step db (update_state id s e db).1
    retries : (db : Database Json) (id : Uuid) (limit : ℤ) → Step db (retry_failed id limit db).1
    resets : (db : Database Json) (id : Uuid) → Step db (reset_for_retry id db).1
    claims :
        (db : Database Json) (name : String) (batch : ℤ) → Step db (claim_pending name batch db).1
    reclaims :
        (db : Database Json) (name : String) (lease : ℕ) → Step db (reclaim_expired name lease db).1
    marks_emitted : (db : Database Json) (id : DeliveryId) → Step db (mark_emitted id db).1
    marks_failed :
        (db : Database Json) (id : DeliveryId) (attempts : ℤ) (next : DateTime) (e : String)
        → Step db (mark_failed id attempts next e db).1
    marks_dead_lettered :
        (db : Database Json) (id : DeliveryId) (e : String) → Step db (mark_dead_lettered id e db).1
    replays :
        (db : Database Json) (id : ReceiptId) (name : String) → Step db (insert_replay id name db).1
    replays_all :
        (db : Database Json) (id : ReceiptId) (names : List String)
        → Step db (insert_replays id names db).1
    -- Time passes, other clients draw ids, and the coming faults are any.
    waits :
        (db : Database Json) (now : DateTime) (drawn : ℕ) (faults : List (Option String))
        → db.now ≤ now
        → Step db (record db { now = now; drawn = drawn; faults = faults })

  pub data Reach (db : Database Json) : Database Json → Type 0 where
    here : Reach db db
    after : {d e : Database Json} → Reach db d → Step d e → Reach db e

  insert_receipt-IsConsistent : (r : WebhookReceipt Json) → Keeps IsConsistent (insert_receipt r)
  unfolding insert_receipt
  insert_receipt-IsConsistent r =
      Keeps-statement IsConsistent _ (λ db c. add_receipt-IsConsistent _ _ r db refl refl c)

  insert_delivery-IsConsistent :
      (receipt_id : ReceiptId) (name : String)
      → Keeps {Json = Json} IsConsistent (insert_delivery receipt_id name)
  unfolding insert_delivery
  insert_delivery-IsConsistent receipt_id name =
      Keeps-statement IsConsistent _ (λ db c. place-IsConsistent _ _ receipt_id name db refl c)

  marks-IsConsistent :
      (p : DateTime → WebhookDelivery → Bool) (f : DateTime → WebhookDelivery → WebhookDelivery)
      → ((now : DateTime) (d : WebhookDelivery) → (f now d).delivery_id ≡ d.delivery_id)
      → ((now : DateTime) (d : WebhookDelivery) → (f now d).receipt_id ≡ d.receipt_id)
      → ((now : DateTime) (d : WebhookDelivery)
          → p now d ≡ true
          → IsLeasable d
          → IsLeasable (f now d))
      → Keeps {Json = Json} IsConsistent (update_deliveries p f)
  marks-IsConsistent p f hi hr hl = Keeps-statement IsConsistent _ (λ db c.
      update_where-IsConsistent (p db.now) (f db.now) db.tables (hi db.now) (hr db.now)
        (λ d _ e h. hl db.now d e h) c)

  then_done :
      (m : Sql Json ℕ) → Keeps IsConsistent m → Keeps IsConsistent (m >>= λ n. pure (tt {0}))
  then_done m k = Keeps-bind IsConsistent m (λ n. pure (tt {0})) k (λ n db c. c)

  mark_emitted-IsConsistent : (id : DeliveryId) → Keeps {Json = Json} IsConsistent (mark_emitted id)
  unfolding mark_emitted
  mark_emitted-IsConsistent id = then_done _ (
      marks-IsConsistent (λ _. holds_lease id) to_emitted (λ n d. refl) (λ n d. refl)
        (λ n d e h. ground arith))

  mark_failed-IsConsistent :
      (id : DeliveryId) (attempts : ℤ) (next : DateTime) (e : String)
      → Keeps {Json = Json} IsConsistent (mark_failed id attempts next e)
  unfolding mark_failed
  mark_failed-IsConsistent id attempts next e = then_done _ (
      marks-IsConsistent (λ _. holds_lease id) (λ _. to_failed attempts next e) (λ n d. refl)
        (λ n d. refl) (λ n d e h. ground arith))

  mark_dead_lettered-IsConsistent :
      (id : DeliveryId) (e : String) → Keeps {Json = Json} IsConsistent (mark_dead_lettered id e)
  unfolding mark_dead_lettered
  mark_dead_lettered-IsConsistent id e = then_done _ (
      marks-IsConsistent (λ _. holds_lease id) (λ _. to_dead_lettered e) (λ n d. refl) (λ n d. refl)
        (λ n d e h. ground arith))

  reclaim_expired-IsConsistent :
      (name : String) (lease : ℕ) → Keeps {Json = Json} IsConsistent (reclaim_expired name lease)
  unfolding reclaim_expired
  reclaim_expired-IsConsistent name lease =
      marks-IsConsistent (λ now. is_expired name now lease) release_lease (λ n d. refl)
        (λ n d. refl) (λ n d e h. ground arith)

  claim_rows-IsConsistent :
      (name : String) (batch : ℤ) → Keeps {Json = Json} IsConsistent (claim_rows name batch)
  unfolding is_ready
  claim_rows-IsConsistent name (negsuc n) db c = c
  claim_rows-IsConsistent name (pos limit) db c =
      update_where-IsConsistent _ (take_lease db.now) db.tables (λ d. refl) (λ d. refl)
        (λ d m e h.
          leased d (is_ready_of_among name db.now limit db.tables.deliveries d c.delivery_ids m e))
        c
    where
      leased :
          (d : WebhookDelivery) → is_ready name db.now d ≡ true → IsLeasable (take_lease db.now d)
      leased d r = ground arith

  claim_pending-IsConsistent :
      (name : String) (batch : ℤ) → Keeps {Json = Json} IsConsistent (claim_pending name batch)
  unfolding claim_pending
  claim_pending-IsConsistent name batch =
      Keeps-bind IsConsistent (statement (claim_rows name batch)) _
        (Keeps-statement IsConsistent _ (claim_rows-IsConsistent name batch))
        (λ rows. with_receipts-Keeps IsConsistent rows)

  update_receipts-Keeps :
      (id : Uuid) (f : WebhookReceipt Json → WebhookReceipt Json)
      → ((r : WebhookReceipt Json) → (f r).dedupe_key ≡ r.dedupe_key)
      → ((r : WebhookReceipt Json) → (f r).receipt_id ≡ r.receipt_id)
      → Keeps IsConsistent (update_receipts id f)
  update_receipts-Keeps id f hk hi =
      Keeps-statement IsConsistent _ (λ db c. update_receipts-IsConsistent id f db.tables hk hi c)

  after_failed_retry-IsConsistent :
      (id : Uuid) (limit : ℤ) (t : Tables Json)
      → IsConsistent t
      → IsConsistent (record t {
        receipts = update_where (has_receipt_id id) (after_failed_retry limit) t.receipts;
      })
  unfolding after_failed_retry
  after_failed_retry-IsConsistent id limit t c =
      update_receipts-IsConsistent id (after_failed_retry limit) t (λ r. refl) (λ r. refl) c

  count_up-IsConsistent :
      (b : Bool) (id : Uuid) (limit : ℤ) (db : Database Json)
      → IsConsistent (record db.tables {
        receipts = update_where (has_receipt_id id) (after_failed_retry limit) db.tables.receipts;
      })
      → IsConsistent db.tables
      → IsConsistent (count_up b id limit db).1.tables
  unfolding count_up
  count_up-IsConsistent true id limit db u c = c
  count_up-IsConsistent false id limit db u c = u

  retry_failed-IsConsistent :
      (id : Uuid) (limit : ℤ) → Keeps {Json = Json} IsConsistent (retry_failed id limit)
  unfolding retry_failed count_up
  retry_failed-IsConsistent id limit = Keeps-statement IsConsistent _ (λ db c.
      count_up-IsConsistent _ id limit db (after_failed_retry-IsConsistent id limit db.tables c) c)

  reset_for_retry-IsConsistent : (id : Uuid) → Keeps {Json = Json} IsConsistent (reset_for_retry id)
  unfolding reset_for_retry
  reset_for_retry-IsConsistent id =
      Keeps-bind IsConsistent _ none_affected (update_receipts-Keeps id _ (λ r. refl) (λ r. refl))
        affected
    where
      affected : (n : ℕ) → Keeps {Json = Json} IsConsistent (none_affected n)
      affected zero = λ db c. c
      affected (suc n) = λ db c. c

  Step-IsConsistent :
      {d e : Database Json} → Step d e → IsConsistent d.tables → IsConsistent e.tables
  unfolding insert_replay update_state
  Step-IsConsistent (stores db r) c =
      store-Keeps IsConsistent insert_receipt-IsConsistent insert_delivery-IsConsistent r db c
  Step-IsConsistent (stores_with_deliveries db r names) c =
      store_with_deliveries-Keeps IsConsistent insert_receipt-IsConsistent
        insert_delivery-IsConsistent r names db c
  Step-IsConsistent (updates_state db id s e) c =
      let set : WebhookReceipt Json → WebhookReceipt Json =
        λ r. record r { processing_state = s; last_error = e } in
      then_done (update_receipts id set) (update_receipts-Keeps id set (λ r. refl) (λ r. refl)) db c
  Step-IsConsistent (retries db id limit) c = retry_failed-IsConsistent id limit db c
  Step-IsConsistent (resets db id) c = reset_for_retry-IsConsistent id db c
  Step-IsConsistent (claims db name batch) c = claim_pending-IsConsistent name batch db c
  Step-IsConsistent (reclaims db name lease) c = reclaim_expired-IsConsistent name lease db c
  Step-IsConsistent (marks_emitted db id) c = mark_emitted-IsConsistent id db c
  Step-IsConsistent (marks_failed db id attempts next e) c =
      mark_failed-IsConsistent id attempts next e db c
  Step-IsConsistent (marks_dead_lettered db id e) c = mark_dead_lettered-IsConsistent id e db c
  Step-IsConsistent (replays db id name) c = insert_delivery-IsConsistent id name db c
  Step-IsConsistent (replays_all db id names) c =
      insert_replays-Keeps IsConsistent insert_receipt-IsConsistent insert_delivery-IsConsistent id
        names db c
  Step-IsConsistent (waits db now drawn faults h) c = c

  -- Over any history of storage operations from a database whose constraints hold, errors and
  -- rollbacks included, they hold at the end: the keys of the
  -- receipts and all ids stay distinct, each delivery has its receipt, and no immutable row is
  -- ever in flight.
  pub Reach-IsConsistent :
      {d e : Database Json} → IsConsistent d.tables → Reach d e → IsConsistent e.tables
  Reach-IsConsistent c here = c
  Reach-IsConsistent c (after r s) = Step-IsConsistent s (Reach-IsConsistent c r)
