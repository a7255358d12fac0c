-- ===== src/Postgres/Store.antt =====
-- What storing a receipt does, on every path: crates/hookbox-postgres/src/storage.rs,
-- `store_with_deliveries`.
use hookbox.Prelude.{
  ◌≡◌, refl, sym, subst, ap, ◌∙◌, String, Bool, true, false, Option, none, some, List, [], ◌∷◌,
  ◌++◌, map, if◌then◌else◌, any, select_one, All, Result, ok, err,
}
use hookbox.Domain.{ReceiptId, DateTime, WebhookReceipt, WebhookDelivery, StorageError, StoreResult}
use hookbox.Postgres.Exec.{Tables, Database, begin, rollback, commit}
use hookbox.Postgres.Rules.{spent, statement_rule, bind_rule, undo_rule}
use hookbox.Postgres.Receipts.{
  add_receipt, has_key, insert_receipt, found_id, existing_id, duplicate_of, insert_deliveries,
  store_new, store_old, store_with_deliveries,
}
use hookbox.Postgres.Inserts.{IsFresh, Appends, Inserted, insert_deliveries-Inserted}

module _ {Json : Type 0} where
  -- What `store_with_deliveries` promises of its result. An error leaves no trace. A stored
  -- receipt is appended, with one fresh row for each emitter in turn. A duplicate changes
  -- nothing, and names a receipt that has the key.
  abbrev pub Stores :
      WebhookReceipt Json
      → List String
      → Tables Json
      → DateTime
      → Result StoreResult StorageError × Database Json
      → Type 0
  Stores r names t now (ok StoreResult.stored, db) =
      (db.tables.receipts ≡ t.receipts ++ r ∷ [])
      × (any (has_key r.dedupe_key) t.receipts ≡ false)
      × ((rows : List WebhookDelivery) × (db.tables.deliveries ≡ t.deliveries ++ rows)
          × (map (λ (d : WebhookDelivery). d.emitter_name) rows ≡ names)
          × All (IsFresh r.receipt_id now) rows)
  Stores r names t now (ok (StoreResult.duplicate id), db) =
      (db.tables ≡ t)
      × ((old : WebhookReceipt Json) × (select_one (has_key r.dedupe_key) t.receipts ≡ some old)
          × (old.receipt_id ≡ id))
  Stores r names t now (err e, db) = db.tables ≡ t

  abbrev pub Kept :
      {A : Type 0} → Tables Json → DateTime → Result A StorageError × Database Json → Type 0
  Kept t now (ok a, db) = (db.tables ≡ t) × (db.now ≡ now)
  Kept t now (err e, db) = db.tables ≡ t

  pub commit-Kept : (db : Database Json) → Kept db.tables db.now (commit db)
  unfolding commit
  commit-Kept db = statement_rule (Kept db.tables db.now) _ db (λ e. refl) (refl, refl)

  -- The statement of the rollback, before an error of it drops the transaction.
  abbrev RolledBack :
      Tables Json → DateTime → Result (Unit {0}) StorageError × Database Json → Type 0
  RolledBack saved now (ok a, db) = (db.tables ≡ saved) × (db.now ≡ now)
  RolledBack saved now (err e, db) = Unit

  rollback-Kept : (saved : Tables Json) (db : Database Json) → Kept saved db.now (rollback saved db)
  unfolding rollback
  rollback-Kept saved db =
      undo_rule (RolledBack saved db.now) (Kept saved db.now) saved _
        (statement_rule (RolledBack saved db.now) (λ d. (ok tt, record d { tables = saved })) db
          (λ e. tt) (refl, refl))
        (λ a d q. q) (λ e d q. refl)

  abbrev pub Begun :
      Tables Json → DateTime → Result (Tables Json) StorageError × Database Json → Type 0
  Begun t now (ok saved, db) = (saved ≡ t) × (db.tables ≡ t) × (db.now ≡ now)
  Begun t now (err e, db) = db.tables ≡ t

  pub begin-Begun : (db : Database Json) → Begun db.tables db.now (begin db)
  unfolding begin
  begin-Begun db = statement_rule (Begun db.tables db.now) _ db (λ e. refl) (refl, refl, refl)

  abbrev Added :
      WebhookReceipt Json
      → Tables Json
      → DateTime
      → Result Bool StorageError × Database Json
      → Type 0
  Added r t now (ok true, db) =
      (db.tables ≡ record t { receipts = t.receipts ++ r ∷ [] })
      × (any (has_key r.dedupe_key) t.receipts ≡ false)
      × (db.now ≡ now)
  Added r t now (ok false, db) =
      (db.tables ≡ t) × (any (has_key r.dedupe_key) t.receipts ≡ true) × (db.now ≡ now)
  Added r t now (err e, db) = db.tables ≡ t

  add_receipt-Added :
      (conflict taken : Bool) (r : WebhookReceipt Json) (db : Database Json)
      → any (has_key r.dedupe_key) db.tables.receipts ≡ conflict
      → Added r db.tables db.now (add_receipt conflict taken r db)
  unfolding add_receipt
  add_receipt-Added true taken r db e = (refl, e, refl)
  add_receipt-Added false true r db e = refl
  add_receipt-Added false false r db e = (refl, e, refl)

  insert_receipt-Added :
      (r : WebhookReceipt Json) (db : Database Json)
      → Added r db.tables db.now (insert_receipt r db)
  unfolding insert_receipt
  insert_receipt-Added r db =
      statement_rule (Added r db.tables db.now) _ db (λ e. refl)
        (add_receipt-Added _ _ r (spent db) refl)

  abbrev Names : String → Tables Json → Result ReceiptId StorageError × Database Json → Type 0
  Names key t (ok id, db) =
      (db.tables ≡ t)
      × ((old : WebhookReceipt Json) × (select_one (has_key key) t.receipts ≡ some old)
          × (old.receipt_id ≡ id))
  Names key t (err e, db) = db.tables ≡ t

  found_id-Names :
      (key : String) (o : Option (WebhookReceipt Json)) (db : Database Json)
      → select_one (has_key key) db.tables.receipts ≡ o
      → Names key db.tables (found_id o db)
  found_id-Names key none db e = refl
  found_id-Names key (some old) db e = (refl, (old, e, refl))

  existing_id-Names : (key : String) (db : Database Json) → Names key db.tables (existing_id key db)
  unfolding existing_id
  existing_id-Names key db =
      statement_rule (Names key db.tables) _ db (λ e. refl) (found_id-Names key _ (spent db) refl)

  duplicate_of-Stores :
      (r : WebhookReceipt Json) (names : List String) (now : DateTime) (db : Database Json)
      → Stores r names db.tables now (duplicate_of r db)
  unfolding duplicate_of
  duplicate_of-Stores r names now db =
      bind_rule (Names r.dedupe_key db.tables) (Stores r names db.tables now) _
        (existing_id r.dedupe_key db) (existing_id-Names r.dedupe_key db) (λ id db' q. q)
        (λ e db' q. q)

  store_old-Stores :
      (t : Tables Json) (r : WebhookReceipt Json) (names : List String) (now : DateTime)
      (db : Database Json)
      → Stores r names t now (store_old t r db)
  unfolding store_old
  store_old-Stores t r names now db =
      bind_rule (Kept t db.now) (Stores r names t now) _ (rollback t db) (rollback-Kept t db)
        (λ _ db' q.
          subst (λ u. Stores r names u now (duplicate_of r db')) q.0
            (duplicate_of-Stores r names now db'))
        (λ e db' q. q)

  unfoldable pub kept_after :
      {receipt_id : ReceiptId} {t : Tables Json} {now : DateTime} {db db' : Database Json}
      → Appends receipt_id t now db
      → db'.tables ≡ db.tables
      → db'.now ≡ db.now
      → Appends receipt_id t now db'
  kept_after a e n = record {
    rows = a.rows;
    fresh = a.fresh;
    deliveries = ap (λ (u : Tables Json). u.deliveries) e ∙ a.deliveries;
    receipts = ap (λ (u : Tables Json). u.receipts) e ∙ a.receipts;
    same_now = n ∙ a.same_now;
  }

  -- After the insertion of the receipt, the transaction ends with all rows or as it began.
  abbrev WithRows :
      {A : Type 0}
      → ReceiptId
      → List String
      → Tables Json
      → Tables Json
      → DateTime
      → Result A StorageError × Database Json
      → Type 0
  WithRows receipt_id names saved t now (ok _, db) =
      (a : Appends receipt_id t now db) × (map (λ (d : WebhookDelivery). d.emitter_name) a.rows
        ≡ names)
  WithRows receipt_id names saved t now (err e, db) = db.tables ≡ saved

  store_new-Stores :
      (saved : Tables Json) (r : WebhookReceipt Json) (names : List String) (db : Database Json)
      → db.tables ≡ record saved { receipts = saved.receipts ++ r ∷ [] }
      → any (has_key r.dedupe_key) saved.receipts ≡ false
      → Stores r names saved db.now (store_new saved r names db)
  unfolding store_new kept_after
  store_new-Stores saved r names db added new =
      bind_rule (WithRows r.receipt_id names saved db.tables db.now) (Stores r names saved db.now) _
        _
        (undo_rule (Inserted r.receipt_id names db.tables db.now)
          (WithRows r.receipt_id names saved db.tables db.now) saved
          (insert_deliveries r.receipt_id names db)
          (insert_deliveries-Inserted r.receipt_id names db) (λ ids d q. (q.0, q.1))
          (λ e d q. refl))
        (λ _ d q.
          bind_rule (WithRows r.receipt_id names saved db.tables db.now)
            (Stores r names saved db.now) _ _
            (undo_rule (Kept d.tables d.now) (WithRows r.receipt_id names saved db.tables db.now)
              saved (commit d) (commit-Kept d) (λ _ d' k. (kept_after q.0 k.0 k.1, q.1))
              (λ e d' k. refl))
            (λ _ d' w. (
              w.0.receipts ∙ ap (λ (u : Tables Json). u.receipts) added,
              new,
              (
                w.0.rows,
                w.0.deliveries ∙ ap (λ (u : Tables Json). u.deliveries ++ w.0.rows) added,
                w.1,
                w.0.fresh,
              ),
            ))
            (λ e d' w. w))
        (λ e d q. q)

  decided :
      (b : Bool) (t : Tables Json) (r : WebhookReceipt Json) (names : List String) (now : DateTime)
      (db : Database Json)
      → Added r t now (ok b, db)
      → Stores r names t now ((if b then store_new t r names else store_old t r) db)
  decided true t r names now db (added, new, n) =
      subst (λ u. Stores r names t u (store_new t r names db)) n
        (store_new-Stores t r names db added new)
  decided false t r names now db q = store_old-Stores t r names now db

  -- The transaction is atomic on every path, whichever statement fails: an error leaves both
  -- tables as they were; a stored receipt had a new key and is there with exactly one pending
  -- row, due now, for each emitter in turn; a duplicate changes nothing and names the receipt
  -- that has the key.
  pub store_with_deliveries-Stores :
      (r : WebhookReceipt Json) (names : List String) (db : Database Json)
      → Stores r names db.tables db.now (store_with_deliveries r names db)
  unfolding store_with_deliveries
  store_with_deliveries-Stores r names db =
      bind_rule (Begun db.tables db.now) (Stores r names db.tables db.now) _ (begin db)
        (begin-Begun db)
        (λ saved d q.
          bind_rule (Added r db.tables db.now) (Stores r names db.tables db.now) _ _
            (undo_rule (Added r d.tables d.now) (Added r db.tables db.now) saved
              (insert_receipt r d) (insert_receipt-Added r d)
              (λ b d' a.
                subst (λ u. Added r u db.now (ok b, d')) q.1
                  (subst (λ n. Added r d.tables n (ok b, d')) q.2 a))
              (λ e d' a. q.0))
            (λ b d' a.
              subst
                (λ u.
                  Stores r names db.tables db.now
                    ((if b then store_new u r names else store_old u r) d'))
                (sym q.0) (decided b db.tables r names db.now d' a))
            (λ e d' a. a))
        (λ e d q. q)
