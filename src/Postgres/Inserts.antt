-- ===== src/Postgres/Inserts.antt =====
-- The rows that `store_with_deliveries`, `insert_replay` and `insert_replays` of
-- crates/hookbox-postgres/src/storage.rs insert.
use mathlib.Core.List.{append-nil, append_assoc}
use hookbox.Prelude.{
  ◌≡◌, refl, sym, subst, ap, ◌∙◌, String, Bool, true, false, List, [], ◌∷◌, ◌++◌, map, pos, All,
  All-append, Result, ok, err,
}
use hookbox.Domain.{ReceiptId, DeliveryId, DateTime, WebhookDelivery, StorageError, DeliveryState}
use hookbox.Postgres.Exec.{Tables, Database}
use hookbox.Postgres.Rules.{spent, statement_rule, bind_rule}
use hookbox.Postgres.Receipts.{pending_delivery, place, insert_delivery, insert_deliveries}

-- A row for a receipt that nobody has worked on, due at once.
pub record IsFresh (receipt_id : ReceiptId) (now : DateTime) (d : WebhookDelivery) : Type 0 where
  pub of_receipt : d.receipt_id ≡ receipt_id
  pub waiting : d.state ≡ DeliveryState.pending
  pub untried : d.attempt_count ≡ pos 0
  pub due : d.next_attempt_at ≡ now
  pub created : d.created_at ≡ now
  pub mutable : d.immutable ≡ false

module _ {Json : Type 0} where
  -- The database after rows for a receipt were appended to the deliveries of `t` at time `now`.
  pub record Appends (receipt_id : ReceiptId) (t : Tables Json) (now : DateTime)
      (db : Database Json) : Type 0 where
    pub rows : List WebhookDelivery
    pub fresh : All (IsFresh receipt_id now) rows
    pub deliveries : db.tables.deliveries ≡ t.deliveries ++ rows
    pub receipts : db.tables.receipts ≡ t.receipts
    pub same_now : db.now ≡ now

  unfoldable pub nothing :
      {receipt_id : ReceiptId} {t : Tables Json} {now : DateTime} {db : Database Json}
      → db.tables ≡ t
      → db.now ≡ now
      → Appends receipt_id t now db
  nothing {t = t} e n = record {
    rows = [];
    fresh = tt;
    deliveries = ap (λ (u : Tables Json). u.deliveries) e ∙ sym (append-nil t.deliveries);
    receipts = ap (λ (u : Tables Json). u.receipts) e;
    same_now = n;
  }

  unfoldable pub joined :
      {receipt_id : ReceiptId} {t : Tables Json} {now : DateTime} {db db' : Database Json}
      → Appends receipt_id t now db
      → Appends receipt_id db.tables db.now db'
      → Appends receipt_id t now db'
  joined {receipt_id} {t} {now} {db} {db'} a b = record {
    rows = a.rows ++ b.rows;
    fresh =
        All-append (IsFresh receipt_id now) a.rows b.rows a.fresh
          (subst (λ u. All (IsFresh receipt_id u) b.rows) a.same_now b.fresh);
    deliveries =
        b.deliveries ∙ ap (λ l. l ++ b.rows) a.deliveries ∙ append_assoc t.deliveries a.rows b.rows;
    receipts = b.receipts ∙ a.receipts;
    same_now = b.same_now ∙ a.same_now;
  }

  abbrev pub Delivered :
      ReceiptId
      → String
      → Tables Json
      → DateTime
      → Result DeliveryId StorageError × Database Json
      → Type 0
  Delivered receipt_id name t now (ok id, db) =
      (a : Appends receipt_id t now db) × (a.rows ≡ pending_delivery id receipt_id name now ∷ [])
  Delivered receipt_id name t now (err e, db) = (a : Appends receipt_id t now db) × (a.rows ≡ [])

  place-Delivered :
      (b : Bool) (id : DeliveryId) (receipt_id : ReceiptId) (name : String) (db : Database Json)
      → Delivered receipt_id name db.tables db.now (place b id receipt_id name db)
  unfolding place nothing
  place-Delivered true id receipt_id name db = (
    record {
      rows = pending_delivery id receipt_id name db.now ∷ [];
      fresh = (
        record {
          of_receipt = refl;
          waiting = refl;
          untried = refl;
          due = refl;
          created = refl;
          mutable = refl;
        },
        tt,
      );
      deliveries = refl;
      receipts = refl;
      same_now = refl;
    },
    refl,
  )
  place-Delivered false id receipt_id name db = (nothing refl refl, refl)

  pub insert_delivery-Delivered :
      (receipt_id : ReceiptId) (name : String) (db : Database Json)
      → Delivered receipt_id name db.tables db.now (insert_delivery receipt_id name db)
  unfolding insert_delivery nothing
  insert_delivery-Delivered receipt_id name db =
      statement_rule (Delivered receipt_id name db.tables db.now) _ db
        (λ e. (nothing refl refl, refl)) (place-Delivered _ _ receipt_id name (spent db))

  -- The loop: rows for the emitters in turn, whose ids are returned; an error stops it.
  abbrev pub Inserted :
      ReceiptId
      → List String
      → Tables Json
      → DateTime
      → Result (List DeliveryId) StorageError × Database Json
      → Type 0
  Inserted receipt_id names t now (ok ids, db) =
      (a : Appends receipt_id t now db) × (map (λ (d : WebhookDelivery). d.emitter_name) a.rows
        ≡ names)
      × (map (λ (d : WebhookDelivery). d.delivery_id) a.rows ≡ ids)
  Inserted receipt_id names t now (err e, db) = Appends receipt_id t now db

  -- The loop over the emitters appends one fresh row of the receipt for each in turn and returns
  -- their ids; an error leaves at most fresh rows of that receipt behind. The receipts and the
  -- other rows stay as they are.
  pub insert_deliveries-Inserted :
      (receipt_id : ReceiptId) (names : List String) (db : Database Json)
      → Inserted receipt_id names db.tables db.now (insert_deliveries receipt_id names db)
  unfolding insert_deliveries nothing joined pending_delivery
  insert_deliveries-Inserted receipt_id [] db = (nothing refl refl, refl, refl)
  insert_deliveries-Inserted receipt_id (name ∷ names) db =
      bind_rule (Delivered receipt_id name db.tables db.now)
        (Inserted receipt_id (name ∷ names) db.tables db.now) _ (insert_delivery receipt_id name db)
        (insert_delivery-Delivered receipt_id name db)
        (λ id db' first.
          bind_rule (Inserted receipt_id names db'.tables db'.now)
            (Inserted receipt_id (name ∷ names) db.tables db.now) _
            (insert_deliveries receipt_id names db')
            (insert_deliveries-Inserted receipt_id names db')
            (λ ids db'' rest. (
              joined first.0 rest.0,
              rw first.1 (ap (◌∷◌ name) rest.1),
              rw first.1 (ap (◌∷◌ id) rest.2),
            ))
            (λ e db'' rest. joined first.0 rest))
        (λ e db' first. first.0)
