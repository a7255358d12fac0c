-- ===== src/Postgres/Consistent.antt =====
-- What always holds of the tables: the constraints of migrations/0001 and 0002, and that an
-- immutable row is never leased.
use mathlib.Core.List.{Memᴰ}
use hookbox.Prelude.{
  str_eq_iff, ◌++◌, refl, ◌∙◌, subst, ◌==◌, All-append, ℕ, str_eq, arith, not, ap, ◌∙◌, any-append,
  any-update_where, String, All-map, sym, All-update_where, Distinct-snoc, if◌then◌else◌,
  Distinct-update_where, update_where, Bool, List, [], ◌∷◌, ◌≡◌, false, true, any, All, ◌&&◌,
  Distinct,
}
use hookbox.Domain.{ReceiptId, DeliveryId, Uuid, WebhookDelivery, WebhookReceipt}
use hookbox.Postgres.Exec.{Database, Tables}
use hookbox.Postgres.Receipts.{
  has_delivery_id, pending_delivery, place, add_receipt, has_key, has_receipt_id,
}
use hookbox.Postgres.Deliveries.{is_in_flight}

-- Each receipt's key differs from those of the receipts after it.
abbrev pub DistinctKeys : {Json : Type 0} → List (WebhookReceipt Json) → Type 0
DistinctKeys [] = Unit
DistinctKeys (r ∷ rs) = (any (has_key r.dedupe_key) rs ≡ false) × DistinctKeys rs

-- A row that the worker may hold: immutable rows are not in flight.
abbrev pub IsLeasable : WebhookDelivery → Type 0
IsLeasable d = (d.immutable && is_in_flight d.state) ≡ false

pub record IsConsistent {Json : Type 0} (t : Tables Json) : Type 0 where
  pub keys : DistinctKeys t.receipts
  pub receipt_ids : Distinct (λ (r : WebhookReceipt Json). r.receipt_id) t.receipts
  pub delivery_ids : Distinct (λ (d : WebhookDelivery). d.delivery_id) t.deliveries
  -- Each delivery belongs to a receipt that is there.
  pub references :
      All
        (λ (d : WebhookDelivery). any (has_receipt_id d.receipt_id) t.receipts ≡ true)
        t.deliveries
  pub leases : All IsLeasable t.deliveries

DistinctKeys-snoc :
    {Json : Type 0} (r : WebhookReceipt Json) (rs : List (WebhookReceipt Json))
    → any (has_key r.dedupe_key) rs ≡ false
    → DistinctKeys rs
    → DistinctKeys (rs ++ r ∷ [])
DistinctKeys-snoc r [] n d = (refl, tt)
DistinctKeys-snoc r (s ∷ rs) n d = (
  any-append (has_key s.dedupe_key) rs (r ∷ [])
      ∙ ground (arith, str_eq_iff s.dedupe_key r.dedupe_key, str_eq_iff r.dedupe_key s.dedupe_key),
  DistinctKeys-snoc r rs (ground arith) d.1,
)

DistinctKeys-update_where :
    {Json : Type 0} (p : WebhookReceipt Json → Bool) (f : WebhookReceipt Json → WebhookReceipt Json)
    (rs : List (WebhookReceipt Json))
    → ((r : WebhookReceipt Json) → (f r).dedupe_key ≡ r.dedupe_key)
    → DistinctKeys rs
    → DistinctKeys (update_where p f rs)
DistinctKeys-update_where p f [] h d = tt
DistinctKeys-update_where p f (r ∷ rs) h d = (
  any-update_where (has_key (if p r then f r else r).dedupe_key) p f rs
        (λ s. ap (λ k. str_eq k (if p r then f r else r).dedupe_key) (h s))
      ∙ subst (λ k. any (has_key k) rs ≡ false) (same (p r)) d.0,
  DistinctKeys-update_where p f rs h d.1,
)
  where
    same : (b : Bool) → r.dedupe_key ≡ (if b then f r else r).dedupe_key
    same true = sym (h r)
    same false = refl

module _ {Json : Type 0} where
  pub place-IsConsistent :
      (b : Bool) (id : DeliveryId) (receipt_id : ReceiptId) (name : String) (db : Database Json)
      → (any (has_receipt_id receipt_id) db.tables.receipts
          && not (any (has_delivery_id id) db.tables.deliveries))
        ≡ b
      → IsConsistent db.tables
      → IsConsistent (place b id receipt_id name db).1.tables
  unfolding place pending_delivery
  place-IsConsistent false id receipt_id name db e c = c
  place-IsConsistent true id receipt_id name db e c = record {
    keys = c.keys;
    receipt_ids = c.receipt_ids;
    delivery_ids = Distinct-snoc _ db.tables.deliveries _ (ground arith) c.delivery_ids;
    references = All-append _ db.tables.deliveries _ c.references (ground arith, tt);
    leases = All-append _ db.tables.deliveries _ c.leases (refl, tt);
  }

  pub add_receipt-IsConsistent :
      (conflict taken : Bool) (r : WebhookReceipt Json) (db : Database Json)
      → any (has_key r.dedupe_key) db.tables.receipts ≡ conflict
      → any (has_receipt_id r.receipt_id) db.tables.receipts ≡ taken
      → IsConsistent db.tables
      → IsConsistent (add_receipt conflict taken r db).1.tables
  unfolding add_receipt
  add_receipt-IsConsistent true taken r db e f c = c
  add_receipt-IsConsistent false true r db e f c = c
  add_receipt-IsConsistent false false r db e f c = record {
    keys = DistinctKeys-snoc r db.tables.receipts e c.keys;
    receipt_ids = Distinct-snoc _ db.tables.receipts r f c.receipt_ids;
    delivery_ids = c.delivery_ids;
    references =
        All-map _ _
          (λ d h.
            any-append (has_receipt_id d.receipt_id) db.tables.receipts (r ∷ []) ∙ ground arith)
          db.tables.deliveries c.references;
    leases = c.leases;
  }

  -- An update of receipts that leaves their ids and keys alone.
  pub update_receipts-IsConsistent :
      (id : Uuid) (f : WebhookReceipt Json → WebhookReceipt Json) (t : Tables Json)
      → ((r : WebhookReceipt Json) → (f r).dedupe_key ≡ r.dedupe_key)
      → ((r : WebhookReceipt Json) → (f r).receipt_id ≡ r.receipt_id)
      → IsConsistent t
      → IsConsistent (record t { receipts = update_where (has_receipt_id id) f t.receipts })
  update_receipts-IsConsistent id f t hk hi c = record {
    keys = DistinctKeys-update_where (has_receipt_id id) f t.receipts hk c.keys;
    receipt_ids = Distinct-update_where _ (has_receipt_id id) f t.receipts hi c.receipt_ids;
    delivery_ids = c.delivery_ids;
    references =
        All-map _ _
          (λ d h.
            any-update_where (has_receipt_id d.receipt_id) (has_receipt_id id) f t.receipts
              (λ r. ap (λ (n : ℕ). n == d.receipt_id) (hi r))
            ∙ h)
          t.deliveries c.references;
    leases = c.leases;
  }

  -- An update of deliveries that leaves their ids alone and leases no immutable row.
  pub update_where-IsConsistent :
      (p : WebhookDelivery → Bool) (f : WebhookDelivery → WebhookDelivery) (t : Tables Json)
      → ((d : WebhookDelivery) → (f d).delivery_id ≡ d.delivery_id)
      → ((d : WebhookDelivery) → (f d).receipt_id ≡ d.receipt_id)
      → ((d : WebhookDelivery) → Memᴰ d t.deliveries → p d ≡ true → IsLeasable d → IsLeasable (f d))
      → IsConsistent t
      → IsConsistent (record t { deliveries = update_where p f t.deliveries })
  update_where-IsConsistent p f t hi hr hl c = record {
    keys = c.keys;
    receipt_ids = c.receipt_ids;
    delivery_ids = Distinct-update_where _ p f t.deliveries hi c.delivery_ids;
    references =
        All-update_where _ p f t.deliveries
          (λ d m e h. subst (λ (n : ℕ). any (has_receipt_id n) t.receipts ≡ true) (sym (hr d)) h)
          c.references;
    leases = All-update_where IsLeasable p f t.deliveries hl c.leases;
  }
