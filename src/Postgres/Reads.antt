-- ===== src/Postgres/Reads.antt =====
-- The operations of crates/hookbox-postgres/src/storage.rs that only read.
use hookbox.Prelude.{ℤ, String, List, [], ◌∷◌, Option, none, some, Result, ok, err, ◌≡◌, refl, ◌∙◌}
use hookbox.Domain.{Uuid, DeliveryId, WebhookReceipt, WebhookDelivery, ReceiptFilter, StorageError}
use hookbox.Postgres.Exec.{Database, Sql, statement, ◌>>=◌, and_then}
use hookbox.Postgres.Rules.{statement_rule, spent}
use hookbox.Postgres.Receipts.{or_refuse, get, query, query_by_external_reference}
use hookbox.Postgres.Deliveries.{
  or_missing, count_dlq, count_pending, count_in_flight, get_delivery, list_dlq, with_receipt,
  with_receipts,
}

module _ {Json : Type 0} where
  -- The tables after it are those before it, also when it fails.
  abbrev pub Reads : {A : Type 0} → Sql Json A → Type 0
  Reads m = (db : Database Json) → (m db).1.tables ≡ db.tables

  pub statement-Reads : {A : Type 0} (body : Sql Json A) → Reads body → Reads (statement body)
  statement-Reads body reads db =
      statement_rule (λ r. r.1.tables ≡ db.tables) body db (λ e. refl) (reads (spent db))

  pub bind-Reads :
      {A B : Type 0} (m : Sql Json A) (f : A → Sql Json B)
      → Reads m
      → ((a : A) → Reads (f a))
      → Reads (m >>= f)
  bind-Reads {A = A} m f reads onward db = joined (m db) (reads db)
    where
      joined :
          (o : Result A StorageError × Database Json)
          → o.1.tables ≡ db.tables
          → (and_then o f).1.tables ≡ db.tables
      joined (ok a, db') same = onward a db' ∙ same
      joined (err e, db') same = same

  or_refuse-Reads : {A : Type 0} (o : Option A) → Reads (or_refuse o)
  or_refuse-Reads none db = refl
  or_refuse-Reads (some a) db = refl

  pub query-Reads : (filter : ReceiptFilter) → Reads (query filter)
  unfolding query
  query-Reads filter = statement-Reads _ (λ db. or_refuse-Reads _ db)

  pub query_by_external_reference-Reads :
      (external_ref : String) (limit : Option ℤ)
      → Reads (query_by_external_reference external_ref limit)
  unfolding query_by_external_reference
  query_by_external_reference-Reads external_ref limit =
      statement-Reads _ (λ db. or_refuse-Reads _ db)

  pub get-Reads : (id : Uuid) → Reads (get id)
  unfolding get
  get-Reads id = statement-Reads _ (λ db. refl)

  or_missing-Reads : (o : Option (WebhookReceipt Json)) → Reads (or_missing o)
  or_missing-Reads none db = refl
  or_missing-Reads (some r) db = refl

  -- The receipt of a row is read, and what follows only reads.
  receipt_then-Reads :
      {B : Type 0} (d : WebhookDelivery) (f : WebhookReceipt Json → Sql Json B)
      → ((r : WebhookReceipt Json) → Reads (f r))
      → Reads (get d.receipt_id >>= λ found. or_missing found >>= f)
  receipt_then-Reads d f onward =
      bind-Reads (get d.receipt_id) _ (get-Reads d.receipt_id)
        (λ found. bind-Reads (or_missing found) f (or_missing-Reads found) onward)

  with_receipt-Reads : (o : Option WebhookDelivery) → Reads (with_receipt o)
  with_receipt-Reads none = λ db. refl
  with_receipt-Reads (some d) = receipt_then-Reads d _ (λ r db. refl)

  pub get_delivery-Reads : (id : DeliveryId) → Reads (get_delivery id)
  unfolding get_delivery
  get_delivery-Reads id =
      bind-Reads _ with_receipt (statement-Reads _ (λ db. refl)) with_receipt-Reads

  with_receipts-Reads : (ds : List WebhookDelivery) → Reads (with_receipts ds)
  unfolding with_receipts
  with_receipts-Reads [] = λ db. refl
  with_receipts-Reads (d ∷ ds) =
      receipt_then-Reads d _
        (λ r. bind-Reads (with_receipts ds) _ (with_receipts-Reads ds) (λ rest db. refl))

  pub list_dlq-Reads :
      (name : Option String) (limit offset : ℤ) → Reads (list_dlq name limit offset)
  unfolding list_dlq
  list_dlq-Reads name limit offset =
      bind-Reads _ with_receipts (statement-Reads _ (λ db. or_refuse-Reads _ db))
        with_receipts-Reads

  pub count_dlq-Reads : (name : String) → Reads (count_dlq name)
  unfolding count_dlq
  count_dlq-Reads name = statement-Reads _ (λ db. refl)

  pub count_pending-Reads : (name : String) → Reads (count_pending name)
  unfolding count_pending
  count_pending-Reads name = statement-Reads _ (λ db. refl)

  pub count_in_flight-Reads : (name : String) → Reads (count_in_flight name)
  unfolding count_in_flight
  count_in_flight-Reads name = statement-Reads _ (λ db. refl)
