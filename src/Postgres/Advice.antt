-- ===== src/Postgres/Advice.antt =====
-- crates/hookbox-postgres/src/dedupe.rs, `StorageDedupe`: an advisory answer read from the table
-- of receipts, and what the store makes of it.
use hookbox.Prelude.{
  ℕ, String, Bool, true, false, List, [], ◌∷◌, ◌++◌, Option, none, some, Result, ok, err, any,
  str_eq, str_eq_iff, select_one, if◌then◌else◌, ◌≡◌, ◌≢◌, refl, subst, arith,
}
use hookbox.Domain.{
  DateTime, WebhookReceipt, DedupeDecision, DedupeError, StoreResult, StorageError,
}
use hookbox.Dedupe.Strategy.{DedupeStrategy}
use hookbox.Dedupe.Recent.{decide}
use hookbox.Postgres.Exec.{Tables, Database, next_fault}
use hookbox.Postgres.Rules.{spent}
use hookbox.Postgres.Receipts.{has_key, store_with_deliveries}
use hookbox.Postgres.Store.{Stores, store_with_deliveries-Stores}

module _ {Json : Type 0} where
  abbrev hash_of : Option (WebhookReceipt Json) → Option String
  hash_of none = none
  hash_of (some r) = some r.payload_hash

  -- SELECT payload_hash FROM webhook_receipts WHERE dedupe_key = $1, which may fail, and the
  -- decision on what it finds.
  unfoldable pub asked :
      Option String
      → String
      → String
      → Database Json
      → Result DedupeDecision DedupeError × Database Json
  unfolding decide
  asked (some e) dedupe_key payload_hash db = (err (DedupeError.internal e), db)
  asked none dedupe_key payload_hash db =
      (ok (decide (hash_of (select_one (has_key dedupe_key) db.tables.receipts)) payload_hash), db)

  unfoldable pub check_stored :
      String → String → Database Json → Result DedupeDecision DedupeError × Database Json
  unfolding asked
  check_stored dedupe_key payload_hash db =
      asked (next_fault db.faults) dedupe_key payload_hash (spent db)

  -- `StorageDedupe`; its recording does nothing.
  unfoldable pub storage_dedupe : DedupeStrategy (Database Json)
  unfolding check_stored
  storage_dedupe = record {
    check = check_stored;
    record_key = λ dedupe_key payload_hash db. (ok tt, db);
  }

  -- The duplicate names a receipt with the key, which holds such a hash.
  Names : (String → Type 0) → WebhookReceipt Json → Tables Json → Tables Json → ℕ → Type 0
  Names P r t t' id =
      (t' ≡ t)
      × ((old : WebhookReceipt Json) × (select_one (has_key r.dedupe_key) t.receipts ≡ some old)
          × (old.receipt_id ≡ id)
          × P old.payload_hash)

  -- What the store can answer after each decision.
  pub Foretold :
      WebhookReceipt Json
      → Tables Json
      → DedupeDecision
      → Result StoreResult StorageError × Database Json
      → Type 0
  Foretold r t d (err e, db) = db.tables ≡ t
  Foretold r t DedupeDecision.new (ok StoreResult.stored, db) =
      db.tables.receipts ≡ t.receipts ++ r ∷ []
  Foretold r t DedupeDecision.new (ok (StoreResult.duplicate id), db) = ⊥
  Foretold r t DedupeDecision.duplicate (ok StoreResult.stored, db) = ⊥
  Foretold r t DedupeDecision.duplicate (ok (StoreResult.duplicate id), db) =
      Names (λ h. h ≡ r.payload_hash) r t db.tables id
  Foretold r t DedupeDecision.conflict (ok StoreResult.stored, db) = ⊥
  Foretold r t DedupeDecision.conflict (ok (StoreResult.duplicate id), db) =
      Names (λ h. h ≢ r.payload_hash) r t db.tables id

  any-select_one :
      (p : WebhookReceipt Json → Bool) (rs : List (WebhookReceipt Json)) (old : WebhookReceipt Json)
      → select_one p rs ≡ some old
      → any p rs ≡ true
  any-select_one p [] old e = absurd (ground arith)
  any-select_one p (r ∷ rs) old e = ground (arith, any-select_one p rs old)

  module _ (r : WebhookReceipt Json) (names : List String) (t : Tables Json) (now : DateTime) where
    known :
        (old : WebhookReceipt Json) (p : Result StoreResult StorageError × Database Json)
        → select_one (has_key r.dedupe_key) t.receipts ≡ some old
        → (b : Bool) → str_eq old.payload_hash r.payload_hash ≡ b
        → Stores r names t now p
        → Foretold r t (if b then DedupeDecision.duplicate else DedupeDecision.conflict) p
    unfolding Foretold Names
    known old (err e, db) found true h s = s
    known old (err e, db) found false h s = s
    known old (ok StoreResult.stored, db) found b h s =
        absurd (ground (arith, any-select_one _ t.receipts old found, s.1))
    known old (ok (StoreResult.duplicate id), db) found true h s = (
      s.0,
      (
        s.1.0,
        s.1.1,
        s.1.2,
        ground (arith, str_eq_iff old.payload_hash r.payload_hash, s.1.1, found, h),
      ),
    )
    known old (ok (StoreResult.duplicate id), db) found false h s = (
      s.0,
      (
        s.1.0,
        s.1.1,
        s.1.2,
        λ e. ground (arith, str_eq_iff old.payload_hash r.payload_hash, s.1.1, found, h, e),
      ),
    )

    foretold :
        (o : Option (WebhookReceipt Json)) (p : Result StoreResult StorageError × Database Json)
        → select_one (has_key r.dedupe_key) t.receipts ≡ o
        → Stores r names t now p
        → Foretold r t (decide (hash_of o) r.payload_hash) p
    unfolding decide Foretold
    foretold none (err e, db) found s = s
    foretold none (ok StoreResult.stored, db) found s = s.0
    foretold none (ok (StoreResult.duplicate id), db) found s =
        absurd (ground (arith, found, s.1.1))
    foretold (some old) p found s = known old p found _ refl s

  -- Where no one writes between the two, the advice of `StorageDedupe` foretells what the store
  -- does, unless that fails and changes nothing: after `New` the receipt is stored, after
  -- `Duplicate` and `Conflict` nothing changes and the answer names a receipt of that key whose
  -- hash is the same, or is not.
  pub check_stored-Foretold :
      (r : WebhookReceipt Json) (names : List String) (db : Database Json) (d : DedupeDecision)
      → (check_stored r.dedupe_key r.payload_hash db).0 ≡ ok d
      → Foretold r db.tables d
          (store_with_deliveries r names (check_stored r.dedupe_key r.payload_hash db).1)
  unfolding check_stored asked
  check_stored-Foretold r names db d = answered (next_fault db.faults)
    where
      answered :
          (f : Option String)
          → (asked f r.dedupe_key r.payload_hash (spent db)).0 ≡ ok d
          → Foretold r db.tables d
              (store_with_deliveries r names (asked f r.dedupe_key r.payload_hash (spent db)).1)
      answered (some x) e = absurd (ground arith)
      answered none e =
          subst (λ d. Foretold r db.tables d (store_with_deliveries r names (spent db)))
            (ground (arith, e))
            (foretold r names db.tables db.now _ _ refl
              (store_with_deliveries-Stores r names (spent db)))
