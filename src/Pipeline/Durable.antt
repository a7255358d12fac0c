-- ===== src/Pipeline/Durable.antt =====
-- `ingest` of crates/hookbox/src/pipeline.rs over the storage of
-- crates/hookbox-postgres/src/storage.rs.
use hookbox.Prelude.{
  String, true, false, List, [], ◌∷◌, ◌++◌, map, any, any-append, All, Option, some, Result, ok,
  err, ◌≡◌, ◌≢◌, refl, sym, ◌∙◌, ap, subst, select_one, arith, str_eq_iff,
}
use hookbox.Domain.{
  DateTime, ReceiptId, WebhookReceipt, WebhookDelivery, VerificationStatus, DedupeDecision,
  DedupeError, StoreResult, StorageError, IngestResult,
}
use hookbox.Dedupe.Strategy.{DedupeStrategy}
use hookbox.Postgres.Exec.{Tables, Database}
use hookbox.Postgres.Receipts.{has_key}
use hookbox.Postgres.Inserts.{IsFresh}
use hookbox.Postgres.Store.{Stores, store_with_deliveries-Stores}
use hookbox.Pipeline.Traits.{SignatureVerifier, Library, postgres_storage}
use hookbox.Pipeline.Ingest.{
  World, HookboxPipeline, Request, Outcome, receipt_of, dedupe_key_of, after_store, store_stage,
  after_check, dedupe_stage, after_verify, ingest, finish, count_metric,
}

pub key_held :
    {Json : Type 0} (k : String) (rs : List (WebhookReceipt Json)) (r : WebhookReceipt Json)
    → r.dedupe_key ≡ k
    → any (has_key k) (rs ++ r ∷ []) ≡ true
key_held k rs r e =
    any-append (has_key k) rs (r ∷ []) ∙ ground (arith, str_eq_iff r.dedupe_key k, e)

-- The pipeline that the server builds.
abbrev pub postgres_pipeline :
    {Json Headers D : Type 0}
    → DedupeStrategy D
    → List String
    → List (String × SignatureVerifier Headers)
    → HookboxPipeline Json Headers (Database Json) D
postgres_pipeline strategy names verifiers = record {
  storage = postgres_storage;
  dedupe = strategy;
  emitter_names = names;
  verifiers = verifiers;
}

module _ {Json Headers D : Type 0} (lib : Library Json Headers) (strategy : DedupeStrategy D)
    (names : List String) (verifiers : List (String × SignatureVerifier Headers)) where
  -- `t` and `now` before, and the outcome with the database after.
  abbrev pub Durable : Request Headers → Tables Json → DateTime → Outcome (Database Json) D → Type 0
  Durable q t now (ok (IngestResult.accepted id), v) =
      (any (has_key (dedupe_key_of lib q)) t.receipts ≡ false)
      × ((r : WebhookReceipt Json) × (v.storage.tables.receipts ≡ t.receipts ++ r ∷ [])
          × (r.receipt_id ≡ id)
          × (r.dedupe_key ≡ dedupe_key_of lib q)
          × (r.raw_body ≡ q.body))
      × ((rows : List WebhookDelivery) × (v.storage.tables.deliveries ≡ t.deliveries ++ rows)
          × (map (λ (d : WebhookDelivery). d.emitter_name) rows ≡ names)
          × All (IsFresh id now) rows)
  Durable q t now (ok (IngestResult.duplicate id), v) =
      (v.storage.tables ≡ t)
      × ((old : WebhookReceipt Json) × (select_one (has_key (dedupe_key_of lib q)) t.receipts
            ≡ some old)
          × (old.receipt_id ≡ id))
  Durable q t now (_, v) = v.storage.tables ≡ t

  module _ (q : Request Headers) where
    after_store-Durable :
        (t : Tables Json) (now : DateTime) (status : VerificationStatus) (reason : Option String)
        (r : Result StoreResult StorageError) (v : World (Database Json) D)
        → Stores (receipt_of lib q status reason) names t now (r, v.storage)
        → Durable q t now (after_store lib (postgres_pipeline strategy names verifiers) q r v)
    unfolding after_store finish receipt_of
    after_store-Durable t now status reason (ok StoreResult.stored) v (added, new, rows) =
        (new, (receipt_of lib q status reason, added, refl, refl, refl), rows)
    after_store-Durable t now status reason (ok (StoreResult.duplicate id)) v s = s
    after_store-Durable t now status reason (err e) v s = s

    after_check-Durable :
        (r : Result DedupeDecision DedupeError) (status : VerificationStatus)
        (reason : Option String) (v : World (Database Json) D)
        → Durable q v.storage.tables v.storage.now
            (after_check lib (postgres_pipeline strategy names verifiers) q r status reason v)
    unfolding after_check finish count_metric store_stage postgres_storage receipt_of
    after_check-Durable (err e) status reason v = refl
    after_check-Durable (ok d) status reason v =
        after_store-Durable _ _ status reason _ _
          (store_with_deliveries-Stores (receipt_of lib q status reason) names v.storage)

    after_verify-Durable :
        (status : VerificationStatus) (reason : Option String) (v : World (Database Json) D)
        → Durable q v.storage.tables v.storage.now
            (after_verify lib (postgres_pipeline strategy names verifiers) q status reason v)
    unfolding after_verify count_metric finish dedupe_stage
    after_verify-Durable VerificationStatus.failed reason v = refl
    after_verify-Durable VerificationStatus.verified reason v = after_check-Durable _ _ reason _
    after_verify-Durable VerificationStatus.skipped reason v = after_check-Durable _ _ reason _

  -- Over PostgreSQL, whichever statement fails: an accepted request had a new key, and its
  -- receipt is stored under the id of the answer with one pending row, due now, for each
  -- emitter; a duplicate changes no table and names the receipt that has the key; and on every
  -- other path the tables stay as they were.
  pub ingest-Durable :
      (q : Request Headers) (w : World (Database Json) D)
      → Durable q w.storage.tables w.storage.now
          (ingest lib (postgres_pipeline strategy names verifiers) q w)
  unfolding ingest count_metric
  ingest-Durable q w = after_verify-Durable q _ _ _

  -- A request that was accepted is not accepted a second time: one with the same provider and
  -- body, with any headers and at any time, is not accepted by a database that holds the
  -- receipts of the first one's end, whatever the caches and the other rows are.
  pub ingest-again :
      (q q' : Request Headers) (w w' : World (Database Json) D) (id id' : ReceiptId)
      → q'.provider ≡ q.provider
      → q'.body ≡ q.body
      → (ingest lib (postgres_pipeline strategy names verifiers) q w).0
        ≡ ok (IngestResult.accepted id)
      → w'.storage.tables.receipts
        ≡ (ingest lib (postgres_pipeline strategy names verifiers) q w).1.storage.tables.receipts
      → (ingest lib (postgres_pipeline strategy names verifiers) q' w').0
        ≢ ok (IngestResult.accepted id')
  unfolding dedupe_key_of
  ingest-again q q' w w' id id' same_provider same_body first kept second =
      let pipe = postgres_pipeline strategy names verifiers in
      let before =
        subst (λ r. Durable q w.storage.tables w.storage.now (r, (ingest lib pipe q w).1)) first
          (ingest-Durable q w) in
      let after =
        subst (λ r. Durable q' w'.storage.tables w'.storage.now (r, (ingest lib pipe q' w').1))
          second (ingest-Durable q' w') in
      let same_key : dedupe_key_of lib q' ≡ dedupe_key_of lib q = cc in
      let receipts = kept ∙ before.1.1 in
      absurd (
        ground (
          arith,
          key_held (dedupe_key_of lib q') w.storage.tables.receipts before.1.0
              (before.1.3 ∙ sym same_key),
          sym (ap (any (has_key (dedupe_key_of lib q'))) receipts) ∙ after.0,
        ))
