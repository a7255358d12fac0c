-- ===== src/Routes/Ingest.antt =====
-- crates/hookbox-server/src/routes/ingest.rs: `ingest_webhook`. A status code is a number; the
-- body is the list of its fields, with ids as numbers.
use hookbox.Prelude.{
  ℕ, String, true, any, List, [], ◌∷◌, some, Result, ok, err, ◌≡◌, ◌≢◌, refl, ap, ◌∙◌, arith,
  select_one,
}
use hookbox.Domain.{ReceiptId, DateTime, WebhookReceipt, IngestResult, IngestError}
use hookbox.Dedupe.Strategy.{DedupeStrategy}
use hookbox.Postgres.Exec.{Tables, Database}
use hookbox.Postgres.Receipts.{has_key}
use hookbox.Pipeline.Traits.{SignatureVerifier, Library}
use hookbox.Pipeline.Ingest.{World, HookboxPipeline, Request, Outcome, ingest, dedupe_key_of}
use hookbox.Pipeline.Durable.{Durable, postgres_pipeline, ingest-Durable, key_held}

pub data Field : Type 0 where
  text : String → Field
  uuid : ReceiptId → Field

pub record Response : Type 0 where
  pub status : ℕ
  pub body : List (String × Field)

unfoldable pub response : Result IngestResult IngestError → Response
response (ok (IngestResult.accepted receipt_id)) = record {
  status = 200;
  body = ("status", Field.text "accepted") ∷ ("receipt_id", Field.uuid receipt_id) ∷ [];
}
response (ok (IngestResult.duplicate existing_id)) = record {
  status = 200;
  body = ("status", Field.text "duplicate") ∷ ("existing_id", Field.uuid existing_id) ∷ [];
}
response (ok (IngestResult.verification_failed reason)) = record {
  status = 401;
  body = ("status", Field.text "verification_failed") ∷ ("reason", Field.text reason) ∷ [];
}
response (err e) = record {
  status = 500;
  body = ("status", Field.text "error") ∷ ("reason", Field.text "internal server error") ∷ [];
}

unfoldable pub ingest_webhook :
    {Json Headers S D : Type 0}
    → Library Json Headers
    → HookboxPipeline Json Headers S D
    → Request Headers
    → World S D
    → Response × World S D
unfolding response ingest
ingest_webhook lib p q w = let r = ingest lib p q w in (response r.0, r.1)

found_key :
    {Json : Type 0} (k : String) (rs : List (WebhookReceipt Json)) (r : WebhookReceipt Json)
    → select_one (has_key k) rs ≡ some r
    → any (has_key k) rs ≡ true
found_key k [] r e = absurd cc
found_key k (s ∷ rs) r e = ground (arith, found_key k rs r)

module _ {Json Headers D : Type 0} (lib : Library Json Headers) (strategy : DedupeStrategy D)
    (names : List String) (verifiers : List (String × SignatureVerifier Headers))
    (q : Request Headers) where
  acknowledged :
      (t : Tables Json) (now : DateTime) (o : Outcome (Database Json) D)
      → Durable lib strategy names verifiers q t now o
      → (response o.0).status ≡ 200
      → any (has_key (dedupe_key_of lib q)) o.1.storage.tables.receipts ≡ true
  unfolding response
  acknowledged t now (ok (IngestResult.accepted id), v) d e =
      ap (any (has_key (dedupe_key_of lib q))) d.1.1
      ∙ key_held (dedupe_key_of lib q) t.receipts d.1.0 d.1.3
  acknowledged t now (ok (IngestResult.duplicate id), v) d e =
      ap (λ (u : Tables Json). any (has_key (dedupe_key_of lib q)) u.receipts) d.0
      ∙ found_key (dedupe_key_of lib q) t.receipts d.1.0 d.1.1
  acknowledged t now (ok (IngestResult.verification_failed reason), v) d e =
      absurd (ground (arith, e))
  acknowledged t now (err x, v) d e = absurd (ground (arith, e))

  refused :
      (t : Tables Json) (now : DateTime) (o : Outcome (Database Json) D)
      → Durable lib strategy names verifiers q t now o
      → (response o.0).status ≢ 200
      → o.1.storage.tables ≡ t
  unfolding response
  refused t now (ok (IngestResult.accepted id), v) d e = absurd (e refl)
  refused t now (ok (IngestResult.duplicate id), v) d e = absurd (e refl)
  refused t now (ok (IngestResult.verification_failed reason), v) d e = d
  refused t now (err x, v) d e = d

  -- Over PostgreSQL, when the answer is 200 the database holds a receipt with the key of the
  -- request.
  pub ingest_webhook-acknowledged :
      (w : World (Database Json) D)
      → (ingest_webhook lib (postgres_pipeline strategy names verifiers) q w).0.status ≡ 200
      → any
          (has_key (dedupe_key_of lib q))
          (ingest_webhook lib
            (postgres_pipeline strategy names verifiers)
            q
            w).1.storage.tables.receipts
        ≡ true
  unfolding ingest_webhook
  ingest_webhook-acknowledged w e =
      acknowledged w.storage.tables w.storage.now _
        (ingest-Durable lib strategy names verifiers q w) e

  -- Over PostgreSQL, when the answer is not 200 the tables are as they were.
  pub ingest_webhook-refused :
      (w : World (Database Json) D)
      → (ingest_webhook lib (postgres_pipeline strategy names verifiers) q w).0.status ≢ 200
      → (ingest_webhook lib (postgres_pipeline strategy names verifiers) q w).1.storage.tables
        ≡ w.storage.tables
  unfolding ingest_webhook
  ingest_webhook-refused w e =
      refused w.storage.tables w.storage.now _ (ingest-Durable lib strategy names verifiers q w) e
