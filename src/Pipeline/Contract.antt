-- ===== src/Pipeline/Contract.antt =====
-- What `ingest` of crates/hookbox/src/pipeline.rs promises, for any storage and any dedupe cache.
use hookbox.Prelude.{Result, ok, err, ◌≡◌, ◌≢◌, refl, sym, subst, lookup, arith, ap}
use hookbox.Domain.{
  VerificationStatus, VerificationResult, DedupeDecision, DedupeError, StoreResult, StorageError,
  IngestResult, IngestError,
}
use hookbox.Pipeline.Traits.{Library}
use hookbox.Pipeline.Ingest.{
  World, HookboxPipeline, Request, Outcome, receipt_of, dedupe_key_of, compute_payload_hash,
  verification, after_store, store_stage, after_check, dedupe_stage, after_verify, ingest, finish,
  count_metric,
}

module _ {Json Headers S D : Type 0} (lib : Library Json Headers)
    (p : HookboxPipeline Json Headers S D) (q : Request Headers) where
  -- The verdict on the request.
  abbrev pub verdict : VerificationResult
  verdict = verification lib p q (lookup q.provider p.verifiers)

  -- Verification passed, and the storage was called once, with the receipt of the request and all
  -- emitters; it gave `r` and the final state.
  abbrev pub Called : Result StoreResult StorageError → S → S → Type 0
  Called r s s' =
      (verdict.status ≢ VerificationStatus.failed)
      × (p.storage.store_with_deliveries (receipt_of lib q verdict.status verdict.reason)
            p.emitter_names s
          ≡ (r, s'))

  abbrev pub Ingested : World S D → Outcome S D → Type 0
  Ingested w (ok (IngestResult.accepted id), v) =
      (id ≡ q.receipt_id) × Called (ok StoreResult.stored) w.storage v.storage
  Ingested w (ok (IngestResult.duplicate id), v) =
      Called (ok (StoreResult.duplicate id)) w.storage v.storage
  Ingested w (ok (IngestResult.verification_failed reason), v) =
      (verdict.status ≡ VerificationStatus.failed) × (v.storage ≡ w.storage) × (v.dedupe ≡ w.dedupe)
  Ingested w (err (IngestError.storage e), v) = Called (err e) w.storage v.storage
  Ingested w (err (IngestError.dedupe e), v) =
      (verdict.status ≢ VerificationStatus.failed)
      × ((p.dedupe.check (dedupe_key_of lib q) (compute_payload_hash lib q.body) w.dedupe).0
          ≡ err e)
      × (v.storage ≡ w.storage)
  Ingested w (err _, v) = ⊥

  after_store-Ingested :
      (w : World S D) (r : Result StoreResult StorageError) (v : World S D)
      → Called r w.storage v.storage
      → Ingested w (after_store lib p q r v)
  unfolding after_store finish
  after_store-Ingested w (ok StoreResult.stored) v c = (refl, c)
  after_store-Ingested w (ok (StoreResult.duplicate id)) v c = c
  after_store-Ingested w (err e) v c = c

  after_check-Ingested :
      (w : World S D) (r : Result DedupeDecision DedupeError) (v : World S D)
      → (verdict.status ≢ VerificationStatus.failed)
      → (p.dedupe.check (dedupe_key_of lib q) (compute_payload_hash lib q.body) w.dedupe).0 ≡ r
      → v.storage ≡ w.storage
      → Ingested w (after_check lib p q r verdict.status verdict.reason v)
  unfolding after_check finish count_metric store_stage
  after_check-Ingested w (err e) v n c s = (n, c, s)
  after_check-Ingested w (ok d) v n c s = after_store-Ingested w _ _ (
    n,
    ap
        (p.storage.store_with_deliveries (receipt_of lib q verdict.status verdict.reason)
          p.emitter_names)
        (sym s),
  )

  dedupe_stage-Ingested :
      (status : VerificationStatus) (w v : World S D)
      → verdict.status ≡ status
      → verdict.status ≢ VerificationStatus.failed
      → v.storage ≡ w.storage
      → v.dedupe ≡ w.dedupe
      → Ingested w (dedupe_stage lib p q status verdict.reason v)
  unfolding dedupe_stage
  dedupe_stage-Ingested status w v e n s d =
      subst (λ t. Ingested w (dedupe_stage lib p q t verdict.reason v)) e
        (after_check-Ingested w _ _ n
          (ap (λ c. (p.dedupe.check (dedupe_key_of lib q) (compute_payload_hash lib q.body) c).0)
            (sym d))
          s)

  after_verify-Ingested :
      (status : VerificationStatus) (w v : World S D)
      → verdict.status ≡ status
      → v.storage ≡ w.storage
      → v.dedupe ≡ w.dedupe
      → Ingested w (after_verify lib p q status verdict.reason v)
  unfolding after_verify count_metric finish
  after_verify-Ingested VerificationStatus.failed w v e s d = (e, s, d)
  after_verify-Ingested VerificationStatus.verified w v e s d =
      dedupe_stage-Ingested _ w _ e (λ f. absurd (ground (arith, e, f))) s d
  after_verify-Ingested VerificationStatus.skipped w v e s d =
      dedupe_stage-Ingested _ w _ e (λ f. absurd (ground (arith, e, f))) s d

  -- `Accepted` carries the id of the request
  -- and means that the one storage call, with the receipt of the request and all emitters, said
  -- `Stored`; `Duplicate` and a storage error are that call's answer; a failed verification
  -- touches neither the storage nor the cache; a cache that fails to answer leaves the storage
  -- alone; and no other error occurs.
  pub ingest-Ingested : (w : World S D) → Ingested w (ingest lib p q w)
  unfolding ingest count_metric
  ingest-Ingested w = after_verify-Ingested verdict.status w _ refl refl refl
