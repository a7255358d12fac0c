-- ===== src/Pipeline/Advisory.antt =====
-- The dedupe cache of `ingest`, crates/hookbox/src/pipeline.rs, is advisory.
use hookbox.Prelude.{String, Option, Result, ok, err, ◌≡◌, refl, subst}
use hookbox.Domain.{VerificationStatus, DedupeDecision, DedupeError, StoreResult, StorageError}
use hookbox.Dedupe.Strategy.{DedupeStrategy}
use hookbox.Pipeline.Traits.{Library}
use hookbox.Pipeline.Ingest.{
  World, HookboxPipeline, Request, Outcome, dedupe_key_of, compute_payload_hash, verification,
  after_store, store_stage, after_check, dedupe_stage, after_verify, ingest, finish, count_metric,
}

-- The same answer, and the same storage after it.
abbrev pub Agree : {S D E : Type 0} → Outcome S D → Outcome S E → Type 0
Agree r r' = (r.0 ≡ r'.0) × (r.1.storage ≡ r'.1.storage)

module _ {Json Headers S D E : Type 0} (lib : Library Json Headers)
    (p : HookboxPipeline Json Headers S D) (strategy : DedupeStrategy E) (q : Request Headers) where
  -- The pipeline with another cache.
  abbrev pub with_dedupe : HookboxPipeline Json Headers S E
  with_dedupe = record {
    storage = p.storage;
    dedupe = strategy;
    emitter_names = p.emitter_names;
    verifiers = p.verifiers;
  }

  -- That the cache answers the check of this request.
  abbrev pub Answers : {F : Type 0} → DedupeStrategy F → F → Type 0
  Answers c s =
      (d : DedupeDecision) × ((c.check (dedupe_key_of lib q) (compute_payload_hash lib q.body) s).0
        ≡ ok d)

  after_store-Agree :
      (r : Result StoreResult StorageError) (w : World S D) (w' : World S E)
      → w.storage ≡ w'.storage
      → Agree (after_store lib p q r w) (after_store lib with_dedupe q r w')
  unfolding after_store finish
  after_store-Agree (ok StoreResult.stored) w w' e = (refl, e)
  after_store-Agree (ok (StoreResult.duplicate id)) w w' e = (refl, e)
  after_store-Agree (err x) w w' e = (refl, e)

  store_stage-Agree :
      (status : VerificationStatus) (reason : Option String) (w : World S D) (w' : World S E)
      → w.storage ≡ w'.storage
      → Agree (store_stage lib p q status reason w) (store_stage lib with_dedupe q status reason w')
  unfolding store_stage
  store_stage-Agree status reason w w' e =
      subst
        (λ s.
          Agree (store_stage lib p q status reason w)
            (store_stage lib with_dedupe q status reason (record w' { storage = s })))
        e (after_store-Agree _ _ _ refl)

  after_check-Agree :
      (r r' : Result DedupeDecision DedupeError) (d d' : DedupeDecision)
      (status : VerificationStatus) (reason : Option String) (w : World S D) (w' : World S E)
      → r ≡ ok d
      → r' ≡ ok d'
      → w.storage ≡ w'.storage
      → Agree
          (after_check lib p q r status reason w)
          (after_check lib with_dedupe q r' status reason w')
  unfolding after_check count_metric
  after_check-Agree (ok _) (ok _) d d' status reason w w' a a' e =
      store_stage-Agree status reason _ _ e
  after_check-Agree (err x) r' d d' status reason w w' a a' e = absurd cc
  after_check-Agree (ok _) (err x) d d' status reason w w' a a' e = absurd cc

  dedupe_stage-Agree :
      (status : VerificationStatus) (reason : Option String) (w : World S D) (w' : World S E)
      → Answers p.dedupe w.dedupe
      → Answers strategy w'.dedupe
      → w.storage ≡ w'.storage
      → Agree
          (dedupe_stage lib p q status reason w)
          (dedupe_stage lib with_dedupe q status reason w')
  unfolding dedupe_stage
  dedupe_stage-Agree status reason w w' (d, a) (d', a') e =
      after_check-Agree _ _ d d' status reason _ _ a a' e

  after_verify-Agree :
      (status : VerificationStatus) (reason : Option String) (w : World S D) (w' : World S E)
      → Answers p.dedupe w.dedupe
      → Answers strategy w'.dedupe
      → w.storage ≡ w'.storage
      → Agree
          (after_verify lib p q status reason w)
          (after_verify lib with_dedupe q status reason w')
  unfolding after_verify count_metric finish
  after_verify-Agree VerificationStatus.failed reason w w' a a' e = (refl, e)
  after_verify-Agree VerificationStatus.verified reason w w' a a' e =
      dedupe_stage-Agree _ reason _ _ a a' e
  after_verify-Agree VerificationStatus.skipped reason w w' a a' e =
      dedupe_stage-Agree _ reason _ _ a a' e

  -- The advice never decides: whatever two caches answer to the check, as long as both answer,
  -- `ingest` from the same storage gives the same outcome and leaves the storage the same.
  pub ingest-Agree :
      (w : World S D) (w' : World S E)
      → Answers p.dedupe w.dedupe
      → Answers strategy w'.dedupe
      → w.storage ≡ w'.storage
      → Agree (ingest lib p q w) (ingest lib with_dedupe q w')
  unfolding ingest count_metric verification
  ingest-Agree w w' a a' e = after_verify-Agree _ _ _ _ a a' e
