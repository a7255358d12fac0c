-- ===== src/Pipeline/Counters.antt =====
-- The counter of results that `ingest` of crates/hookbox/src/pipeline.rs keeps.
use hookbox.Prelude.{
  String, Bool, false, List, [], ◌∷◌, Option, Result, ok, err, ◌≡◌, refl, str_eq, select,
}
use hookbox.Domain.{
  VerificationStatus, DedupeDecision, DedupeError, StoreResult, StorageError, IngestResult,
  IngestError,
}
use hookbox.Transitions.Labels.{
  label_accepted, label_duplicate, label_verification_failed, label_store_failed,
  label_dedupe_failed,
}
use hookbox.Pipeline.Traits.{Library}
use hookbox.Pipeline.Ingest.{
  Metric, counter, World, HookboxPipeline, Request, Outcome, after_store, store_stage, after_check,
  dedupe_stage, after_verify, ingest, finish, count_metric,
}

abbrev is_result : Metric → Bool
is_result (counter name labels) = str_eq name "hookbox_ingest_results_total"
is_result _ = false

-- The label that belongs to an outcome.
abbrev pub outcome_label : Result IngestResult IngestError → String
outcome_label (ok (IngestResult.accepted id)) = label_accepted
outcome_label (ok (IngestResult.duplicate id)) = label_duplicate
outcome_label (ok (IngestResult.verification_failed reason)) = label_verification_failed
outcome_label (err (IngestError.storage e)) = label_store_failed
outcome_label (err (IngestError.dedupe e)) = label_dedupe_failed
outcome_label (err e) = ""

-- `w` before, and the outcome with the metrics after: one more result, with its label.
abbrev pub Counted : {S D : Type 0} → String → List Metric → Outcome S D → Type 0
Counted provider before (r, v) =
    select is_result v.metrics
    ≡ counter "hookbox_ingest_results_total"
        (("provider", provider) ∷ ("result", outcome_label r) ∷ [])
      ∷ select is_result before

module _ {Json Headers S D : Type 0} (lib : Library Json Headers)
    (p : HookboxPipeline Json Headers S D) (q : Request Headers) where
  after_store-Counted :
      (r : Result StoreResult StorageError) (w : World S D)
      → Counted q.provider w.metrics (after_store lib p q r w)
  unfolding after_store finish
  after_store-Counted (ok StoreResult.stored) w = refl
  after_store-Counted (ok (StoreResult.duplicate id)) w = refl
  after_store-Counted (err e) w = refl

  after_check-Counted :
      (r : Result DedupeDecision DedupeError) (status : VerificationStatus) (reason : Option String)
      (w : World S D)
      → Counted q.provider w.metrics (after_check lib p q r status reason w)
  unfolding after_check finish count_metric store_stage
  after_check-Counted (err e) status reason w = refl
  after_check-Counted (ok d) status reason w = after_store-Counted _ _

  after_verify-Counted :
      (status : VerificationStatus) (reason : Option String) (w : World S D)
      → Counted q.provider w.metrics (after_verify lib p q status reason w)
  unfolding after_verify count_metric finish dedupe_stage
  after_verify-Counted VerificationStatus.failed reason w = refl
  after_verify-Counted VerificationStatus.verified reason w = after_check-Counted _ _ reason _
  after_verify-Counted VerificationStatus.skipped reason w = after_check-Counted _ _ reason _

  -- On every path `ingest` counts exactly one result, under the label of its outcome.
  pub ingest-Counted : (w : World S D) → Counted q.provider w.metrics (ingest lib p q w)
  unfolding ingest count_metric
  ingest-Counted w = after_verify-Counted _ _ _
