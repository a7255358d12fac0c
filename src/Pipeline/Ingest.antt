-- ===== src/Pipeline/Ingest.antt =====
-- crates/hookbox/src/pipeline.rs: `ingest`, the builder and `headers_to_json`, and
-- `compute_payload_hash` of hash.rs. Log lines are left out; the metrics are kept, the latest
-- one first, durations without their values.
use hookbox.Prelude.{
  ℕ, String, List, [], ◌∷◌, map, Option, none, some, Result, ok, err, pos, lookup, unwrap_or,
}
use hookbox.Domain.{
  ReceiptId, DateTime, WebhookReceipt, VerificationStatus, VerificationResult, ProcessingState,
  DedupeDecision, DedupeError, StoreResult, StorageError, IngestResult, IngestError,
}
use hookbox.Transitions.Labels.{
  label_accepted, label_duplicate, label_verification_failed, label_store_failed,
  label_dedupe_failed, dedupe_decision_label,
}
use hookbox.Dedupe.Strategy.{DedupeStrategy}
use hookbox.Pipeline.Traits.{SignatureVerifier, Storage, Library}
use Prim.Native.String.{◌++◌ as text_append}

pub data Metric : Type 0 where
  counter : String → List (String × String) → Metric
  increment gauge : String → List (String × String) → ℕ → Metric
  histogram : String → Metric

-- The state behind the pipeline.
pub record World (S D : Type 0) : Type 0 where
  pub storage : S
  pub dedupe : D
  pub metrics : List Metric

pub record HookboxPipeline (Json Headers S D : Type 0) : Type 0 where
  pub storage : Storage Json S
  pub dedupe : DedupeStrategy D
  pub emitter_names : List String
  pub verifiers : List (String × SignatureVerifier Headers)

-- `HookboxPipelineBuilder`; `verifier` and `verifier_boxed` do the same.
pub record HookboxPipelineBuilder (Json Headers S D : Type 0) : Type 0 where
  pub builder_storage : Option (Storage Json S)
  pub builder_dedupe : Option (DedupeStrategy D)
  pub builder_emitter_names : List String
  pub builder_verifiers : List (String × SignatureVerifier Headers)

-- A request, with the new id and the time that `ingest` draws.
pub record Request (Headers : Type 0) : Type 0 where
  pub provider : String
  pub headers : Headers
  pub body : List ℕ
  pub receipt_id : ReceiptId
  pub now : DateTime

-- `join(", ")` of the values that are texts.
unfoldable pub join : List (Option String) → String
join [] = ""
join (none ∷ vs) = join vs
join (some v ∷ vs) = join_after v vs
  where
    join_after : String → List (Option String) → String
    join_after s [] = s
    join_after s (none ∷ ws) = join_after s ws
    join_after s (some w ∷ ws) = join_after (text_append (text_append s ", ") w) ws

unfoldable pub count_metric :
    {S D : Type 0} → String → List (String × String) → World S D → World S D
count_metric name labels w = record w { metrics = counter name labels ∷ w.metrics }

unfoldable pub verification_result : String → String → String → List (String × String)
verification_result provider status reason =
    ("provider", provider) ∷ ("status", status) ∷ ("reason", reason) ∷ []

-- The end of every path: the counter of the results, and the duration.
unfoldable pub finish : {S D : Type 0} → String → String → World S D → World S D
finish provider label w = record w {
  metrics =
      histogram "hookbox_ingest_duration_seconds"
      ∷ counter "hookbox_ingest_results_total" (("provider", provider) ∷ ("result", label) ∷ [])
      ∷ w.metrics;
}

abbrev pub Outcome : Type 0 → Type 0 → Type 0
Outcome S D = Result IngestResult IngestError × World S D

module _ {Json Headers S D : Type 0} where
  unfoldable pub builder : HookboxPipelineBuilder Json Headers S D
  builder = record {
    builder_storage = none;
    builder_dedupe = none;
    builder_emitter_names = [];
    builder_verifiers = [];
  }

  -- `insert` of a map: the latest entry for a name is the one that is found.
  unfoldable pub verifier :
      SignatureVerifier Headers
      → HookboxPipelineBuilder Json Headers S D
      → HookboxPipelineBuilder Json Headers S D
  verifier v b = record b { builder_verifiers = (v.provider_name, v) ∷ b.builder_verifiers }

  -- `None` where `build` panics.
  unfoldable pub build :
      HookboxPipelineBuilder Json Headers S D → Option (HookboxPipeline Json Headers S D)
  build b = built b.builder_storage b.builder_dedupe
    where
      built :
          Option (Storage Json S)
          → Option (DedupeStrategy D)
          → Option (HookboxPipeline Json Headers S D)
      built none d = none
      built (some s) none = none
      built (some s) (some d) = some (record {
        storage = s;
        dedupe = d;
        emitter_names = b.builder_emitter_names;
        verifiers = b.builder_verifiers;
      })

module _ {Json Headers : Type 0} (lib : Library Json Headers) where
  unfoldable pub compute_payload_hash : List ℕ → String
  compute_payload_hash body = lib.sha256_hex body

  unfoldable pub headers_to_json : Headers → Json
  unfolding join
  headers_to_json headers = lib.object (
      map (λ key. (key, lib.text (join (lib.header_values headers key)))) (lib.header_keys headers))

  unfoldable pub dedupe_key_of : Request Headers → String
  unfolding compute_payload_hash
  dedupe_key_of q = text_append (text_append q.provider ":") (compute_payload_hash q.body)

  unfoldable pub receipt_of :
      Request Headers → VerificationStatus → Option String → WebhookReceipt Json
  unfolding compute_payload_hash headers_to_json dedupe_key_of
  receipt_of q status reason = record {
    receipt_id = q.receipt_id;
    provider_name = q.provider;
    provider_event_id = none;
    external_reference = none;
    dedupe_key = dedupe_key_of q;
    payload_hash = compute_payload_hash q.body;
    raw_body = q.body;
    parsed_payload = lib.parse q.body;
    raw_headers = headers_to_json q.headers;
    normalized_event_type = none;
    verification_status = status;
    verification_reason = reason;
    processing_state = ProcessingState.stored;
    emit_count = pos 0;
    last_error = none;
    received_at = q.now;
    processed_at = none;
    metadata = lib.object [];
  }

module _ {Json Headers S D : Type 0} (lib : Library Json Headers)
    (p : HookboxPipeline Json Headers S D) (q : Request Headers) where
  -- The last stage: a failure to record the key is logged, and no error.
  unfoldable pub after_store : Result StoreResult StorageError → World S D → Outcome S D
  unfolding finish dedupe_key_of compute_payload_hash
  after_store (err e) w = (err (IngestError.storage e), finish q.provider label_store_failed w)
  after_store (ok (StoreResult.duplicate id)) w = (
    ok (IngestResult.duplicate id),
    finish q.provider label_duplicate
        (record w { metrics = histogram "hookbox_store_duration_seconds" ∷ w.metrics }),
  )
  after_store (ok StoreResult.stored) w = (
    ok (IngestResult.accepted q.receipt_id),
    finish q.provider label_accepted (record w {
      dedupe =
          (p.dedupe.record_key (dedupe_key_of lib q) (compute_payload_hash lib q.body) w.dedupe).1;
      metrics = histogram "hookbox_store_duration_seconds" ∷ w.metrics;
    }),
  )

  unfoldable pub store_stage : VerificationStatus → Option String → World S D → Outcome S D
  unfolding receipt_of after_store
  store_stage status reason w =
      let r =
        p.storage.store_with_deliveries (receipt_of lib q status reason) p.emitter_names
          w.storage in
      after_store r.0 (record w { storage = r.1 })

  -- A flagged duplicate goes on to the authoritative check.
  unfoldable pub after_check :
      Result DedupeDecision DedupeError
      → VerificationStatus
      → Option String
      → World S D
      → Outcome S D
  unfolding finish count_metric dedupe_decision_label store_stage
  after_check (err e) status reason w =
      (err (IngestError.dedupe e), finish q.provider label_dedupe_failed w)
  after_check (ok advisory) status reason w = store_stage status reason (
      count_metric "hookbox_dedupe_checks_total"
        (("provider", q.provider) ∷ ("result", dedupe_decision_label advisory) ∷ []) w)

  unfoldable pub dedupe_stage : VerificationStatus → Option String → World S D → Outcome S D
  unfolding after_check dedupe_key_of compute_payload_hash
  dedupe_stage status reason w =
      let r = p.dedupe.check (dedupe_key_of lib q) (compute_payload_hash lib q.body) w.dedupe in
      after_check r.0 status reason (record w { dedupe = r.1 })

  -- A provider without a verifier is let through.
  unfoldable pub verification : Option (SignatureVerifier Headers) → VerificationResult
  verification (some v) = v.verify q.headers q.body
  verification none = record {
    status = VerificationStatus.skipped;
    reason = some "no_verifier_configured";
  }

  unfoldable pub after_verify : VerificationStatus → Option String → World S D → Outcome S D
  unfolding finish count_metric verification_result dedupe_stage
  after_verify VerificationStatus.failed reason w = (
    ok (IngestResult.verification_failed (unwrap_or reason "verification_failed")),
    finish q.provider label_verification_failed (
        count_metric "hookbox_verification_results_total"
          (verification_result q.provider "failed" (unwrap_or reason "verification_failed")) w),
  )
  after_verify VerificationStatus.verified reason w =
      dedupe_stage VerificationStatus.verified reason (
        count_metric "hookbox_verification_results_total"
          (verification_result q.provider "verified" (unwrap_or reason "none")) w)
  after_verify VerificationStatus.skipped reason w =
      dedupe_stage VerificationStatus.skipped reason (
        count_metric "hookbox_verification_results_total"
          (verification_result q.provider "skipped" (unwrap_or reason "none")) w)

  unfoldable pub ingest : World S D → Outcome S D
  unfolding count_metric verification after_verify lookup
  ingest w =
      let result = verification (lookup q.provider p.verifiers) in
      after_verify result.status result.reason
        (count_metric "hookbox_webhooks_received_total" (("provider", q.provider) ∷ []) w)
