-- ===== src/Worker/Loop.antt =====
-- crates/hookbox-server/src/worker.rs: one turn of the loop in `EmitterWorker::spawn`, with
-- `refresh_gauges`, and of the loop in `RetryWorker::run`. The dispatches of a batch run one
-- after the other.
use hookbox.Prelude.{ℕ, zero, suc, List, [], ◌∷◌, Result, ok, err, ℤ}
use hookbox.Domain.{WebhookReceipt, WebhookDelivery, StorageError}
use hookbox.Postgres.Exec.{Database}
use hookbox.Postgres.Receipts.{query_for_retry}
use hookbox.Postgres.Deliveries.{
  claim_pending, reclaim_expired, count_dlq, count_pending, count_in_flight,
}
use hookbox.Pipeline.Traits.{Emitter}
use hookbox.Pipeline.Ingest.{increment, gauge}
use hookbox.Worker.Dispatch.{EmitterWorker, Site, dispatch_one, derive_status, retry_one}

-- `unwrap_or(0)` of a count.
abbrev pub or_zero : Result ℕ StorageError → ℕ
or_zero (ok n) = n
or_zero (err e) = 0

module _ {Json E : Type 0} (k : EmitterWorker Json E) where
  unfoldable pub refresh_gauges : Site Json E → Site Json E
  unfolding count_dlq count_pending count_in_flight derive_status
  refresh_gauges w =
      let dlq = count_dlq k.name w.db in
      let pending = count_pending k.name dlq.1 in
      let in_flight = count_in_flight k.name pending.1 in
      record w {
        db = in_flight.1;
        health = record w.health {
          dlq_depth = or_zero dlq.0;
          pending_count = or_zero pending.0;
          status = derive_status w.health.consecutive_failures w.health.last_failure_at w.clock;
        };
        metrics =
            gauge "hookbox_emit_in_flight" (("emitter", k.name) ∷ []) (or_zero in_flight.0)
            ∷ gauge "hookbox_emit_pending" (("emitter", k.name) ∷ []) (or_zero pending.0)
            ∷ gauge "hookbox_dlq_depth" (("emitter", k.name) ∷ []) (or_zero dlq.0)
            ∷ w.metrics;
      }

  unfoldable pub after_reclaim : Result ℕ StorageError → Site Json E → Site Json E
  after_reclaim (ok (suc n)) w = record w {
    metrics =
        increment "hookbox_emit_reclaimed_total" (("emitter", k.name) ∷ []) (suc n) ∷ w.metrics;
  }
  after_reclaim (ok zero) w = w
  after_reclaim (err e) w = w

  unfoldable pub dispatch_all :
      List (WebhookDelivery × WebhookReceipt Json) → Site Json E → Site Json E
  unfolding dispatch_one
  dispatch_all [] w = w
  dispatch_all ((d, r) ∷ rows) w = dispatch_all rows (dispatch_one k d r w)

  unfoldable pub after_claim :
      Result (List (WebhookDelivery × WebhookReceipt Json)) StorageError → Site Json E → Site Json E
  unfolding refresh_gauges dispatch_all
  after_claim (err e) w = w
  after_claim (ok []) w = refresh_gauges w
  after_claim (ok (row ∷ rows)) w = refresh_gauges (dispatch_all (row ∷ rows) w)

  unfoldable pub tick : Site Json E → Site Json E
  unfolding reclaim_expired claim_pending after_reclaim after_claim
  tick w =
      let reclaimed = reclaim_expired k.name k.lease_duration w.db in
      let w' = after_reclaim reclaimed.0 (record w { db = reclaimed.1 }) in
      let claimed = claim_pending k.name k.concurrency w'.db in
      after_claim claimed.0 (record w' { db = claimed.1 })

-- One turn of `RetryWorker::run`.
module _ {Json E : Type 0} (emitter : Emitter Json E) (max_attempts : ℤ) where
  unfoldable pub retry_all : List (WebhookReceipt Json) → E → Database Json → E × Database Json
  unfolding retry_one
  retry_all [] sink db = (sink, db)
  retry_all (r ∷ rs) sink db =
      let done = retry_one emitter max_attempts r sink db in retry_all rs done.0 done.1

  unfoldable pub after_query :
      Result (List (WebhookReceipt Json)) StorageError → E → Database Json → E × Database Json
  unfolding retry_all
  after_query (ok rs) sink db = retry_all rs sink db
  after_query (err e) sink db = (sink, db)

  unfoldable pub run_once : E → Database Json → E × Database Json
  unfolding query_for_retry after_query
  run_once sink db = let found = query_for_retry max_attempts db in after_query found.0 sink found.1
