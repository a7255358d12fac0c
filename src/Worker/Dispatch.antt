-- ===== src/Worker/Dispatch.antt =====
-- crates/hookbox-server/src/worker.rs: `EmitterWorker::dispatch_one` and `update_health`, and
-- `RetryWorker::retry_one`. Log lines are left out; the metrics are kept, the latest one first.
use hookbox.Config.Float.{F64}
use hookbox.Config.Emitters.{RetryPolicy}
use hookbox.Transitions.Backoff.{Arithmetic, compute_backoff}
use hookbox.Prelude.{
  ◌/◌, ℕ, ◌+◌, ◌%◌, String, Bool, true, false, Option, none, some, List, [], ◌∷◌, Result, ok, err,
  ℤ, pos, negsuc, ◌+ℤ◌, leb_ℤ, leb, ltb, i32_max, if◌then◌else◌,
}
use hookbox.Domain.{
  DateTime, WebhookReceipt, WebhookDelivery, ProcessingState, EmitError, from_receipt,
}
use hookbox.Postgres.Exec.{Database}
use hookbox.Postgres.Receipts.{update_state, retry_failed}
use hookbox.Postgres.Deliveries.{mark_emitted, mark_failed, mark_dead_lettered}
use hookbox.Pipeline.Traits.{Emitter}
use hookbox.Pipeline.Ingest.{Metric, counter, histogram}
use Prim.Native.String.{◌++◌ as text_append}

pub data HealthStatus : Type 0 where
  healthy degraded unhealthy : HealthStatus

pub record EmitterHealth : Type 0 where
  pub last_success_at : Option DateTime
  pub last_failure_at : Option DateTime
  pub consecutive_failures : ℕ
  pub status : HealthStatus
  pub dlq_depth : ℕ
  pub pending_count : ℕ

-- What `compute_backoff` takes from outside: the arithmetic of `f64`, and what `fastrand::f64()`
-- gives for a delivery at a time.
pub record Chance : Type 0 where
  pub arithmetic : Arithmetic
  pub random : DateTime → WebhookDelivery → F64

pub record EmitterWorker (Json E : Type 0) : Type 0 where
  pub name : String
  pub emitter : Emitter Json E
  pub policy : RetryPolicy
  pub chance : Chance
  pub concurrency : ℤ
  pub lease_duration : ℕ

-- What the worker acts on; `clock` is that of its own process.
pub record Site (Json E : Type 0) : Type 0 where
  pub db : Database Json
  pub sink : E
  pub health : EmitterHealth
  pub clock : DateTime
  pub metrics : List Metric

-- `Display` for `EmitError`.
unfoldable pub emit_error_text : EmitError → String
emit_error_text (EmitError.downstream e) = text_append "emit error: " e
emit_error_text (EmitError.timeout e) = text_append "emit timeout: " e

-- Within 60 seconds, in microseconds.
abbrev pub is_recent : Option DateTime → DateTime → Bool
is_recent none now = false
is_recent (some t) now = ltb now (t + 60000000)

unfoldable pub derive_status : ℕ → Option DateTime → DateTime → HealthStatus
derive_status consecutive_failures last_failure_at now =
    if leb 10 consecutive_failures
    then HealthStatus.unhealthy
    else (if is_recent last_failure_at now then HealthStatus.degraded else HealthStatus.healthy)

-- 2 ^ 32.
abbrev pub u32_size : ℕ
u32_size = 4294967296

-- The counter of failures is a `u32`.
unfoldable pub update_health : Bool → DateTime → EmitterHealth → EmitterHealth
unfolding derive_status
update_health true now h = record h {
  last_success_at = some now;
  consecutive_failures = 0;
  status = derive_status 0 h.last_failure_at now;
}
update_health false now h = record h {
  last_failure_at = some now;
  consecutive_failures = (h.consecutive_failures + 1) % u32_size;
  status = derive_status ((h.consecutive_failures + 1) % u32_size) (some now) now;
}

-- `attempt_count + 1` in `i32`, with the wrap-around of a release build.
unfoldable pub next_attempt : WebhookDelivery → ℤ
next_attempt d =
    if leb_ℤ (pos i32_max) d.attempt_count then negsuc i32_max else d.attempt_count +ℤ pos 1

-- The longest `chrono::Duration`, 2 ^ 63 - 1 milliseconds, in nanoseconds.
abbrev pub longest_delta : ℕ
longest_delta = 9223372036854775807000000

-- `from_std` or else a day, in microseconds. A panic of `compute_backoff`, which ends the worker, is
-- not followed: a day stands for it.
unfoldable pub next_delta : Option ℕ → ℕ
next_delta none = 86400000000
next_delta (some backoff) = if leb backoff longest_delta then backoff / 1000 else 86400000000

-- The worker is that of a release build.
unfoldable pub retry_delay :
    {Json E : Type 0} → EmitterWorker Json E → DateTime → WebhookDelivery → ℕ
unfolding next_delta compute_backoff next_attempt
retry_delay k now d =
    next_delta
      (compute_backoff k.chance.arithmetic false (next_attempt d) k.policy (k.chance.random now d))

abbrev pub emit_result : String → String → String → Metric
emit_result provider name result =
    counter "hookbox_emit_results_total"
      (("provider", provider) ∷ ("emitter", name) ∷ ("result", result) ∷ [])

module _ {Json E : Type 0} where
  module _ (k : EmitterWorker Json E) where
    unfoldable pub on_success : WebhookDelivery → WebhookReceipt Json → Site Json E → Site Json E
    unfolding mark_emitted update_health
    on_success d r w = record w {
      db = (mark_emitted d.delivery_id w.db).1;
      health = update_health true w.clock w.health;
      metrics =
          histogram "hookbox_emit_attempt_count"
          ∷ emit_result r.provider_name k.name "success"
          ∷ w.metrics;
    }

    -- The test is whether this was the last attempt.
    unfoldable pub on_failure :
        Bool → WebhookDelivery → WebhookReceipt Json → EmitError → Site Json E → Site Json E
    unfolding mark_failed mark_dead_lettered update_health emit_error_text next_attempt retry_delay
    on_failure true d r e w = record w {
      db = (mark_dead_lettered d.delivery_id (emit_error_text e) w.db).1;
      health = update_health false w.clock w.health;
      metrics =
          histogram "hookbox_emit_attempt_count"
          ∷ emit_result r.provider_name k.name "failure"
          ∷ w.metrics;
    }
    on_failure false d r e w = record w {
      db =
          (mark_failed d.delivery_id (next_attempt d) (w.clock + retry_delay k w.clock d)
            (emit_error_text e) w.db).1;
      health = update_health false w.clock w.health;
      metrics = emit_result r.provider_name k.name "failure" ∷ w.metrics;
    }

    unfoldable pub after_emit :
        Result (Unit {0}) EmitError
        → WebhookDelivery
        → WebhookReceipt Json
        → Site Json E
        → Site Json E
    unfolding on_success on_failure next_attempt
    after_emit (ok _) d r w = on_success d r w
    after_emit (err e) d r w = on_failure (leb_ℤ k.policy.max_attempts (next_attempt d)) d r e w

    -- Errors of the storage are logged, and no more.
    unfoldable pub dispatch_one : WebhookDelivery → WebhookReceipt Json → Site Json E → Site Json E
    unfolding after_emit from_receipt
    dispatch_one d r w =
        let sent = k.emitter.emit (from_receipt r) w.sink in
        after_emit sent.0 d r (record w {
          sink = sent.1;
          metrics = histogram "hookbox_emit_duration_seconds" ∷ w.metrics;
        })

-- `RetryWorker`, on receipts.
unfoldable pub after_retry :
    {Json : Type 0}
    → Result (Unit {0}) EmitError
    → WebhookReceipt Json
    → ℤ
    → Database Json
    → Database Json
unfolding update_state retry_failed
after_retry (ok _) r max_attempts db = (update_state r.receipt_id ProcessingState.emitted none db).1
after_retry (err e) r max_attempts db = (retry_failed r.receipt_id max_attempts db).1

unfoldable pub retry_one :
    {Json E : Type 0}
    → Emitter Json E
    → ℤ
    → WebhookReceipt Json
    → E
    → Database Json
    → E × Database Json
unfolding after_retry from_receipt
retry_one emitter max_attempts r sink db =
    let sent = emitter.emit (from_receipt r) sink in (sent.1, after_retry sent.0 r max_attempts db)
