-- ===== src/Examples/Data.antt =====
-- Receipts, rows, databases and pipelines to try the theorems on. A JSON value is a number.
use Prim.Native.Nat.{◌^◌, ◌*◌}
use hookbox.Config.Float.{F64, two_f64, fifth_f64}
use hookbox.Transitions.Backoff.{Arithmetic}
use hookbox.Prelude.{
  Option, arith, ℕ, ◌+◌, refl, String, false, none, some, List, [], ◌∷◌, pos, err,
}
use hookbox.Domain.{
  WebhookReceipt, WebhookDelivery, ProcessingState, VerificationStatus, DeliveryState, EmitError,
}
use hookbox.Postgres.Exec.{Database}
use hookbox.Postgres.Consistent.{IsConsistent}
use hookbox.Dedupe.Recent.{InMemoryRecentDedupe}
use hookbox.Dedupe.Window.{IsValid}
use hookbox.Pipeline.Traits.{Library, SignatureVerifier, Emitter}
use hookbox.Pipeline.Ingest.{World, Request}
use hookbox.Worker.Dispatch.{EmitterWorker, EmitterHealth, HealthStatus, Site}

abbrev pub receipt_one : WebhookReceipt ℕ
receipt_one = record {
  receipt_id = 1;
  provider_name = "stripe";
  provider_event_id = none;
  external_reference = none;
  dedupe_key = "stripe:aa";
  payload_hash = "aa";
  raw_body = 7 ∷ [];
  parsed_payload = none;
  raw_headers = 0;
  normalized_event_type = none;
  verification_status = VerificationStatus.verified;
  verification_reason = none;
  processing_state = ProcessingState.stored;
  emit_count = pos 0;
  last_error = none;
  received_at = 50;
  processed_at = none;
  metadata = 0;
}

abbrev pub receipt_two : WebhookReceipt ℕ
receipt_two = record receipt_one { receipt_id = 2; dedupe_key = "stripe:bb"; payload_hash = "bb" }

abbrev pub row_leased : WebhookDelivery
row_leased = record {
  delivery_id = 11;
  receipt_id = 1;
  emitter_name = "kafka";
  state = DeliveryState.in_flight;
  attempt_count = pos 4;
  last_error = none;
  last_attempt_at = some 60;
  next_attempt_at = 50;
  emitted_at = none;
  immutable = false;
  created_at = 50;
}

abbrev pub row_emitted : WebhookDelivery
row_emitted = record row_leased {
  delivery_id = 12;
  emitter_name = "sqs";
  state = DeliveryState.emitted;
  emitted_at = some 70;
}

abbrev pub row_waiting : WebhookDelivery
row_waiting = record row_leased { delivery_id = 13; state = DeliveryState.failed; created_at = 80 }

abbrev pub names : List String
names = "kafka" ∷ "sqs" ∷ []

abbrev pub fresh_db : Database ℕ
fresh_db = record {
  tables = record {
    receipts = receipt_one ∷ [];
    deliveries = row_leased ∷ row_emitted ∷ row_waiting ∷ [];
  };
  now = 100;
  uuid = λ n. 1000 + n;
  drawn = 0;
  faults = [];
  refusal = "constraint";
}

-- Its third statement from now fails.
abbrev pub faulty_db : Database ℕ
faulty_db = record fresh_db { faults = none ∷ none ∷ some "connection closed" ∷ [] }

pub fresh_db-IsConsistent : IsConsistent fresh_db.tables
fresh_db-IsConsistent = record {
  keys = (refl, tt);
  receipt_ids = (refl, tt);
  delivery_ids = (refl, (refl, (refl, tt)));
  references = (refl, (refl, (refl, tt)));
  leases = (refl, (refl, (refl, tt)));
}

abbrev pub cache : InMemoryRecentDedupe
cache = record { capacity = 2; entries = ("a", "1") ∷ ("b", "2") ∷ []; order = "a" ∷ "b" ∷ [] }

pub cache-IsValid : IsValid cache
cache-IsValid = record {
  positive = ground arith;
  bounded = ground arith;
  distinct = ((refl, tt), (tt, tt));
  in_order = refl;
}

abbrev pub library : Library ℕ ℕ
library = record {
  sha256_hex = λ body. "cc";
  header_keys = λ h. "x-signature" ∷ [];
  header_values = λ h k. some "s" ∷ none ∷ some "t" ∷ [];
  parse = λ body. none;
  text = λ s. 1;
  object = λ fields. 2;
}

abbrev pub accepting : SignatureVerifier ℕ
accepting = record {
  provider_name = "stripe";
  verify = λ headers body. record { status = VerificationStatus.verified; reason = none };
}

abbrev pub verifiers : List (String × SignatureVerifier ℕ)
verifiers = ("stripe", accepting) ∷ []

abbrev pub request : Request ℕ
request = record { provider = "stripe"; headers = 5; body = 7 ∷ []; receipt_id = 40; now = 100 }

abbrev pub request_again : Request ℕ
request_again = record {
  provider = "stripe";
  headers = 6;
  body = 7 ∷ [];
  receipt_id = 41;
  now = 105;
}

abbrev pub world : World (Database ℕ) InMemoryRecentDedupe
world = record { storage = fresh_db; dedupe = cache; metrics = [] }

abbrev pub health : EmitterHealth
health = record {
  last_success_at = none;
  last_failure_at = none;
  consecutive_failures = 0;
  status = HealthStatus.healthy;
  dlq_depth = 0;
  pending_count = 0;
}

-- An emitter that is always down.
abbrev pub down : Emitter ℕ ℕ
down = record { emit = λ event n. (err (EmitError.timeout "no answer"), n + 1) }

abbrev pub units : F64 → Option ℕ
units (F64.finite s m e) = some (m * 2 ^ e)
units (F64.infinite s) = none
units F64.nan = none

-- A clock whose second is a nanosecond, the least number of the type; products keep the left factor.
abbrev pub arithmetic : Arithmetic
arithmetic = record {
  add = λ x y. x;
  mul = λ x y. x;
  mul_add = λ x y z. x;
  powi = λ x n. x;
  as_secs_f64 = λ d. F64.finite false d 0;
  from_secs_f64 = units;
}

abbrev pub worker : EmitterWorker ℕ ℕ
worker = record {
  name = "kafka";
  emitter = down;
  policy = record {
    max_attempts = pos 5;
    initial_backoff = 30000000000;
    max_backoff = 3600000000000;
    backoff_multiplier = two_f64;
    jitter = fifth_f64;
  };
  chance = record { arithmetic = arithmetic; random = λ now d. fifth_f64 };
  concurrency = pos 4;
  lease_duration = 1000;
}

abbrev pub site : Site ℕ ℕ
site = record { db = fresh_db; sink = 0; health = health; clock = 200; metrics = [] }
