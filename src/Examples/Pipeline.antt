-- ===== src/Examples/Pipeline.antt =====
-- The theorems on crates/hookbox/src/pipeline.rs at concrete values.
use hookbox.Prelude.{ℕ, ◌≢◌, refl, [], ok}
use hookbox.Domain.{IngestResult, DedupeDecision}
use hookbox.Dedupe.Strategy.{DedupeStrategy}
use hookbox.Dedupe.Recent.{recent_strategy, check}
use hookbox.Postgres.Exec.{Database}
use hookbox.Pipeline.Ingest.{World, ingest, dedupe_key_of}
use hookbox.Pipeline.Contract.{Ingested, ingest-Ingested}
use hookbox.Pipeline.Advisory.{Agree, with_dedupe, ingest-Agree}
use hookbox.Pipeline.Durable.{Durable, postgres_pipeline, ingest-Durable, ingest-again}
use hookbox.Pipeline.Traits.{postgres_storage}
use hookbox.Pipeline.Ingest.{HookboxPipeline}
use hookbox.Dedupe.Recent.{InMemoryRecentDedupe}
use hookbox.Examples.Data.{library, names, verifiers, request, request_again, world}

abbrev pipeline : HookboxPipeline ℕ ℕ (Database ℕ) InMemoryRecentDedupe
pipeline = postgres_pipeline recent_strategy names verifiers

-- A cache that takes everything for a duplicate.
abbrev suspicious : DedupeStrategy ℕ
suspicious = record {
  check = λ k h n. (ok DedupeDecision.duplicate, n);
  record_key = λ k h n. (ok tt, n);
}

abbrev suspicious_world : World (Database ℕ) ℕ
suspicious_world = record { storage = world.storage; dedupe = 3; metrics = [] }

ingest-Durable_example :
    Durable library recent_strategy names verifiers request world.storage.tables 100
      (ingest library pipeline request world)
ingest-Durable_example = ingest-Durable library recent_strategy names verifiers request world

ingest-again_example :
    (ingest library pipeline request_again (ingest library pipeline request world).1).0
    ≢ ok (IngestResult.accepted 41)
unfolding ingest postgres_storage
ingest-again_example =
    ingest-again library recent_strategy names verifiers request request_again world
      (ingest library pipeline request world).1 40 41 refl refl refl refl

ingest-Ingested_example :
    Ingested library pipeline request world (ingest library pipeline request world)
ingest-Ingested_example = ingest-Ingested library pipeline request world

ingest-Agree_example :
    Agree
      (ingest library pipeline request world)
      (ingest library (with_dedupe library pipeline suspicious request) request suspicious_world)
unfolding check dedupe_key_of
ingest-Agree_example =
    ingest-Agree library pipeline suspicious request world suspicious_world
      (DedupeDecision.new, refl) (DedupeDecision.duplicate, refl) refl
