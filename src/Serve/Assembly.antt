-- ===== src/Serve/Assembly.antt =====
-- crates/hookbox-server/src/serve.rs: `build_pipeline`, the composition of the storage, the two
-- layers of deduplication and the configured verifiers. The state of the second layer is a view of
-- the database; the one in the pair returned is that of the start.
use hookbox.Prelude.{ℤ, Option, none, some, List, [], ◌∷◌, Result, ok, err, map}
use hookbox.Config.Emitters.{HookboxConfig, EmitterEntry}
use hookbox.Dedupe.Recent
use hookbox.Dedupe.Recent.{InMemoryRecentDedupe, recent_strategy}
use hookbox.Dedupe.Layered.{LayeredDedupe, layered_strategy}
use hookbox.Postgres.Exec.{Database}
use hookbox.Postgres.Advice.{storage_dedupe}
use hookbox.Pipeline.Traits.{postgres_storage}
use hookbox.Pipeline.Ingest.{HookboxPipeline, HookboxPipelineBuilder, builder, verifier, build}
use hookbox.Providers.Crypto.{Crypto}
use hookbox.Providers.Boxed.{BoxedVerifier, signature_verifier}
use hookbox.Bootstrap.Verifiers.{BootstrapError, build_provider_verifiers}

-- A panic, or an error of a provider.
pub data PipelineError : Type 0 where
  zero_capacity missing_part : PipelineError
  provider : BootstrapError → PipelineError

abbrev pub Layers : Type 0 → Type 0
Layers Json = LayeredDedupe InMemoryRecentDedupe (Database Json)

-- The pipeline, and the state that its dedupe layers start with.
abbrev pub ServerPipeline : Type 0 → Type 0 → Type 0
ServerPipeline Json Headers = HookboxPipeline Json Headers (Database Json) (Layers Json)

module _ {Json Headers Key Signature : Type 0} (p : Crypto Headers Key Signature)
    (raw_now : ℤ) where
  -- The loop over the verifiers.
  unfoldable pub register :
      {S D : Type 0}
      → List (BoxedVerifier Key)
      → HookboxPipelineBuilder Json Headers S D
      → HookboxPipelineBuilder Json Headers S D
  unfolding verifier signature_verifier
  register [] b = b
  register (v ∷ vs) b = register vs (verifier (signature_verifier p raw_now v) b)

  unfoldable pub started_builder :
      HookboxConfig → HookboxPipelineBuilder Json Headers (Database Json) (Layers Json)
  unfolding builder postgres_storage storage_dedupe
  started_builder config = record (builder) {
    builder_storage = some postgres_storage;
    builder_dedupe = some (layered_strategy recent_strategy storage_dedupe);
    builder_emitter_names = map (λ (e : EmitterEntry). e.name) config.emitters;
  }

  unfoldable pub finish_build :
      InMemoryRecentDedupe
      → Database Json
      → Option (ServerPipeline Json Headers)
      → Result (ServerPipeline Json Headers × Layers Json) PipelineError
  finish_build lru db none = err PipelineError.missing_part
  finish_build lru db (some pipeline) = ok (pipeline, record { fast = lru; authoritative = db })

  unfoldable pub with_verifiers :
      HookboxConfig
      → InMemoryRecentDedupe
      → Database Json
      → Result (List (BoxedVerifier Key)) BootstrapError
      → Result (ServerPipeline Json Headers × Layers Json) PipelineError
  unfolding finish_build build register started_builder
  with_verifiers config lru db (err e) = err (PipelineError.provider e)
  with_verifiers config lru db (ok vs) =
      finish_build lru db (build (register vs (started_builder config)))

  unfoldable pub with_lru :
      HookboxConfig
      → Database Json
      → Option InMemoryRecentDedupe
      → Result (ServerPipeline Json Headers × Layers Json) PipelineError
  unfolding with_verifiers build_provider_verifiers
  with_lru config db none = err PipelineError.zero_capacity
  with_lru config db (some lru) =
      with_verifiers config lru db (build_provider_verifiers p config.providers)

  unfoldable pub build_pipeline :
      HookboxConfig
      → Database Json
      → Result (ServerPipeline Json Headers × Layers Json) PipelineError
  unfolding Recent.new with_lru
  build_pipeline config db = with_lru config db (Recent.new config.dedupe.lru_capacity)
