-- ===== src/Bootstrap/Factory.antt =====
-- crates/hookbox-server/src/emitter_factory.rs.
use mathlib.Core.List.{Memᴰ}
use hookbox.Prelude.{
  String, Option, none, some, List, Result, ok, err, str_eq, if◌then◌else◌, ◌≡◌, ◌≢◌, refl, sym,
  subst, All_mem,
}
use hookbox.Domain.{EmitError}
use hookbox.Pipeline.Traits.{Emitter}
use hookbox.Config.Emitters.{
  EmitterConfig, EmitterEntry, HookboxConfig, KafkaEmitterConfig, NatsEmitterConfig,
  SqsEmitterConfig, RedisEmitterConfig, to_emitter_config,
}
use hookbox.Config.Backends.{Backend}
use hookbox.Config.WellFormed.{WellFormed}
use hookbox.Config.Normalize.{normalize}
use hookbox.Config.Normalized.{normalize-Normalized}
use hookbox.Emitters.Brokers.{Brokers}
use hookbox.Emitters.Local.{Channels, new_channel, channel_emitter}
use hookbox.Emitters.Kafka
use hookbox.Emitters.Nats
use hookbox.Emitters.Sqs
use hookbox.Emitters.Redis

-- What the texts of the errors say.
pub data FactoryError : Type 0 where
  section_required unknown_type : String → FactoryError
  failed_to_create : String → EmitError → FactoryError

pub data BuiltEmitter (Json Receiver World : Type 0) : Type 0 where
  ready : Emitter Json World → BuiltEmitter Json Receiver World
  channel : Emitter Json World → Receiver → BuiltEmitter Json Receiver World

module _ {Json Producer Client Connection Sender Receiver World : Type 0}
    (b : Brokers Json Producer Client Connection World)
    (c : Channels Json Sender Receiver World) where
  abbrev Built : Type 0
  Built = Result (BuiltEmitter Json Receiver World) FactoryError × World

  -- `Ok(BuiltEmitter::Ready(Arc::new(emitter)))`, after `.context(..)?`.
  unfoldable pub boxed_or_context :
      {A : Type 0} → String → (A → Emitter Json World) → Result A EmitError × World → Built
  boxed_or_context what boxed (ok a, w) = (ok (BuiltEmitter.ready (boxed a)), w)
  boxed_or_context what boxed (err e, w) = (err (FactoryError.failed_to_create what e), w)

  unfoldable pub build_kafka : Option KafkaEmitterConfig → World → Built
  unfolding boxed_or_context Kafka.new Kafka.emitter
  build_kafka none w = (err (FactoryError.section_required "kafka"), w)
  build_kafka (some k) w =
      boxed_or_context "Kafka" (Kafka.emitter b)
        (Kafka.new b k.brokers k.topic k.client_id k.acks k.timeout_ms, w)

  unfoldable pub build_nats : Option NatsEmitterConfig → World → Built
  unfolding boxed_or_context Nats.new Nats.emitter
  build_nats none w = (err (FactoryError.section_required "nats"), w)
  build_nats (some n) w = boxed_or_context "NATS" (Nats.emitter b) (Nats.new b n.url n.subject w)

  unfoldable pub build_sqs : Option SqsEmitterConfig → World → Built
  unfolding boxed_or_context Sqs.new Sqs.emitter
  build_sqs none w = (err (FactoryError.section_required "sqs"), w)
  build_sqs (some s) w =
      boxed_or_context "SQS" (Sqs.emitter b)
        (Sqs.new b s.queue_url s.region s.fifo s.endpoint_url w)

  unfoldable pub build_redis : Option RedisEmitterConfig → World → Built
  unfolding boxed_or_context Redis.new Redis.emitter
  build_redis none w = (err (FactoryError.section_required "redis"), w)
  build_redis (some r) w =
      boxed_or_context "Redis" (Redis.emitter b)
        (Redis.new b r.url r.stream r.maxlen r.timeout_ms w)

  unfoldable pub build_channel : World → Built
  unfolding new_channel channel_emitter
  build_channel w =
      let (channel_side, rx) = new_channel c 1024 in
      (ok (BuiltEmitter.channel (channel_emitter c channel_side) rx), w)

  unfoldable pub build_emitter : EmitterConfig → World → Built
  unfolding build_kafka build_nats build_sqs build_redis build_channel
  build_emitter cfg w =
      if str_eq cfg.emitter_type "kafka"
      then build_kafka cfg.kafka w
      else if str_eq cfg.emitter_type "nats"
      then build_nats cfg.nats w
      else if str_eq cfg.emitter_type "sqs"
      then build_sqs cfg.sqs w
      else if str_eq cfg.emitter_type "redis"
      then build_redis cfg.redis w
      else if str_eq cfg.emitter_type "channel"
      then build_channel w
      else (err (FactoryError.unknown_type cfg.emitter_type), w)

  -- The emitter was built, or its client could not be created.
  pub data Works : Built → Type 0 where
    built : (e : BuiltEmitter Json Receiver World) (w : World) → Works (ok e, w)
    no_client :
        (what : String) (e : EmitError) (w : World)
        → Works (err (FactoryError.failed_to_create what e), w)

  boxed_or_context-Works :
      {A : Type 0} (what : String) (boxed : A → Emitter Json World) (r : Result A EmitError × World)
      → Works (boxed_or_context what boxed r)
  unfolding boxed_or_context
  boxed_or_context-Works what boxed (ok a, w) = Works.built (BuiltEmitter.ready (boxed a)) w
  boxed_or_context-Works what boxed (err e, w) = Works.no_client what e w

  kafka-Works : (o : Option KafkaEmitterConfig) (w : World) → o ≢ none → Works (build_kafka o w)
  unfolding build_kafka
  kafka-Works none w n = absurd (n refl)
  kafka-Works (some k) w n =
      boxed_or_context-Works "Kafka" (Kafka.emitter b)
        (Kafka.new b k.brokers k.topic k.client_id k.acks k.timeout_ms, w)

  nats-Works : (o : Option NatsEmitterConfig) (w : World) → o ≢ none → Works (build_nats o w)
  unfolding build_nats
  nats-Works none w n = absurd (n refl)
  nats-Works (some k) w n =
      boxed_or_context-Works "NATS" (Nats.emitter b) (Nats.new b k.url k.subject w)

  sqs-Works : (o : Option SqsEmitterConfig) (w : World) → o ≢ none → Works (build_sqs o w)
  unfolding build_sqs
  sqs-Works none w n = absurd (n refl)
  sqs-Works (some k) w n =
      boxed_or_context-Works "SQS" (Sqs.emitter b)
        (Sqs.new b k.queue_url k.region k.fifo k.endpoint_url w)

  redis-Works : (o : Option RedisEmitterConfig) (w : World) → o ≢ none → Works (build_redis o w)
  unfolding build_redis
  redis-Works none w n = absurd (n refl)
  redis-Works (some k) w n =
      boxed_or_context-Works "Redis" (Redis.emitter b)
        (Redis.new b k.url k.stream k.maxlen k.timeout_ms w)

  -- The same tests on another text.
  abbrev choose : EmitterConfig → World → String → Built
  choose cfg w t =
      if str_eq t "kafka"
      then build_kafka cfg.kafka w
      else if str_eq t "nats"
      then build_nats cfg.nats w
      else if str_eq t "sqs"
      then build_sqs cfg.sqs w
      else if str_eq t "redis"
      then build_redis cfg.redis w
      else if str_eq t "channel"
      then build_channel w
      else (err (FactoryError.unknown_type t), w)

  at :
      (e : EmitterEntry) (w : World) {t : String}
      → e.emitter_type ≡ t
      → Works (choose (to_emitter_config e) w t)
      → Works (build_emitter (to_emitter_config e) w)
  unfolding build_emitter to_emitter_config
  at e w q x = subst (λ t. Works (choose (to_emitter_config e) w t)) (sym q) x

  Backend-Works :
      (e : EmitterEntry) (w : World) → Backend e → Works (build_emitter (to_emitter_config e) w)
  unfolding to_emitter_config build_channel
  Backend-Works e w (Backend.channel q) = at e w q (Works.built _ w)
  Backend-Works e w (Backend.kafka q n) = at e w q (kafka-Works e.kafka w n)
  Backend-Works e w (Backend.nats q n) = at e w q (nats-Works e.nats w n)
  Backend-Works e w (Backend.sqs q n) = at e w q (sqs-Works e.sqs w n)
  Backend-Works e w (Backend.redis q n) = at e w q (redis-Works e.redis w n)

  -- Every emitter of a configuration that `normalize` accepts is built, unless its client cannot be
  -- created: the factory meets no unknown type and no missing section.
  pub build_emitter-normalize :
      (config d : HookboxConfig) (warnings : List String)
      → normalize config ≡ ok (d, warnings)
      → (e : EmitterEntry) → Memᴰ e d.emitters
      → (w : World) → Works (build_emitter (to_emitter_config e) w)
  build_emitter-normalize config d warnings h e m w =
      let n = normalize-Normalized config d warnings h in
      let well_formed = All_mem WellFormed e d.emitters n.valid m in
      Backend-Works e w well_formed.backend
