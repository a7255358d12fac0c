-- ===== src/Emitters/Redis.antt =====
-- crates/hookbox-emitter-redis/src/lib.rs. The target has 64 bits, where `usize::try_from` keeps
-- every `u64`.
use Prim.Native.String.{◌++◌ as text_append}
use hookbox.Prelude.{ℕ, String, Option, Result, ok, err}
use hookbox.Domain.{NormalizedEvent, EmitError}
use hookbox.Pipeline.Traits.{Emitter}
use hookbox.Emitters.Brokers.{Brokers, Timed, or_downstream}

pub record RedisEmitter (Connection : Type 0) : Type 0 where
  pub conn : Connection
  pub stream : String
  pub maxlen : Option ℕ
  pub timeout : ℕ

module _ {Json Producer Client Connection World : Type 0}
    (b : Brokers Json Producer Client Connection World) where
  abbrev after_ms : String → ℕ → EmitError
  after_ms what timeout = EmitError.timeout (text_append what (text_append (b.millis timeout) "ms"))

  connected :
      String
      → Option ℕ
      → ℕ
      → Timed (Result Connection String) × World
      → Result (RedisEmitter Connection) EmitError × World
  connected stream maxlen timeout (Timed.done (ok conn), w) =
      (ok (record { conn = conn; stream = stream; maxlen = maxlen; timeout = timeout }), w)
  connected stream maxlen timeout (Timed.done (err e), w) = (err (EmitError.downstream e), w)
  connected stream maxlen timeout (Timed.elapsed, w) =
      (err (after_ms "redis connect timed out after " timeout), w)

  unfoldable pub new :
      String → String → Option ℕ → ℕ → World → Result (RedisEmitter Connection) EmitError × World
  unfolding or_downstream connected
  new url stream maxlen timeout_ms w =
      or_downstream (b.open_redis url)
        (λ client. λ w. connected stream maxlen timeout_ms (b.connect_redis client timeout_ms w)) w

  unfoldable pub added :
      ℕ → Timed (Result (Unit {0}) String) × World → Result (Unit {0}) EmitError × World
  added timeout (Timed.done (ok _), w) = (ok tt, w)
  added timeout (Timed.done (err e), w) =
      (err (EmitError.downstream (text_append "redis xadd failed: " e)), w)
  added timeout (Timed.elapsed, w) = (err (after_ms "redis xadd timed out after " timeout), w)

  unfoldable pub emit :
      RedisEmitter Connection → NormalizedEvent Json → World → Result (Unit {0}) EmitError × World
  unfolding or_downstream added
  emit r event w =
      or_downstream (b.to_string event)
        (λ payload. λ w. added r.timeout (b.xadd r.conn r.timeout r.stream r.maxlen payload w)) w

  unfoldable pub emitter : RedisEmitter Connection → Emitter Json World
  unfolding emit
  emitter r = record { emit = emit r }
