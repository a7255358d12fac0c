-- ===== src/Emitters/Nats.antt =====
-- crates/hookbox-emitter-nats/src/lib.rs.
use hookbox.Prelude.{String, Result, ok, err}
use hookbox.Domain.{NormalizedEvent, EmitError}
use hookbox.Pipeline.Traits.{Emitter}
use hookbox.Emitters.Brokers.{Brokers, or_downstream, downstream}

pub record NatsEmitter (Client : Type 0) : Type 0 where
  pub client : Client
  pub subject : String

module _ {Json Producer Client Connection World : Type 0}
    (b : Brokers Json Producer Client Connection World) where
  connected : String → Result Client String × World → Result (NatsEmitter Client) EmitError × World
  connected subject (ok client, w) = (ok (record { client = client; subject = subject }), w)
  connected subject (err e, w) = (err (EmitError.downstream e), w)

  unfoldable pub new : String → String → World → Result (NatsEmitter Client) EmitError × World
  unfolding connected
  new url subject w = connected subject (b.connect url w)

  unfoldable pub emit :
      NatsEmitter Client → NormalizedEvent Json → World → Result (Unit {0}) EmitError × World
  unfolding or_downstream
  emit n event w =
      or_downstream (b.to_vec event)
        (λ payload. λ w. downstream (b.publish n.client n.subject payload w)) w

  unfoldable pub emitter : NatsEmitter Client → Emitter Json World
  unfolding emit
  emitter n = record { emit = emit n }
