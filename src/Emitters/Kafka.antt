-- ===== src/Emitters/Kafka.antt =====
-- crates/hookbox-emitter-kafka/src/lib.rs.
use Prim.Native.String.{◌++◌ as text_append}
use hookbox.Prelude.{ℕ, String, Result, ok, err, if◌then◌else◌}
use hookbox.Domain.{NormalizedEvent, EmitError}
use hookbox.Pipeline.Traits.{Emitter}
use hookbox.Emitters.Brokers.{Brokers, or_downstream}

pub record KafkaEmitter (Producer : Type 0) : Type 0 where
  pub producer : Producer
  pub topic : String
  pub timeout : ℕ

module _ {Json Producer Client Connection World : Type 0}
    (b : Brokers Json Producer Client Connection World) where
  unfoldable pub new :
      String → String → String → String → ℕ → Result (KafkaEmitter Producer) EmitError
  new brokers topic client_id acks timeout_ms =
      elim (b.create_producer brokers client_id acks (b.millis timeout_ms)) [
        | err e ↦ err (EmitError.downstream e)
        | ok producer ↦ ok (record { producer = producer; topic = topic; timeout = timeout_ms })
      ]

  -- The class of a failed send, by the text of its error.
  unfoldable pub send_error : String → EmitError
  send_error e =
      if b.timed_out e
      then EmitError.timeout (text_append "kafka send failed: " e)
      else EmitError.downstream (text_append "kafka send failed: " e)

  unfoldable pub sent : Result (Unit {0}) String × World → Result (Unit {0}) EmitError × World
  unfolding send_error
  sent (ok _, w) = (ok tt, w)
  sent (err e, w) = (err (send_error e), w)

  unfoldable pub emit :
      KafkaEmitter Producer → NormalizedEvent Json → World → Result (Unit {0}) EmitError × World
  unfolding or_downstream sent
  emit k event w =
      or_downstream (b.to_vec event)
        (λ payload.
          λ w. sent (b.send k.producer k.topic (b.uuid_text event.receipt_id) payload k.timeout w))
        w

  unfoldable pub emitter : KafkaEmitter Producer → Emitter Json World
  unfolding emit
  emitter k = record { emit = emit k }
