-- ===== src/Emitters/Sqs.antt =====
-- crates/hookbox-emitter-sqs/src/lib.rs.
use Prim.Native.String.{◌++◌ as text_append}
use hookbox.Prelude.{ℕ, String, Bool, Option, none, some, Result, ok, err, if◌then◌else◌}
use hookbox.Domain.{NormalizedEvent, EmitError}
use hookbox.Pipeline.Traits.{Emitter}
use hookbox.Emitters.Brokers.{Brokers, Timed, SendMessage, or_downstream}

-- In seconds.
abbrev pub sqs_timeout : ℕ
sqs_timeout = 10

pub record SqsEmitter (Client : Type 0) : Type 0 where
  pub client : Client
  pub queue_url : String
  pub fifo : Bool

module _ {Json Producer Client Connection World : Type 0}
    (b : Brokers Json Producer Client Connection World) where
  unfoldable pub with_client : Client → String → Bool → SqsEmitter Client
  with_client client queue_url fifo = record { client = client; queue_url = queue_url; fifo = fifo }

  unfoldable pub new :
      String
      → Option String
      → Bool
      → Option String
      → World
      → Result (SqsEmitter Client) EmitError × World
  new queue_url region fifo endpoint_url w =
      let (client, w') = b.sqs_client region endpoint_url w in
      (ok (record { client = client; queue_url = queue_url; fifo = fifo }), w')

  unfoldable pub request : SqsEmitter Client → NormalizedEvent Json → String → SendMessage
  request s event json = record {
    queue_url = s.queue_url;
    message_body = json;
    message_group_id = if s.fifo then some event.provider_name else none;
    message_deduplication_id = if s.fifo then some (b.uuid_text event.receipt_id) else none;
  }

  unfoldable pub sent :
      Timed (Result (Unit {0}) String) × World → Result (Unit {0}) EmitError × World
  sent (Timed.done (ok _), w) = (ok tt, w)
  sent (Timed.done (err e), w) = (err (EmitError.downstream (text_append "sqs send failed: " e)), w)
  sent (Timed.elapsed, w) = (err (EmitError.timeout "sqs send timed out after 10s"), w)

  unfoldable pub emit :
      SqsEmitter Client → NormalizedEvent Json → World → Result (Unit {0}) EmitError × World
  unfolding or_downstream request sent
  emit s event w =
      or_downstream (b.to_string event)
        (λ json. λ w. sent (b.send_message s.client sqs_timeout (request s event json) w)) w

  unfoldable pub emitter : SqsEmitter Client → Emitter Json World
  unfolding emit
  emitter s = record { emit = emit s }
