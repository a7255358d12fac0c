-- ===== src/Emitters/Brokers.antt =====
-- What the emitters use of `serde_json`, `rdkafka`, `async_nats`, `aws_sdk_sqs`, `redis` and
-- `tokio`, as operations on the state of the world, and what they have in common.
use hookbox.Prelude.{Bool, ℕ, String, List, Option, Result, ok, err}
use hookbox.Domain.{Uuid, NormalizedEvent, EmitError}

-- The answer of `tokio::time::timeout`.
pub data Timed {ℓ} (A : Type ℓ) : Type ℓ where
  done : A → Timed A
  elapsed : Timed A

-- A message for SQS, with the fields that only a FIFO queue gets.
pub record SendMessage : Type 0 where
  pub queue_url : String
  pub message_body : String
  pub message_group_id : Option String
  pub message_deduplication_id : Option String

-- Errors are given by their texts. `timed_out` tells whether the text of an error contains
-- "timed out" or "Timed out", and `millis` writes a number.
pub record Brokers (Json Producer Client Connection World : Type 0) : Type 0 where
  pub to_vec : NormalizedEvent Json → Result (List ℕ) String
  pub to_string : NormalizedEvent Json → Result String String
  pub uuid_text : Uuid → String
  pub millis : ℕ → String
  pub timed_out : String → Bool
  pub create_producer : String → String → String → String → Result Producer String
  pub send : Producer → String → String → List ℕ → ℕ → World → Result (Unit {0}) String × World
  pub connect : String → World → Result Client String × World
  pub publish : Client → String → List ℕ → World → Result (Unit {0}) String × World
  pub sqs_client : Option String → Option String → World → Client × World
  pub send_message : Client → ℕ → SendMessage → World → Timed (Result (Unit {0}) String) × World
  pub open_redis : String → Result Client String
  pub connect_redis : Client → ℕ → World → Timed (Result Connection String) × World
  pub xadd :
      Connection → ℕ → String → Option ℕ → String → World → Timed (Result (Unit {0}) String) × World

-- `map_err(|e| EmitError::Downstream(e.to_string()))?` before `k`, in a world.
unfoldable pub or_downstream {ℓ} :
    {A World : Type 0} {B : Type ℓ}
    → Result A String
    → (A → World → Result B EmitError × World)
    → World
    → Result B EmitError × World
or_downstream (ok a) k w = k a w
or_downstream (err e) k w = (err (EmitError.downstream e), w)

abbrev pub downstream : {A World : Type 0} → Result A String × World → Result A EmitError × World
downstream (ok a, w) = (ok a, w)
downstream (err e, w) = (err (EmitError.downstream e), w)
