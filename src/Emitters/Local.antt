-- ===== src/Emitters/Local.antt =====
-- `CallbackEmitter` and `ChannelEmitter` of crates/hookbox/src/emitter.rs.
use hookbox.Prelude.{ℕ, String, Result}
use hookbox.Domain.{NormalizedEvent, EmitError}
use hookbox.Pipeline.Traits.{Emitter}
use hookbox.Emitters.Brokers.{downstream}

pub record CallbackEmitter (Json World : Type 0) : Type 0 where
  pub handler : NormalizedEvent Json → World → Result (Unit {0}) EmitError × World

unfoldable pub new_callback :
    {Json World : Type 0}
    → (NormalizedEvent Json → World → Result (Unit {0}) EmitError × World)
    → CallbackEmitter Json World
new_callback handler = record { handler = handler }

unfoldable pub callback_emitter :
    {Json World : Type 0} → CallbackEmitter Json World → Emitter Json World
callback_emitter e = record { emit = λ event. λ w. e.handler event w }

-- The channels of `tokio`: `channel` makes the two halves for a buffer, and `send` waits for room.
pub record Channels (Json Sender Receiver World : Type 0) : Type 0 where
  pub channel : ℕ → Sender × Receiver
  pub send : Sender → NormalizedEvent Json → World → Result (Unit {0}) String × World

pub record ChannelEmitter (Sender : Type 0) : Type 0 where
  pub sender : Sender

module _ {Json Sender Receiver World : Type 0} (c : Channels Json Sender Receiver World) where
  unfoldable pub new_channel : ℕ → ChannelEmitter Sender × Receiver
  new_channel buffer =
      let (sender, receiver) = c.channel buffer in (record { sender = sender }, receiver)

  unfoldable pub channel_emitter : ChannelEmitter Sender → Emitter Json World
  channel_emitter e = record { emit = λ event. λ w. downstream (c.send e.sender event w) }
