-- ===== src/Pipe.antt =====
-- NetPipeFullState.h, NetPipeFullStateSeq.h, NetPipeBuffer.h, NetPipeMessage.h and NetMessageSender.h:
-- senders over a transmitter, and receivers that record what they hand to their callbacks.
pub mod FullState
pub mod Buffer
pub mod Message
pub mod Delivery
pub mod Arrivals
pub mod Channels
pub mod SenderList
pub mod DeltaState
pub mod Reliable
use storm_net.Prelude.{ℕ, ◌+◌, List, [], ◌∷◌}
use storm_net.BitWriter.{BitWriter}
use storm_net.Transmitter.{PipeMode, TransmitterMemory, create_message, send_writer}

-- What `Initialize` gives a sender.
pub record Sender : Type 0 where
  pub mode : PipeMode
  pub channel_index : ℕ
  pub channel_bits : ℕ

unfoldable pub initialize : PipeMode → ℕ → ℕ → Sender
initialize mode channel_index channel_bits = record {
  mode = mode;
  channel_index = channel_index;
  channel_bits = channel_bits;
}

-- `InitSender`: the senders of a protocol are numbered from zero.
pub init_sender : ℕ → List PipeMode → ℕ → List Sender
unfolding initialize
init_sender channel_index [] channel_bits = []
init_sender channel_index (mode ∷ modes) channel_bits =
    initialize mode channel_index channel_bits ∷ init_sender (channel_index + 1) modes channel_bits

-- `CreateMessage`, what the sender writes behind the header, and `SendMessage`.
unfoldable pub send :
    Sender → (BitWriter → BitWriter) → TransmitterMemory → (ℕ → ℕ) → TransmitterMemory
unfolding create_message send_writer
send s body t behind =
    let created = create_message t s.mode s.channel_index s.channel_bits in
    send_writer (record created { pending = body created.pending }) behind
