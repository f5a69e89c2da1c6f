-- ===== src/Transmitter.antt =====
-- NetTransmitter.cpp, NetTransmitterMemory.h and .cpp, NetTransmitterNull.cpp: the header of a message,
-- the transmitter that queues messages in memory and the one that drops them. A caller writes the
-- body into `pending` between `create_writer` and `send_writer`, as it does through the reference
-- that `CreateWriter` returns.
pub mod Header
use storm_net.Prelude.{ℕ, ◌+◌, List, [], ◌∷◌, ◌++◌, Bool, true, false, not, if◌then◌else◌, ◌==◌}
use storm_net.Result.{Result, ok, ◌>>=◌}
use storm_net.BitWriter.{BitWriter, write_bits, reset}
use storm_net.BitReader.{BitReader, read_ubits}
use storm_net.ReaderVector.{ReaderVector, from_writer}

-- NetPipeMode.h
pub data PipeMode : Type 0 where
  reliable unreliable_sequenced unreliable_unsequenced : PipeMode

pub create_default_message : BitWriter → ℕ → ℕ → Bool → BitWriter
create_default_message writer channel_index channel_bits ack =
    write_bits channel_index channel_bits (write_bits (if ack then 1 else 0) 1 writer)

-- Whether the message is an acknowledgement, and its channel.
pub get_default_message_info : BitReader → ℕ → ℕ → Result ((Bool × ℕ) × BitReader)
get_default_message_info reader sender_channel_bits recv_channel_bits =
    read_ubits 1 reader >>= λ flag.
    let ack = not (flag.0 == 0) in
    read_ubits (if ack then sender_channel_bits else recv_channel_bits) (flag.1) >>= λ channel.
    ok ((ack, channel.0), channel.1)

pub record TransmitterMemory : Type 0 where
  pub pending : BitWriter
  pub outgoing : List ReaderVector

unfoldable pub create_writer : TransmitterMemory → PipeMode → ℕ → ℕ → Bool → TransmitterMemory
create_writer t mode channel_index channel_bits ack = record t {
  pending = create_default_message t.pending channel_index channel_bits ack;
}

-- `behind` is the memory behind the vector that is moved into the queue.
unfoldable pub send_writer : TransmitterMemory → (ℕ → ℕ) → TransmitterMemory
send_writer t behind =
    let sent = from_writer t.pending behind in
    record { pending = sent.1; outgoing = t.outgoing ++ sent.0 ∷ [] }

unfoldable pub create_message : TransmitterMemory → PipeMode → ℕ → ℕ → TransmitterMemory
unfolding create_writer
create_message t mode channel_index channel_bits =
    create_writer t mode channel_index channel_bits false

unfoldable pub create_ack : TransmitterMemory → PipeMode → ℕ → ℕ → TransmitterMemory
unfolding create_writer
create_ack t mode channel_index channel_bits = create_writer t mode channel_index channel_bits true

module _ {P : Type 0} (got_message : P → BitReader → Result P) where
  -- The loop of `SendToProtocol` over the queue.
  unfoldable pub drain : List ReaderVector → P → Result P
  drain [] protocol = ok protocol
  drain (packet ∷ packets) protocol =
      got_message protocol packet.reader >>= λ protocol'. drain packets protocol'

  unfoldable pub send_to_protocol : TransmitterMemory → P → Result (Bool × TransmitterMemory × P)
  unfolding drain
  send_to_protocol t protocol = elim t.outgoing [
    | [] ↦ ok (false, t, protocol)
    | packet ∷ packets ↦ drain (packet ∷ packets) protocol >>= λ protocol'.
        ok (true, record t { outgoing = [] }, protocol')
  ]

-- NetTransmitterNull: no header, and nothing sent.
pub record TransmitterNull : Type 0 where
  pub writer : BitWriter

pub null_create_writer : TransmitterNull → PipeMode → ℕ → ℕ → Bool → TransmitterNull
null_create_writer t mode channel_index channel_bits ack = t

pub null_send_writer : TransmitterNull → TransmitterNull
unfolding reset
null_send_writer t = record { writer = reset t.writer }
