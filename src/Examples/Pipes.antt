-- ===== src/Examples/Pipes.antt =====
-- A protocol of four channels, one for each pipe, and messages that are sent to it.
use storm_net.Prelude.{
  ℕ, suc, ◌-◌, ◌<◌, ◌^◌, ◌≡◌, refl, arith, List, [], ◌∷◌, set, get_elem?, true, ◌==◌, some,
}
use storm_net.Bits.{to_bits}
use storm_net.Result.{Result, ok, ◌>>=◌}
use storm_net.BitUtil.{get_required_bits_u64, count_leading_zeros_u64, clz32_64}
use storm_net.BitWriter.{empty, write_bits}
use storm_net.BitReader.{BitReader, new, vector_memory}
use storm_net.BitReader.Content.{left, IsValid as ReaderValid}
use storm_net.String.Wire.{string_codec}
use storm_net.ReaderVector.Arrival.{vector_memory-lt}
use storm_net.Transmitter.{reliable, unreliable_sequenced, drain, send_to_protocol}
use storm_net.Protocol.{channel_bits, Protocol, got_message}
use storm_net.Protocol.Dispatch.{got_message-dispatches, got_message-acknowledges}
use storm_net.Pipe.{Sender, initialize, init_sender, send}
use storm_net.Pipe.Delivery.{send-arrives}
use storm_net.BitWriter.Append.{write_bits-Appends}
use storm_net.Pipe.Channels.{init_sender-channel}
use storm_net.Pipe.FullState
use storm_net.Pipe.Buffer
use storm_net.Pipe.Message
use storm_net.Pipe.Arrivals.{sync_state-arrives, send_data-arrives, send_message-arrives}

-- The receivers of the protocol, by their pipe.
data Receiver : Type 0 where
  full : FullState.Receiver (List ℕ) → Receiver
  numbered : FullState.SeqReceiver (List ℕ) → Receiver
  buffer : Buffer.Receiver → Receiver
  messages : Message.Receiver (List ℕ) → Receiver

abbrev handle : Receiver → BitReader → Result Receiver
handle (full rx) r = FullState.got_message string_codec rx r >>= λ rx'. ok (full rx')
handle (numbered rx) r = FullState.got_message_seq string_codec rx r >>= λ rx'. ok (numbered rx')
handle (buffer rx) r = Buffer.got_message rx r >>= λ rx'. ok (buffer rx')
handle (messages rx) r =
    Message.got_message 3 (λ class. string_codec) rx r >>= λ rx'. ok (messages rx')

-- The senders ignore what they are acknowledged.
abbrev got_ack : Sender → BitReader → Result Sender
got_ack sender r = ok sender

abbrev states : List (List ℕ) → Receiver
states updates = full (record { default_data = some []; update_callback = true; updates = updates })

abbrev numbered_states : List (ℕ × List ℕ) → Receiver
numbered_states updates =
    numbered (record { default_data = some []; update_callback = true; updates = updates })

abbrev buffers : List (List ℕ) → Receiver
buffers updates = buffer (record { update_callback = true; updates = updates })

-- Class 1 has a callback of its own.
abbrev events : List (Message.Delivered (List ℕ)) → Receiver
events delivered =
    messages
      (record { callbacks = λ class. class == 1; generic_callback = true; delivered = delivered })

abbrev channels : List Receiver
channels = states [] ∷ numbered_states [] ∷ buffers [] ∷ events [] ∷ []

abbrev protocol : List Receiver → Protocol Sender Receiver
protocol receivers = record { senders = []; receivers = receivers }

sync_state-arrives_example :
    send_to_protocol
      (got_message got_ack handle)
      (FullState.sync_state string_codec
        (initialize reliable 0 (channel_bits channels))
        (104 ∷ 105 ∷ [])
        (record { pending = empty; outgoing = [] })
        (λ a. 0))
      (protocol channels)
    ≡ ok (
      true,
      record { pending = empty; outgoing = [] },
      protocol (set channels 0 (states ((104 ∷ 105 ∷ []) ∷ []))),
    )
sync_state-arrives_example =
    sync_state-arrives got_ack handle [] (protocol channels) (protocol channels)
      (unfold drain in refl) (omega arith) reliable 0 (λ a. 0) (λ a. omega arith) string_codec full
      (λ rx r. refl) [] (104 ∷ 105 ∷ []) [] (omega arith, (omega arith, (omega arith, tt))) refl

send_data-arrives_example :
    send_to_protocol
      (got_message got_ack handle)
      (Buffer.send_data
        (initialize reliable 2 (channel_bits channels))
        (1 ∷ 2 ∷ 255 ∷ [])
        (record { pending = empty; outgoing = [] })
        (λ a. 0))
      (protocol channels)
    ≡ ok (
      true,
      record { pending = empty; outgoing = [] },
      protocol (set channels 2 (buffers ((1 ∷ 2 ∷ 255 ∷ []) ∷ []))),
    )
send_data-arrives_example =
    send_data-arrives got_ack handle [] (protocol channels) (protocol channels)
      (unfold drain in refl) (omega arith) reliable 2 (λ a. 0) (λ a. omega arith) buffer
      (λ rx r. refl) (1 ∷ 2 ∷ 255 ∷ []) [] (omega arith, (omega arith, (omega arith, tt)))
      (omega arith) refl

send_message-arrives_example :
    send_to_protocol
      (got_message got_ack handle)
      (Message.send_message 3
        (λ class. string_codec)
        (initialize reliable 3 (channel_bits channels))
        2
        (104 ∷ [])
        (record { pending = empty; outgoing = [] })
        (λ a. 0))
      (protocol channels)
    ≡ ok (
      true,
      record { pending = empty; outgoing = [] },
      protocol (set channels 3 (events (Message.to_generic 2 (104 ∷ []) ∷ []))),
    )
send_message-arrives_example =
    send_message-arrives got_ack handle [] (protocol channels) (protocol channels)
      (unfold drain in refl) (omega arith) reliable 3 (λ a. 0) (λ a. omega arith) 3
      (λ class. string_codec) messages (λ rx r. refl) 2 (104 ∷ []) (λ class. class == 1) []
      (omega arith) (omega arith) (omega arith, (omega arith, tt)) refl

-- The channels of these protocols count what arrives.
abbrev count_arrival : ℕ → BitReader → Result ℕ
count_arrival n r = ok (suc n)

abbrev reading : ℕ → BitReader
reading byte = new (vector_memory (byte ∷ []) (λ a. 0)) 0 1

reading-IsValid : (byte : ℕ) → byte < 256 → ReaderValid (reading byte)
reading-IsValid byte h = record {
  in_byte = omega arith;
  bytes = vector_memory-lt (byte ∷ []) (λ a. 0) (h, tt) (λ a. omega arith);
}

got_message-dispatches_example :
    got_message count_arrival count_arrival
      (record { senders = []; receivers = 4 ∷ 5 ∷ 6 ∷ [] })
      (reading 4)
    ≡ ok (record { senders = []; receivers = 4 ∷ 5 ∷ 7 ∷ [] })
got_message-dispatches_example =
    got_message-dispatches count_arrival count_arrival
      (record { senders = []; receivers = 4 ∷ 5 ∷ 6 ∷ [] }) (reading 4) 2 6 7
      (0 ∷ 0 ∷ 0 ∷ 0 ∷ 0 ∷ []) (omega arith) refl (reading-IsValid 4 (omega arith))
      (unfold left channel_bits get_required_bits_u64 count_leading_zeros_u64 clz32_64 in refl)
      (λ r v p. refl)

got_message-acknowledges_example :
    got_message count_arrival count_arrival
      (record { senders = 4 ∷ 5 ∷ 6 ∷ []; receivers = [] })
      (reading 5)
    ≡ ok (record { senders = 4 ∷ 5 ∷ 7 ∷ []; receivers = [] })
got_message-acknowledges_example =
    got_message-acknowledges count_arrival count_arrival
      (record { senders = 4 ∷ 5 ∷ 6 ∷ []; receivers = [] }) (reading 5) 2 6 7
      (0 ∷ 0 ∷ 0 ∷ 0 ∷ 0 ∷ []) (omega arith) refl (reading-IsValid 5 (omega arith))
      (unfold left channel_bits get_required_bits_u64 count_leading_zeros_u64 clz32_64 in refl)
      (λ r v p. refl)

init_sender-channel_example :
    (get_elem?
        (init_sender 0 (reliable ∷ unreliable_sequenced ∷ []) (get_required_bits_u64 (2 - 1)))
        1
      ≡ some (initialize unreliable_sequenced 1 (get_required_bits_u64 (2 - 1))))
    × (1 < 2 ^ get_required_bits_u64 (2 - 1))
init_sender-channel_example =
    init_sender-channel 1 (reliable ∷ unreliable_sequenced ∷ []) unreliable_sequenced (omega arith)
      refl

abbrev counters : List ℕ
counters = 4 ∷ 5 ∷ 6 ∷ []

send-arrives_example :
    send_to_protocol
      (got_message count_arrival count_arrival)
      (send
        (initialize reliable 1 (channel_bits counters))
        (λ w. write_bits 9 4 w)
        (record { pending = empty; outgoing = [] })
        (λ a. 0))
      (record { senders = []; receivers = counters })
    ≡ ok (
      true,
      record { pending = empty; outgoing = [] },
      record { senders = []; receivers = 4 ∷ 6 ∷ 6 ∷ [] },
    )
send-arrives_example =
    send-arrives count_arrival count_arrival [] (record { senders = []; receivers = counters })
      (record { senders = []; receivers = counters }) reliable 1 5 6 (λ w. write_bits 9 4 w)
      (to_bits 4 9) (λ a. 0) (unfold drain in refl) (omega arith) refl (λ a. omega arith)
      (λ w v. write_bits-Appends 9 4 w v) (λ r rest v p. refl)
