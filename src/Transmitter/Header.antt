-- ===== src/Transmitter/Header.antt =====
-- The header of a message is read back.
use storm_net.Prelude.{
  ℕ, ◌^◌, ◌≤◌, ◌<◌, ◌≡◌, refl, List, ◌++◌, arith, Bool, true, false, if◌then◌else◌,
}
use storm_net.Bits.{to_bits}
use storm_net.BitWriter.{BitWriter, write_bits}
use storm_net.BitReader.{BitReader, read_ubits}
use storm_net.BitWriter.Content.{IsValid as WriterValid}
use storm_net.BitReader.Content.{left, IsValid as ReaderValid}
use storm_net.Codec.{Appends, Takes}
use storm_net.Codec.Steps.{
  write_bits-Appends, Appends-then, read_field, read_ubits-Takes, Takes-bind,
}
use storm_net.Transmitter.{create_default_message, get_default_message_info}

abbrev pub header_bits : ℕ → ℕ → Bool → List ℕ
header_bits channel_index channel_bits ack =
    to_bits 1 (if ack then 1 else 0) ++ to_bits channel_bits channel_index

pub create_default_message-Appends :
    (w : BitWriter) (channel_index channel_bits : ℕ) (ack : Bool)
    → WriterValid w
    → Appends w
        (create_default_message w channel_index channel_bits ack)
        (header_bits channel_index channel_bits ack)
unfolding create_default_message
create_default_message-Appends w channel_index channel_bits ack v =
    let flagged = write_bits (if ack then 1 else 0) 1 w in
    Appends-then w flagged (write_bits channel_index channel_bits flagged)
      (to_bits 1 (if ack then 1 else 0)) (to_bits channel_bits channel_index)
      (write_bits-Appends (if ack then 1 else 0) 1 w v)
      (write_bits-Appends channel_index channel_bits flagged)

-- The flag and the channel that a header was made of are what the other side finds in front of the
-- body, when the two sides agree on the width of the channel's index, of at most 64 bits, and the
-- index fits it.
pub get_default_message_info-Takes :
    (r : BitReader) (channel_index sender_bits recv_bits : ℕ) (ack : Bool) (body : List ℕ)
    → (if ack then sender_bits else recv_bits) ≤ 64
    → channel_index < 2 ^ (if ack then sender_bits else recv_bits)
    → ReaderValid r
    → left r ≡ header_bits channel_index (if ack then sender_bits else recv_bits) ack ++ body
    → Takes (get_default_message_info r sender_bits recv_bits) (ack, channel_index) body
unfolding get_default_message_info
get_default_message_info-Takes r channel_index sender_bits recv_bits false body fits small v p =
    read_field 1 0 r (to_bits recv_bits channel_index) body _ (omega arith) (omega arith) v p
      (λ r' v' p'.
        Takes-bind (read_ubits recv_bits r') _
          (read_ubits-Takes recv_bits channel_index r' body fits small v' p')
          (λ r'' v'' p''. (r'', refl, p'', v'')))
get_default_message_info-Takes r channel_index sender_bits recv_bits true body fits small v p =
    read_field 1 1 r (to_bits sender_bits channel_index) body _ (omega arith) (omega arith) v p
      (λ r' v' p'.
        Takes-bind (read_ubits sender_bits r') _
          (read_ubits-Takes sender_bits channel_index r' body fits small v' p')
          (λ r'' v'' p''. (r'', refl, p'', v'')))
