-- ===== src/Protocol.antt =====
-- NetProtocol.h, NetProtocolSender.h and NetProtocolReceiver.h: the channels of a protocol and how a
-- message finds its channel. The pipes of a protocol are a tuple of different types in the sources;
-- `S` and `R` stand for their sums, with what a pipe does with an acknowledgement or a message.
pub mod Dispatch
use storm_net.Prelude.{ℕ, ◌+◌, ◌-◌, List, [], ◌∷◌, if◌then◌else◌, ◌==◌, length}
use storm_net.Result.{Result, ok, ◌>>=◌}
use storm_net.BitUtil.{get_required_bits_u64}
use storm_net.BitReader.{BitReader, read_ubits}

-- `ProcessAck` and `ProcessMessage`: the channel whose index is the target handles the reader.
unfoldable pub process :
    {E : Type 0} (handle : E → BitReader → Result E) → ℕ → ℕ → List E → BitReader → Result (List E)
process handle channel_index target_index [] r = ok []
process handle channel_index target_index (elem ∷ elems) r =
    let found = handle elem r >>= λ elem'. ok (elem' ∷ elems) in
    let next =
      process handle (channel_index + 1) target_index elems r >>= λ elems'. ok (elem ∷ elems') in
    if channel_index == target_index then found else next

-- A protocol has one pipe at least.
unfoldable pub channel_bits : {E : Type 0} → List E → ℕ
channel_bits elems = get_required_bits_u64 (length elems - 1)

-- `GotAck(reader)` and `GotMessage(reader)` of the two sides: the channel's index comes first.
unfoldable pub got :
    {E : Type 0} (handle : E → BitReader → Result E) → List E → BitReader → Result (List E)
unfolding process channel_bits
got handle elems r =
    read_ubits (channel_bits elems) r >>= λ target. process handle 0 (target.0) elems (target.1)

pub record Protocol (S R : Type 0) : Type 0 where
  pub senders : List S
  pub receivers : List R

module _ {S R : Type 0} (got_ack : S → BitReader → Result S)
    (got_msg : R → BitReader → Result R) where
  -- `GotMessage(reader, ack, channel_index)`, for a header that the caller has read.
  unfoldable pub got_message_at : Protocol S R → BitReader → ℕ → ℕ → Result (Protocol S R)
  unfolding process
  got_message_at p r ack channel_index =
      if ack == 0
      then (process got_msg 0 channel_index p.receivers r >>= λ receivers'.
          ok (record p { receivers = receivers' }))
      else (process got_ack 0 channel_index p.senders r >>= λ senders'.
          ok (record p { senders = senders' }))

  -- `GotMessage(reader)`
  unfoldable pub got_message : Protocol S R → BitReader → Result (Protocol S R)
  unfolding got
  got_message p r = read_ubits 1 r >>= λ is_ack.
      if is_ack.0 == 0
      then (got got_msg p.receivers (is_ack.1) >>= λ receivers'.
          ok (record p { receivers = receivers' }))
      else (got got_ack p.senders (is_ack.1) >>= λ senders'. ok (record p { senders = senders' }))
