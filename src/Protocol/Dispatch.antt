-- ===== src/Protocol/Dispatch.antt =====
-- A message reaches the channel that its header names, and no other.
use storm_net.Prelude.{
  ℕ, zero, suc, ◌+◌, ◌-◌, ◌^◌, ◌≤◌, ◌<◌, ◌≡◌, refl, ◌∙◌, List, [], ◌∷◌, ◌++◌, length, set,
  get_elem?, get_elem?-lt, append_assoc, arith, true, false, ◌==◌, some,
}
use storm_net.Bits.{to_bits}
use storm_net.Result.{Result, ok}
use storm_net.BitUtil.Bounds.{lt-get_required_bits, get_required_bits-le}
use storm_net.BitReader.{BitReader}
use storm_net.BitReader.Content.{left, IsValid as ReaderValid}
use storm_net.Codec.Steps.{read_ubits-Takes}
use storm_net.Transmitter.Header.{header_bits}
use storm_net.Protocol.{process, channel_bits, got, Protocol, got_message}

module _ {E : Type 0} (handle : E → BitReader → Result E) (r : BitReader) where
  -- The handler of the channel at `k` runs, and its result takes the channel's place.
  process-handles :
      (i k target : ℕ) (elems : List E) (elem elem' : E)
      → i + k ≡ target
      → get_elem? elems k ≡ some elem
      → handle elem r ≡ ok elem'
      → process handle i target elems r ≡ ok (set elems k elem')
  unfolding process
  process-handles i k target [] elem elem' sum e h = ground arith
  process-handles i zero target (x ∷ xs) elem elem' sum e h =
      let here : (i == target) ≡ true = ground arith in
      let same : x ≡ elem = cc in rw (here, same, h)
  process-handles i (suc k) target (x ∷ xs) elem elem' sum e h =
      let later : (i == target) ≡ false = ground arith in
      rw (later, process-handles (i + 1) k target xs elem elem' (omega arith) e h)

  -- When no channel from the first index on has the target index, no channel changes.
  pub process-ignores :
      (i target : ℕ) (elems : List E)
      → i + length elems ≤ target
      → process handle i target elems r ≡ ok elems
  unfolding process
  process-ignores i target [] h = refl
  process-ignores i target (x ∷ xs) h =
      let later : (i == target) ≡ false = ground arith in
      rw (later, process-ignores (i + 1) target xs (omega arith))

got-handles :
    {E : Type 0} (handle : E → BitReader → Result E) (r : BitReader) (k : ℕ) (elems : List E)
    (elem elem' : E) (body : List ℕ)
    → length elems < 2 ^ 64
    → get_elem? elems k ≡ some elem
    → ReaderValid r
    → left r ≡ to_bits (channel_bits elems) k ++ body
    → ((r' : BitReader) → ReaderValid r' → left r' ≡ body → handle elem r' ≡ ok elem')
    → got handle elems r ≡ ok (set elems k elem')
unfolding got
got-handles handle r k elems elem elem' body size e v p h =
    let below = get_elem?-lt elems k e in
    let (r', read, behind, valid) =
      read_ubits-Takes (channel_bits elems) k r body
        (get_required_bits-le (length elems - 1) (omega arith))
        (lt-get_required_bits (length elems - 1) k (omega arith) (omega arith)) v p in
    rw (read, process-handles handle r' 0 k k elems elem elem' (omega arith) e (h r' valid behind))

module _ {S R : Type 0} (got_ack : S → BitReader → Result S)
    (got_msg : R → BitReader → Result R) where
  -- A message with the header of one of fewer than 2 ^ 64 receiving channels is handled by that
  -- channel, on a reader with the body left to read, when that returns from all such readers alike;
  -- no other channel and no sender changes.
  pub got_message-dispatches :
      (p : Protocol S R) (r : BitReader) (k : ℕ) (elem elem' : R) (body : List ℕ)
      → length p.receivers < 2 ^ 64
      → get_elem? p.receivers k ≡ some elem
      → ReaderValid r
      → left r ≡ header_bits k (channel_bits p.receivers) false ++ body
      → ((r' : BitReader) → ReaderValid r' → left r' ≡ body → got_msg elem r' ≡ ok elem')
      → got_message got_ack got_msg p r ≡ ok (record p { receivers = set p.receivers k elem' })
  unfolding got_message
  got_message-dispatches p r k elem elem' body size e v q h =
      let (r', read, behind, valid) =
        read_ubits-Takes 1 0 r (to_bits (channel_bits p.receivers) k ++ body) (omega arith)
          (omega arith) v
          (q ∙ append_assoc (to_bits 1 0) (to_bits (channel_bits p.receivers) k) body) in
      rw (read, got-handles got_msg r' k p.receivers elem elem' body size e valid behind h)

  -- An acknowledgement with the header of one of fewer than 2 ^ 64 sending channels is handled by
  -- that channel, on a reader with the body left to read, when that returns from all such readers
  -- alike; no other channel and no receiver changes.
  pub got_message-acknowledges :
      (p : Protocol S R) (r : BitReader) (k : ℕ) (elem elem' : S) (body : List ℕ)
      → length p.senders < 2 ^ 64
      → get_elem? p.senders k ≡ some elem
      → ReaderValid r
      → left r ≡ header_bits k (channel_bits p.senders) true ++ body
      → ((r' : BitReader) → ReaderValid r' → left r' ≡ body → got_ack elem r' ≡ ok elem')
      → got_message got_ack got_msg p r ≡ ok (record p { senders = set p.senders k elem' })
  unfolding got_message
  got_message-acknowledges p r k elem elem' body size e v q h =
      let (r', read, behind, valid) =
        read_ubits-Takes 1 1 r (to_bits (channel_bits p.senders) k ++ body) (omega arith)
          (omega arith) v
          (q ∙ append_assoc (to_bits 1 1) (to_bits (channel_bits p.senders) k) body) in
      rw (read, got-handles got_ack r' k p.senders elem elem' body size e valid behind h)
