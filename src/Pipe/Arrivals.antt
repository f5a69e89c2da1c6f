-- ===== src/Pipe/Arrivals.antt =====
-- What the receivers of the pipes hand to their callbacks. `R` is the sum of the receivers of a
-- protocol, `got_msg` what it does with a message, and `inject` the place of one pipe's receiver in it.
use storm_net.Prelude.{
  ℕ, ◌-◌, ◌^◌, ◌≤◌, ◌<◌, ◌≡◌, ◌∙◌, List, [], ◌∷◌, ◌++◌, append_assoc, length, set, get_elem?, Bool,
  inl, inr, true, false, Bool-cases, leb, if◌then◌else◌, some, arith,
}
use storm_net.Bits.{to_bits, bytes_bits, IsBytes}
use storm_net.Result.{Result, ok, ◌>>=◌}
use storm_net.BitUtil.{get_required_bits_u64}
use storm_net.BitWriter.{empty, write_bits, write_buffer}
use storm_net.BitReader.{BitReader}
use storm_net.BitUtil.Bounds.{lt-get_required_bits, get_required_bits-le}
use storm_net.BitWriter.Bytes.{write_buffer-Appends}
use storm_net.BitReader.Bytes.{read_buffer-Takes}
use storm_net.Codec.{Codec}
use storm_net.Codec.Plain.{deserialize_pod-word}
use storm_net.Codec.Steps.{Appends-then, write_bits-Appends, read_ubits-Takes}
use storm_net.ReaderVector.{ReaderVector}
use storm_net.Transmitter.{PipeMode, drain, send_to_protocol}
use storm_net.Protocol.{channel_bits, Protocol, got_message}
use storm_net.Pipe.{initialize}
use storm_net.Pipe.FullState.{
  sync_state, sync_state_seq, SeqReceiver, got_message_seq, Receiver as FullReceiver,
  got_message as full_got_message,
}
use storm_net.Pipe.Buffer.{send_data, Receiver as BufferReceiver, got_message as buffer_got_message}
use storm_net.Pipe.Message.{
  send_message, deliver, to_class, to_generic, Delivered, Receiver as MessageReceiver,
  got_message as message_got_message,
}
use storm_net.Pipe.Delivery.{send-arrives}

module _ {S R : Type 0} (got_ack : S → BitReader → Result S) (got_msg : R → BitReader → Result R)
    (queue : List ReaderVector) (p p' : Protocol S R)
    (before : drain (got_message got_ack got_msg) queue p ≡ ok p')
    (size : length p'.receivers < 2 ^ 64) (mode : PipeMode) (k : ℕ) (behind : ℕ → ℕ)
    (small : (a : ℕ) → behind a < 256) where
  -- The state that a full-state pipe sends is the next update of the receiver at its channel, when
  -- that has a callback and a default to start from, whatever the default is. The messages queued
  -- before are handled first, the queue is left empty, and every other channel is as those messages
  -- left it; there are fewer than 2 ^ 64 channels. It holds of every type whose serializer meets the
  -- interface, at the states that fit.
  pub sync_state-arrives :
      {T : Type 0} (c : Codec T) (inject : FullReceiver T → R)
      (handles : (rx : FullReceiver T) (r : BitReader)
        → got_msg (inject rx) r ≡ (full_got_message c rx r >>= λ rx'. ok (inject rx')))
      (old state : T) (updates : List T)
      → c.Fits state
      → get_elem? p'.receivers k
        ≡ some
            (inject (record { default_data = some old; update_callback = true; updates = updates }))
      → send_to_protocol
          (got_message got_ack got_msg)
          (sync_state c
            (initialize mode k (channel_bits p'.receivers))
            state
            (record { pending = empty; outgoing = queue })
            behind)
          p
        ≡ ok (
          true,
          record { pending = empty; outgoing = [] },
          record p' {
            receivers = set p'.receivers k (
                inject (record {
                  default_data = some old;
                  update_callback = true;
                  updates = updates ++ state ∷ [];
                }));
          },
        )
  unfolding sync_state full_got_message
  sync_state-arrives c inject handles old state updates fits e =
      send-arrives got_ack got_msg queue p p' mode k _ _ (c.serialize state) (c.encoding state)
        behind before size e small (c.serialize-Appends state)
        (λ r rest v q.
          let (r', read, behind', valid) = c.deserialize-Takes old state r rest fits v q in
          rw (handles _ r, read))

  -- The sequence number, of 32 bits, and the state that a full-state pipe sends are together the
  -- next update of the receiver at its channel, when that has a callback and a default to start
  -- from. The messages queued before are handled first, the queue is left empty, and every other
  -- channel is as those messages left it; there are fewer than 2 ^ 64 channels. It holds of every
  -- serializer that meets the interface, at the states that fit.
  pub sync_state_seq-arrives :
      {T : Type 0} (c : Codec T) (inject : SeqReceiver T → R)
      (handles : (rx : SeqReceiver T) (r : BitReader)
        → got_msg (inject rx) r ≡ (got_message_seq c rx r >>= λ rx'. ok (inject rx')))
      (seq : ℕ) (old state : T) (updates : List (ℕ × T))
      → seq < 2 ^ 32
      → c.Fits state
      → get_elem? p'.receivers k
        ≡ some
            (inject (record { default_data = some old; update_callback = true; updates = updates }))
      → send_to_protocol
          (got_message got_ack got_msg)
          (sync_state_seq c
            (initialize mode k (channel_bits p'.receivers))
            seq
            state
            (record { pending = empty; outgoing = queue })
            behind)
          p
        ≡ ok (
          true,
          record { pending = empty; outgoing = [] },
          record p' {
            receivers = set p'.receivers k (
                inject (record {
                  default_data = some old;
                  update_callback = true;
                  updates = updates ++ (seq, state) ∷ [];
                }));
          },
        )
  unfolding sync_state_seq got_message_seq
  sync_state_seq-arrives c inject handles seq old state updates word fits e =
      send-arrives got_ack got_msg queue p p' mode k _ _
        (λ w. c.serialize state (write_bits seq 32 w)) (to_bits 32 seq ++ c.encoding state) behind
        before size e small
        (λ w v.
          Appends-then w (write_bits seq 32 w) _ _ _ (write_bits-Appends seq 32 w v)
            (c.serialize-Appends state (write_bits seq 32 w)))
        (λ r rest v q.
          let ((r', numbered, left', valid), same) =
            deserialize_pod-word 4 seq [] r (c.encoding state ++ rest) word v
              (q ∙ append_assoc (to_bits 32 seq) (c.encoding state) rest) in
          let (r'', read, left'', valid') =
            c.deserialize-Takes old state r' rest fits valid left' in
          rw (handles _ r, numbered, read, same))

  -- The bytes that a buffer pipe sends, fewer than 2 ^ 32, are the next update of the receiver at
  -- its channel, when that has a callback. The messages queued before are handled first, the queue
  -- is left empty, and every other channel is as those messages left it; there are fewer than 2 ^ 64
  -- channels.
  pub send_data-arrives :
      (inject : BufferReceiver → R)
      (handles : (rx : BufferReceiver) (r : BitReader)
        → got_msg (inject rx) r ≡ (buffer_got_message rx r >>= λ rx'. ok (inject rx')))
      (bytes : List ℕ) (updates : List (List ℕ))
      → IsBytes bytes
      → length bytes < 2 ^ 32
      → get_elem? p'.receivers k
        ≡ some (inject (record { update_callback = true; updates = updates }))
      → send_to_protocol
          (got_message got_ack got_msg)
          (send_data
            (initialize mode k (channel_bits p'.receivers))
            bytes
            (record { pending = empty; outgoing = queue })
            behind)
          p
        ≡ ok (
          true,
          record { pending = empty; outgoing = [] },
          record p' {
            receivers =
                set p'.receivers k
                  (inject (record { update_callback = true; updates = updates ++ bytes ∷ [] }));
          },
        )
  unfolding send_data buffer_got_message
  send_data-arrives inject handles bytes updates small_bytes short e =
      send-arrives got_ack got_msg queue p p' mode k _ _
        (λ w. write_buffer bytes (write_bits (length bytes) 32 w))
        (to_bits 32 (length bytes) ++ bytes_bits bytes) behind before size e small
        (λ w v.
          Appends-then w (write_bits (length bytes) 32 w) _ _ _
            (write_bits-Appends (length bytes) 32 w v)
            (write_buffer-Appends bytes (write_bits (length bytes) 32 w) small_bytes))
        (λ r rest v q.
          let (r', counted, left', valid) =
            read_ubits-Takes 32 (length bytes) r (bytes_bits bytes ++ rest) (omega arith) short v
              (q ∙ append_assoc (to_bits 32 (length bytes)) (bytes_bits bytes) rest) in
          let (r'', read, left'', valid') =
            read_buffer-Takes bytes r' rest small_bytes valid left' in
          rw (handles _ r, counted, read))

  -- A message of a class below the number of classes, which is at most 2 ^ 64, is handed to the
  -- callback of its class where there is one, else to the generic callback, which there is, once and
  -- with the value that was sent, when that fits its serializer. The messages queued before are
  -- handled first, the queue is left empty, and every other channel is as those messages left it;
  -- there are fewer than 2 ^ 64 channels.
  pub send_message-arrives :
      {M : Type 0} (num_types : ℕ) (codec_of : ℕ → Codec M) (inject : MessageReceiver M → R)
      (handles : (rx : MessageReceiver M) (r : BitReader)
        → got_msg (inject rx) r
          ≡ (message_got_message num_types codec_of rx r >>= λ rx'. ok (inject rx')))
      (class_id : ℕ) (message : M) (callbacks : ℕ → Bool) (delivered : List (Delivered M))
      → num_types ≤ 2 ^ 64
      → class_id < num_types
      → (codec_of class_id).Fits message
      → get_elem? p'.receivers k
        ≡ some (
            inject
              (record { callbacks = callbacks; generic_callback = true; delivered = delivered }))
      → send_to_protocol
          (got_message got_ack got_msg)
          (send_message num_types codec_of
            (initialize mode k (channel_bits p'.receivers))
            class_id
            message
            (record { pending = empty; outgoing = queue })
            behind)
          p
        ≡ ok (
          true,
          record { pending = empty; outgoing = [] },
          record p' {
            receivers = set p'.receivers k (
                inject (record {
                  callbacks = callbacks;
                  generic_callback = true;
                  delivered =
                      delivered
                      ++ (if callbacks class_id
                          then to_class class_id message
                          else to_generic class_id message)
                        ∷ [];
                }));
          },
        )
  unfolding send_message message_got_message deliver
  send_message-arrives num_types codec_of inject handles class_id message callbacks delivered types
        h fits e =
      let c = codec_of class_id in
      let width = get_required_bits_u64 (num_types - 1) in
      send-arrives got_ack got_msg queue p p' mode k _ _
        (λ w. c.serialize message (write_bits class_id width w))
        (to_bits width class_id ++ c.encoding message) behind before size e small
        (λ w v.
          Appends-then w (write_bits class_id width w) _ _ _ (write_bits-Appends class_id width w v)
            (c.serialize-Appends message (write_bits class_id width w)))
        (λ r rest v q.
          let (r', classed, left', valid) =
            read_ubits-Takes width class_id r (c.encoding message ++ rest)
              (get_required_bits-le (num_types - 1) (omega arith))
              (lt-get_required_bits (num_types - 1) class_id (omega arith) (omega arith)) v
              (q ∙ append_assoc (to_bits width class_id) (c.encoding message) rest) in
          let (r'', read, left'', valid') =
            c.deserialize-Takes c.default message r' rest fits valid left' in
          let known : leb num_types class_id ≡ false = ground arith in
          elim (Bool-cases (callbacks class_id)) [
            | inl own ↦ rw (handles _ r, classed, known, own, read)
            | inr other ↦ rw (handles _ r, classed, known, other, read)
          ])
