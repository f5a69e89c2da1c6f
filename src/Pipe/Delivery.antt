-- ===== src/Pipe/Delivery.antt =====
-- A message that a pipe sends goes through the transmitter's queue to the channel of its pipe, behind
-- the messages that were sent before.
use storm_net.Prelude.{
  ℕ, ◌^◌, ◌<◌, ◌≡◌, refl, ap, ◌∙◌, List, [], ◌∷◌, ◌++◌, append_assoc, length, set, get_elem?, true,
  false, some,
}
use storm_net.Result.{Result, ok, err, ◌>>=◌}
use storm_net.BitWriter.{BitWriter, empty}
use storm_net.BitReader.{BitReader}
use storm_net.BitWriter.Content.{bits_of, IsValid as WriterValid}
use storm_net.BitReader.Content.{left, IsValid as ReaderValid}
use storm_net.Codec.{Appends}
use storm_net.Codec.Steps.{Appends-then}
use storm_net.ReaderVector.{ReaderVector, from_writer}
use storm_net.ReaderVector.Arrival.{from_writer-left, empty-IsValid, unused}
use storm_net.Transmitter.{
  PipeMode, create_default_message, create_message, create_writer, send_writer, drain,
  send_to_protocol,
}
use storm_net.Transmitter.Header.{header_bits, create_default_message-Appends}
use storm_net.Protocol.{channel_bits, Protocol, got_message}
use storm_net.Protocol.Dispatch.{got_message-dispatches}
use storm_net.Pipe.{initialize, send}

module _ {P : Type 0} (got : P → BitReader → Result P) where
  -- The queue is handed over from its front.
  drain-append :
      (xs ys : List ReaderVector) (p : P)
      → drain got (xs ++ ys) p ≡ (drain got xs p >>= λ p'. drain got ys p')
  unfolding drain
  drain-append [] ys p = refl
  drain-append (x ∷ xs) ys p =
      elim (got p x.reader)
        as (λ m.
          (m >>= λ p'. drain got (xs ++ ys) p')
          ≡ ((m >>= λ p'. drain got xs p') >>= λ p'. drain got ys p')) [
            | ok p' ↦ drain-append xs ys p'
            | err e ↦ refl
          ]

  -- One more message in the queue.
  drain-snoc :
      (xs : List ReaderVector) (x : ReaderVector) (p p' p'' : P)
      → drain got xs p ≡ ok p'
      → got p' x.reader ≡ ok p''
      → drain got (xs ++ x ∷ []) p ≡ ok p''
  drain-snoc xs x p p' p'' before last =
      rw (drain-append xs (x ∷ []) p, before) unfold drain in rw last

  send_to_protocol-snoc :
      (w : BitWriter) (xs : List ReaderVector) (x : ReaderVector) (p p' : P)
      → drain got (xs ++ x ∷ []) p ≡ ok p'
      → send_to_protocol got (record { pending = w; outgoing = xs ++ x ∷ [] }) p
        ≡ ok (true, record { pending = w; outgoing = [] }, p')
  unfolding send_to_protocol
  send_to_protocol-snoc w [] x p p' drained = rw drained
  send_to_protocol-snoc w (y ∷ xs) x p p' drained = rw drained

module _ {S R : Type 0} (got_ack : S → BitReader → Result S)
    (got_msg : R → BitReader → Result R) where
  -- A message of pipe `k`, sent behind the messages in the queue, is handled by channel `k` after
  -- they were, on a reader whose bits left start with the body that was written, when the channel
  -- returns from all such readers alike; no other channel changes, and the transmitter is left with
  -- nothing to send. There are fewer than 2 ^ 64 channels.
  pub send-arrives :
      (queue : List ReaderVector) (p p' : Protocol S R) (mode : PipeMode) (k : ℕ) (elem elem' : R)
      (write : BitWriter → BitWriter) (body : List ℕ) (behind : ℕ → ℕ)
      → drain (got_message got_ack got_msg) queue p ≡ ok p'
      → length p'.receivers < 2 ^ 64
      → get_elem? p'.receivers k ≡ some elem
      → ((a : ℕ) → behind a < 256)
      → ((w : BitWriter) → WriterValid w → Appends w (write w) body)
      → ((r : BitReader) (rest : List ℕ)
          → ReaderValid r
          → left r ≡ body ++ rest
          → got_msg elem r ≡ ok elem')
      → send_to_protocol
          (got_message got_ack got_msg)
          (send
            (initialize mode k (channel_bits p'.receivers))
            write
            (record { pending = empty; outgoing = queue })
            behind)
          p
        ≡ ok (
          true,
          record { pending = empty; outgoing = [] },
          record p' { receivers = set p'.receivers k elem' },
        )
  unfolding send initialize create_message create_writer send_writer
  send-arrives queue p p' mode k elem elem' write body behind before size e h writes handles =
      let got = got_message got_ack got_msg in
      let bits = channel_bits p'.receivers in
      let header = create_default_message empty k bits false in
      let sent = write header in
      let packet = from_writer sent behind in
      let more = body ++ unused sent.buffer sent.bit in
      let (wrote, valid) =
        Appends-then empty header sent (header_bits k bits false) body
          (create_default_message-Appends empty k bits false empty-IsValid) (writes header) in
      let (begins, ready, emptied) = from_writer-left sent behind valid h in
      let nothing : bits_of empty ≡ [] = unfold bits_of in refl in
      let written : bits_of sent ≡ header_bits k bits false ++ body =
        wrote ∙ ap (λ (x : List ℕ). x ++ (header_bits k bits false ++ body)) nothing in
      let arrived : left packet.0.reader ≡ header_bits k bits false ++ more =
        begins
        ∙ ap (λ (x : List ℕ). x ++ unused sent.buffer sent.bit) written
        ∙ append_assoc (header_bits k bits false) body (unused sent.buffer sent.bit) in
      let last =
        got_message-dispatches got_ack got_msg p' packet.0.reader k elem elem' more size e ready
          arrived (λ r v q. handles r (unused sent.buffer sent.bit) v q) in
      rw emptied (
        send_to_protocol-snoc got empty queue packet.0 p
          (record p' { receivers = set p'.receivers k elem' })
          (drain-snoc got queue packet.0 p p' (record p' { receivers = set p'.receivers k elem' })
            before last))
