-- ===== src/Pipe/DeltaState/Arrives.antt =====
-- A state that is sent as a difference, and what the other side makes of it.
use native.Mathlib.Nat.{mod-lt}
use storm_net.Prelude.{
  ℕ, ◌+◌, ◌-◌, ◌*◌, ◌%◌, ◌^◌, ◌<◌, ◌≤◌, ◌≡◌, refl, ap, ◌∙◌, List, [], ◌∷◌, ◌++◌, append_assoc, true,
  false, if◌then◌else◌, ◌==◌, ltb, length, length-append, set, get_elem?, Option, some, arith,
}
use storm_net.Bits.{to_bits, length-to_bits}
use storm_net.Result.{ok}
use storm_net.BitUtil.{get_required_bits_signed}
use storm_net.BitUtil.Bounds.{lt-get_required_bits, get_required_bits-le}
use storm_net.BitWriter.{BitWriter, write_bits}
use storm_net.BitReader.{BitReader, read_ubits}
use storm_net.BitWriter.Content.{bits_of, IsValid as WriterValid}
use storm_net.BitReader.Content.{left, IsValid as ReaderValid}
use storm_net.Codec.{Appends}
use storm_net.Codec.Steps.{write_bits-Appends, Appends-then, read_ubits-Takes}
use storm_net.Delta.{DeltaCodec, is_sent, sent_bits}
use storm_net.ArrayList.Edit.{get_elem?-set}
use storm_net.StaticList.Wire.{width-signed}
use storm_net.Transmitter.{TransmitterMemory, create_message, create_writer, send_writer}
use storm_net.Transmitter.Header.{header_bits, create_default_message-Appends}
use storm_net.Pipe.DeltaState.{
  DeltaSender, DeltaReceiver, is_acked, store_state, get_state, slot_bits, reference_state,
  write_state, sync_state, got_ack, acked_or_size, read_state, got_message,
}

module _ {T : Type 0} (d : DeltaCodec T) (size : ℕ) where
  -- The message's writer.
  abbrev header : DeltaSender T → TransmitterMemory → TransmitterMemory
  header s t = create_message t s.mode s.channel_index s.channel_bits

  abbrev slot_of : DeltaSender T → ℕ
  slot_of s = s.next_slot % size

  get_state-held :
      (index : ℕ) (store : List (Option T)) (state : T)
      → get_elem? store index ≡ some (some state)
      → get_state index store ≡ ok (some state)
  unfolding get_state
  get_state-held index store state e = rw (get_state, e) refl

  store_state-inside :
      (state : T) (index : ℕ) (store : List (Option T))
      → ltb index (length store) ≡ true
      → store_state state index store ≡ ok (set store index (some state))
  unfolding store_state
  store_state-inside state index store e = rw (store_state, e) refl

  reference_state-held :
      (s : DeltaSender T) (acked : ℕ) (reference : T)
      → s.last_acked_state ≡ some acked
      → get_elem? s.state_store acked ≡ some (some reference)
      → reference_state d size s ≡ ok (some reference)
  unfolding reference_state
  reference_state-held s acked reference e held =
      rw (reference_state, e) (get_state-held acked s.state_store reference held)

  sync_state-step :
      (s : DeltaSender T) (state reference : T) (acked : ℕ) (t : TransmitterMemory) (behind : ℕ → ℕ)
      (w' : BitWriter) (store : List (Option T))
      → acked_or_size d size s.last_acked_state ≡ acked
      → is_acked s.last_acked_state (slot_of s) ≡ false
      → reference_state d size s ≡ ok (some reference)
      → store_state state (slot_of s) s.state_store ≡ ok store
      → write_state d size state (some reference) (
          write_bits acked
            (slot_bits d size)
            (write_bits (slot_of s) (slot_bits d size) (header s t).pending))
        ≡ ok w'
      → sync_state d size s state t behind
        ≡ ok (
          record s { next_slot = slot_of s + 1; state_store = store },
          send_writer (record (header s t) { pending = w' }) behind,
        )
  unfolding sync_state
  sync_state-step s state reference acked t behind w' store e other refers stored wrote =
      rw (other, refers, stored, e, wrote) refl

  refused-step :
      (s : DeltaSender T) (state reference : T) (t : TransmitterMemory) (behind : ℕ → ℕ)
      → reference_state d size s ≡ ok (some reference)
      → is_acked s.last_acked_state (slot_of s) ≡ true
      → sync_state d size s state t behind ≡ ok (s, header s t)
  unfolding sync_state
  refused-step s state reference t behind refers same = rw (refers, same) refl

  write_state-sent :
      (state reference : T) (w w' : BitWriter)
      → d.serialize_delta state reference w ≡ ok (true, w')
      → write_state d size state (some reference) w ≡ ok w'
  unfolding write_state
  write_state-sent state reference w w' e = rw (write_state, e) refl

  read_state-delta :
      (acked : ℕ) (store : List (Option T)) (state reference : T) (r r' : BitReader)
      → (acked == size) ≡ false
      → get_elem? store acked ≡ some (some reference)
      → d.deserialize_delta reference r ≡ ok (state, r')
      → read_state d size acked store r ≡ ok (state, r')
  unfolding read_state
  read_state-delta acked store state reference r r' other held value =
      rw (read_state, other, get_state-held acked store reference held, value) refl

  got_message-step :
      (rx : DeltaReceiver T) (state : T) (slot acked : ℕ) (store : List (Option T))
      (r r1 r2 r3 : BitReader)
      → read_ubits (slot_bits d size) r ≡ ok (slot, r1)
      → read_ubits (get_required_bits_signed 4 size) r1 ≡ ok (acked, r2)
      → read_state d size acked rx.state_store r2 ≡ ok (state, r3)
      → store_state state slot rx.state_store ≡ ok store
      → got_message d size rx r
        ≡ ok (
          record rx {
            state_store = store;
            updates = if rx.update_callback then rx.updates ++ state ∷ [] else rx.updates;
          },
          slot,
        )
  unfolding got_message
  got_message-step rx state slot acked store r r1 r2 r3 read read' value stored =
      rw (read, read', value, stored) refl

  acked-step :
      (s : DeltaSender T) (r r' : BitReader) (slot : ℕ)
      → read_ubits (slot_bits d size) r ≡ ok (slot, r')
      → got_ack d size s r ≡ ok (record s { last_acked_state = some slot })
  unfolding got_ack
  acked-step s r r' slot e = rw e refl

  slot_bits-lt :
      (slot : ℕ)
      → 1 < size
      → size < 2 ^ 31
      → slot < size
      → (slot_bits d size ≤ 64) × (slot < 2 ^ slot_bits d size)
  slot_bits-lt slot some_slots small h = rw (width-signed (size - 1) (omega arith)) (
    get_required_bits-le (size - 1) (omega arith),
    lt-get_required_bits (size - 1) slot (omega arith) (omega arith),
  )

-- When the state with which the last acknowledged slot is filled is the same on both sides, and the
-- new state differs from it, `SyncState` sends the slot, the acknowledged slot and the difference
-- behind the header, and `GotMessage` hands the new state to its callback and answers with its slot.
-- Both sides then hold the new state in this slot, which the acknowledgement makes the sender's
-- reference. The slot is not the acknowledged one; both stores have as many slots as their type says,
-- more than one and fewer than 2 ^ 31; the two widths in which the sender writes and the receiver reads
-- the acknowledged slot are the same; the message is shorter than 2 ^ 63 bits; the state fits.
pub sync_state-got_message :
    {T : Type 0} (d : DeltaCodec T) (size : ℕ) (s : DeltaSender T) (rx : DeltaReceiver T)
    (state reference : T) (acked : ℕ) (bits : List ℕ) (t : TransmitterMemory) (behind : ℕ → ℕ)
    (r ack : BitReader) (rest rest' : List ℕ)
    → 1 < size
    → size < 2 ^ 31
    → get_required_bits_signed 4 size ≡ slot_bits d size
    → (length s.state_store ≡ size) × (length rx.state_store ≡ size)
    → s.last_acked_state ≡ some acked
    → acked < size
    → get_elem? s.state_store acked ≡ some (some reference)
    → get_elem? rx.state_store acked ≡ some (some reference)
    → ((s.next_slot % size) == acked) ≡ false
    → d.delta state reference ≡ some bits
    → d.codec.Fits state
    → WriterValid (create_message t s.mode s.channel_index s.channel_bits).pending
    → length (bits_of (create_message t s.mode s.channel_index s.channel_bits).pending)
        + (2 * slot_bits d size + d.peak state reference)
      < 2 ^ 63
    → ReaderValid r
    → left r
      ≡ (to_bits (slot_bits d size) (s.next_slot % size)
          ++ (to_bits (slot_bits d size) acked ++ bits))
        ++ rest
    → ReaderValid ack
    → left ack ≡ to_bits (slot_bits d size) (s.next_slot % size) ++ rest'
    → (s' : DeltaSender T) × (w : BitWriter) × (rx' : DeltaReceiver T) × (s'' : DeltaSender T)
      × (sync_state d size s state t behind
          ≡ ok (
            s',
            send_writer
                (record (create_message t s.mode s.channel_index s.channel_bits) { pending = w })
                behind,
          ))
      × Appends (create_message t s.mode s.channel_index s.channel_bits).pending w (
          to_bits (slot_bits d size) (s.next_slot % size)
          ++ (to_bits (slot_bits d size) acked ++ bits))
      × (got_message d size rx r ≡ ok (rx', s.next_slot % size))
      × (rx'.updates ≡ (if rx.update_callback then rx.updates ++ state ∷ [] else rx.updates))
      × (got_ack d size s' ack ≡ ok s'')
      × (s''.last_acked_state ≡ some (s.next_slot % size))
      × (get_elem? s''.state_store (s.next_slot % size) ≡ some (some state))
      × (get_elem? rx'.state_store (s.next_slot % size) ≡ some (some state))
sync_state-got_message d size s rx state reference acked bits t behind r ack rest rest' some_slots
      small widths stores last inside held held' other differ fits wv room rv p av q =
    let n = slot_bits d size in
    let slot = s.next_slot % size in
    let w0 = (create_message t s.mode s.channel_index s.channel_bits).pending in
    let w1 = write_bits slot n w0 in
    let w2 = write_bits acked n w1 in
    let below : slot < size = mod-lt s.next_slot (omega arith) in
    let (narrow, slot_fits) = slot_bits-lt d size slot some_slots small below in
    let (_, acked_fits) = slot_bits-lt d size acked some_slots small inside in
    let first = write_bits-Appends slot n w0 wv in
    let second = write_bits-Appends acked n w1 first.1 in
    let (w3, sent, third) = d.serialize_delta-Sends state reference w2 second.1 (
      omega (
        arith,
        ap length (first.0),
        length-append (bits_of w0) (to_bits n slot),
        length-to_bits n slot,
        ap length (second.0),
        length-append (bits_of w1) (to_bits n acked),
        length-to_bits n acked,
        room,
      )) in
    let sent' : d.serialize_delta state reference w2 ≡ ok (true, w3) =
      sent ∙ ap (λ (o : Option (List ℕ)). ok (is_sent o, w3)) differ in
    let third' : Appends w2 w3 bits =
      (third.0 ∙ ap (λ (o : Option (List ℕ)). bits_of w2 ++ sent_bits o) differ, third.1) in
    let room_here : ltb slot (length s.state_store) ≡ true = ground (arith, stores.0, below) in
    let room_there : ltb slot (length rx.state_store) ≡ true = ground (arith, stores.1, below) in
    let (r1, read, behind1, v1) =
      read_ubits-Takes n slot r ((to_bits n acked ++ bits) ++ rest) narrow slot_fits rv
        (p ∙ append_assoc (to_bits n slot) (to_bits n acked ++ bits) rest) in
    let (r2, read2, behind2, v2) =
      read_ubits-Takes n acked r1 (bits ++ rest) narrow acked_fits v1
        (behind1 ∙ append_assoc (to_bits n acked) bits rest) in
    let (r3, value, behind3, v3) =
      d.deserialize_delta-Takes state reference bits r2 rest differ fits v2 behind2 in
    let (r4, acks, _, _) = read_ubits-Takes n slot ack rest' narrow slot_fits av q in
    let apart : (acked == size) ≡ false = ground arith in
    (
      record s { next_slot = slot + 1; state_store = set s.state_store slot (some state) },
      w3,
      record rx {
        state_store = set rx.state_store slot (some state);
        updates = if rx.update_callback then rx.updates ++ state ∷ [] else rx.updates;
      },
      record s {
        next_slot = slot + 1;
        state_store = set s.state_store slot (some state);
        last_acked_state = some slot;
      },
      sync_state-step d size s state reference acked t behind w3
          (set s.state_store slot (some state)) (ap (acked_or_size d size) last)
          (ap (λ (o : Option ℕ). is_acked o slot) last ∙ other)
          (reference_state-held d size s acked reference last held)
          (store_state-inside d size state slot s.state_store room_here)
          (write_state-sent d size state reference w2 w3 sent'),
      Appends-then w0 w1 w3 (to_bits n slot) (to_bits n acked ++ bits) first
          (λ _. Appends-then w1 w2 w3 (to_bits n acked) bits second (λ _. third')),
      got_message-step d size rx state slot acked (set rx.state_store slot (some state)) r r1 r2 r3
          read (ap (λ (k : ℕ). read_ubits k r1) widths ∙ read2)
          (read_state-delta d size acked rx.state_store state reference r2 r3 apart held' value)
          (store_state-inside d size state slot rx.state_store room_there),
      refl,
      acked-step d size _ ack r4 slot acks,
      refl,
      get_elem?-set slot (some state) s.state_store (omega (arith, stores.0, below)),
      get_elem?-set slot (some state) rx.state_store (omega (arith, stores.1, below)),
    )

-- When the next slot is the acknowledged one, which holds a state, `SyncState` sends nothing and keeps
-- its stores, but the header of the message that it has begun stays in the transmitter's writer, in
-- front of the next message.
pub sync_state-refuses :
    {T : Type 0} (d : DeltaCodec T) (size : ℕ) (s : DeltaSender T) (state reference : T) (acked : ℕ)
    (t : TransmitterMemory) (behind : ℕ → ℕ)
    → s.last_acked_state ≡ some acked
    → get_elem? s.state_store acked ≡ some (some reference)
    → ((s.next_slot % size) == acked) ≡ true
    → WriterValid t.pending
    → (t' : TransmitterMemory) × (sync_state d size s state t behind ≡ ok (s, t'))
      × (t'.outgoing ≡ t.outgoing)
      × Appends t.pending t'.pending (header_bits s.channel_index s.channel_bits false)
unfolding create_message create_writer
sync_state-refuses d size s state reference acked t behind last held same v = (
  create_message t s.mode s.channel_index s.channel_bits,
  refused-step d size s state reference t behind
      (reference_state-held d size s acked reference last held)
      (ap (λ (o : Option ℕ). is_acked o (s.next_slot % size)) last ∙ same),
  refl,
  create_default_message-Appends t.pending s.channel_index s.channel_bits false v,
)
