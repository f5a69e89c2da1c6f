-- ===== src/Examples/Deltas.antt =====
-- Values sent as differences, and the pipe that sends them, at concrete values.
use storm_net.Prelude.{
  ℕ, ◌≡◌, ==_iff, refl, ap, sym, ◌∙◌, arith, List, [], ◌∷◌, ◌++◌, length, true, false, ◌==◌,
  get_elem?, none, some,
}
use storm_net.Bits.{to_bits}
use storm_net.Result.{ok}
use storm_net.BitUtil.{
  get_required_bits_u64, get_required_bits_signed, count_leading_zeros_u64, clz32_64,
}
use storm_net.BitWriter.{BitWriter, empty}
use storm_net.BitWriter.Content.{bits_of, IsValid as WriterValid}
use storm_net.BitReader.{BitReader, new, vector_memory}
use storm_net.BitReader.Content.{left, IsValid as ReaderValid}
use storm_net.ReaderVector.Arrival.{vector_memory-lt}
use storm_net.StaticList.Wire.{width-signed}
use storm_net.Codec.{Appends, Takes}
use storm_net.Codec.Basic.{enum_codec}
use storm_net.Delta.{DeltaCodec, Sends}
use storm_net.Delta.Plain.{plain_delta_codec}
use storm_net.ArrayList.Delta.{serialize_list_delta, deserialize_list_delta}
use storm_net.ArrayList.Delta.Send.{list_delta, serialize_list_delta-Sends}
use storm_net.ArrayList.Delta.Arrives.{deserialize_list_delta-Takes}
use storm_net.Delta.Struct.{Field, serialize_struct, deserialize_struct}
use storm_net.Delta.Struct.Send.{struct_delta, serialize_struct-Sends}
use storm_net.Delta.Struct.Arrives.{deserialize_struct-Takes}
use storm_net.Transmitter.{reliable, TransmitterMemory, create_message, create_writer, send_writer}
use storm_net.Transmitter.Header.{create_default_message-Appends}
use storm_net.Pipe.Reliable.{ReliableSender, ReliableReceiver, sync_reliable, got_reliable}
use storm_net.Pipe.Reliable.Arrives.{sync_reliable-got_reliable}
use storm_net.Pipe.DeltaState.{
  DeltaSender, DeltaReceiver, slot_bits, sync_state, got_message, got_ack,
}
use storm_net.Pipe.DeltaState.Arrives.{sync_state-got_message, sync_state-refuses}

abbrev digits : DeltaCodec ℕ
digits = plain_delta_codec (enum_codec 7 (omega arith)) (λ x y. x == y) (λ x y. ==_iff x y)

empty-IsValid : WriterValid empty
empty-IsValid = record {
  some_bit = omega arith;
  one_byte = omega arith;
  no_bytes = λ e. refl;
  bytes = tt;
}

three_bits : get_required_bits_u64 7 ≡ 3
three_bits = unfold get_required_bits_u64 count_leading_zeros_u64 clz32_64 in refl

-- The second of three elements has changed, and one is new.
serialize_list_delta-Sends_example :
    Sends
      (serialize_list_delta digits 6 (1 ∷ 5 ∷ 3 ∷ 7 ∷ []) (1 ∷ 2 ∷ 3 ∷ []) empty)
      empty
      (list_delta digits 6 (1 ∷ 5 ∷ 3 ∷ 7 ∷ []) (1 ∷ 2 ∷ 3 ∷ []))
serialize_list_delta-Sends_example =
    serialize_list_delta-Sends digits 6 (1 ∷ 5 ∷ 3 ∷ 7 ∷ []) (1 ∷ 2 ∷ 3 ∷ []) empty empty-IsValid
      (unfold bits_of get_required_bits_u64 count_leading_zeros_u64 clz32_64 in omega arith)

-- A reader at the start of these bytes.
module _ (bytes : List ℕ) where
  abbrev reading : BitReader
  reading = new (vector_memory bytes (λ a. 0)) 0 (length bytes)

-- The difference 0 0 1 1 0 1 0 of two lists of three elements, and one more bit.
reading_44-IsValid : ReaderValid (reading (44 ∷ []))
reading_44-IsValid = record {
  in_byte = omega arith;
  bytes = vector_memory-lt (44 ∷ []) (λ a. 0) (omega arith, tt) (λ a. omega arith);
}

deserialize_list_delta-Takes_example :
    Takes
      (deserialize_list_delta digits 6 (1 ∷ 2 ∷ 3 ∷ []) (reading (44 ∷ [])))
      (1 ∷ 5 ∷ 3 ∷ [])
      (0 ∷ [])
deserialize_list_delta-Takes_example =
    deserialize_list_delta-Takes digits 6 (1 ∷ 5 ∷ 3 ∷ []) (1 ∷ 2 ∷ 3 ∷ [])
      (0 ∷ 0 ∷ 1 ∷ 1 ∷ 0 ∷ 1 ∷ 0 ∷ []) (reading (44 ∷ [])) (0 ∷ []) (omega arith) (omega arith)
      (unfold get_required_bits_u64 count_leading_zeros_u64 clz32_64 in refl)
      (omega arith, (omega arith, (omega arith, (omega arith, tt)))) reading_44-IsValid
      (unfold left in refl)

-- Slots of stores of three states take two bits.
two_bits : slot_bits digits 3 ≡ 2
two_bits =
    width-signed 2 (omega arith)
    ∙ (unfold get_required_bits_u64 count_leading_zeros_u64 clz32_64 in refl)

same_counts : get_required_bits_u64 3 ≡ get_required_bits_u64 2
same_counts = unfold get_required_bits_u64 count_leading_zeros_u64 clz32_64 in refl

same_widths : get_required_bits_signed 4 3 ≡ slot_bits digits 3
same_widths = width-signed 3 (omega arith) ∙ same_counts ∙ sym (width-signed 2 (omega arith))

abbrev sender : ℕ → DeltaSender ℕ
sender next = record {
  mode = reliable;
  channel_index = 0;
  channel_bits = 1;
  last_acked_state = some 0;
  next_slot = next;
  state_store = some 5 ∷ none ∷ none ∷ [];
}

abbrev receiver : DeltaReceiver ℕ
receiver = record {
  mode = reliable;
  channel_index = 0;
  channel_bits = 1;
  update_callback = true;
  updates = 5 ∷ [];
  state_store = some 5 ∷ none ∷ none ∷ [];
}

abbrev transmitter : TransmitterMemory
transmitter = record { pending = empty; outgoing = [] }

header_written : Appends empty (create_message transmitter reliable 0 1).pending (0 ∷ 0 ∷ [])
header_written =
    unfold create_message create_writer in
    create_default_message-Appends empty 0 1 false empty-IsValid

reading_65-IsValid : ReaderValid (reading (65 ∷ []))
reading_65-IsValid = record {
  in_byte = omega arith;
  bytes = vector_memory-lt (65 ∷ []) (λ a. 0) (omega arith, tt) (λ a. omega arith);
}

reading_1-IsValid : ReaderValid (reading (1 ∷ []))
reading_1-IsValid = record {
  in_byte = omega arith;
  bytes = vector_memory-lt (1 ∷ []) (λ a. 0) (omega arith, tt) (λ a. omega arith);
}

sync_state-got_message_example :
    (s' : DeltaSender ℕ) × (w : BitWriter) × (rx' : DeltaReceiver ℕ) × (s'' : DeltaSender ℕ)
    × (sync_state digits 3 (sender 1) 4 transmitter (λ a. 0)
        ≡ ok (
          s',
          send_writer (record (create_message transmitter reliable 0 1) { pending = w }) (λ a. 0),
        ))
    × Appends
        (create_message transmitter reliable 0 1).pending
        w
        (to_bits (slot_bits digits 3) 1 ++ (to_bits (slot_bits digits 3) 0 ++ 0 ∷ 0 ∷ 1 ∷ []))
    × (got_message digits 3 receiver (reading (65 ∷ [])) ≡ ok (rx', 1))
    × (rx'.updates ≡ 5 ∷ 4 ∷ [])
    × (got_ack digits 3 s' (reading (1 ∷ [])) ≡ ok s'')
    × (s''.last_acked_state ≡ some 1)
    × (get_elem? s''.state_store 1 ≡ some (some 4))
    × (get_elem? rx'.state_store 1 ≡ some (some 4))
sync_state-got_message_example =
    sync_state-got_message digits 3 (sender 1) receiver 4 5 0 (0 ∷ 0 ∷ 1 ∷ []) transmitter (λ a. 0)
      (reading (65 ∷ [])) (reading (1 ∷ [])) (0 ∷ []) (0 ∷ 0 ∷ 0 ∷ 0 ∷ 0 ∷ 0 ∷ []) (omega arith)
      (omega arith) same_widths (refl, refl) refl (omega arith) refl refl refl
      (unfold get_required_bits_u64 count_leading_zeros_u64 clz32_64 in refl) (omega arith)
      header_written.1
      (unfold bits_of get_required_bits_u64 count_leading_zeros_u64 clz32_64 in
        omega (arith, ap length header_written.0, two_bits))
      reading_65-IsValid (rw two_bits (unfold left in refl)) reading_1-IsValid
      (rw two_bits (unfold left in refl))

sync_state-refuses_example :
    (t' : TransmitterMemory) × (sync_state digits 3 (sender 3) 4 transmitter (λ a. 0)
      ≡ ok (sender 3, t'))
    × (t'.outgoing ≡ [])
    × Appends empty t'.pending (0 ∷ 0 ∷ [])
sync_state-refuses_example =
    sync_state-refuses digits 3 (sender 3) 4 5 0 transmitter (λ a. 0) refl refl refl empty-IsValid

abbrev reliable_sender : ReliableSender ℕ
reliable_sender = record { channel_index = 0; channel_bits = 1; last_synced_state = some 5 }

abbrev reliable_receiver : ReliableReceiver ℕ
reliable_receiver = record { update_callback = true; updates = 5 ∷ []; reference_state = some 5 }

reading_4-IsValid : ReaderValid (reading (4 ∷ []))
reading_4-IsValid = record {
  in_byte = omega arith;
  bytes = vector_memory-lt (4 ∷ []) (λ a. 0) (omega arith, tt) (λ a. omega arith);
}

sync_reliable-got_reliable_example :
    (s' : ReliableSender ℕ) × (w : BitWriter) × (rx' : ReliableReceiver ℕ) × (sync_reliable digits
        reliable_sender 4 transmitter
        (λ a. 0)
      ≡ ok (
        s',
        send_writer (record (create_message transmitter reliable 0 1) { pending = w }) (λ a. 0),
      ))
    × Appends (create_message transmitter reliable 0 1).pending w (0 ∷ 0 ∷ 1 ∷ [])
    × (got_reliable digits reliable_receiver (reading (4 ∷ [])) ≡ ok rx')
    × (rx'.updates ≡ 5 ∷ 4 ∷ [])
    × (s'.last_synced_state ≡ some 4)
    × (rx'.reference_state ≡ s'.last_synced_state)
sync_reliable-got_reliable_example =
    sync_reliable-got_reliable digits reliable_sender reliable_receiver 4 (0 ∷ 0 ∷ 1 ∷ [])
      transmitter (λ a. 0) (reading (4 ∷ [])) (0 ∷ 0 ∷ 0 ∷ 0 ∷ 0 ∷ []) refl
      (unfold get_required_bits_u64 count_leading_zeros_u64 clz32_64 in refl) (omega arith)
      header_written.1
      (unfold bits_of get_required_bits_u64 count_leading_zeros_u64 clz32_64 in
        omega (arith, ap length header_written.0))
      reading_4-IsValid (unfold left in refl)

-- A struct of two fields, of which the second differs.
abbrev two_fields : List Field
two_fields = (ℕ, digits) ∷ (ℕ, digits) ∷ []

serialize_struct-Sends_example :
    Sends
      (serialize_struct two_fields (3, (4, tt)) (3, (5, tt)) empty)
      empty
      (struct_delta two_fields (3, (4, tt)) (3, (5, tt)))
serialize_struct-Sends_example =
    serialize_struct-Sends two_fields (3, (4, tt)) (3, (5, tt)) empty (omega arith) empty-IsValid
      (unfold bits_of get_required_bits_u64 count_leading_zeros_u64 clz32_64 in omega arith)

-- One field, that of index 1, is 4: 1 0, 1 0, 0 0 1, and one more bit.
reading_69-IsValid : ReaderValid (reading (69 ∷ []))
reading_69-IsValid = record {
  in_byte = omega arith;
  bytes = vector_memory-lt (69 ∷ []) (λ a. 0) (omega arith, tt) (λ a. omega arith);
}

deserialize_struct-Takes_example :
    Takes (deserialize_struct two_fields (3, (5, tt)) (reading (69 ∷ []))) (3, (4, tt)) (0 ∷ [])
deserialize_struct-Takes_example =
    deserialize_struct-Takes two_fields (3, (4, tt)) (3, (5, tt)) (1 ∷ 0 ∷ 1 ∷ 0 ∷ 0 ∷ 0 ∷ 1 ∷ [])
      (reading (69 ∷ [])) (0 ∷ []) (omega arith)
      (unfold get_required_bits_u64 count_leading_zeros_u64 clz32_64 in refl)
      (omega arith, (omega arith, tt)) reading_69-IsValid (unfold left in refl)
