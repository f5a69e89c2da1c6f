-- ===== src/Examples/Senders.antt =====
-- Ranged numbers, pointers, static lists and lists of senders at concrete values.
use storm_net.Prelude.{
  ℕ, ◌≢◌, Bool, false, Option, ◌<◌, ◌≡◌, refl, arith, List, [], ◌∷◌, true, some,
}
use storm_net.BitWriter.{empty}
use storm_net.BitWriter.Content.{IsValid as WriterValid}
use storm_net.Codec.{Appends}
use storm_net.Result.{ok}
use storm_net.BitReader.{BitReader, new, vector_memory}
use storm_net.BitReader.Content.{left, IsValid as ReaderValid}
use storm_net.Codec.Basic.{bool_codec}
use storm_net.ReaderVector.Arrival.{vector_memory-lt}
use storm_net.Number.{construct, multiply, assign_by}
use storm_net.Number.Range.{InRange, assign_by-InRange}
use storm_net.Ptr.{serialize_shared, deserialize_shared}
use storm_net.Ptr.Wire.{object, deserialize_shared-serialize}
use storm_net.Transmitter.{TransmitterMemory, reliable}
use storm_net.Pipe.{initialize}
use storm_net.Pipe.SenderList.{MessageSender}

abbrev reading : ℕ → BitReader
reading byte = new (vector_memory (byte ∷ []) (λ a. 0)) 0 1

reading-IsValid : (byte : ℕ) → byte < 256 → ReaderValid (reading byte)
reading-IsValid byte h = record {
  in_byte = omega arith;
  bytes = vector_memory-lt (byte ∷ []) (λ a. 0) (h, tt) (λ a. omega arith);
}

-- 20 * 7 is more than 100.
assign_by-InRange_example : InRange 10 100 100 × InRange 10 100 (construct 10 100 3)
assign_by-InRange_example =
    assign_by-InRange 10 100 (multiply 7) 20 100 3 (omega arith) (unfold assign_by in refl)

empty-IsValid : WriterValid empty
empty-IsValid = record {
  some_bit = omega arith;
  one_byte = omega arith;
  no_bytes = λ e. refl;
  bytes = tt;
}

-- An object that arrives at an address that another pointer may hold too.
deserialize_shared-serialize_example :
    Appends empty (serialize_shared bool_codec (λ a. true) (some 7) empty) (1 ∷ 1 ∷ [])
    × (val : Option ℕ) × (heap : ℕ → Bool) × (r : BitReader) × (deserialize_shared bool_codec true 9
          (some 4)
          (λ a. false)
          (reading 3)
        ≡ ok (val, heap, r))
    × (object heap val ≡ some true)
    × (val ≡ some 4)
    × ((b : ℕ) → val ≢ some b → heap b ≡ false)
    × (left r ≡ 0 ∷ 0 ∷ 0 ∷ 0 ∷ 0 ∷ 0 ∷ [])
    × ReaderValid r
deserialize_shared-serialize_example =
    deserialize_shared-serialize bool_codec (λ a. true) (λ a. false) (some 7) (some 4) 9 empty
      (reading 3) (0 ∷ 0 ∷ 0 ∷ 0 ∷ 0 ∷ 0 ∷ []) empty-IsValid tt (reading-IsValid 3 (omega arith))
      (unfold left in refl)

abbrev colours : List ℕ
colours = 30 ∷ 40 ∷ 50 ∷ 40 ∷ []

abbrev over : ℕ → MessageSender
over transmitter = record { transmitter = transmitter; sender = initialize reliable 3 2 }

-- Two connections over one transmitter, and a third over another.
abbrev senders : List (ℕ × MessageSender)
senders = (7, over 0) ∷ (8, over 1) ∷ (9, over 0) ∷ []

abbrev idle : ℕ → TransmitterMemory
idle transmitter = record { pending = empty; outgoing = [] }
