-- ===== src/Examples/Containers.antt =====
-- Serializers and containers at concrete values.
use storm_net.Prelude.{
  ℕ, ◌≤◌, refl, arith, List, [], ◌∷◌, length, Bool, true, false, Option, none, some,
}
use storm_net.BitUtil.{get_required_bits_u64, count_leading_zeros_u64, clz32_64}
use storm_net.BitWriter.{empty}
use storm_net.BitReader.{BitReader, new, vector_memory}
use storm_net.BitReader.Content.{left, IsValid as ReaderValid}
use storm_net.Codec.{Codec, Takes}
use storm_net.Codec.Basic.{bool_codec, pair_codec}
use storm_net.Optional.Wire.{optional_codec}
use storm_net.ArrayList.{deserialize_list}
use storm_net.ArrayList.Bounds.{apply, inserts_at, apply-le}
use storm_net.ArrayList.Wire.{list_codec, deserialize_list-Takes, deserialize_list-le}
use storm_net.String.Wire.{string_codec}
use storm_net.ReaderVector.{from_writer}
use storm_net.ReaderVector.Arrival.{unused, codec_roundtrip, vector_memory-lt}

-- Lists of up to three pairs of a flag and an optional string.
abbrev record_codec : Codec (List (Bool × Option (List ℕ)))
record_codec = list_codec (pair_codec bool_codec (optional_codec string_codec)) 3 (omega arith)

abbrev records : List (Bool × Option (List ℕ))
records = (true, some (104 ∷ 233 ∷ [])) ∷ (false, none) ∷ []

records-Fits : record_codec.Fits records
records-Fits =
    (omega arith, ((tt, (omega arith, (omega arith, (omega arith, tt)))), ((tt, tt), tt)))

codec_roundtrip_example :
    Takes
      (record_codec.deserialize []
        (from_writer (record_codec.serialize records empty) (λ a. 0)).0.reader)
      records
      (unused
        (record_codec.serialize records empty).buffer
        (record_codec.serialize records empty).bit)
codec_roundtrip_example =
    codec_roundtrip record_codec records [] (λ a. 0) records-Fits (λ a. omega arith)

-- A reader at the start of these bytes.
module _ (bytes : List ℕ) where
  abbrev reading : BitReader
  reading = new (vector_memory bytes (λ a. 0)) 0 (length bytes)

reading_11-IsValid : ReaderValid (reading (11 ∷ []))
reading_11-IsValid = record {
  in_byte = omega arith;
  bytes = vector_memory-lt (11 ∷ []) (λ a. 0) (omega arith, tt) (λ a. omega arith);
}

deserialize_list-Takes_example :
    Takes
      (deserialize_list bool_codec 3 [] (reading (11 ∷ [])))
      (false ∷ true ∷ false ∷ [])
      (0 ∷ 0 ∷ 0 ∷ [])
deserialize_list-Takes_example =
    deserialize_list-Takes bool_codec 3 (omega arith) [] (false ∷ true ∷ false ∷ [])
      (reading (11 ∷ [])) (0 ∷ 0 ∷ 0 ∷ []) (omega arith, (tt, (tt, (tt, tt)))) reading_11-IsValid
      (unfold left get_required_bits_u64 count_leading_zeros_u64 clz32_64 in refl)

flags_received :
    Takes
      (deserialize_list bool_codec 3 [] (reading (11 ∷ [])))
      (false ∷ true ∷ false ∷ [])
      (0 ∷ 0 ∷ 0 ∷ [])
flags_received =
    deserialize_list-Takes bool_codec 3 (omega arith) [] (false ∷ true ∷ false ∷ [])
      (reading (11 ∷ [])) (0 ∷ 0 ∷ 0 ∷ []) (omega arith, (tt, (tt, (tt, tt)))) reading_11-IsValid
      (unfold left get_required_bits_u64 count_leading_zeros_u64 clz32_64 in refl)

deserialize_list-le_example : length (false ∷ true ∷ false ∷ []) ≤ 3
deserialize_list-le_example =
    deserialize_list-le bool_codec 3 [] (false ∷ true ∷ false ∷ []) (reading (11 ∷ []))
      flags_received.0 flags_received.1

reading_string-IsValid : ReaderValid (reading (2 ∷ 200 ∷ []))
reading_string-IsValid = record {
  in_byte = omega arith;
  bytes =
      vector_memory-lt (2 ∷ 200 ∷ []) (λ a. 0) (omega arith, (omega arith, tt)) (λ a. omega arith);
}

abbrev pair_of_numbers : List ℕ
pair_of_numbers = 4 ∷ 5 ∷ []

abbrev three_numbers : List ℕ
three_numbers = 4 ∷ 9 ∷ 5 ∷ []

apply-le_example : length three_numbers ≤ 3
apply-le_example =
    apply-le 3 (inserts_at 1 9) pair_of_numbers three_numbers (omega arith) (unfold apply in refl)
