-- ===== src/Delta.antt =====
-- NetSerializeDelta.h and NetDeserializeDelta.h: `NetSerializerDelta<T>` and `NetDeserializerDelta<T>`
-- as an interface, with the bits on the wire as its specification. A value is sent as its difference
-- from one that the receiver has; a serializer that finds none writes nothing and returns false.
pub mod Plain
pub mod Struct
pub mod Array
use storm_net.Prelude.{
  ℕ, ◌+◌, ◌^◌, ◌<◌, ◌≤◌, ◌≡◌, List, [], ◌++◌, Bool, true, false, Option, none, some, length,
  if◌then◌else◌,
}
use storm_net.Result.{Result, ok, ◌>>=◌}
use storm_net.BitWriter.{BitWriter}
use storm_net.BitReader.{BitReader}
use storm_net.BitWriter.Content.{bits_of, IsValid as WriterValid}
use storm_net.BitReader.Content.{left, IsValid as ReaderValid}
use storm_net.Codec.{Codec, Appends, Takes}

abbrev pub is_sent : Option (List ℕ) → Bool
is_sent none = false
is_sent (some bits) = true

abbrev pub sent_bits : Option (List ℕ) → List ℕ
sent_bits none = []
sent_bits (some bits) = bits

-- A serializer returns whether there is a difference, and has appended its bits.
abbrev pub Sends : Result (Bool × BitWriter) → BitWriter → Option (List ℕ) → Type 0
Sends result w delta =
    (w' : BitWriter) × (result ≡ ok (is_sent delta, w')) × Appends w w' (sent_bits delta)

pub record DeltaCodec (T : Type 0) : Type 1 where
  pub codec : Codec T
  -- `NetSerializeValueDelta(to, from, writer)`
  pub serialize_delta : T → T → BitWriter → Result (Bool × BitWriter)
  -- `NetDeserializeValueDelta(val, reader)`
  pub deserialize_delta : T → BitReader → Result (T × BitReader)
  pub delta : T → T → Option (List ℕ)
  -- How many bits the serializer writes at most, those that it takes back included.
  pub peak : T → T → ℕ
  pub delta-le : (to from : T) → length (sent_bits (delta to from)) ≤ peak to from
  pub serialize_delta-Sends :
      (to from : T) (w : BitWriter)
      → WriterValid w
      → length (bits_of w) + peak to from < 2 ^ 63
      → Sends (serialize_delta to from w) w (delta to from)
  pub delta-none : (to from : T) → delta to from ≡ none → to ≡ from
  pub deserialize_delta-Takes :
      (to from : T) (bits : List ℕ) (r : BitReader) (rest : List ℕ)
      → delta to from ≡ some bits
      → codec.Fits to
      → ReaderValid r
      → left r ≡ bits ++ rest
      → Takes (deserialize_delta from r) to rest
