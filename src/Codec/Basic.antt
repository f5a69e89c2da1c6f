-- ===== src/Codec/Basic.antt =====
-- NetSerialize.h, NetDeserialize.h, NetReflectionTuple.h, NetReflectionEnum.h: `bool`, enumerations and
-- pairs.
use storm_net.Prelude.{
  ℕ, ◌^◌, ◌≤◌, ◌<◌, ◌≡◌, refl, ◌∙◌, List, ◌++◌, append_assoc, arith, Bool, false, not,
  if◌then◌else◌, ◌==◌,
}
use storm_net.Bits.{to_bits}
use storm_net.Result.{Result, ok, ◌>>=◌}
use storm_net.BitUtil.{get_required_bits_u64}
use storm_net.BitUtil.Bounds.{lt-get_required_bits, get_required_bits-le}
use storm_net.BitWriter.{BitWriter, write_bits}
use storm_net.BitReader.{BitReader, read_ubits}
use storm_net.BitWriter.Content.{IsValid as WriterValid}
use storm_net.BitReader.Content.{left, IsValid as ReaderValid}
use storm_net.Codec.{Codec, Appends, Takes}
use storm_net.Codec.Steps.{write_bits-Appends, Appends-then, read_ubits-Takes, Takes-bind}

-- `bool`
unfoldable pub serialize_bool : Bool → BitWriter → BitWriter
serialize_bool val w = write_bits (if val then 1 else 0) 1 w

unfoldable pub deserialize_bool : Bool → BitReader → Result (Bool × BitReader)
deserialize_bool val r = read_ubits 1 r >>= λ read. ok (not (read.0 == 0), read.1)

pub deserialize_bool-Takes :
    (old val : Bool) (r : BitReader) (rest : List ℕ)
    → Unit {0}
    → ReaderValid r
    → left r ≡ to_bits 1 (if val then 1 else 0) ++ rest
    → Takes (deserialize_bool old r) val rest
unfolding deserialize_bool
deserialize_bool-Takes old val r rest _ v p =
    Takes-bind (read_ubits 1 r) _
      (read_ubits-Takes 1 (if val then 1 else 0) r rest (omega arith) (ground arith) v p)
      (λ r' v' p'. (r', ground arith, p', v'))

pub serialize_bool-Appends :
    (val : Bool) (w : BitWriter)
    → WriterValid w
    → Appends w (serialize_bool val w) (to_bits 1 (if val then 1 else 0))
unfolding serialize_bool
serialize_bool-Appends val w v = write_bits-Appends (if val then 1 else 0) 1 w v

abbrev pub bool_codec : Codec Bool
bool_codec = record {
  default = false;
  serialize = serialize_bool;
  deserialize = deserialize_bool;
  Fits = λ val. Unit;
  encoding = λ val. to_bits 1 (if val then 1 else 0);
  serialize-Appends = serialize_bool-Appends;
  deserialize-Takes = deserialize_bool-Takes;
}

-- An enumeration by its value; `count` is what `StormReflGetEnumElemCount` returns.
unfoldable pub serialize_enum : ℕ → ℕ → BitWriter → BitWriter
serialize_enum count val w = write_bits val (get_required_bits_u64 count) w

unfoldable pub deserialize_enum : ℕ → ℕ → BitReader → Result (ℕ × BitReader)
deserialize_enum count val r = read_ubits (get_required_bits_u64 count) r

pub deserialize_enum-Takes :
    (count : ℕ)
    → count < 2 ^ 64
    → (old val : ℕ) (r : BitReader) (rest : List ℕ) → val ≤ count
    → ReaderValid r
    → left r ≡ to_bits (get_required_bits_u64 count) val ++ rest
    → Takes (deserialize_enum count old r) val rest
unfolding deserialize_enum
deserialize_enum-Takes count size old val r rest fits v p =
    read_ubits-Takes (get_required_bits_u64 count) val r rest (get_required_bits-le count size)
      (lt-get_required_bits count val size fits) v p

pub serialize_enum-Appends :
    (count val : ℕ) (w : BitWriter)
    → WriterValid w
    → Appends w (serialize_enum count val w) (to_bits (get_required_bits_u64 count) val)
unfolding serialize_enum
serialize_enum-Appends count val w v = write_bits-Appends val (get_required_bits_u64 count) w v

abbrev pub enum_codec : (count : ℕ) → count < 2 ^ 64 → Codec ℕ
enum_codec count size = record {
  default = 0;
  serialize = serialize_enum count;
  deserialize = deserialize_enum count;
  Fits = λ val. val ≤ count;
  encoding = λ val. to_bits (get_required_bits_u64 count) val;
  serialize-Appends = serialize_enum-Appends count;
  deserialize-Takes = deserialize_enum-Takes count size;
}

-- `std::pair`
module _ {A B : Type 0} (a : Codec A) (b : Codec B) where
  unfoldable pub serialize_pair : A × B → BitWriter → BitWriter
  serialize_pair val w = b.serialize (val.1) (a.serialize (val.0) w)

  unfoldable pub deserialize_pair : A × B → BitReader → Result ((A × B) × BitReader)
  deserialize_pair val r = a.deserialize (val.0) r >>= λ first.
      b.deserialize (val.1) (first.1) >>= λ second. ok ((first.0, second.0), second.1)

  pub serialize_pair-Appends :
      (val : A × B) (w : BitWriter)
      → WriterValid w
      → Appends w (serialize_pair val w) (a.encoding (val.0) ++ b.encoding (val.1))
  unfolding serialize_pair
  serialize_pair-Appends val w v =
      Appends-then w (a.serialize (val.0) w) (serialize_pair val w) (a.encoding (val.0))
        (b.encoding (val.1)) (a.serialize-Appends (val.0) w v)
        (b.serialize-Appends (val.1) (a.serialize (val.0) w))

  pub deserialize_pair-Takes :
      (old val : A × B) (r : BitReader) (rest : List ℕ)
      → a.Fits (val.0) × b.Fits (val.1)
      → ReaderValid r
      → left r ≡ (a.encoding (val.0) ++ b.encoding (val.1)) ++ rest
      → Takes (deserialize_pair old r) val rest
  unfolding deserialize_pair
  deserialize_pair-Takes old val r rest fits v p =
      Takes-bind (a.deserialize (old.0) r) _
        (a.deserialize-Takes (old.0) (val.0) r (b.encoding (val.1) ++ rest) fits.0 v
          (p ∙ append_assoc (a.encoding (val.0)) (b.encoding (val.1)) rest))
        (λ r' v' p'.
          Takes-bind (b.deserialize (old.1) r') _
            (b.deserialize-Takes (old.1) (val.1) r' rest fits.1 v' p')
            (λ r'' v'' p''. (r'', refl, p'', v'')))

  abbrev pub pair_codec : Codec (A × B)
  pair_codec = record {
    default = (a.default, b.default);
    serialize = serialize_pair;
    deserialize = deserialize_pair;
    Fits = λ val. a.Fits (val.0) × b.Fits (val.1);
    encoding = λ val. a.encoding (val.0) ++ b.encoding (val.1);
    serialize-Appends = serialize_pair-Appends;
    deserialize-Takes = deserialize_pair-Takes;
  }
