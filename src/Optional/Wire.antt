-- ===== src/Optional/Wire.antt =====
-- An optional value arrives as it is sent, over any earlier value; moving and reading it.
use storm_net.Prelude.{ℕ, ◌≡◌, refl, List, ◌++◌, arith, Option, none, some}
use storm_net.Bits.{to_bits}
use storm_net.BitWriter.{BitWriter, write_bits}
use storm_net.BitReader.{BitReader, read_ubits}
use storm_net.BitWriter.Content.{IsValid as WriterValid}
use storm_net.BitReader.Content.{left, IsValid as ReaderValid}
use storm_net.Codec.{Codec, Appends, Takes}
use storm_net.Codec.Steps.{
  write_bits-Appends, Appends-then, read_ubits-Takes, read_field, Takes-bind,
}
use storm_net.Optional.{
  move, copy, assign_move, is_valid, value, get_ptr, serialize_optional, deserialize_optional,
}

-- Moving hands the value over and leaves nothing behind; whether there is a value, the pointer to
-- it and reading it agree before and after.
pub move_lem :
    {T : Type 0} (old rhs : Option T)
    → ((move rhs).1 ≡ none)
      × (value (move rhs).0 ≡ value rhs)
      × (assign_move old rhs ≡ move rhs)
      × (is_valid (move rhs).0 ≡ is_valid rhs)
      × (get_ptr (copy rhs) ≡ (move rhs).0)
unfolding move copy assign_move value is_valid get_ptr
move_lem old none = (refl, refl, refl, refl, refl)
move_lem old (some t) = (refl, refl, refl, refl, refl)

module _ {T : Type 0} (c : Codec T) where
  abbrev pub encoding_optional : Option T → List ℕ
  encoding_optional none = to_bits 1 0
  encoding_optional (some t) = to_bits 1 1 ++ c.encoding t

  abbrev pub FitsOptional : Option T → Type 0
  FitsOptional none = Unit
  FitsOptional (some t) = c.Fits t

  pub serialize_optional-Appends :
      (o : Option T) (w : BitWriter)
      → WriterValid w
      → Appends w (serialize_optional c o w) (encoding_optional o)
  unfolding serialize_optional
  serialize_optional-Appends none w v = write_bits-Appends 0 1 w v
  serialize_optional-Appends (some t) w v =
      Appends-then w (write_bits 1 1 w) (c.serialize t (write_bits 1 1 w)) (to_bits 1 1)
        (c.encoding t) (write_bits-Appends 1 1 w v) (c.serialize-Appends t (write_bits 1 1 w))

  -- When the bits left are the encoding of an optional value that fits, its flag first, and then
  -- others, deserializing over any earlier value returns it and leaves the others.
  pub deserialize_optional-Takes :
      (old o : Option T) (r : BitReader) (rest : List ℕ)
      → FitsOptional o
      → ReaderValid r
      → left r ≡ encoding_optional o ++ rest
      → Takes (deserialize_optional c old r) o rest
  unfolding deserialize_optional
  deserialize_optional-Takes old none r rest fits v p =
      Takes-bind (read_ubits 1 r) _ (read_ubits-Takes 1 0 r rest (omega arith) (omega arith) v p)
        (λ r' v' p'. (r', refl, p', v'))
  deserialize_optional-Takes old (some t) r rest fits v p =
      read_field 1 1 r (c.encoding t) rest _ (omega arith) (omega arith) v p (λ r' v' p'.
        Takes-bind (c.deserialize _ r') _ (c.deserialize-Takes _ t r' rest fits v' p')
          (λ r'' v'' p''. (r'', refl, p'', v'')))

  abbrev pub optional_codec : Codec (Option T)
  optional_codec = record {
    default = none;
    serialize = serialize_optional c;
    deserialize = deserialize_optional c;
    Fits = FitsOptional;
    encoding = encoding_optional;
    serialize-Appends = serialize_optional-Appends;
    deserialize-Takes = deserialize_optional-Takes;
  }
