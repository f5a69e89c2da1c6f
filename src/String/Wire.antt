-- ===== src/String/Wire.antt =====
-- Strings of up to 32767 bytes arrive as they are sent.
use storm_net.Prelude.{
  ℕ, ◌%◌, ◌^◌, ◌≤◌, ◌<◌, ◌≡◌, inl, inr, refl, ap, ◌∙◌, List, [], ◌∷◌, ◌++◌, length, append_assoc,
  arith, ltb, if◌then◌else◌, ◌==◌, Bool-cases,
}
use storm_net.Bits.{to_bits, IsBytes}
use storm_net.Result.{ok}
use storm_net.BitWriter.{BitWriter, write_bits}
use storm_net.BitReader.{BitReader, read_sbits}
use storm_net.BitReader.Signed.{IsSigned, read_sbits-Takes}
use storm_net.BitWriter.Content.{IsValid as WriterValid}
use storm_net.BitReader.Content.{left, IsValid as ReaderValid}
use storm_net.Codec.{Codec, Appends, Takes}
use storm_net.Codec.Steps.{Appends-nil, Appends-then, write_bits-Appends, read_field, Takes-bind}
use storm_net.String.{char_word, write_chars, serialize_string, read_chars, deserialize_string}

char_word-IsSigned : (byte : ℕ) → byte < 256 → IsSigned 8 (char_word byte)
unfolding char_word
char_word-IsSigned byte h = elim (Bool-cases (ltb byte 128)) [
  | inl low ↦ inl (ground arith)
  | inr high ↦ inr (ground arith)
]

abbrev pub char_bits : List ℕ → List ℕ
char_bits [] = []
char_bits (b ∷ bytes) = to_bits 8 (char_word b) ++ char_bits bytes

write_chars-Appends :
    (bytes : List ℕ) (w : BitWriter)
    → WriterValid w
    → Appends w (write_chars bytes w) (char_bits bytes)
unfolding write_chars
write_chars-Appends [] w v = Appends-nil w v
write_chars-Appends (b ∷ bytes) w v =
    let w' = write_bits (char_word b) 8 w in
    Appends-then w w' (write_chars bytes w') (to_bits 8 (char_word b)) (char_bits bytes)
      (write_bits-Appends (char_word b) 8 w v) (write_chars-Appends bytes w')

read_chars-Takes :
    (bytes : List ℕ) (r : BitReader) (rest : List ℕ)
    → IsBytes bytes
    → ReaderValid r
    → left r ≡ char_bits bytes ++ rest
    → Takes (read_chars (length bytes) r) bytes rest
unfolding read_chars
read_chars-Takes [] r rest h v p = (r, refl, p, v)
read_chars-Takes (b ∷ bytes) r rest h v p =
    let char =
      read_sbits-Takes 8 (char_word b) r (char_bits bytes ++ rest) (omega arith) (omega arith)
        (char_word-IsSigned b h.0) v
        (p ∙ append_assoc (to_bits 8 (char_word b)) (char_bits bytes) rest) in
    let same : char_word b % 256 ≡ b = unfold char_word in ground arith in
    Takes-bind (read_sbits 8 r) _ char (λ r' v' p'.
      Takes-bind (read_chars (length bytes) r') _ (read_chars-Takes bytes r' rest h.1 v' p')
        (λ r'' v'' p''. (r'', ap (λ (t : ℕ). ok (t ∷ bytes, r'')) same, p'', v'')))

abbrev pub encoding_string : List ℕ → List ℕ
encoding_string bytes =
    if ltb 127 (length bytes)
    then to_bits 1 1 ++ (to_bits 15 (length bytes) ++ char_bits bytes)
    else to_bits 1 0 ++ (to_bits 7 (length bytes) ++ char_bits bytes)

-- A flag, a length and the characters.
sized-Appends :
    (flag bits : ℕ) (bytes : List ℕ) (w : BitWriter)
    → WriterValid w
    → Appends w
        (write_chars bytes (write_bits (length bytes) bits (write_bits flag 1 w)))
        (to_bits 1 flag ++ (to_bits bits (length bytes) ++ char_bits bytes))
sized-Appends flag bits bytes w v =
    let flagged = write_bits flag 1 w in
    let sized = write_bits (length bytes) bits flagged in
    Appends-then w flagged (write_chars bytes sized) (to_bits 1 flag)
      (to_bits bits (length bytes) ++ char_bits bytes) (write_bits-Appends flag 1 w v)
      (λ v'.
        Appends-then flagged sized (write_chars bytes sized) (to_bits bits (length bytes))
          (char_bits bytes) (write_bits-Appends (length bytes) bits flagged v')
          (write_chars-Appends bytes sized))

sized-Takes :
    (flag bits : ℕ) (old bytes : List ℕ) (r : BitReader) (rest : List ℕ)
    → flag < 2
    → (if flag == 0 then 7 else 15) ≡ bits
    → bits ≤ 64
    → length bytes < 2 ^ bits
    → IsBytes bytes
    → ReaderValid r
    → left r ≡ (to_bits 1 flag ++ (to_bits bits (length bytes) ++ char_bits bytes)) ++ rest
    → Takes (deserialize_string old r) bytes rest
unfolding deserialize_string
sized-Takes flag bits old bytes r rest one e fits size h v p =
    read_field 1 flag r (to_bits bits (length bytes) ++ char_bits bytes) rest _ (omega arith)
      (omega arith) v p
      (λ r' v' p'. rw e (
        read_field bits (length bytes) r' (char_bits bytes) rest _ fits size v' p'
          (λ r'' v'' p''. read_chars-Takes bytes r'' rest h v'' p'')))

pub serialize_string-Appends :
    (bytes : List ℕ) (w : BitWriter)
    → WriterValid w
    → Appends w (serialize_string bytes w) (encoding_string bytes)
unfolding serialize_string
serialize_string-Appends bytes w v = elim (Bool-cases (ltb 127 (length bytes))) [
  | inl long ↦ rw long (sized-Appends 1 15 bytes w v)
  | inr short ↦ rw short (sized-Appends 0 7 bytes w v)
]

-- When the bits left are the encoding of a string of fewer than 2 ^ 15 bytes, and then others,
-- deserializing over any earlier string returns it, in the short and in the long form, and leaves the
-- others.
pub deserialize_string-Takes :
    (old bytes : List ℕ) (r : BitReader) (rest : List ℕ)
    → (length bytes < 2 ^ 15) × IsBytes bytes
    → ReaderValid r
    → left r ≡ encoding_string bytes ++ rest
    → Takes (deserialize_string old r) bytes rest
deserialize_string-Takes old bytes r rest fits v p = elim (Bool-cases (ltb 127 (length bytes))) [
  | inl long ↦
      sized-Takes 1 15 old bytes r rest (omega arith) refl (omega arith) fits.0 fits.1 v
        (p ∙ rw long)
  | inr short ↦
      sized-Takes 0 7 old bytes r rest (omega arith) refl (omega arith) (ground arith) fits.1 v
        (p ∙ rw short)
]

abbrev pub string_codec : Codec (List ℕ)
string_codec = record {
  default = [];
  serialize = serialize_string;
  deserialize = deserialize_string;
  Fits = λ bytes. (length bytes < 2 ^ 15) × IsBytes bytes;
  encoding = encoding_string;
  serialize-Appends = serialize_string-Appends;
  deserialize-Takes = deserialize_string-Takes;
}
