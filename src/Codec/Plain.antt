-- ===== src/Codec/Plain.antt =====
-- NetSerialize.h and NetDeserialize.h: plain old data as the bytes of its representation,
-- and a word that is read in this way.
use storm_net.Prelude.{
  ℕ, zero, suc, ◌+◌, ◌*◌, ◌/◌, ◌^◌, ◌<◌, ◌≡◌, refl, ap, sym, ◌∙◌, List, ◌++◌, length, replicate,
  arith,
}
use storm_net.Bits.{IsBytes, bytes_bits, to_bits, ◌>>>◌, pow_add}
use storm_net.Result.{Result}
use storm_net.BitWriter.{BitWriter, write_bytes, word_at}
use storm_net.BitReader.{BitReader, read_bytes, bytes_of}
use storm_net.BitWriter.Content.{IsValid as WriterValid}
use storm_net.BitReader.Content.{left, IsValid as ReaderValid}
use storm_net.BitWriter.Bytes.{write_bytes-Appends, word_at-bits}
use storm_net.BitReader.Bytes.{read_bytes-Takes}
use storm_net.Codec.{Codec, Appends, Takes}

-- The loops over the bytes of a value, of `size` bytes.
unfoldable pub serialize_pod : List ℕ → BitWriter → BitWriter
serialize_pod val w = write_bytes val w

unfoldable pub deserialize_pod : ℕ → List ℕ → BitReader → Result (List ℕ × BitReader)
deserialize_pod size val r = read_bytes size r

pub serialize_pod-Appends :
    (val : List ℕ) (w : BitWriter)
    → WriterValid w
    → Appends w (serialize_pod val w) (bytes_bits val)
unfolding serialize_pod
serialize_pod-Appends val w v = write_bytes-Appends val w v

pub deserialize_pod-Takes :
    (size : ℕ) (old val : List ℕ) (r : BitReader) (rest : List ℕ)
    → (length val ≡ size) × IsBytes val
    → ReaderValid r
    → left r ≡ bytes_bits val ++ rest
    → Takes (deserialize_pod size old r) val rest
unfolding deserialize_pod
deserialize_pod-Takes size old val r rest fits v p =
    rw (sym fits.0) (read_bytes-Takes val r rest fits.1 v p)

abbrev pub pod_codec : ℕ → Codec (List ℕ)
pod_codec size = record {
  default = replicate size 0;
  serialize = serialize_pod;
  deserialize = deserialize_pod size;
  Fits = λ val. (length val ≡ size) × IsBytes val;
  encoding = bytes_bits;
  serialize-Appends = serialize_pod-Appends;
  deserialize-Takes = deserialize_pod-Takes size;
}

bytes_of-IsBytes : (n v : ℕ) → IsBytes (bytes_of n v)
unfolding bytes_of
bytes_of-IsBytes zero v = tt
bytes_of-IsBytes (suc n) v = (omega arith, bytes_of-IsBytes n (v >>> 8))

length-bytes_of : (n v : ℕ) → length (bytes_of n v) ≡ n
unfolding bytes_of
length-bytes_of zero v = refl
length-bytes_of (suc n) v = ap suc (length-bytes_of n (v >>> 8))

word_at-bytes_of : (n v : ℕ) → v < 2 ^ (n * 8) → word_at (bytes_of n v) ≡ v
unfolding bytes_of word_at
word_at-bytes_of zero v h = omega arith
word_at-bytes_of (suc n) v h =
    let width : suc n * 8 ≡ n * 8 + 8 = omega arith in
    let wide : 2 ^ (suc n * 8) ≡ 2 ^ (n * 8) * 256 =
      ap (λ (t : ℕ). 2 ^ t) width ∙ pow_add (n * 8) 8 in
    rw (word_at-bytes_of n (v / 256) (omega arith)) (omega arith)

-- A number below 2 ^ (8 * size), written as one field of so many bits, is read as plain data of
-- `size` bytes.
pub deserialize_pod-word :
    (size v : ℕ) (old : List ℕ) (r : BitReader) (rest : List ℕ)
    → v < 2 ^ (size * 8)
    → ReaderValid r
    → left r ≡ to_bits (size * 8) v ++ rest
    → (Takes (deserialize_pod size old r) (bytes_of size v) rest) × (word_at (bytes_of size v) ≡ v)
deserialize_pod-word size v old r rest small valid p =
    let same = word_at-bytes_of size v small in
    let field : to_bits (size * 8) v ≡ bytes_bits (bytes_of size v) =
      ap (to_bits (size * 8)) (sym same)
      ∙ ap (λ (t : ℕ). to_bits (t * 8) (word_at (bytes_of size v))) (sym (length-bytes_of size v))
      ∙ word_at-bits (bytes_of size v) (bytes_of-IsBytes size v) in
    (
      deserialize_pod-Takes size old (bytes_of size v) r rest
          (length-bytes_of size v, bytes_of-IsBytes size v) valid
          (p ∙ ap (λ (t : List ℕ). t ++ rest) field),
      same,
    )
