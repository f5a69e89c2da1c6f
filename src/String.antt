-- ===== src/String.antt =====
-- NetReflectionString.h: a `std::string` behind its length, in 7 or 15 bits. A `char` is signed: what
-- is written is its value as a 64-bit word, of which 8 bits go out.
pub mod Wire
use storm_net.Prelude.{ℕ, zero, suc, ◌+◌, ◌-◌, ◌^◌, List, [], ◌∷◌, length, ltb, if◌then◌else◌, ◌==◌}
use storm_net.Bits.{u8}
use storm_net.Result.{Result, ok, ◌>>=◌}
use storm_net.BitWriter.{BitWriter, write_bits}
use storm_net.BitReader.{BitReader, read_ubits, read_sbits}

-- The byte of a `char`, as the word of its value.
unfoldable pub char_word : ℕ → ℕ
char_word byte = if ltb byte 128 then byte else 2 ^ 64 - 256 + byte

pub write_chars : List ℕ → BitWriter → BitWriter
unfolding char_word
write_chars [] w = w
write_chars (byte ∷ bytes) w = write_chars bytes (write_bits (char_word byte) 8 w)

pub serialize_string : List ℕ → BitWriter → BitWriter
unfolding write_chars
serialize_string val w =
    if ltb 127 (length val)
    then write_chars val (write_bits (length val) 15 (write_bits 1 1 w))
    else write_chars val (write_bits (length val) 7 (write_bits 0 1 w))

pub read_chars : ℕ → BitReader → Result (List ℕ × BitReader)
read_chars zero r = ok ([], r)
read_chars (suc n) r =
    read_sbits 8 r >>= λ char. read_chars n (char.1) >>= λ more. ok (u8 (char.0) ∷ more.0, more.1)

pub deserialize_string : List ℕ → BitReader → Result (List ℕ × BitReader)
unfolding read_chars
deserialize_string val r = read_ubits 1 r >>= λ long_string.
    read_ubits (if long_string.0 == 0 then 7 else 15) (long_string.1) >>= λ size.
    read_chars (size.0) (size.1)
