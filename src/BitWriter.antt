-- ===== src/BitWriter.antt =====
-- NetBitWriterVector.h, NetBitWriterVector.cpp and NetBitWriter.cpp, as built without `_DEBUG`:
-- bits are appended to a vector of bytes, the lowest bit of each byte first. Counts of bits are
-- `int` in the sources and stay below 2 ^ 31; a count that the sources let go below zero is zero
-- here, and both end the recursion.
pub mod Content
pub mod Append
pub mod Bytes
pub mod Cursor
use storm_net.Prelude.{
  ℕ, zero, suc, ◌+◌, ◌-◌, ◌^◌, List, [], ◌∷◌, ◌++◌, length, take, drop, min, bit_or, if◌then◌else◌,
  ◌==◌, leb, ◌&&◌,
}
use storm_net.Bits.{u8, u64, ◌<<<◌, ◌>>>◌, low_bits}

pub record BitWriter : Type 0 where
  pub buffer : List ℕ
  -- How many bits of the last byte are in use; 8 when there is no byte.
  pub bit : ℕ
  pub total_bits : ℕ

abbrev pub empty : BitWriter
empty = record { buffer = []; bit = 8; total_bits = 0 }

pub push_back : List ℕ → ℕ → List ℕ
push_back buffer v = buffer ++ v ∷ []

-- `m_Buffer.back() = f(m_Buffer.back())`. The sources never reach it with an empty vector.
pub modify_back : (ℕ → ℕ) → List ℕ → List ℕ
modify_back f [] = []
modify_back f (b ∷ []) = f b ∷ []
modify_back f (b ∷ c ∷ rest) = b ∷ modify_back f (c ∷ rest)

-- `(back & used_bit_mask) | (uint8_t)(masked_bits << m_Bit)`
abbrev pub fill_byte : ℕ → ℕ → ℕ → ℕ
fill_byte bit val back = bit_or (low_bits back bit) (u8 (low_bits val (8 - bit) <<< bit))

-- The first argument bounds the depth of the recursion; every round takes at least one bit.
pub write_bits_internal : ℕ → ℕ → ℕ → BitWriter → BitWriter
unfolding push_back modify_back
write_bits_internal zero val num_bits w = w
write_bits_internal (suc depth) val num_bits w =
    let free_bits = 8 - w.bit in
    let fresh =
      write_bits_internal depth (val >>> 8) (num_bits - 8)
        (record w { buffer = push_back w.buffer (u8 val); bit = min 8 num_bits }) in
    let filled =
      write_bits_internal depth (val >>> free_bits) (num_bits - min num_bits free_bits) (record w {
        buffer = modify_back (fill_byte w.bit val) w.buffer;
        bit = min 8 (w.bit + num_bits);
      }) in
    if num_bits == 0 then w else if free_bits == 0 then fresh else filled

pub write_bits : ℕ → ℕ → BitWriter → BitWriter
write_bits val num_bits w =
    write_bits_internal num_bits val num_bits (record w { total_bits = w.total_bits + num_bits })

-- An int64_t is the 64-bit word of its two's complement; without `_DEBUG` it is not masked.
pub write_sbits : ℕ → ℕ → BitWriter → BitWriter
unfolding write_bits
write_sbits val num_bits w = write_bits val num_bits w

unfoldable pub reset : BitWriter → BitWriter
reset w = record { buffer = []; bit = 8; total_bits = 0 }

-- Eight bytes, read as a little-endian word.
unfoldable pub word_at : List ℕ → ℕ
word_at [] = 0
word_at (b ∷ bytes) = b + word_at bytes <<< 8

-- The byte loop of `NetBitWriter::WriteBuffer`.
pub write_bytes : List ℕ → BitWriter → BitWriter
write_bytes [] w = w
write_bytes (b ∷ bytes) w = write_bytes bytes (write_bits b 8 w)

-- `NetBitWriter::WriteBuffer`: whole words first, then the bytes left over. The first argument
-- bounds the number of words.
pub write_buffer_words : ℕ → List ℕ → BitWriter → BitWriter
unfolding write_bytes word_at
write_buffer_words zero bytes w = write_bytes bytes w
write_buffer_words (suc depth) bytes w =
    let rest = write_buffer_words depth (drop 8 bytes) (write_bits (word_at (take 8 bytes)) 64 w) in
    if leb 8 (length bytes) then rest else write_bytes bytes w

-- `NetBitWriterVector::WriteBuffer`: a long buffer is copied when the writer is at a byte's end;
-- that branch leaves `m_TotalBits` as it was.
pub write_buffer : List ℕ → BitWriter → BitWriter
unfolding write_buffer_words
write_buffer bytes w =
    if w.bit == 8 && leb 64 (length bytes)
    then record w { buffer = w.buffer ++ bytes }
    else write_buffer_words (length bytes) bytes w
