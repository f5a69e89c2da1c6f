-- ===== src/BitReader.antt =====
-- NetBitReaderBuffer.h, NetBitReaderBuffer.cpp, NetBitReader.cpp and NetBitReaderVector.cpp: bits are
-- read from a buffer of bytes, the lowest bit of each byte first. The reader holds the memory that
-- its pointer walks through, so a read past the end of the buffer finds whatever byte lies there.
pub mod Content
pub mod Word
pub mod Take
pub mod Bytes
pub mod Short
pub mod Signed
use storm_net.Prelude.{
  ℕ, zero, suc, ◌+◌, ◌-◌, ◌%◌, ◌^◌, List, [], ◌∷◌, ◌++◌, ◌*◌, Bool, bit_or, if◌then◌else◌, ◌==◌,
  leb, ◌&&◌, ◌||◌,
}
use storm_net.Bits.{u8, u64, ◌<<<◌, ◌>>>◌, low_bits}
use storm_net.Result.{Result, ok, err, reader_out_of_data, undefined_behaviour, ◌>>=◌}
use storm_net.BitWriter.{BitWriter}
use storm_net.BitWriter

pub record BitReader : Type 0 where
  -- The byte at an address.
  pub memory : ℕ → ℕ
  -- The address of `m_Buffer`.
  pub buffer : ℕ
  pub offset : ℕ
  pub num_bytes : ℕ
  -- How many bits of the first byte are read.
  pub bit : ℕ
  pub total_bits : ℕ

abbrev pub new : (ℕ → ℕ) → ℕ → ℕ → BitReader
new memory buffer num_bytes = record {
  memory = memory;
  buffer = buffer;
  offset = 0;
  num_bytes = num_bytes;
  bit = 0;
  total_bits = 0;
}

-- A vector of bytes in memory, at address 0, with the bytes of `behind` after it.
abbrev pub vector_memory : List ℕ → (ℕ → ℕ) → ℕ → ℕ
vector_memory [] behind a = behind a
vector_memory (b ∷ bytes) behind zero = b
vector_memory (b ∷ bytes) behind (suc a) = vector_memory bytes (λ i. behind (suc i)) a

-- The little-endian word of `n` bytes in memory; `*(uint64_t *)ptr` for eight.
unfoldable pub load : (ℕ → ℕ) → ℕ → ℕ → ℕ
load memory a zero = 0
load memory a (suc n) = memory a + load memory (a + 1) n <<< 8

-- The branch for 64 bits at once. The byte behind the word is read also when none of its bits are
-- wanted; the shift by 64 then moves a zero.
pub read_word : BitReader → ℕ × BitReader
read_word r =
    let val = load r.memory r.buffer 8 >>> r.bit in
    let above = u64 (low_bits (r.memory (r.buffer + 8)) r.bit <<< (64 - r.bit)) in
    (
      bit_or val above,
      record r { num_bytes = r.num_bytes - 8; buffer = r.buffer + 8; offset = r.offset + 8 },
    )

abbrev pub next_byte : BitReader → BitReader
next_byte r = record r {
  bit = 0;
  num_bytes = r.num_bytes - 1;
  buffer = r.buffer + 1;
  offset = r.offset + 1;
}

-- The first argument bounds the depth of the recursion; every round takes at least one bit.
pub read_bits_internal : ℕ → ℕ → BitReader → Result (ℕ × BitReader)
unfolding read_word
read_bits_internal zero num_bits r = ok (0, r)
read_bits_internal (suc depth) num_bits r =
    let val = r.memory r.buffer >>> r.bit in
    let read_bits = 8 - r.bit in
    let crossing = read_bits_internal depth (num_bits - read_bits) (next_byte r) >>= λ rest.
    ok (bit_or (low_bits val num_bits) (u64 (rest.0 <<< read_bits)), rest.1) in
    if num_bits == 0
    then ok (0, r)
    else if num_bits == 64 && leb 8 r.num_bytes
    then ok (read_word r)
    else if r.num_bytes == 0
    then err reader_out_of_data
    else if leb 8 (r.bit + num_bits)
    then crossing
    else ok (low_bits val num_bits, record r { bit = r.bit + num_bits })

pub read_ubits : ℕ → BitReader → Result (ℕ × BitReader)
read_ubits num_bits r =
    read_bits_internal num_bits num_bits (record r { total_bits = r.total_bits + num_bits })

-- `SignExtend`: the int64_t is the word of its two's complement. With `high_bit & val` set, the bits
-- from `bits` on are set too. A shift of a word by a negative number or by 64 bits or more has no
-- meaning in C++, and `1ULL << bits` is such a shift when all 64 bits are extended.
pub sign_extend : ℕ → ℕ → Result ℕ
sign_extend val bits =
    if bits == 0 || leb 65 bits
    then err undefined_behaviour
    else if val >>> (bits - 1) % 2 == 1
    then if leb 64 bits then err undefined_behaviour else ok (bit_or val (2 ^ 64 - 2 ^ bits))
    else ok val

pub read_sbits : ℕ → BitReader → Result (ℕ × BitReader)
unfolding sign_extend
read_sbits num_bits r = do
  read ← read_ubits num_bits r
  val ← sign_extend (read.0) num_bits
  ok (val, read.1)

pub is_empty : BitReader → Bool
is_empty r = leb r.num_bytes 1

-- The bytes of a word, lowest first, as `*ptr = ReadUBits(64)` stores them.
unfoldable pub bytes_of : ℕ → ℕ → List ℕ
bytes_of zero val = []
bytes_of (suc n) val = u8 val ∷ bytes_of n (val >>> 8)

-- `n` bytes in memory, as `memcpy` takes them.
pub memory_bytes : (ℕ → ℕ) → ℕ → ℕ → List ℕ
memory_bytes memory a zero = []
memory_bytes memory a (suc n) = memory a ∷ memory_bytes memory (a + 1) n

-- The byte loop of `NetBitReader::ReadBuffer`.
pub read_bytes : ℕ → BitReader → Result (List ℕ × BitReader)
read_bytes zero r = ok ([], r)
read_bytes (suc n) r =
    read_ubits 8 r >>= λ byte. read_bytes n (byte.1) >>= λ more. ok (u8 (byte.0) ∷ more.0, more.1)

-- `NetBitReader::ReadBuffer`: whole words first, then the bytes left over. The first argument bounds
-- the number of words.
pub read_buffer_words : ℕ → ℕ → BitReader → Result (List ℕ × BitReader)
unfolding read_bytes bytes_of
read_buffer_words zero num_bytes r = read_bytes num_bytes r
read_buffer_words (suc depth) num_bytes r =
    let words = read_ubits 64 r >>= λ word.
    read_buffer_words depth (num_bytes - 8) (word.1) >>= λ more.
    ok (bytes_of 8 (word.0) ++ more.0, more.1) in
    if leb 8 num_bytes then words else read_bytes num_bytes r

-- `NetBitReaderBuffer::ReadBuffer`
pub read_buffer : ℕ → BitReader → Result (List ℕ × BitReader)
unfolding read_buffer_words memory_bytes
read_buffer num_bytes r =
    if r.bit == 0 && leb num_bytes r.num_bytes
    then ok (
      memory_bytes r.memory r.buffer num_bytes,
      record r {
        buffer = r.buffer + num_bytes;
        offset = r.offset + num_bytes;
        num_bytes = r.num_bytes - num_bytes;
        total_bits = r.total_bits + num_bytes * 8;
      },
    )
    else read_buffer_words num_bytes num_bytes r
