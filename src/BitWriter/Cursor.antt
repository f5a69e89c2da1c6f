-- ===== src/BitWriter/Cursor.antt =====
-- NetBitWriter.h and NetBitWriterVector.cpp: a cursor marks a place in a writer, to which the writer
-- can be rolled back, and at which reserved bits can be written later.
pub mod RollBack
pub mod Replace
pub mod Place
pub mod Rounds
pub mod Write
pub mod Reserved
use storm_net.Prelude.{
  ℕ, ◌+◌, ◌-◌, ◌^◌, zero, suc, List, [], ◌∷◌, ◌++◌, Bool, true, false, bit_or, min, ◌==◌, ltb, leb,
  if◌then◌else◌, length, take, replicate,
}
use storm_net.Bits.{u64, ◌<<<◌, ◌>>>◌, low_bits}
use storm_net.Result.{Result, ok, err, rollback_after_write, cursor_overflow, undefined_behaviour}
use storm_net.BitWriter.{BitWriter, write_bits}

pub record Cursor : Type 0 where
  pub byte : ℕ
  pub bit : ℕ
  pub size : ℕ
  pub wrote : Bool
  pub total_bits : ℕ

-- `Reserve`: in an empty writer the index of the last byte wraps around.
unfoldable pub reserve : ℕ → BitWriter → Cursor × BitWriter
reserve num_bits w = (
  record {
    byte = u64 (length w.buffer + 2 ^ 64 - 1);
    bit = w.bit;
    size = num_bits;
    wrote = false;
    total_bits = w.total_bits;
  },
  write_bits 0 num_bits w,
)

pub roll_back : Cursor → BitWriter → Result BitWriter
roll_back cursor w =
    let size = u64 (cursor.byte + 1) in
    if cursor.wrote
    then err rollback_after_write
    else ok (record {
      buffer = take size w.buffer ++ replicate (size - length w.buffer) 0;
      bit = cursor.bit;
      total_bits = cursor.total_bits;
    })

-- `(byte & save_bit_mask) | target_bits`: the `k` bits from bit `s` on are those of the value.
abbrev pub replace_bits : ℕ → ℕ → ℕ → ℕ → ℕ
replace_bits s k val byte =
    bit_or (low_bits byte s) (bit_or (low_bits val k) (byte >>> (s + k) <<< k) <<< s)

-- A change of the byte at an index inside the vector.
pub modify_at : ℕ → (ℕ → ℕ) → List ℕ → List ℕ
modify_at index f [] = []
modify_at zero f (b ∷ buffer) = f b ∷ buffer
modify_at (suc index) f (b ∷ buffer) = b ∷ modify_at index f buffer

-- `WriteBits(cursor, val, num_bits)`. The first argument bounds the depth of the
-- recursion; every round takes at least one bit. A shift by 64 bits has no meaning in C++.
unfoldable pub write_cursor : ℕ → Cursor → ℕ → ℕ → BitWriter → Result (Cursor × BitWriter)
unfolding modify_at
write_cursor zero cursor val num_bits w = ok (cursor, w)
write_cursor (suc depth) cursor val num_bits w =
    let free_bits = 8 - cursor.bit in
    let next_byte = u64 (cursor.byte + 1) in
    let fresh_bit = min 8 num_bits in
    let fresh =
      write_cursor depth
        (record {
          byte = next_byte;
          bit = fresh_bit;
          size = u64 (cursor.size + (8 - fresh_bit));
          wrote = true;
          total_bits = cursor.total_bits;
        })
        (val >>> 8) (num_bits - 8)
        (record w { buffer = modify_at next_byte (replace_bits 0 fresh_bit val) w.buffer }) in
    let bits = min num_bits free_bits in
    let filled =
      write_cursor depth
        (record {
          byte = cursor.byte;
          bit = min 8 (cursor.bit + num_bits);
          size = cursor.size - bits;
          wrote = true;
          total_bits = cursor.total_bits;
        })
        (val >>> free_bits) (num_bits - bits)
        (record w { buffer = modify_at cursor.byte (replace_bits cursor.bit bits val) w.buffer }) in
    if num_bits == 0
    then ok (cursor, w)
    else if ltb cursor.size num_bits
    then err cursor_overflow
    else if leb 64 num_bits
    then err undefined_behaviour
    else if free_bits == 0
    then if ltb next_byte (length w.buffer) then fresh else err undefined_behaviour
    else if ltb cursor.byte (length w.buffer)
    then filled
    else err undefined_behaviour

-- `WriteSBits(cursor, val, num_bits)`, on the word of the two's complement.
pub write_sbits_cursor : Cursor → ℕ → ℕ → BitWriter → Result (Cursor × BitWriter)
unfolding write_cursor
write_sbits_cursor cursor val num_bits w = write_cursor num_bits cursor val num_bits w
