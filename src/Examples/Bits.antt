-- ===== src/Examples/Bits.antt =====
-- Writers and readers at concrete vectors of bytes.
use storm_net.Prelude.{
  ℕ, List, ◌+◌, ◌-◌, ◌*◌, ◌%◌, ◌^◌, ◌<◌, ◌≡◌, refl, arith, [], ◌∷◌, ◌++◌, length, inr,
}
use storm_net.Bits.{to_bits, bytes_bits}
use storm_net.Result.{ok}
use storm_net.BitWriter.{BitWriter, write_bits, write_buffer}
use storm_net.BitReader.{BitReader, new, vector_memory, read_ubits, read_sbits, read_buffer}
use storm_net.BitWriter.Content.{bits_of, IsValid as WriterValid}
use storm_net.BitReader.Content.{left, IsValid as ReaderValid}
use storm_net.BitWriter.Append.{write_bits-Appended, write_bits-Appends}
use storm_net.BitWriter.Cursor.{reserve, roll_back}
use storm_net.BitWriter.Cursor.RollBack.{roll_back-reserve}
use storm_net.BitWriter.Bytes.{write_buffer-Appends}
use storm_net.BitReader.Take.{read_ubits-Reads}
use storm_net.BitReader.Bytes.{read_buffer-Takes}
use storm_net.BitReader.Signed.{read_sbits-Takes}
use storm_net.BitReader.Short.{read_ubits-over_reads}
use storm_net.ReaderVector.{ReaderVector, from_vector, move, assign_move}
use storm_net.ReaderVector.Arrival.{vector_memory-lt}
use storm_net.ReaderVector.Move.{left-move}

-- Ten bits: a whole byte and two bits of the next.
abbrev two_bytes : BitWriter
two_bytes = record { buffer = 200 ∷ 2 ∷ []; bit = 2; total_bits = 10 }

two_bytes-IsValid : WriterValid two_bytes
two_bytes-IsValid = record {
  some_bit = omega arith;
  one_byte = omega arith;
  no_bytes = λ e. cc;
  bytes = (omega arith, (omega arith, tt));
}

write_bits-Appended_example :
    (bits_of (write_bits 5000 13 two_bytes) ≡ bits_of two_bytes ++ to_bits 13 5000)
    × WriterValid (write_bits 5000 13 two_bytes)
    × ((write_bits 5000 13 two_bytes).total_bits ≡ 10 + 13)
write_bits-Appended_example = write_bits-Appended 5000 13 two_bytes two_bytes-IsValid

write_buffer-Appends_example :
    (bits_of (write_buffer (7 ∷ 255 ∷ []) two_bytes)
      ≡ bits_of two_bytes ++ bytes_bits (7 ∷ 255 ∷ []))
    × WriterValid (write_buffer (7 ∷ 255 ∷ []) two_bytes)
write_buffer-Appends_example =
    write_buffer-Appends (7 ∷ 255 ∷ []) two_bytes (omega arith, (omega arith, tt)) two_bytes-IsValid

-- Two bytes, of which three bits are read.
abbrev partly_read : BitReader
partly_read = record (new (vector_memory (200 ∷ 2 ∷ []) (λ a. 0)) 0 2) { bit = 3 }

partly_read-IsValid : ReaderValid partly_read
partly_read-IsValid = record {
  in_byte = omega arith;
  bytes =
      vector_memory-lt (200 ∷ 2 ∷ []) (λ a. 0) (omega arith, (omega arith, tt)) (λ a. omega arith);
}

read_ubits-Reads_example :
    (r : BitReader) × (read_ubits 7 partly_read ≡ ok (89 % 2 ^ 7, r))
    × (left r ≡ to_bits 6 0)
    × ReaderValid r
    × (r.total_bits ≡ 0 + 7)
read_ubits-Reads_example =
    read_ubits-Reads 7 89 partly_read (to_bits 6 0) (omega arith) partly_read-IsValid
      (unfold left in refl)

read_sbits-Takes_example :
    (r : BitReader) × (read_sbits 5 partly_read ≡ ok (2 ^ 64 - 7, r))
    × (left r ≡ to_bits 8 2)
    × ReaderValid r
read_sbits-Takes_example =
    read_sbits-Takes 5 (2 ^ 64 - 7) partly_read (to_bits 8 2) (omega arith) (omega arith)
      (inr (omega arith, omega arith)) partly_read-IsValid (unfold left in refl)

read_buffer-Takes_example :
    (r : BitReader) × (read_buffer 1 partly_read ≡ ok (89 ∷ [], r))
    × (left r ≡ to_bits 5 0)
    × ReaderValid r
read_buffer-Takes_example =
    read_buffer-Takes (89 ∷ []) partly_read (to_bits 5 0) (omega arith, tt) partly_read-IsValid
      (unfold left in refl)

-- Eight bytes of which one bit is read.
abbrev eight_bytes : BitReader
eight_bytes = record (new (vector_memory (1 ∷ 2 ∷ 3 ∷ 4 ∷ 5 ∷ 6 ∷ 7 ∷ 8 ∷ []) (λ a. 255)) 0 8) {
  bit = 1;
}

eight_bytes-IsValid : ReaderValid eight_bytes
eight_bytes-IsValid = record {
  in_byte = omega arith;
  bytes =
      vector_memory-lt (1 ∷ 2 ∷ 3 ∷ 4 ∷ 5 ∷ 6 ∷ 7 ∷ 8 ∷ []) (λ a. 255)
        (
          omega arith,
          (
            omega arith,
            (
              omega arith,
              (omega arith, (omega arith, (omega arith, (omega arith, (omega arith, tt))))),
            ),
          ),
        )
        (λ a. omega arith);
}

read_ubits-over_reads_example :
    (length (left eight_bytes) < 64)
    × (v : ℕ) × (r : BitReader) × (read_ubits 64 eight_bytes ≡ ok (v, r))
    × (v < 2 ^ 64)
    × (to_bits 64 v ≡ left eight_bytes ++ 1 ∷ [])
    × (left r ≡ [])
read_ubits-over_reads_example =
    read_ubits-over_reads eight_bytes eight_bytes-IsValid refl (omega arith)

-- A reader that has read the first of its three bytes.
abbrev read_once : ReaderVector
read_once = record {
  vector = 10 ∷ 20 ∷ 30 ∷ [];
  reader = record (new (vector_memory (10 ∷ 20 ∷ 30 ∷ []) (λ a. 0)) 0 3) {
    buffer = 1;
    offset = 1;
    num_bytes = 2;
    total_bits = 8;
  };
}

left-move_example :
    (to_bits 0 10 ++ left (move read_once (λ a. 0)).0.reader
      ≡ left (from_vector (10 ∷ 20 ∷ 30 ∷ []) (λ a. 0)).reader)
    × (to_bits 0 10 ++ left (assign_move read_once read_once (λ a. 0)).0.reader
        ≡ left (from_vector (10 ∷ 20 ∷ 30 ∷ []) (λ a. 0)).reader)
    × (again : List ℕ) × (left (move read_once (λ a. 0)).0.reader ≡ again ++ left read_once.reader)
    × (left (assign_move read_once read_once (λ a. 0)).0.reader ≡ again ++ left read_once.reader)
    × (length again ≡ 8 * 1)
    × (left (move read_once (λ a. 0)).1.reader ≡ [])
left-move_example =
    left-move read_once read_once (λ a. 0) refl (omega arith) (omega arith) (omega arith)
      (omega arith)

-- Three bits are reserved and nine written behind them.
abbrev reserved : BitWriter
reserved = (reserve 3 two_bytes).1

reserved-IsValid : WriterValid reserved
reserved-IsValid = unfold reserve in (write_bits-Appended 0 3 two_bytes two_bytes-IsValid).1

roll_back-reserve_example :
    (w : BitWriter) × (roll_back (reserve 3 two_bytes).0 (write_bits 300 9 reserved) ≡ ok w)
    × (bits_of w ≡ bits_of two_bytes)
    × WriterValid w
    × (w.total_bits ≡ 10)
roll_back-reserve_example =
    roll_back-reserve 3 two_bytes (write_bits 300 9 reserved) (to_bits 9 300) two_bytes-IsValid
      (omega arith) (write_bits-Appends 300 9 reserved reserved-IsValid)
