-- ===== src/BitWriter/Cursor/Reserved.antt =====
-- Bits that are reserved first and written last.
use storm_net.Prelude.{
  ℕ, ◌+◌, ◌*◌, ◌^◌, ◌<◌, ◌≡◌, refl, ap, ◌∙◌, List, [], ◌∷◌, ◌++◌, append_assoc, length,
  length-append, arith,
}
use storm_net.Bits.{to_bits, length-to_bits}
use storm_net.Result.{ok}
use storm_net.BitWriter.{BitWriter}
use storm_net.BitWriter.Content.{bits_of, vector_bits, IsValid}
use storm_net.BitWriter.Append.{Appends, write_bits-Appends}
use storm_net.BitWriter.Cursor.{Cursor, reserve, write_cursor}
use storm_net.BitWriter.Cursor.RollBack.{length-vector_bits}
use storm_net.BitWriter.Cursor.Place.{IsAt}
use storm_net.BitWriter.Cursor.Write.{rounds}

pub length-bits_of :
    (w : BitWriter) → IsValid w → length w.buffer * 8 + w.bit ≡ length (bits_of w) + 8
unfolding bits_of
length-bits_of w v = go w.buffer refl
  where
    go :
        (buffer : List ℕ)
        → w.buffer ≡ buffer
        → length w.buffer * 8 + w.bit ≡ length (vector_bits w.buffer w.bit) + 8
    go [] e = rw e (omega (arith, v.no_bytes e))
    go (b ∷ buffer) e = rw e (omega (arith, length-vector_bits b buffer w.bit))

pub reserve-IsAt :
    (n : ℕ) (w : BitWriter)
    → IsValid w
    → length w.buffer < 2 ^ 63
    → IsAt (reserve n w).0 (length (bits_of w)) n n
unfolding reserve
reserve-IsAt n w v small = record {
  some_bit = v.some_bit;
  one_byte = v.one_byte;
  byte_word = omega arith;
  here = omega (arith, length-bits_of w v);
  room_left = omega arith;
  bounded = omega arith;
}

-- Fewer than 64 bits that are reserved, and written through the cursor after any other bits have been
-- appended, are where they would be if they had been written first; the write returns, the writer is
-- well-formed, and it has as many bytes and counts as many bits as before. The writer has fewer than
-- 2 ^ 63 bits.
pub write_cursor-reserve :
    (n val : ℕ) (w w' : BitWriter) (xs : List ℕ)
    → n < 64
    → IsValid w
    → length (bits_of w') < 2 ^ 63
    → Appends (reserve n w).1 w' xs
    → (c : Cursor) × (w'' : BitWriter) × (write_cursor n (reserve n w).0 val n w' ≡ ok (c, w''))
      × Appends w w'' (to_bits n val ++ xs)
      × (length w''.buffer ≡ length w'.buffer)
      × (w''.total_bits ≡ w'.total_bits)
unfolding reserve
write_cursor-reserve n val w w' xs word v small (wrote, valid) =
    let first = write_bits-Appends 0 n w v in
    let content : bits_of w' ≡ bits_of w ++ (to_bits n 0 ++ xs) =
      wrote ∙ ap (λ (t : List ℕ). t ++ xs) first.0 ∙ append_assoc (bits_of w) (to_bits n 0) xs in
    let long : length (bits_of w') ≡ length (bits_of w) + length (to_bits n 0 ++ xs) =
      ap length content ∙ length-append (bits_of w) (to_bits n 0 ++ xs) in
    let before : length w.buffer < 2 ^ 63 = omega (arith, length-bits_of w v, long) in
    let (c, w'', done, _, r) =
      rounds n (reserve n w).0 val n w' (length (bits_of w)) n n (bits_of w) (to_bits n 0) xs
        (omega arith)
        (record {
          fits = omega arith;
          word = word;
          counted = omega arith;
          sized = omega (arith, length-bits_of w' valid);
          at = reserve-IsAt n w v before;
          valid = valid;
          front = refl;
          middle = length-to_bits n 0;
          content = content;
        }) in
    (c, w'', done, (r.content, r.valid), r.same_size, r.same_count)
