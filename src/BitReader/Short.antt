-- ===== src/BitReader/Short.antt =====
-- Reads of more bits than there are.
use storm_net.Prelude.{
  ℕ, zero, suc, ◌+◌, ◌-◌, ◌*◌, ◌≤◌, ◌<◌, ◌^◌, ◌≡◌, refl, sym, ap, List, [], ◌++◌, ◌∙◌, length,
  arith, ◌==◌, leb, ◌&&◌, suc-eq-zero, inl, inr, true, false,
}
use storm_net.Result.{ok, err, reader_out_of_data}
use storm_net.BitReader.{BitReader, read_word, next_byte, read_bits_internal, read_ubits}
use storm_net.BitReader.Content.{left, rest_bits, IsValid, length-memory_bits}
use storm_net.BitReader.Word.{read_word-bits}
use storm_net.Bits.{to_bits}
use storm_net.BitReader.Take.{count-cases, length-left, left-next_byte}

read_bits_internal-throws :
    (depth n : ℕ) (r : BitReader)
    → n ≤ depth
    → n < 64
    → IsValid r
    → length (left r) < n
    → read_bits_internal depth n r ≡ err reader_out_of_data
unfolding read_bits_internal
read_bits_internal-throws zero n r h fits v short = absurd (omega arith)
read_bits_internal-throws (suc depth) zero r h fits v short = absurd (omega arith)
read_bits_internal-throws (suc depth) (suc n) r h fits v short =
    let part : (suc n == 64 && leb 8 r.num_bytes) ≡ false = ground arith in
    elim (count-cases r.num_bytes) [
      | inl none_left ↦
          let empty : (r.num_bytes == 0) ≡ true = ground arith in rw (suc-eq-zero n, part, empty)
      | inr (c, some_left) ↦
          let more : (r.num_bytes == 0) ≡ false = ground arith in
          let size = length-left r c some_left in
          let over : leb 8 (r.bit + suc n) ≡ true = ground (arith, size, v.in_byte) in
          let behind : length (left (next_byte r)) ≡ 8 * c =
            ap length (left-next_byte r c some_left)
            ∙ length-memory_bits r.memory (r.buffer + 1) c in
          rw (
            suc-eq-zero n,
            part,
            more,
            over,
            read_bits_internal-throws depth (suc n - (8 - r.bit)) (next_byte r)
                (omega (arith, v.in_byte)) (omega arith)
                (record { in_byte = omega arith; bytes = v.bytes })
                (omega (arith, size, behind, v.in_byte)),
          )
    ]

left-eight : (r : BitReader) → r.num_bytes ≡ 8 → left r ≡ rest_bits r.memory r.buffer r.bit 8
unfolding left
left-eight r e = ap (rest_bits r.memory r.buffer r.bit) e

left-read_word : (r : BitReader) → r.num_bytes ≡ 8 → left (read_word r).1 ≡ []
unfolding left read_word
left-read_word r e =
    ap (rest_bits r.memory (r.buffer + 8) r.bit) {x = r.num_bytes - 8} {y = 0} (omega arith)

-- Asking a well-formed reader for more bits than are left, and for fewer than 64, throws.
pub read_ubits-throws :
    (n : ℕ) (r : BitReader)
    → n < 64
    → IsValid r
    → length (left r) < n
    → read_ubits n r ≡ err reader_out_of_data
unfolding read_ubits left
read_ubits-throws n r fits v short =
    read_bits_internal-throws n n (record r { total_bits = r.total_bits + n }) (omega arith) fits
      (record { in_byte = v.in_byte; bytes = v.bytes }) short

-- With eight bytes left, the first of them partly read, asking for 64 bits does not throw, although
-- fewer are left: the word that a well-formed reader returns has the bits that are left and, above
-- them, as many low bits of the byte behind the buffer as were missing. Nothing is left then.
pub read_ubits-over_reads :
    (r : BitReader)
    → IsValid r
    → r.num_bytes ≡ 8
    → 0 < r.bit
    → (length (left r) < 64)
      × (v : ℕ) × (r' : BitReader) × (read_ubits 64 r ≡ ok (v, r'))
      × (v < 2 ^ 64)
      × (to_bits 64 v ≡ left r ++ to_bits r.bit (r.memory (r.buffer + 8)))
      × (left r' ≡ [])
unfolding read_ubits read_bits_internal
read_ubits-over_reads r valid e pos =
    let (bits, small) =
      read_word-bits (record r { total_bits = r.total_bits + 64 })
        (record { in_byte = valid.in_byte; bytes = valid.bytes }) in
    (
      omega (arith, length-left r 7 e),
      (read_word (record r { total_bits = r.total_bits + 64 })).0,
      (read_word (record r { total_bits = r.total_bits + 64 })).1,
      rw whole refl,
      small,
      bits ∙ ap (λ (l : List ℕ). l ++ to_bits r.bit (r.memory (r.buffer + 8))) (sym here),
      gone,
    )
  where
    whole : leb 8 r.num_bytes ≡ true
    whole = ground arith

    here : left r ≡ rest_bits r.memory r.buffer r.bit 8
    here = left-eight r e

    gone : left (read_word (record r { total_bits = r.total_bits + 64 })).1 ≡ []
    gone = left-read_word (record r { total_bits = r.total_bits + 64 }) e
