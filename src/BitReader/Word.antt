-- ===== src/BitReader/Word.antt =====
-- The branch of `ReadBitsInternal` that reads 64 bits at once takes the bits that are next, at every
-- position in the byte.
use native.Mathlib.Nat.{mod-eq_of_lt, div-lt_iff_lt-mul, one-le-pow}
use storm_net.Prelude.{
  ℕ, zero, suc, ◌+◌, ◌-◌, ◌*◌, ◌/◌, ◌%◌, ◌^◌, ◌≤◌, ◌<◌, ◌≡◌, ◌⊎◌, ap, sym, ◌∙◌, List, ◌++◌,
  append-inj, subst, append_assoc, arith, bit_or,
}
use storm_net.Bits.{
  to_bits, to_bits-split, to_bits-or, to_bits-mod, length-to_bits, bit_or_disjoint, mod_pow_lt,
  field_fits, pow_add, u64, low_bits, ◌<<<◌, ◌>>>◌,
}
use storm_net.BitReader.{BitReader, load, read_word}
use storm_net.BitReader.Content.{
  memory_bits, rest_bits, left, IsValid, rest_bits-zero, memory_bits-rest, rest_bits-add, load-bits,
  load-lt,
}

-- The word in memory, without the bits that are read.
word-rest :
    (memory : ℕ → ℕ) (a bit : ℕ)
    → ((i : ℕ) → memory i < 256)
    → bit < 8
    → to_bits (64 - bit) (load memory a 8 >>> bit) ≡ rest_bits memory a bit 8
word-rest memory a bit h b =
    let whole : to_bits bit (load memory a 8) ++ to_bits (64 - bit) (load memory a 8 / 2 ^ bit)
        ≡ to_bits bit (memory a) ++ rest_bits memory a bit 8 =
      sym (to_bits-split bit (64 - bit) (load memory a 8))
      ∙ ap (λ (t : ℕ). to_bits t (load memory a 8)) {x = bit + (64 - bit)} {y = 64} (omega arith)
      ∙ load-bits memory h a 8
      ∙ memory_bits-rest memory a bit 7 (omega arith) in
    (append-inj (to_bits bit (load memory a 8)) (to_bits bit (memory a))
      (length-to_bits bit (load memory a 8) ∙ sym (length-to_bits bit (memory a))) whole).1

-- The byte behind the word splits between this read and the next.
behind-split :
    (memory : ℕ → ℕ) (a bit n : ℕ)
    → bit < 8
    → (bit ≡ 0) ⊎ (0 < n)
    → to_bits bit (memory a) ++ rest_bits memory a bit n ≡ memory_bits memory a n
behind-split memory a zero n b h = rest_bits-zero memory a n
behind-split memory a (suc bit) zero b h = absurd (omega arith)
behind-split memory a (suc bit) (suc n) b h =
    sym (memory_bits-rest memory a (suc bit) n (omega arith))

word_value : (memory : ℕ → ℕ) (a bit : ℕ) → ℕ
word_value memory a bit =
    bit_or (load memory a 8 >>> bit) (u64 (low_bits (memory (a + 8)) bit <<< (64 - bit)))

module _ (memory : ℕ → ℕ) (a bit : ℕ) (h : (i : ℕ) → memory i < 256) (b : bit < 8) where
  low-lt : load memory a 8 >>> bit < 2 ^ (64 - bit)
  low-lt =
      let whole : 2 ^ (64 - bit) * 2 ^ bit ≡ 2 ^ 64 =
        sym (pow_add (64 - bit) bit)
        ∙ ap (λ (t : ℕ). 2 ^ t) {x = 64 - bit + bit} {y = 64} (omega arith) in
      (div-lt_iff_lt-mul (one-le-pow bit 2 (omega arith))).1 (rw whole (load-lt memory h a 8))

  high-fits : (memory (a + 8) % 2 ^ bit + 1) * 2 ^ (64 - bit) ≤ 2 ^ 64
  high-fits = field_fits 64 (64 - bit) (memory (a + 8) % 2 ^ bit) (omega arith) (
      subst (λ (t : ℕ). memory (a + 8) % 2 ^ bit < 2 ^ t) {x = bit} {y = 64 - (64 - bit)}
        (omega arith) (mod_pow_lt bit (memory (a + 8))))

  word_value-fields :
      word_value memory a bit
      ≡ bit_or
          (load memory a 8 / 2 ^ bit % 2 ^ (64 - bit))
          (memory (a + 8) % 2 ^ bit * 2 ^ (64 - bit))
  unfolding word_value
  word_value-fields =
      let room : memory (a + 8) % 2 ^ bit * 2 ^ (64 - bit) < 2 ^ 64 =
        omega (arith, high-fits, one-le-pow (64 - bit) 2 (omega arith)) in
      rw (mod-eq_of_lt room, mod-eq_of_lt low-lt)

  word_value-lt : word_value memory a bit < 2 ^ 64
  word_value-lt =
      rw
        (
          word_value-fields,
          bit_or_disjoint (64 - bit) (load memory a 8 / 2 ^ bit % 2 ^ (64 - bit))
              (memory (a + 8) % 2 ^ bit) (mod_pow_lt (64 - bit) (load memory a 8 / 2 ^ bit)),
        )
        (omega (arith, high-fits, mod_pow_lt (64 - bit) (load memory a 8 / 2 ^ bit)))

  word_value-bits :
      to_bits 64 (word_value memory a bit)
      ≡ rest_bits memory a bit 8 ++ to_bits bit (memory (a + 8))
  word_value-bits =
      ap (λ (t : ℕ). to_bits t (word_value memory a bit)) {x = 64} {y = 64 - bit + bit}
        (omega arith)
      ∙ ap (to_bits (64 - bit + bit)) word_value-fields
      ∙ to_bits-or (64 - bit) bit (load memory a 8 / 2 ^ bit) (memory (a + 8) % 2 ^ bit)
      ∙ ap (λ (t : List ℕ). t ++ to_bits bit (memory (a + 8) % 2 ^ bit))
          (word-rest memory a bit h b)
      ∙ ap (λ (t : List ℕ). rest_bits memory a bit 8 ++ t) (to_bits-mod bit (memory (a + 8)))

-- Eight bytes at hand give what they have left, and the low bits of the byte behind them.
pub read_word-bits :
    (r : BitReader)
    → IsValid r
    → (to_bits 64 (read_word r).0
        ≡ rest_bits r.memory r.buffer r.bit 8 ++ to_bits r.bit (r.memory (r.buffer + 8)))
      × ((read_word r).0 < 2 ^ 64)
unfolding read_word word_value
read_word-bits r v = (
  word_value-bits r.memory r.buffer r.bit v.bytes v.in_byte,
  word_value-lt r.memory r.buffer r.bit v.bytes v.in_byte,
)

-- With eight bytes at hand and, inside a byte, one more, the word and what is left behind it are
-- the bits that were left.
pub read_word-left :
    (r : BitReader) (n : ℕ)
    → IsValid r
    → r.num_bytes ≡ 8 + n
    → (r.bit ≡ 0) ⊎ (0 < n)
    → (to_bits 64 (read_word r).0 ++ left (read_word r).1 ≡ left r)
      × ((read_word r).0 < 2 ^ 64)
      × IsValid (read_word r).1
unfolding read_word left word_value
read_word-left r n v e enough = (
  ap (λ (t : List ℕ). t ++ rest_bits r.memory (r.buffer + 8) r.bit (r.num_bytes - 8))
        (word_value-bits r.memory r.buffer r.bit v.bytes v.in_byte)
      ∙ append_assoc (rest_bits r.memory r.buffer r.bit 8) (to_bits r.bit (r.memory (r.buffer + 8)))
          (rest_bits r.memory (r.buffer + 8) r.bit (r.num_bytes - 8))
      ∙ ap
          (λ (t : ℕ).
            rest_bits r.memory r.buffer r.bit 8
            ++ (to_bits r.bit (r.memory (r.buffer + 8))
                ++ rest_bits r.memory (r.buffer + 8) r.bit t))
          {x = r.num_bytes - 8} {y = n} (omega arith)
      ∙ ap (λ (t : List ℕ). rest_bits r.memory r.buffer r.bit 8 ++ t)
          (behind-split r.memory (r.buffer + 8) r.bit n v.in_byte enough)
      ∙ sym (rest_bits-add r.memory r.buffer r.bit 7 n)
      ∙ ap (rest_bits r.memory r.buffer r.bit) (sym e),
  word_value-lt r.memory r.buffer r.bit v.bytes v.in_byte,
  record { in_byte = v.in_byte; bytes = v.bytes },
)
