-- ===== src/BitReader/Content.antt =====
-- The bits that a reader has left, and what a well-formed reader is.
use storm_net.Prelude.{
  ℕ, zero, suc, ◌+◌, ◌-◌, ◌*◌, ◌/◌, ◌^◌, ◌≤◌, ◌<◌, ◌≡◌, refl, ap, sym, ◌∙◌, List, [], ◌++◌, length,
  length-append, append_assoc, arith,
}
use storm_net.Bits.{to_bits, to_bits-add, to_bits-split, length-to_bits}
use Prim.Native.Nat.add
use native.Mathlib.Nat.{div-one, add-zero}
use storm_net.Bits.{pow_add}
use storm_net.BitReader.{BitReader, load}

-- The bits of `n` bytes in memory.
abbrev pub memory_bits : (ℕ → ℕ) → ℕ → ℕ → List ℕ
memory_bits memory a zero = []
memory_bits memory a (suc n) = to_bits 8 (memory a) ++ memory_bits memory (a + 1) n

-- The same, when `bit` bits of the first byte are read.
abbrev pub rest_bits : (ℕ → ℕ) → ℕ → ℕ → ℕ → List ℕ
rest_bits memory a bit zero = []
rest_bits memory a bit (suc n) =
    to_bits (8 - bit) (memory a / 2 ^ bit) ++ memory_bits memory (a + 1) n

unfoldable pub left : BitReader → List ℕ
left r = rest_bits r.memory r.buffer r.bit r.num_bytes

pub record IsValid (r : BitReader) : Type 0 where
  pub in_byte : r.bit < 8
  pub bytes : (a : ℕ) → r.memory a < 256

module _ (memory : ℕ → ℕ) where
  pub rest_bits-zero : (a n : ℕ) → rest_bits memory a 0 n ≡ memory_bits memory a n
  rest_bits-zero a zero = refl
  rest_bits-zero a (suc n) = rw div-one

  pub length-memory_bits : (a n : ℕ) → length (memory_bits memory a n) ≡ 8 * n
  length-memory_bits a zero = refl
  length-memory_bits a (suc n) = omega (
    arith,
    length-append (to_bits 8 (memory a)) (memory_bits memory (a + 1) n),
    length-to_bits 8 (memory a),
    length-memory_bits (a + 1) n,
  )

  pub memory_bits-add :
      (a m n : ℕ)
      → memory_bits memory a (m + n) ≡ memory_bits memory a m ++ memory_bits memory (a + m) n
  memory_bits-add a zero n = rw (add.zero n, add-zero a)
  memory_bits-add a (suc m) n =
      let step : a + 1 + m ≡ a + suc m = omega arith in
      rw (add.suc m n, memory_bits-add (a + 1) m n, step)
        (sym (
          append_assoc (to_bits 8 (memory a)) (memory_bits memory (a + 1) m)
            (memory_bits memory (a + suc m) n)))

  -- The first byte splits at the bits that are read.
  pub memory_bits-rest :
      (a bit n : ℕ)
      → bit ≤ 8
      → memory_bits memory a (suc n) ≡ to_bits bit (memory a) ++ rest_bits memory a bit (suc n)
  memory_bits-rest a bit n h =
      ap (λ (t : List ℕ). t ++ memory_bits memory (a + 1) n)
        (ap (λ (t : ℕ). to_bits t (memory a)) {x = 8} {y = bit + (8 - bit)} (omega arith)
          ∙ to_bits-split bit (8 - bit) (memory a))
      ∙ append_assoc (to_bits bit (memory a)) _ _

  pub rest_bits-add :
      (a bit m n : ℕ)
      → rest_bits memory a bit (suc m + n)
        ≡ rest_bits memory a bit (suc m) ++ memory_bits memory (a + suc m) n
  rest_bits-add a bit m n =
      let step : a + 1 + m ≡ a + suc m = omega arith in
      rw (add.suc m n, memory_bits-add (a + 1) m n, step)
        (sym (
          append_assoc (to_bits (8 - bit) (memory a / 2 ^ bit)) (memory_bits memory (a + 1) m)
            (memory_bits memory (a + suc m) n)))

  pub load-bits :
      ((a : ℕ) → memory a < 256)
      → (a n : ℕ) → to_bits (n * 8) (load memory a n) ≡ memory_bits memory a n
  unfolding load
  load-bits h a zero = refl
  load-bits h a (suc n) =
      let width : suc n * 8 ≡ 8 + n * 8 = omega arith in
      rw (
        width,
        to_bits-add 8 (n * 8) (memory a) (load memory (a + 1) n) (h a),
        load-bits h (a + 1) n,
      )

  pub load-lt : ((a : ℕ) → memory a < 256) → (a n : ℕ) → load memory a n < 2 ^ (n * 8)
  unfolding load
  load-lt h a zero = omega arith
  load-lt h a (suc n) =
      let width : suc n * 8 ≡ n * 8 + 8 = omega arith in
      rw (width, pow_add (n * 8) 8) (omega (arith, h a, load-lt h (a + 1) n))
