-- ===== src/ReaderVector/Move.antt =====
-- Moving a reader.
use storm_net.Prelude.{
  ℕ, zero, suc, ◌+◌, ◌-◌, ◌*◌, ◌≤◌, ◌<◌, ◌≡◌, refl, sym, ap, ◌∙◌, List, [], ◌++◌, append_assoc,
  length, length-append, arith,
}
use storm_net.Bits.{to_bits, length-to_bits}
use storm_net.BitReader.{vector_memory}
use storm_net.BitReader.Content.{
  left, memory_bits, rest_bits, rest_bits-zero, rest_bits-add, memory_bits-rest, length-memory_bits,
}
use storm_net.ReaderVector.{ReaderVector, from_vector, move, assign_move}

-- The bits from bit `bit` of the first of some bytes on.
from_bit :
    (memory : ℕ → ℕ) (bit n : ℕ)
    → bit ≤ 8
    → 0 < n
    → to_bits bit (memory 0) ++ rest_bits memory 0 bit n ≡ rest_bits memory 0 0 n
from_bit memory bit zero h pos = absurd (omega arith)
from_bit memory bit (suc n) h pos =
    sym (memory_bits-rest memory 0 bit n h) ∙ sym (rest_bits-zero memory 0 (suc n))

length-rest_bits :
    (memory : ℕ → ℕ) (bit k : ℕ)
    → bit ≤ 8
    → length (rest_bits memory 0 bit (suc k)) ≡ 8 - bit + 8 * k
length-rest_bits memory bit k h =
    length-append (to_bits (8 - bit) _) (memory_bits memory (0 + 1) k)
    ∙ omega (arith, length-to_bits (8 - bit) _, length-memory_bits memory (0 + 1) k)

-- What comes before a place is `a` bytes, less the bits of the first and with those of the last.
before :
    (memory : ℕ → ℕ) (a bit n : ℕ)
    → bit ≤ 8
    → 0 < a
    → 0 < n
    → (again : List ℕ) × (rest_bits memory 0 bit (a + n) ≡ again ++ rest_bits memory a bit n)
      × (length again ≡ 8 * a)
before memory zero bit n h pos some_left = absurd (omega arith)
before memory (suc a) bit zero h pos some_left = absurd (omega arith)
before memory (suc a) bit (suc n) h pos some_left =
    let front = rest_bits memory 0 bit (suc a) in
    let byte = to_bits bit (memory (suc a)) in
    (
      front ++ byte,
      rest_bits-add memory 0 bit a (suc n)
          ∙ ap (λ (k : ℕ). front ++ memory_bits memory k (suc n)) {x = 0 + suc a} {y = suc a}
              (omega arith)
          ∙ ap (λ (l : List ℕ). front ++ l) (memory_bits-rest memory (suc a) bit n h)
          ∙ sym (append_assoc front byte (rest_bits memory (suc a) bit (suc n))),
      omega (
        arith,
        length-append front byte,
        length-rest_bits memory bit a h,
        length-to_bits bit (memory (suc a)),
      ),
    )

-- Both ways of moving start again at the vector's first byte, with the bits in use of the old byte: the
-- bits that the new reader has left are those of a reader made from the vector, less that many bits of
-- the first byte. So a reader that has read `buffer` bytes of its vector, at least one, and has some
-- left, gets that many bytes to read a second time, in front of what it had left. The reader that is
-- moved from has nothing left. The reader that is moved reads its own vector.
pub left-move :
    (target rhs : ReaderVector) (behind : ℕ → ℕ)
    → rhs.reader.memory ≡ vector_memory rhs.vector behind
    → rhs.reader.buffer + rhs.reader.num_bytes ≡ length rhs.vector
    → 0 < rhs.reader.buffer
    → 0 < rhs.reader.num_bytes
    → rhs.reader.bit ≤ 8
    → (to_bits rhs.reader.bit (vector_memory rhs.vector behind 0) ++ left (move rhs behind).0.reader
        ≡ left (from_vector rhs.vector behind).reader)
      × (to_bits rhs.reader.bit (vector_memory rhs.vector behind 0)
            ++ left (assign_move target rhs behind).0.reader
          ≡ left (from_vector rhs.vector behind).reader)
      × (again : List ℕ) × (left (move rhs behind).0.reader ≡ again ++ left rhs.reader)
      × (left (assign_move target rhs behind).0.reader ≡ again ++ left rhs.reader)
      × (length again ≡ 8 * rhs.reader.buffer)
      × (left (move rhs behind).1.reader ≡ [])
unfolding move assign_move from_vector left
left-move target rhs behind own e read some_left bit =
    let memory = vector_memory rhs.vector behind in
    let start = from_bit memory rhs.reader.bit (length rhs.vector) bit (omega arith) in
    let (again, shape, long) =
      before memory rhs.reader.buffer rhs.reader.bit rhs.reader.num_bytes bit read some_left in
    let whole =
      ap (rest_bits memory 0 rhs.reader.bit) (sym e)
      ∙ shape
      ∙ ap
          (λ (m : ℕ → ℕ).
            again ++ rest_bits m rhs.reader.buffer rhs.reader.bit rhs.reader.num_bytes)
          (sym own) in
    (start, start, again, whole, whole, long, refl)
