-- ===== src/BitWriter/Cursor/RollBack.antt =====
-- Rolling a writer back to a cursor.
use storm_net.Prelude.{
  ℕ, ◌+◌, ◌-◌, ◌*◌, ◌/◌, ◌^◌, ◌≤◌, ◌<◌, ◌≡◌, refl, ap, sym, ◌∙◌, List, [], ◌∷◌, ◌++◌, append_assoc,
  append-nil, append-inj, length, length-append, take, arith,
}
use storm_net.Bits.{u64, to_bits, to_bits-split, length-to_bits}
use storm_net.Result.{ok}
use storm_net.BitWriter.{BitWriter}
use storm_net.BitWriter.Content.{bits_of, vector_bits, IsValid}
use storm_net.BitWriter.Append.{Appends, write_bits-Appends}
use storm_net.BitWriter.Bytes.{take-IsBytes}
use storm_net.BitWriter.Cursor.{reserve, roll_back}

-- The first bits of a word are those that it starts with.
first_bits :
    (n m b c : ℕ) (xs ys : List ℕ)
    → n ≤ m
    → to_bits m c ++ ys ≡ to_bits n b ++ xs
    → to_bits n c ≡ to_bits n b
first_bits n m b c xs ys h e =
    let split : to_bits m c ≡ to_bits n c ++ to_bits (m - n) (c / 2 ^ n) =
      ap (λ (t : ℕ). to_bits t c) {x = m} {y = n + (m - n)} (omega arith)
      ∙ to_bits-split n (m - n) c in
    (append-inj (to_bits n c) (to_bits n b) (length-to_bits n c ∙ sym (length-to_bits n b)) (
      sym (append_assoc (to_bits n c) (to_bits (m - n) (c / 2 ^ n)) ys)
      ∙ ap (λ (t : List ℕ). t ++ ys) (sym split)
      ∙ e)).0

pub length-vector_bits :
    (b : ℕ) (buffer : List ℕ) (bit : ℕ)
    → length (vector_bits (b ∷ buffer) bit) ≡ 8 * length buffer + bit
length-vector_bits b [] bit = length-to_bits bit b ∙ omega arith
length-vector_bits b (c ∷ rest) bit = omega (
  arith,
  length-append (to_bits 8 b) (vector_bits (c ∷ rest) bit),
  length-to_bits 8 b,
  length-vector_bits c rest bit,
)

-- When a vector's bits start with those of another, so many of its bytes hold the other's bits.
take-vector_bits :
    (buffer buffer' xs : List ℕ) (bit bit' : ℕ)
    → 0 < bit
    → bit ≤ 8
    → bit' ≤ 8
    → vector_bits buffer' bit' ≡ vector_bits buffer bit ++ xs
    → (length buffer ≤ length buffer')
      × (vector_bits (take (length buffer) buffer') bit ≡ vector_bits buffer bit)
take-vector_bits [] buffer' xs bit bit' pos h h' e = (omega arith, refl)
take-vector_bits (b ∷ buffer) [] xs bit bit' pos h h' e = absurd (
    omega (
      arith,
      ap length e,
      length-append (vector_bits (b ∷ buffer) bit) xs,
      length-vector_bits b buffer bit,
    ))
take-vector_bits (b ∷ []) (c ∷ []) xs bit bit' pos h h' e =
    let long : bit ≤ bit' = omega (
      arith,
      ap length e,
      length-append (to_bits bit b) xs,
      length-to_bits bit b,
      length-to_bits bit' c,
    ) in
    (omega arith, first_bits bit bit' b c xs [] long (append-nil (to_bits bit' c) ∙ e))
take-vector_bits (b ∷ []) (c ∷ d ∷ rest') xs bit bit' pos h h' e =
    (omega arith, first_bits bit 8 b c xs (vector_bits (d ∷ rest') bit') h e)
take-vector_bits (b ∷ b' ∷ rest) (c ∷ []) xs bit bit' pos h h' e = absurd (
    omega (
      arith,
      ap length e,
      length-append (vector_bits (b ∷ b' ∷ rest) bit) xs,
      length-vector_bits b (b' ∷ rest) bit,
      length-to_bits bit' c,
    ))
take-vector_bits (b ∷ b' ∷ rest) (c ∷ c' ∷ rest') xs bit bit' pos h h' e =
    let (first, more) =
      append-inj (to_bits 8 c) (to_bits 8 b) refl
        (e ∙ append_assoc (to_bits 8 b) (vector_bits (b' ∷ rest) bit) xs) in
    let (size, same) = take-vector_bits (b' ∷ rest) (c' ∷ rest') xs bit bit' pos h h' more in
    (
      omega arith,
      ap (λ (t : List ℕ). t ++ vector_bits (c' ∷ take (length rest) rest') bit) first
          ∙ ap (λ (t : List ℕ). to_bits 8 b ++ t) same,
    )

empty-take :
    (buffer buffer' : List ℕ)
    → length buffer ≤ length buffer'
    → take (length buffer) buffer' ≡ []
    → buffer ≡ []
empty-take [] buffer' h e = refl
empty-take (b ∷ buffer) [] h e = absurd (omega arith)
empty-take (b ∷ buffer) (c ∷ buffer') h e = cc

-- A writer that reserved bits and then wrote any others, none through the cursor, is rolled back to
-- the bits and the count that it had; it is well-formed again. The vector has fewer than 2 ^ 64 bytes.
pub roll_back-reserve :
    (n : ℕ) (w w' : BitWriter) (xs : List ℕ)
    → IsValid w
    → length w.buffer < 2 ^ 64
    → Appends (reserve n w).1 w' xs
    → (w'' : BitWriter) × (roll_back (reserve n w).0 w' ≡ ok w'')
      × (bits_of w'' ≡ bits_of w)
      × IsValid w''
      × (w''.total_bits ≡ w.total_bits)
unfolding reserve roll_back bits_of
roll_back-reserve n w w' xs v small (wrote, valid) =
    let place : u64 (u64 (length w.buffer + 2 ^ 64 - 1) + 1) ≡ length w.buffer = omega arith in
    let starts : bits_of w' ≡ bits_of w ++ (to_bits n 0 ++ xs) =
      wrote
      ∙ ap (λ (t : List ℕ). t ++ xs) (write_bits-Appends 0 n w v).0
      ∙ append_assoc (bits_of w) (to_bits n 0) xs in
    let (size, same) =
      take-vector_bits w.buffer w'.buffer (to_bits n 0 ++ xs) w.bit w'.bit v.some_bit v.one_byte
        valid.one_byte starts in
    let padding : length w.buffer - length w'.buffer ≡ 0 = omega arith in
    (
      record { buffer = take (length w.buffer) w'.buffer; bit = w.bit; total_bits = w.total_bits },
      rw (place, padding, append-nil (take (length w.buffer) w'.buffer)) refl,
      same,
      record {
        some_bit = v.some_bit;
        one_byte = v.one_byte;
        no_bytes = λ emptied. v.no_bytes (empty-take w.buffer w'.buffer size emptied);
        bytes = take-IsBytes (length w.buffer) w'.buffer valid.bytes;
      },
      refl,
    )
