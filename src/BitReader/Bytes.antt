-- ===== src/BitReader/Bytes.antt =====
-- The bytes of a buffer are read back, on all branches of `ReadBuffer`.
use native.Mathlib.Nat.{mod-eq_of_lt}
use storm_net.Prelude.{
  ℕ, zero, suc, ◌+◌, ◌-◌, ◌*◌, ◌%◌, ◌/◌, ◌^◌, ◌≤◌, ◌<◌, ◌≡◌, refl, ap, sym, ◌∙◌, List, [], ◌∷◌,
  ◌++◌, length, length-append, length-take_le, length-drop, take, drop, take-append-drop,
  append_assoc, append-inj, arith, leb, ◌==◌, ◌&&◌, Bool-cases, inl, inr, subst,
}
use storm_net.Bits.{to_bits, bytes_bits, IsBytes, bytes_bits-inj, length-to_bits}
use storm_net.Result.{Result, ok}
use storm_net.BitReader.{
  BitReader, bytes_of, memory_bytes, read_bytes, read_buffer_words, read_buffer,
}
use storm_net.BitReader.Content.{
  left, rest_bits, memory_bits, rest_bits-zero, memory_bits-add, IsValid,
}
use storm_net.BitReader.Take.{read_ubits-Reads}
use storm_net.BitWriter.{word_at}
use storm_net.BitWriter.Bytes.{
  word_at-lt, word_at-cons, word_at-bits, take-IsBytes, drop-IsBytes, bytes_bits-append,
}

abbrev Takes : {T : Type 0} → Result (T × BitReader) → T → List ℕ → Type 0
Takes result t rest = (r : BitReader) × (result ≡ ok (t, r)) × (left r ≡ rest) × IsValid r

pub read_bytes-Takes :
    (bytes : List ℕ) (r : BitReader) (rest : List ℕ)
    → IsBytes bytes
    → IsValid r
    → left r ≡ bytes_bits bytes ++ rest
    → Takes (read_bytes (length bytes) r) bytes rest
unfolding read_bytes
read_bytes-Takes [] r rest h v p = (r, refl, p, v)
read_bytes-Takes (b ∷ bytes) r rest h v p =
    let (r', read, behind, valid, _) =
      read_ubits-Reads 8 b r (bytes_bits bytes ++ rest) (omega arith) v
        (p ∙ append_assoc (to_bits 8 b) (bytes_bits bytes) rest) in
    let (r'', read', behind', valid') = read_bytes-Takes bytes r' rest h.1 valid behind in
    let same : b % 256 % 256 ≡ b = omega (arith, h.0) in
    (r'', rw (read, read', same), behind', valid')

bytes_of-word_at :
    (bytes : List ℕ) → IsBytes bytes → bytes_of (length bytes) (word_at bytes) ≡ bytes
unfolding bytes_of
bytes_of-word_at [] h = refl
bytes_of-word_at (b ∷ bytes) h =
    let low : (b + word_at bytes * 256) % 256 ≡ b = omega (arith, h.0) in
    let high : (b + word_at bytes * 256) / 256 ≡ word_at bytes = omega (arith, h.0) in
    rw (word_at-cons b bytes, low, high, bytes_of-word_at bytes h.1)

read_buffer_words-Takes :
    (depth : ℕ) (bytes : List ℕ) (r : BitReader) (rest : List ℕ)
    → IsBytes bytes
    → IsValid r
    → left r ≡ bytes_bits bytes ++ rest
    → Takes (read_buffer_words depth (length bytes) r) bytes rest
unfolding read_buffer_words
read_buffer_words-Takes zero bytes r rest h v p = read_bytes-Takes bytes r rest h v p
read_buffer_words-Takes (suc depth) bytes r rest h v p = elim (Bool-cases (leb 8 (length bytes))) [
  | inl whole ↦
      let front = take 8 bytes in
      let back = drop 8 bytes in
      let size : length front ≡ 8 = length-take_le 8 bytes (ground arith) in
      let small : word_at front < 2 ^ 64 =
        subst (λ (t : ℕ). word_at front < 2 ^ (t * 8)) size
          (word_at-lt front (take-IsBytes 8 bytes h)) in
      let word : bytes_bits front ≡ to_bits 64 (word_at front) =
        sym (word_at-bits front (take-IsBytes 8 bytes h))
        ∙ ap (λ (t : ℕ). to_bits (t * 8) (word_at front)) size in
      let split : bytes_bits bytes ≡ to_bits 64 (word_at front) ++ bytes_bits back =
        ap bytes_bits (sym (take-append-drop 8 bytes))
        ∙ bytes_bits-append front back
        ∙ ap (λ (t : List ℕ). t ++ bytes_bits back) word in
      let (r', read, behind, valid, _) =
        read_ubits-Reads 64 (word_at front) r (bytes_bits back ++ rest) (omega arith) v (
          p
          ∙ ap (λ (t : List ℕ). t ++ rest) split
          ∙ append_assoc (to_bits 64 (word_at front)) (bytes_bits back) rest) in
      let (r'', read', behind', valid') =
        read_buffer_words-Takes depth back r' rest (drop-IsBytes 8 bytes h) valid behind in
      let size' : length bytes - 8 ≡ length back = sym (length-drop 8 bytes) in
      let bytes' : bytes_of 8 (word_at front % 2 ^ 64) ++ back ≡ bytes =
        ap (λ (t : ℕ). bytes_of 8 t ++ back) (mod-eq_of_lt small)
        ∙ ap (λ (t : ℕ). bytes_of t (word_at front) ++ back) (sym size)
        ∙ ap (λ (t : List ℕ). t ++ back) (bytes_of-word_at front (take-IsBytes 8 bytes h))
        ∙ take-append-drop 8 bytes in
      (
        r'',
        rw (whole, read, size', read') (ap (λ (t : List ℕ). ok (t, r'')) bytes'),
        behind',
        valid',
      )
  | inr short ↦ rw short (read_bytes-Takes bytes r rest h v p)
]

memory_bytes-bits :
    (memory : ℕ → ℕ) (a n : ℕ) → bytes_bits (memory_bytes memory a n) ≡ memory_bits memory a n
unfolding memory_bytes
memory_bytes-bits memory a zero = refl
memory_bytes-bits memory a (suc n) =
    ap (λ (t : List ℕ). to_bits 8 (memory a) ++ t) (memory_bytes-bits memory (a + 1) n)

length-memory_bytes : (memory : ℕ → ℕ) (a n : ℕ) → length (memory_bytes memory a n) ≡ n
unfolding memory_bytes
length-memory_bytes memory a zero = refl
length-memory_bytes memory a (suc n) = ap suc (length-memory_bytes memory (a + 1) n)

memory_bytes-IsBytes :
    (memory : ℕ → ℕ) (a n : ℕ) → ((i : ℕ) → memory i < 256) → IsBytes (memory_bytes memory a n)
unfolding memory_bytes
memory_bytes-IsBytes memory a zero h = tt
memory_bytes-IsBytes memory a (suc n) h = (h a, memory_bytes-IsBytes memory (a + 1) n h)

length-bytes_bits : (bytes : List ℕ) → length (bytes_bits bytes) ≡ 8 * length bytes
length-bytes_bits [] = refl
length-bytes_bits (b ∷ bytes) = omega (
  arith,
  length-append (to_bits 8 b) (bytes_bits bytes),
  length-to_bits 8 b,
  length-bytes_bits bytes,
)

-- The copy of whole bytes.
copied-Takes :
    (bytes : List ℕ) (r : BitReader) (rest : List ℕ)
    → IsBytes bytes
    → IsValid r
    → r.bit ≡ 0
    → length bytes ≤ r.num_bytes
    → left r ≡ bytes_bits bytes ++ rest
    → Takes
        (ok (
          memory_bytes r.memory r.buffer (length bytes),
          record r {
            buffer = r.buffer + length bytes;
            offset = r.offset + length bytes;
            num_bytes = r.num_bytes - length bytes;
            total_bits = r.total_bits + length bytes * 8;
          },
        ))
        bytes
        rest
unfolding left
copied-Takes bytes r rest h v e enough p =
    let n = length bytes in
    let taken = memory_bytes r.memory r.buffer n in
    let start : left r ≡ bytes_bits taken ++ memory_bits r.memory (r.buffer + n) (r.num_bytes - n) =
      ap (λ (t : ℕ). rest_bits r.memory r.buffer t r.num_bytes) e
      ∙ rest_bits-zero r.memory r.buffer r.num_bytes
      ∙ ap (memory_bits r.memory r.buffer) {x = r.num_bytes} {y = n + (r.num_bytes - n)}
          (omega arith)
      ∙ memory_bits-add r.memory r.buffer n (r.num_bytes - n)
      ∙ ap (λ (t : List ℕ). t ++ memory_bits r.memory (r.buffer + n) (r.num_bytes - n))
          (sym (memory_bytes-bits r.memory r.buffer n)) in
    let size : length (bytes_bits taken) ≡ length (bytes_bits bytes) = omega (
      arith,
      length-bytes_bits taken,
      length-bytes_bits bytes,
      length-memory_bytes r.memory r.buffer n,
    ) in
    let (same, behind) = append-inj (bytes_bits taken) (bytes_bits bytes) size (sym start ∙ p) in
    let value : taken ≡ bytes =
      bytes_bits-inj taken bytes (memory_bytes-IsBytes r.memory r.buffer n v.bytes) h
        (length-memory_bytes r.memory r.buffer n) same in
    let r' = record r {
      buffer = r.buffer + n;
      offset = r.offset + n;
      num_bytes = r.num_bytes - n;
      total_bits = r.total_bits + n * 8;
    } in
    (
      r',
      ap (λ (t : List ℕ). ok (t, r')) value,
      ap (λ (t : ℕ). rest_bits r.memory (r.buffer + n) t (r.num_bytes - n)) e
          ∙ rest_bits-zero r.memory (r.buffer + n) (r.num_bytes - n)
          ∙ behind,
      record { in_byte = v.in_byte; bytes = v.bytes },
    )

-- When the bits of `bytes` are next in a well-formed reader, `ReadBuffer` of so many bytes returns
-- them and leaves the bits behind, whether it copies, or reads words and single bytes.
pub read_buffer-Takes :
    (bytes : List ℕ) (r : BitReader) (rest : List ℕ)
    → IsBytes bytes
    → IsValid r
    → left r ≡ bytes_bits bytes ++ rest
    → (r' : BitReader) × (read_buffer (length bytes) r ≡ ok (bytes, r'))
      × (left r' ≡ rest)
      × IsValid r'
unfolding read_buffer
read_buffer-Takes bytes r rest h v p =
    elim (Bool-cases (r.bit == 0 && leb (length bytes) r.num_bytes)) [
      | inl copied ↦ rw copied (copied-Takes bytes r rest h v (ground arith) (ground arith) p)
      | inr read ↦ rw read (read_buffer_words-Takes (length bytes) bytes r rest h v p)
    ]
