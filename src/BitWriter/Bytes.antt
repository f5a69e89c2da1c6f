-- ===== src/BitWriter/Bytes.antt =====
-- `WriteBuffer` appends the bits of its bytes on both of its branches.
use storm_net.Prelude.{
  ℕ, zero, suc, ◌+◌, ◌*◌, ◌^◌, ◌+◌, ◌<◌, ◌≡◌, refl, ap, sym, ◌∙◌, List, [], ◌∷◌, ◌++◌, length,
  length-take_le, take, drop, take-append-drop, append_assoc, append-nil, arith, leb, ◌==◌, ◌&&◌,
  Bool-cases, inl, inr,
}
use storm_net.Bits.{◌<<<◌, pow_add, to_bits, to_bits-add, bytes_bits, IsBytes}
use storm_net.BitWriter.{
  BitWriter, write_bits, write_bytes, word_at, write_buffer_words, write_buffer,
}
use storm_net.BitWriter.Content.{bits_of, vector_bits, IsValid, append-IsBytes}
use storm_net.BitWriter.Append.{Appends, Appends-nil, Appends-then, write_bits-Appends}

pub word_at-bits :
    (bytes : List ℕ) → IsBytes bytes → to_bits (length bytes * 8) (word_at bytes) ≡ bytes_bits bytes
unfolding word_at
word_at-bits [] h = refl
word_at-bits (b ∷ bytes) h =
    let width : suc (length bytes) * 8 ≡ 8 + length bytes * 8 = omega arith in
    rw (width, to_bits-add 8 (length bytes * 8) b (word_at bytes) h.0, word_at-bits bytes h.1)

pub word_at-lt : (bytes : List ℕ) → IsBytes bytes → word_at bytes < 2 ^ (length bytes * 8)
unfolding word_at
word_at-lt [] h = omega arith
word_at-lt (b ∷ bytes) h =
    let width : suc (length bytes) * 8 ≡ length bytes * 8 + 8 = omega arith in
    rw (width, pow_add (length bytes * 8) 8) (omega (arith, h.0, word_at-lt bytes h.1))

pub word_at-cons : (b : ℕ) (bytes : List ℕ) → word_at (b ∷ bytes) ≡ b + word_at bytes <<< 8
unfolding word_at
word_at-cons b bytes = refl

pub take-IsBytes : (n : ℕ) (bytes : List ℕ) → IsBytes bytes → IsBytes (take n bytes)
take-IsBytes zero bytes h = tt
take-IsBytes (suc n) [] h = tt
take-IsBytes (suc n) (b ∷ bytes) h = (h.0, take-IsBytes n bytes h.1)

pub drop-IsBytes : (n : ℕ) (bytes : List ℕ) → IsBytes bytes → IsBytes (drop n bytes)
drop-IsBytes zero bytes h = h
drop-IsBytes (suc n) [] h = tt
drop-IsBytes (suc n) (b ∷ bytes) h = drop-IsBytes n bytes h.1

pub bytes_bits-append : (xs ys : List ℕ) → bytes_bits (xs ++ ys) ≡ bytes_bits xs ++ bytes_bits ys
bytes_bits-append [] ys = refl
bytes_bits-append (x ∷ xs) ys =
    ap (λ (t : List ℕ). to_bits 8 x ++ t) (bytes_bits-append xs ys)
    ∙ sym (append_assoc (to_bits 8 x) (bytes_bits xs) (bytes_bits ys))

pub write_bytes-Appends :
    (bytes : List ℕ) (w : BitWriter)
    → IsValid w
    → Appends w (write_bytes bytes w) (bytes_bits bytes)
unfolding write_bytes
write_bytes-Appends [] w v = Appends-nil w v
write_bytes-Appends (b ∷ bytes) w v =
    Appends-then w (write_bits b 8 w) (write_bytes bytes (write_bits b 8 w)) (to_bits 8 b)
      (bytes_bits bytes) (write_bits-Appends b 8 w v) (write_bytes-Appends bytes (write_bits b 8 w))

write_buffer_words-Appends :
    (depth : ℕ) (bytes : List ℕ) (w : BitWriter)
    → IsBytes bytes
    → IsValid w
    → Appends w (write_buffer_words depth bytes w) (bytes_bits bytes)
unfolding write_buffer_words
write_buffer_words-Appends zero bytes w h v = write_bytes-Appends bytes w v
write_buffer_words-Appends (suc depth) bytes w h v = elim (Bool-cases (leb 8 (length bytes))) [
  | inl whole ↦
      let front = take 8 bytes in
      let w' = write_bits (word_at front) 64 w in
      let (here, valid) = write_bits-Appends (word_at front) 64 w v in
      let size : length front ≡ 8 = length-take_le 8 bytes (ground arith) in
      let word : to_bits 64 (word_at front) ≡ bytes_bits front =
        ap (λ (t : ℕ). to_bits (t * 8) (word_at front)) (sym size)
        ∙ word_at-bits front (take-IsBytes 8 bytes h) in
      let joined : bytes_bits front ++ bytes_bits (drop 8 bytes) ≡ bytes_bits bytes =
        sym (bytes_bits-append front (drop 8 bytes)) ∙ ap bytes_bits (take-append-drop 8 bytes) in
      let done =
        Appends-then w w' (write_buffer_words depth (drop 8 bytes) w') (bytes_bits front)
          (bytes_bits (drop 8 bytes)) (here ∙ ap (λ (t : List ℕ). bits_of w ++ t) word, valid)
          (write_buffer_words-Appends depth (drop 8 bytes) w' (drop-IsBytes 8 bytes h)) in
      rw whole (done.0 ∙ ap (λ (t : List ℕ). bits_of w ++ t) joined, done.1)
  | inr short ↦ rw short (write_bytes-Appends bytes w v)
]

vector_bits-append : (xs ys : List ℕ) → vector_bits (xs ++ ys) 8 ≡ vector_bits xs 8 ++ bytes_bits ys
vector_bits-append [] [] = refl
vector_bits-append [] (y ∷ []) = sym (append-nil (to_bits 8 y))
vector_bits-append [] (y ∷ z ∷ ys) =
    ap (λ (t : List ℕ). to_bits 8 y ++ t) (vector_bits-append [] (z ∷ ys))
vector_bits-append (x ∷ []) [] = sym (append-nil (to_bits 8 x))
vector_bits-append (x ∷ []) (y ∷ ys) =
    ap (λ (t : List ℕ). to_bits 8 x ++ t) (vector_bits-append [] (y ∷ ys))
vector_bits-append (x ∷ x' ∷ xs) ys =
    ap (λ (t : List ℕ). to_bits 8 x ++ t) (vector_bits-append (x' ∷ xs) ys)
    ∙ sym (append_assoc (to_bits 8 x) (vector_bits (x' ∷ xs) 8) (bytes_bits ys))

copied-Appends :
    (bytes : List ℕ) (w : BitWriter)
    → IsBytes bytes
    → IsValid w
    → w.bit ≡ 8
    → Appends w (record w { buffer = w.buffer ++ bytes }) (bytes_bits bytes)
unfolding bits_of
copied-Appends bytes w h v e = (
  ap (vector_bits (w.buffer ++ bytes)) e
      ∙ vector_bits-append w.buffer bytes
      ∙ ap (λ (t : ℕ). vector_bits w.buffer t ++ bytes_bits bytes) (sym e),
  record {
    some_bit = v.some_bit;
    one_byte = v.one_byte;
    no_bytes = λ _. e;
    bytes = append-IsBytes w.buffer bytes v.bytes h;
  },
)

-- On every branch, at any position in the byte, `WriteBuffer` appends the bits of its bytes in
-- order to a well-formed writer, and keeps it well-formed.
pub write_buffer-Appends :
    (bytes : List ℕ) (w : BitWriter)
    → IsBytes bytes
    → IsValid w
    → (bits_of (write_buffer bytes w) ≡ bits_of w ++ bytes_bits bytes)
      × IsValid (write_buffer bytes w)
unfolding write_buffer
write_buffer-Appends bytes w h v = elim (Bool-cases (w.bit == 8 && leb 64 (length bytes))) [
  | inl copied ↦ rw copied (copied-Appends bytes w h v (ground arith))
  | inr written ↦ rw written (write_buffer_words-Appends (length bytes) bytes w h v)
]
