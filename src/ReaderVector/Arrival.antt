-- ===== src/ReaderVector/Arrival.antt =====
-- A reader made from a writer has the writer's bits left, and behind them the unused bits of the last
-- byte; so what any `NetSerializer` wrote, its `NetDeserializer` reads back.
use native.Mathlib.Numerals.{add-one}
use storm_net.Prelude.{
  ℕ, zero, suc, ◌+◌, ◌-◌, ◌≤◌, ◌<◌, ◌/◌, ◌^◌, ◌≡◌, refl, ap, sym, ◌∙◌, List, [], ◌∷◌, ◌++◌, length,
  append_assoc, append-nil, arith,
}
use storm_net.Bits.{IsBytes, to_bits, to_bits-split}
use storm_net.BitWriter.{BitWriter, empty}
use storm_net.BitReader.{vector_memory}
use storm_net.BitWriter.Content.{bits_of, vector_bits, IsValid as WriterValid}
use storm_net.BitReader.Content.{left, memory_bits, rest_bits-zero, IsValid as ReaderValid}
use storm_net.Codec.{Codec, Takes}
use storm_net.ReaderVector.{from_writer}

memory_bits-suc :
    (memory : ℕ → ℕ) (a n : ℕ)
    → memory_bits memory (suc a) n ≡ memory_bits (λ i. memory (suc i)) a n
memory_bits-suc memory a zero = refl
memory_bits-suc memory a (suc n) =
    rw (add-one a, add-one (suc a))
      (ap (λ (t : List ℕ). to_bits 8 (memory (suc a)) ++ t) (memory_bits-suc memory (suc a) n))

pub memory_bits-vector :
    (bytes : List ℕ) (behind : ℕ → ℕ)
    → memory_bits (vector_memory bytes behind) 0 (length bytes) ≡ vector_bits bytes 8
memory_bits-vector [] behind = refl
memory_bits-vector (b ∷ []) behind = append-nil (to_bits 8 b)
memory_bits-vector (b ∷ c ∷ rest) behind =
    ap (λ (t : List ℕ). to_bits 8 b ++ t)
      (memory_bits-suc (vector_memory (b ∷ c ∷ rest) behind) 0 (suc (length rest))
        ∙ memory_bits-vector (c ∷ rest) (λ i. behind (suc i)))

pub vector_memory-lt :
    (bytes : List ℕ) (behind : ℕ → ℕ)
    → IsBytes bytes
    → ((a : ℕ) → behind a < 256)
    → (a : ℕ) → vector_memory bytes behind a < 256
vector_memory-lt [] behind small h a = h a
vector_memory-lt (b ∷ bytes) behind small h zero = small.0
vector_memory-lt (b ∷ bytes) behind small h (suc a) =
    vector_memory-lt bytes (λ i. behind (suc i)) small.1 (λ i. h (suc i)) a

-- The bits of the last byte that are not in use.
pub unused : List ℕ → ℕ → List ℕ
unused [] bit = []
unused (b ∷ []) bit = to_bits (8 - bit) (b / 2 ^ bit)
unused (b ∷ c ∷ rest) bit = unused (c ∷ rest) bit

vector_bits-unused :
    (bytes : List ℕ) (bit : ℕ)
    → bit ≤ 8
    → vector_bits bytes 8 ≡ vector_bits bytes bit ++ unused bytes bit
unfolding unused
vector_bits-unused [] bit h = refl
vector_bits-unused (b ∷ []) bit h =
    ap (λ (t : ℕ). to_bits t b) {x = 8} {y = bit + (8 - bit)} (omega arith)
    ∙ to_bits-split bit (8 - bit) b
vector_bits-unused (b ∷ c ∷ rest) bit h =
    ap (λ (t : List ℕ). to_bits 8 b ++ t) (vector_bits-unused (c ∷ rest) bit h)
    ∙ sym (append_assoc (to_bits 8 b) (vector_bits (c ∷ rest) bit) (unused (c ∷ rest) bit))

-- The reader starts at the writer's first bit.
pub from_writer-left :
    (w : BitWriter) (behind : ℕ → ℕ)
    → WriterValid w
    → ((a : ℕ) → behind a < 256)
    → (left (from_writer w behind).0.reader ≡ bits_of w ++ unused w.buffer w.bit)
      × ReaderValid (from_writer w behind).0.reader
      × ((from_writer w behind).1 ≡ empty)
unfolding from_writer left bits_of
from_writer-left w behind v h = (
  rest_bits-zero (vector_memory w.buffer behind) 0 (length w.buffer)
      ∙ memory_bits-vector w.buffer behind
      ∙ vector_bits-unused w.buffer w.bit v.one_byte,
  record { in_byte = omega arith; bytes = vector_memory-lt w.buffer behind v.bytes h },
  refl,
)

pub empty-IsValid : WriterValid empty
empty-IsValid = record {
  some_bit = omega arith;
  one_byte = omega arith;
  no_bytes = λ e. refl;
  bytes = tt;
}

-- What is serialized into an empty writer, which is then moved into a reader, is deserialized as it
-- was, over any earlier value and whatever memory lies behind the vector; the unused bits of the last
-- byte are left. It holds of every serializer that meets the interface, at the values that fit.
pub codec_roundtrip :
    {T : Type 0} (c : Codec T) (t old : T) (behind : ℕ → ℕ)
    → c.Fits t
    → ((a : ℕ) → behind a < 256)
    → Takes
        (c.deserialize old (from_writer (c.serialize t empty) behind).0.reader)
        t
        (unused (c.serialize t empty).buffer (c.serialize t empty).bit)
codec_roundtrip c t old behind fits h =
    let w = c.serialize t empty in
    let (wrote, valid) = c.serialize-Appends t empty empty-IsValid in
    let (start, ready, _) = from_writer-left w behind valid h in
    c.deserialize-Takes old t (from_writer w behind).0.reader (unused w.buffer w.bit) fits ready
      (start ∙ ap (λ (x : List ℕ). x ++ unused w.buffer w.bit) (wrote ∙ unfold bits_of in refl))
