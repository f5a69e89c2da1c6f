-- ===== src/BitWriter/Cursor/Place.antt =====
-- Where a cursor stands, and what it is to replace bits of a writer.
use storm_net.Prelude.{
  ℕ, ◌+◌, ◌*◌, ◌^◌, ◌≤◌, ◌<◌, ◌≡◌, refl, ap, sym, ◌∙◌, List, [], ◌∷◌, ◌++◌, append_assoc, length,
  length-append, arith,
}
use storm_net.Bits.{u64, to_bits}
use storm_net.Result.{Result, ok}
use storm_net.BitWriter.{BitWriter}
use storm_net.BitWriter.Content.{bits_of, vector_bits, IsValid}
use storm_net.BitWriter.Cursor.{Cursor, replace_bits, modify_at}
use storm_net.BitWriter.Cursor.RollBack.{length-vector_bits}
use storm_net.BitWriter.Cursor.Replace.{
  length-modify_at, modify_at-IsBytes, replace_bits-lt, modify_at-bits,
}

-- The cursor stands in front of a bit, with this much room and no more than that in its count.
pub record IsAt (c : Cursor) (place room most : ℕ) : Type 0 where
  pub some_bit : 0 < c.bit
  pub one_byte : c.bit ≤ 8
  pub byte_word : c.byte < 2 ^ 64
  pub here : u64 (c.byte + 1) * 8 + c.bit ≡ place + 8
  pub room_left : room ≤ c.size
  pub bounded : c.size ≤ most

-- The bits of the writer between others, and all else as it was.
pub record Replaced (w w' : BitWriter) (pre bits post : List ℕ) : Type 0 where
  pub content : bits_of w' ≡ pre ++ (bits ++ post)
  pub valid : IsValid w'
  pub same_size : length w'.buffer ≡ length w.buffer
  pub same_bit : w'.bit ≡ w.bit
  pub same_count : w'.total_bits ≡ w.total_bits

abbrev pub Writes :
    Result (Cursor × BitWriter) → BitWriter → ℕ → ℕ → ℕ → List ℕ → List ℕ → List ℕ → Type 0
Writes result w place room most pre bits post =
    (c : Cursor) × (w' : BitWriter) × (result ≡ ok (c, w'))
    × IsAt c place room most
    × Replaced w w' pre bits post

-- A byte in which bits are replaced.
pub change-Replaced :
    (i s k val : ℕ) (w : BitWriter) (pre mid post : List ℕ)
    → IsValid w
    → s + k ≤ 8
    → 0 < k
    → length pre ≡ i * 8 + s
    → length mid ≡ k
    → bits_of w ≡ pre ++ (mid ++ post)
    → (i < length w.buffer)
      × Replaced w
          (record w { buffer = modify_at i (replace_bits s k val) w.buffer })
          pre
          (to_bits k val)
          post
unfolding bits_of
change-Replaced i s k val w pre mid post v h some_bits front middle e =
    let total : length (vector_bits w.buffer w.bit) ≡ length (pre ++ (mid ++ post)) = ap length e in
    let inside : i < length w.buffer = omega (
      arith,
      front,
      middle,
      total,
      length-append pre (mid ++ post),
      length-append mid post,
      vector_bits-short w.buffer w.bit v.one_byte,
    ) in
    (
      inside,
      record {
        content =
            modify_at-bits i s k val w.bit w.buffer pre mid post h v.one_byte inside front middle e;
        valid = record {
          some_bit = v.some_bit;
          one_byte = v.one_byte;
          no_bytes = λ emptied. absurd (
              omega (
                arith,
                ap length emptied,
                length-modify_at i (replace_bits s k val) w.buffer,
                inside,
              ));
          bytes =
              modify_at-IsBytes i (replace_bits s k val) w.buffer
                (λ b small. replace_bits-lt s k val b h small) v.bytes;
        };
        same_size = length-modify_at i (replace_bits s k val) w.buffer;
        same_bit = refl;
        same_count = refl;
      },
    )
  where
    vector_bits-short :
        (buffer : List ℕ) (bit : ℕ) → bit ≤ 8 → length (vector_bits buffer bit) ≤ 8 * length buffer
    vector_bits-short [] bit h = omega arith
    vector_bits-short (b ∷ buffer) bit h = omega (arith, length-vector_bits b buffer bit)

-- One change after the other, of bits that stand next to each other.
pub Replaced-then :
    (w w' w'' : BitWriter) (pre first more rest post : List ℕ)
    → Replaced w w' pre first rest
    → Replaced w' w'' (pre ++ first) more post
    → Replaced w w'' pre (first ++ more) post
Replaced-then w w' w'' pre first more rest post r r' = record {
  content =
      r'.content
      ∙ append_assoc pre first (more ++ post)
      ∙ ap (λ (t : List ℕ). pre ++ t) (sym (append_assoc first more post));
  valid = r'.valid;
  same_size = r'.same_size ∙ r.same_size;
  same_bit = r'.same_bit ∙ r.same_bit;
  same_count = r'.same_count ∙ r.same_count;
}

pub Replaced-nothing :
    (w : BitWriter) (pre mid post : List ℕ)
    → IsValid w
    → length mid ≡ 0
    → bits_of w ≡ pre ++ (mid ++ post)
    → Replaced w w pre [] post
Replaced-nothing w pre [] post v h e = record {
  content = e;
  valid = v;
  same_size = refl;
  same_bit = refl;
  same_count = refl;
}
Replaced-nothing w pre (b ∷ mid) post v h e = absurd (omega arith)
