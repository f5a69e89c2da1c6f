-- ===== src/BitWriter/Append.antt =====
-- `WriteBits` appends the low bits of its value, whatever the state of the last byte.
use native.Mathlib.Nat.{mod-eq_of_lt, one-le-pow}
use storm_net.Prelude.{
  ℕ, zero, suc, ◌+◌, ◌-◌, ◌*◌, ◌/◌, ◌%◌, ◌^◌, ◌≤◌, ◌<◌, ◌≡◌, refl, ap, sym, ◌∙◌, List, [], ◌∷◌,
  ◌++◌, min, bit_or, append_assoc, append-nil, arith, ◌==◌, suc-eq-zero, Bool-cases, inl, inr,
}
use storm_net.Bits.{
  field_fits, to_bits, to_bits-mod_le, to_bits-chunk, to_bits-or, mod_pow_lt, bit_or_disjoint, u8,
  ◌>>>◌,
}
use storm_net.BitWriter.{
  BitWriter, push_back, modify_back, fill_byte, write_bits_internal, write_bits,
}
use storm_net.BitWriter.Content.{
  bits_of, vector_bits, IsValid, vector_bits-push_back, vector_bits-modify_back,
  modify_back-nonempty, push_back-nonempty, modify_back-IsBytes, append-IsBytes,
}

fill_byte-sum :
    (k val b : ℕ) → k ≤ 8 → fill_byte k val b ≡ bit_or (b % 2 ^ k) (val % 2 ^ (8 - k) * 2 ^ k)
fill_byte-sum k val b h =
    let room : val % 2 ^ (8 - k) * 2 ^ k < 256 = omega (
      arith,
      field_fits 8 k (val % 2 ^ (8 - k)) h (mod_pow_lt (8 - k) val),
      one-le-pow k 2 (omega arith),
    ) in
    rw (mod-eq_of_lt room)

fill_byte-bits :
    (k m val b : ℕ)
    → k ≤ 8
    → m ≤ 8 - k
    → to_bits (k + m) (fill_byte k val b) ≡ to_bits k b ++ to_bits m val
fill_byte-bits k m val b h fits = rw (
  fill_byte-sum k val b h,
  to_bits-or k m b (val % 2 ^ (8 - k)),
  to_bits-mod_le m (8 - k) val fits,
)

fill_byte-lt : (k val b : ℕ) → k ≤ 8 → fill_byte k val b < 256
fill_byte-lt k val b h =
    rw (fill_byte-sum k val b h, bit_or_disjoint k (b % 2 ^ k) (val % 2 ^ (8 - k)) (mod_pow_lt k b))
      (omega (arith, field_fits 8 k (val % 2 ^ (8 - k)) h (mod_pow_lt (8 - k) val), mod_pow_lt k b))

-- What a write of `n` bits of `val` owes: the bits are behind those of before.
abbrev Appended : BitWriter → ℕ → ℕ → BitWriter → Type 0
Appended w n val w' =
    (bits_of w' ≡ bits_of w ++ to_bits n val) × IsValid w' × (w'.total_bits ≡ w.total_bits)

Appended-trans :
    (w w' w'' : BitWriter) (s n val : ℕ)
    → Appended w (min n s) val w'
    → Appended w' (n - s) (val / 2 ^ s) w''
    → Appended w n val w''
Appended-trans w w' w'' s n val p q = (
  q.0
      ∙ ap (λ (t : List ℕ). t ++ to_bits (n - s) (val / 2 ^ s)) p.0
      ∙ append_assoc (bits_of w) (to_bits (min n s) val) (to_bits (n - s) (val / 2 ^ s))
      ∙ ap (λ (t : List ℕ). bits_of w ++ t) (sym (to_bits-chunk s n val)),
  q.1,
  q.2 ∙ p.2,
)

-- A new byte at the end of a full one.
fresh-Appended :
    (w : BitWriter) (n val : ℕ)
    → IsValid w
    → w.bit ≡ 8
    → 0 < n
    → Appended w (min n 8) val (record w { buffer = push_back w.buffer (u8 val); bit = min 8 n })
unfolding bits_of
fresh-Appended w n val v full pos = (
  vector_bits-push_back w.buffer (u8 val) (min 8 n)
      ∙ ap (λ (t : List ℕ). vector_bits w.buffer 8 ++ t)
          (to_bits-mod_le (min 8 n) 8 val (omega arith))
      ∙ ap (λ (t : ℕ). vector_bits w.buffer 8 ++ to_bits t val) {x = min 8 n} {y = min n 8}
          (omega arith)
      ∙ ap (λ (t : ℕ). vector_bits w.buffer t ++ to_bits (min n 8) val) (sym full),
  record {
    some_bit = omega arith;
    one_byte = omega arith;
    no_bytes = λ e. absurd (push_back-nonempty w.buffer (u8 val) e);
    bytes = unfold push_back in append-IsBytes w.buffer (u8 val ∷ []) v.bytes (omega arith, tt);
  },
  refl,
)

-- The free bits of the last byte.
filled-Appended :
    (w : BitWriter) (n val : ℕ)
    → IsValid w
    → w.bit < 8
    → 0 < n
    → Appended w
        (min n (8 - w.bit))
        val
        (record w { buffer = modify_back (fill_byte w.bit val) w.buffer; bit = min 8 (w.bit + n) })
unfolding bits_of
filled-Appended w n val v part pos = (
  vector_bits-modify_back (fill_byte w.bit val) w.buffer (to_bits (min n (8 - w.bit)) val) w.bit
      (min 8 (w.bit + n)) (λ e. absurd (omega (arith, v.no_bytes e)))
      (λ b.
        ap (λ (t : ℕ). to_bits t (fill_byte w.bit val b)) {x = min 8 (w.bit + n)}
          {y = w.bit + min n (8 - w.bit)} (omega arith)
        ∙ fill_byte-bits w.bit (min n (8 - w.bit)) val b (omega arith) (omega arith)),
  record {
    some_bit = omega arith;
    one_byte = omega arith;
    no_bytes = λ e.
        absurd (omega (arith, v.no_bytes (modify_back-nonempty (fill_byte w.bit val) w.buffer e)));
    bytes =
        modify_back-IsBytes (fill_byte w.bit val) w.buffer
          (λ b. fill_byte-lt w.bit val b (omega arith)) v.bytes;
  },
  refl,
)

write_bits_internal-Appended :
    (depth val n : ℕ) (w : BitWriter)
    → n ≤ depth
    → IsValid w
    → Appended w n val (write_bits_internal depth val n w)
unfolding write_bits_internal
write_bits_internal-Appended zero val zero w h v = (sym (append-nil (bits_of w)), v, refl)
write_bits_internal-Appended zero val (suc n) w h v = absurd (omega arith)
write_bits_internal-Appended (suc depth) val zero w h v = (sym (append-nil (bits_of w)), v, refl)
write_bits_internal-Appended (suc depth) val (suc n) w h v = elim (Bool-cases (8 - w.bit == 0)) [
  | inl full ↦
      let w' = record w { buffer = push_back w.buffer (u8 val); bit = min 8 (suc n) } in
      let here = fresh-Appended w (suc n) val v (ground arith) (omega arith) in
      rw (suc-eq-zero n, full)
        (Appended-trans w w' _ 8 (suc n) val here
          (write_bits_internal-Appended depth (val >>> 8) (suc n - 8) w' (omega arith) here.1))
  | inr part ↦
      let w' = record w {
        buffer = modify_back (fill_byte w.bit val) w.buffer;
        bit = min 8 (w.bit + suc n);
      } in
      let here = filled-Appended w (suc n) val v (ground arith) (omega arith) in
      let taken : suc n - min (suc n) (8 - w.bit) ≡ suc n - (8 - w.bit) = omega arith in
      rw (suc-eq-zero n, part, taken)
        (Appended-trans w w' _ (8 - w.bit) (suc n) val here (
          write_bits_internal-Appended depth (val >>> (8 - w.bit)) (suc n - (8 - w.bit)) w'
            (ground arith) here.1))
]

-- Writing `n` bits of any value to a well-formed writer appends exactly the `n` low bits of the
-- value, keeps the writer well-formed and counts the bits.
pub write_bits-Appended :
    (val n : ℕ) (w : BitWriter)
    → IsValid w
    → (bits_of (write_bits val n w) ≡ bits_of w ++ to_bits n val)
      × IsValid (write_bits val n w)
      × ((write_bits val n w).total_bits ≡ w.total_bits + n)
unfolding write_bits bits_of
write_bits-Appended val n w v =
    let w' = record w { total_bits = w.total_bits + n } in
    write_bits_internal-Appended n val n w' (omega arith) (record {
      some_bit = v.some_bit;
      one_byte = v.one_byte;
      no_bytes = v.no_bytes;
      bytes = v.bytes;
    })

-- A call adds these bits and leaves a well-formed writer.
abbrev pub Appends : BitWriter → BitWriter → List ℕ → Type 0
Appends w w' bits = (bits_of w' ≡ bits_of w ++ bits) × IsValid w'

pub Appends-nil : (w : BitWriter) → IsValid w → Appends w w []
Appends-nil w v = (sym (append-nil (bits_of w)), v)

pub Appends-then :
    (w w' w'' : BitWriter) (xs ys : List ℕ)
    → Appends w w' xs
    → (IsValid w' → Appends w' w'' ys)
    → Appends w w'' (xs ++ ys)
Appends-then w w' w'' xs ys p q =
    ((q p.1).0 ∙ ap (λ (t : List ℕ). t ++ ys) p.0 ∙ append_assoc (bits_of w) xs ys, (q p.1).1)

pub write_bits-Appends :
    (val n : ℕ) (w : BitWriter) → IsValid w → Appends w (write_bits val n w) (to_bits n val)
write_bits-Appends val n w v = let done = write_bits-Appended val n w v in (done.0, done.1)
