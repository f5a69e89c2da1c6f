-- ===== src/BitReader/Take.antt =====
-- `ReadUBits` takes the bits that are next, whatever the position in the byte.
use native.Mathlib.Nat.{div-div-eq-div-mul, mod-eq_of_lt, div-lt_iff_lt-mul, one-le-pow}
use storm_net.Prelude.{
  ℕ, zero, suc, ◌+◌, ◌-◌, ◌*◌, ◌/◌, ◌%◌, ◌^◌, ◌≤◌, ◌<◌, ◌≡◌, ◌⊎◌, inl, inr, refl, ap, sym, ◌∙◌,
  List, ◌++◌, length, length-append, append-inj, append_assoc, arith, bit_or, Bool-cases, ◌==◌, leb,
  ◌&&◌, suc-eq-zero, subst, false, dec_lt,
}
use storm_net.Bits.{
  to_bits, to_bits-split, to_bits-inj, length-to_bits, bit_or_halves, mod_pow_lt, pow_add, pow_mono,
  field_fits, u64, low_bits, ◌<<<◌, ◌>>>◌,
}
use storm_net.Result.{Result, ok, ◌>>=◌}
use storm_net.BitReader.{BitReader, read_word, next_byte, read_bits_internal, read_ubits}
use storm_net.BitReader.Content.{
  memory_bits, rest_bits, left, IsValid, rest_bits-zero, length-memory_bits,
}
use storm_net.BitReader.Word.{read_word-left}

-- The call returns the value and leaves the bits of `rest`, in a well-formed reader.
abbrev pub Reads : BitReader → Result (ℕ × BitReader) → ℕ → List ℕ → Type 0
Reads r result val rest =
    (r' : BitReader) × (result ≡ ok (val, r'))
    × (left r' ≡ rest)
    × IsValid r'
    × (r'.total_bits ≡ r.total_bits)

pub count-cases : (n : ℕ) → (n ≡ 0) ⊎ ((m : ℕ) × (n ≡ suc m))
count-cases zero = inl refl
count-cases (suc n) = inr (n, refl)

-- What is left starts with the unread bits of the first byte.
left-suc :
    (r : BitReader) (c : ℕ)
    → r.num_bytes ≡ suc c
    → left r
      ≡ to_bits (8 - r.bit) (r.memory r.buffer / 2 ^ r.bit) ++ memory_bits r.memory (r.buffer + 1) c
unfolding left
left-suc r c e = ap (rest_bits r.memory r.buffer r.bit) e

pub length-left :
    (r : BitReader) (c : ℕ) → r.num_bytes ≡ suc c → length (left r) ≡ 8 - r.bit + 8 * c
length-left r c e =
    let first = to_bits (8 - r.bit) (r.memory r.buffer / 2 ^ r.bit) in
    ap length (left-suc r c e)
    ∙ length-append first (memory_bits r.memory (r.buffer + 1) c)
    ∙ omega (
      arith,
      length-to_bits (8 - r.bit) (r.memory r.buffer / 2 ^ r.bit),
      length-memory_bits r.memory (r.buffer + 1) c,
    )

left-nonempty :
    (r : BitReader) (n v : ℕ) (rest : List ℕ)
    → r.num_bytes ≡ 0
    → left r ≡ to_bits (suc n) v ++ rest
    → ⊥
unfolding left
left-nonempty r n v rest e p = let none_left = ap (rest_bits r.memory r.buffer r.bit) e in cc

pub left-next_byte :
    (r : BitReader) (c : ℕ)
    → r.num_bytes ≡ suc c
    → left (next_byte r) ≡ memory_bits r.memory (r.buffer + 1) c
unfolding left
left-next_byte r c e =
    rest_bits-zero r.memory (r.buffer + 1) (r.num_bytes - 1)
    ∙ ap (memory_bits r.memory (r.buffer + 1)) {x = r.num_bytes - 1} {y = c} (omega arith)

-- The unread bits of a byte are a number of so many bits.
shifted-lt : (b bit : ℕ) → b < 256 → bit < 8 → b / 2 ^ bit < 2 ^ (8 - bit)
shifted-lt b bit h k =
    let whole : 2 ^ (8 - bit) * 2 ^ bit ≡ 256 =
      sym (pow_add (8 - bit) bit)
      ∙ ap (λ (t : ℕ). 2 ^ t) {x = 8 - bit + bit} {y = 8} (omega arith) in
    (div-lt_iff_lt-mul (one-le-pow bit 2 (omega arith))).1 (rw whole h)

-- A field that ends inside the byte.
inside-Reads :
    (r : BitReader) (c n v : ℕ) (rest : List ℕ)
    → IsValid r
    → r.num_bytes ≡ suc c
    → r.bit + n < 8
    → left r ≡ to_bits n v ++ rest
    → Reads r
        (ok (low_bits (r.memory r.buffer >>> r.bit) n, record r { bit = r.bit + n }))
        (v % 2 ^ n)
        rest
unfolding left
inside-Reads r c n v rest valid e inside p =
    let byte = r.memory r.buffer / 2 ^ r.bit in
    let more =
      to_bits (8 - (r.bit + n)) (r.memory r.buffer / 2 ^ (r.bit + n))
      ++ memory_bits r.memory (r.buffer + 1) c in
    let deeper : byte / 2 ^ n ≡ r.memory r.buffer / 2 ^ (r.bit + n) =
      div-div-eq-div-mul (r.memory r.buffer) (2 ^ r.bit) (2 ^ n)
      ∙ ap (λ (t : ℕ). r.memory r.buffer / t) (sym (pow_add r.bit n)) in
    let split : to_bits (8 - r.bit) byte
        ≡ to_bits n byte ++ to_bits (8 - (r.bit + n)) (r.memory r.buffer / 2 ^ (r.bit + n)) =
      ap (λ (t : ℕ). to_bits t byte) {x = 8 - r.bit} {y = n + (8 - (r.bit + n))} (omega arith)
      ∙ to_bits-split n (8 - (r.bit + n)) byte
      ∙ ap (λ (t : ℕ). to_bits n byte ++ to_bits (8 - (r.bit + n)) t) deeper in
    let whole : to_bits n byte ++ more ≡ to_bits n v ++ rest =
      sym (append_assoc (to_bits n byte) _ (memory_bits r.memory (r.buffer + 1) c))
      ∙ ap (λ (t : List ℕ). t ++ memory_bits r.memory (r.buffer + 1) c) (sym split)
      ∙ sym (left-suc r c e)
      ∙ p in
    let (same, behind) =
      append-inj (to_bits n byte) (to_bits n v) (length-to_bits n byte ∙ sym (length-to_bits n v))
        whole in
    (
      record r { bit = r.bit + n },
      ap (λ (t : ℕ). ok (t, record r { bit = r.bit + n })) (to_bits-inj n byte v same),
      ap (rest_bits r.memory r.buffer (r.bit + n)) e ∙ behind,
      record { in_byte = inside; bytes = valid.bytes },
      refl,
    )

-- The two parts of a field that goes on in the next byte.
crossing-value :
    (byte s t v : ℕ)
    → byte < 2 ^ s
    → byte ≡ v % 2 ^ s
    → s + t ≤ 64
    → bit_or (low_bits byte (s + t)) (u64 ((v / 2 ^ s % 2 ^ t) <<< s)) ≡ v % 2 ^ (s + t)
crossing-value byte s t v small e fits =
    let small' : byte < 2 ^ (s + t) = omega (arith, pow_mono s (s + t) (omega arith)) in
    let width : 2 ^ t ≡ 2 ^ (s + t - s) = ap (λ (x : ℕ). 2 ^ x) (omega arith) in
    let room : (v / 2 ^ s % 2 ^ t + 1) * 2 ^ s ≤ 2 ^ (s + t) =
      field_fits (s + t) s (v / 2 ^ s % 2 ^ t) (omega arith)
        (omega (arith, mod_pow_lt t (v / 2 ^ s), width)) in
    let below : v / 2 ^ s % 2 ^ t * 2 ^ s < 2 ^ 64 =
      omega (arith, room, pow_mono (s + t) 64 fits, one-le-pow s 2 (omega arith)) in
    rw (mod-eq_of_lt small', mod-eq_of_lt below, e) (bit_or_halves s t v)

-- A field that uses up the byte.
crossing-split :
    (r : BitReader) (c t v : ℕ) (rest : List ℕ)
    → IsValid r
    → r.num_bytes ≡ suc c
    → left r ≡ to_bits (8 - r.bit + t) v ++ rest
    → (r.memory r.buffer / 2 ^ r.bit ≡ v % 2 ^ (8 - r.bit))
      × (left (next_byte r) ≡ to_bits t (v / 2 ^ (8 - r.bit)) ++ rest)
crossing-split r c t v rest valid e p =
    let byte = r.memory r.buffer / 2 ^ r.bit in
    let s = 8 - r.bit in
    let whole : to_bits s byte ++ memory_bits r.memory (r.buffer + 1) c
        ≡ to_bits s v ++ (to_bits t (v / 2 ^ s) ++ rest) =
      sym (left-suc r c e)
      ∙ p
      ∙ ap (λ (x : List ℕ). x ++ rest) (to_bits-split s t v)
      ∙ append_assoc (to_bits s v) (to_bits t (v / 2 ^ s)) rest in
    let (same, behind) =
      append-inj (to_bits s byte) (to_bits s v) (length-to_bits s byte ∙ sym (length-to_bits s v))
        whole in
    (
      sym (mod-eq_of_lt (shifted-lt (r.memory r.buffer) r.bit (valid.bytes r.buffer) valid.in_byte))
          ∙ to_bits-inj s byte v same,
      left-next_byte r c e ∙ behind,
    )

word-Reads :
    (r : BitReader) (v : ℕ) (rest : List ℕ)
    → IsValid r
    → 8 ≤ r.num_bytes
    → left r ≡ to_bits 64 v ++ rest
    → Reads r (ok (read_word r)) (v % 2 ^ 64) rest
word-Reads r v rest valid enough p =
    let c = r.num_bytes - 8 in
    let (whole, small, valid') = read_word-left r c valid (omega arith) behind in
    let (same, next) =
      append-inj (to_bits 64 (read_word r).0) (to_bits 64 v)
        (length-to_bits 64 (read_word r).0 ∙ sym (length-to_bits 64 v)) (whole ∙ p) in
    let value : (read_word r).0 ≡ v % 2 ^ 64 =
      sym (mod-eq_of_lt small) ∙ to_bits-inj 64 (read_word r).0 v same in
    (
      (read_word r).1,
      ap (λ (t : ℕ). ok (t, (read_word r).1)) value,
      next,
      valid',
      unfold read_word in refl,
    )
  where
    lengths : 8 - r.bit + 8 * (r.num_bytes - 1) ≡ 64 + length rest
    lengths =
        sym (length-left r (r.num_bytes - 1) (omega arith))
        ∙ ap length p
        ∙ length-append (to_bits 64 v) rest

    behind : (r.bit ≡ 0) ⊎ (0 < r.num_bytes - 8)
    behind = elim (dec_lt 0 (r.num_bytes - 8)) [
      | yes more ↦ inr more
      | no none_more ↦ inl (omega (arith, lengths))
    ]

crossing-Reads :
    (r : BitReader) (c n v : ℕ) (rest : List ℕ) (inner : Result (ℕ × BitReader))
    → IsValid r
    → r.num_bytes ≡ suc c
    → 8 ≤ r.bit + n
    → n ≤ 64
    → left r ≡ to_bits n v ++ rest
    → (left (next_byte r) ≡ to_bits (n - (8 - r.bit)) (v / 2 ^ (8 - r.bit)) ++ rest
        → Reads (next_byte r) inner (v / 2 ^ (8 - r.bit) % 2 ^ (n - (8 - r.bit))) rest)
    → Reads r
        (inner >>= λ read. ok (
          bit_or (low_bits (r.memory r.buffer >>> r.bit) n) (u64 (read.0 <<< (8 - r.bit))),
          read.1,
        ))
        (v % 2 ^ n)
        rest
crossing-Reads r c n v rest inner valid e over fits p ih =
    let s = 8 - r.bit in
    let t = n - (8 - r.bit) in
    let sum : n ≡ s + t = omega arith in
    let (byte, next) =
      crossing-split r c t v rest valid e (p ∙ ap (λ (x : ℕ). to_bits x v ++ rest) sum) in
    let (r', read, behind, valid', total) = ih next in
    let value : bit_or (low_bits (r.memory r.buffer >>> r.bit) (s + t))
          (u64 ((v / 2 ^ s % 2 ^ t) <<< s))
        ≡ v % 2 ^ (s + t) =
      crossing-value (r.memory r.buffer / 2 ^ r.bit) s t v
        (shifted-lt (r.memory r.buffer) r.bit (valid.bytes r.buffer) valid.in_byte) byte
        (omega arith) in
    (
      r',
      rw read (
          ap (λ (x : ℕ). ok (x, r'))
            (ap
                (λ (x : ℕ).
                  bit_or (low_bits (r.memory r.buffer >>> r.bit) x)
                    (u64 ((v / 2 ^ s % 2 ^ t) <<< s)))
                sum
              ∙ value
              ∙ ap (λ (x : ℕ). v % 2 ^ x) (sym sum))),
      behind,
      valid',
      total,
    )

read_bits_internal-Reads :
    (depth n v : ℕ) (r : BitReader) (rest : List ℕ)
    → n ≤ depth
    → n ≤ 64
    → IsValid r
    → left r ≡ to_bits n v ++ rest
    → Reads r (read_bits_internal depth n r) (v % 2 ^ n) rest
unfolding read_bits_internal
read_bits_internal-Reads zero zero v r rest h fits valid p =
    (r, ap (λ (t : ℕ). ok (t, r)) (omega arith), p, valid, refl)
read_bits_internal-Reads zero (suc n) v r rest h fits valid p = absurd (omega arith)
read_bits_internal-Reads (suc depth) zero v r rest h fits valid p =
    (r, ap (λ (t : ℕ). ok (t, r)) (omega arith), p, valid, refl)
read_bits_internal-Reads (suc depth) (suc n) v r rest h fits valid p =
    elim (Bool-cases (suc n == 64 && leb 8 r.num_bytes)) [
      | inl whole ↦
          let width : suc n ≡ 64 = ground arith in
          rw (suc-eq-zero n, whole)
            (subst (λ (x : ℕ). Reads r (ok (read_word r)) (v % 2 ^ x) rest) (sym width)
              (word-Reads r v rest valid (ground arith)
                (subst (λ (x : ℕ). left r ≡ to_bits x v ++ rest) width p)))
      | inr part ↦ elim (count-cases r.num_bytes) [
        | inl none_left ↦ absurd (left-nonempty r n v rest none_left p)
        | inr (c, some_left) ↦
            let more : (r.num_bytes == 0) ≡ false = ground arith in
            elim (Bool-cases (leb 8 (r.bit + suc n))) [
              | inl over ↦
                  rw (suc-eq-zero n, part, more, over)
                    (crossing-Reads r c (suc n) v rest _ valid some_left (ground arith) fits p (λ q.
                      read_bits_internal-Reads depth (suc n - (8 - r.bit)) (v / 2 ^ (8 - r.bit))
                        (next_byte r) rest (omega (arith, valid.in_byte)) (omega arith)
                        (record { in_byte = omega arith; bytes = valid.bytes }) q))
              | inr inside ↦
                  rw (suc-eq-zero n, part, more, inside)
                    (inside-Reads r c (suc n) v rest valid some_left (ground arith) p)
            ]
      ]
    ]

-- When the bits that a well-formed reader has left begin with the `n` low bits of `v`, reading `n`
-- bits, at most 64, returns those bits of `v`, leaves the bits behind them and counts `n` bits; the
-- reader stays well-formed.
pub read_ubits-Reads :
    (n v : ℕ) (r : BitReader) (rest : List ℕ)
    → n ≤ 64
    → IsValid r
    → left r ≡ to_bits n v ++ rest
    → (r' : BitReader) × (read_ubits n r ≡ ok (v % 2 ^ n, r'))
      × (left r' ≡ rest)
      × IsValid r'
      × (r'.total_bits ≡ r.total_bits + n)
unfolding read_ubits left
read_ubits-Reads n v r rest fits valid p =
    read_bits_internal-Reads n n v (record r { total_bits = r.total_bits + n }) rest (omega arith)
      fits (record { in_byte = valid.in_byte; bytes = valid.bytes }) p
