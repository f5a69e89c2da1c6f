-- ===== src/BitWriter/Cursor/Replace.antt =====
-- Bits of one byte of a writer, replaced.
use native.Mathlib.Nat.{div-div-eq-div-mul, mul-le-mul_right}
use storm_net.Prelude.{
  ℕ, zero, suc, ◌+◌, ◌-◌, ◌*◌, ◌/◌, ◌%◌, ◌^◌, ◌≤◌, ◌<◌, ◌≡◌, refl, ap, sym, ◌∙◌, List, [], ◌∷◌,
  ◌++◌, bit_or, append_assoc, append-nil, append-inj, length, length-append, length-take_le, take,
  drop, take-append-drop, dec_lt, arith,
}
use storm_net.Bits.{
  to_bits, to_bits-split, to_bits-or, length-to_bits, pow_add, IsBytes, bit_or_disjoint, mod_pow_lt,
  field_fits, div_mod_pow,
}
use storm_net.BitWriter.Content.{vector_bits}
use storm_net.BitWriter.Cursor.{replace_bits, modify_at}

replace_bits-bits :
    (s k m val b : ℕ)
    → to_bits (s + (k + m)) (replace_bits s k val b)
      ≡ to_bits s b ++ (to_bits k val ++ to_bits m (b / 2 ^ (s + k)))
replace_bits-bits s k m val b =
    to_bits-or s (k + m) b (bit_or (val % 2 ^ k) (b / 2 ^ (s + k) * 2 ^ k))
    ∙ ap (λ (t : List ℕ). to_bits s b ++ t) (to_bits-or k m val (b / 2 ^ (s + k)))

split-bits :
    (s k m b : ℕ)
    → to_bits (s + (k + m)) b
      ≡ to_bits s b ++ (to_bits k (b / 2 ^ s) ++ to_bits m (b / 2 ^ (s + k)))
split-bits s k m b =
    let halves : b / 2 ^ s / 2 ^ k ≡ b / 2 ^ (s + k) =
      rw (pow_add s k) (div-div-eq-div-mul b (2 ^ s) (2 ^ k)) in
    to_bits-split s (k + m) b
    ∙ ap (λ (t : List ℕ). to_bits s b ++ t) (to_bits-split k m (b / 2 ^ s))
    ∙ ap (λ (t : ℕ). to_bits s b ++ (to_bits k (b / 2 ^ s) ++ to_bits m t)) halves

-- In the first byte, with bits of others behind it.
replace-first :
    (u s k val b : ℕ) (tail pre mid post : List ℕ)
    → s + k ≤ u
    → length pre ≡ s
    → length mid ≡ k
    → to_bits u b ++ tail ≡ pre ++ (mid ++ post)
    → to_bits u (replace_bits s k val b) ++ tail ≡ pre ++ (to_bits k val ++ post)
replace-first u s k val b tail pre mid post h front middle e =
    let m = u - (s + k) in
    let width : u ≡ s + (k + m) = omega arith in
    let high = to_bits m (b / 2 ^ (s + k)) in
    let shape : to_bits s b ++ (to_bits k (b / 2 ^ s) ++ (high ++ tail)) ≡ pre ++ (mid ++ post) =
      sym (
        ap (λ (t : List ℕ). t ++ tail) (ap (λ (t : ℕ). to_bits t b) width ∙ split-bits s k m b)
        ∙ append_assoc (to_bits s b) (to_bits k (b / 2 ^ s) ++ high) tail
        ∙ ap (λ (t : List ℕ). to_bits s b ++ t) (append_assoc (to_bits k (b / 2 ^ s)) high tail))
      ∙ e in
    let (low, more) = append-inj (to_bits s b) pre (length-to_bits s b ∙ sym front) shape in
    let (_, behind) =
      append-inj (to_bits k (b / 2 ^ s)) mid (length-to_bits k (b / 2 ^ s) ∙ sym middle) more in
    ap (λ (t : List ℕ). t ++ tail)
      (ap (λ (t : ℕ). to_bits t (replace_bits s k val b)) width ∙ replace_bits-bits s k m val b)
    ∙ append_assoc (to_bits s b) (to_bits k val ++ high) tail
    ∙ ap (λ (t : List ℕ). to_bits s b ++ t) (append_assoc (to_bits k val) high tail)
    ∙ ap (λ (t : List ℕ). t ++ (to_bits k val ++ (high ++ tail))) low
    ∙ ap (λ (t : List ℕ). pre ++ (to_bits k val ++ t)) behind

-- The front that reaches at least as far as the first byte starts with it.
split-front :
    (first tail pre rest : List ℕ)
    → length first ≤ length pre
    → first ++ tail ≡ pre ++ rest
    → (pre' : List ℕ) × (pre ≡ first ++ pre') × (tail ≡ pre' ++ rest)
split-front first tail pre rest h e =
    let n = length first in
    let parts = take-append-drop n pre in
    let (same, behind) = append-inj first (take n pre) (sym (length-take_le n pre (omega arith))) (
      e
      ∙ ap (λ (t : List ℕ). t ++ rest) (sym parts)
      ∙ append_assoc (take n pre) (drop n pre) rest) in
    (drop n pre, sym parts ∙ ap (λ (t : List ℕ). t ++ drop n pre) (sym same), behind)

vector_bits-∷ :
    (b : ℕ) (buffer : List ℕ) (bit : ℕ)
    → 0 < length buffer
    → vector_bits (b ∷ buffer) bit ≡ to_bits 8 b ++ vector_bits buffer bit
vector_bits-∷ b [] bit h = absurd (omega arith)
vector_bits-∷ b (c ∷ rest) bit h = refl

pub length-modify_at :
    (i : ℕ) (f : ℕ → ℕ) (buffer : List ℕ) → length (modify_at i f buffer) ≡ length buffer
unfolding modify_at
length-modify_at i f [] = refl
length-modify_at zero f (b ∷ buffer) = refl
length-modify_at (suc i) f (b ∷ buffer) = ap suc (length-modify_at i f buffer)

pub modify_at-IsBytes :
    (i : ℕ) (f : ℕ → ℕ) (buffer : List ℕ)
    → ((b : ℕ) → b < 256 → f b < 256)
    → IsBytes buffer
    → IsBytes (modify_at i f buffer)
unfolding modify_at
modify_at-IsBytes i f [] h bs = bs
modify_at-IsBytes zero f (b ∷ buffer) h bs = (h b bs.0, bs.1)
modify_at-IsBytes (suc i) f (b ∷ buffer) h bs = (bs.0, modify_at-IsBytes i f buffer h bs.1)

high-lt : (k b : ℕ) → k ≤ 8 → b < 256 → b / 2 ^ k < 2 ^ (8 - k)
high-lt k b h small = elim (dec_lt (b / 2 ^ k) (2 ^ (8 - k))) [
  | yes less ↦ less
  | no over ↦
      let more : 2 ^ (8 - k) * 2 ^ k ≤ b / 2 ^ k * 2 ^ k = mul-le-mul_right (2 ^ k) (omega arith) in
      let whole : 2 ^ (8 - k) * 2 ^ k ≡ 2 ^ 8 =
        sym (pow_add (8 - k) k) ∙ ap (λ (t : ℕ). 2 ^ t) {x = 8 - k + k} {y = 8} (omega arith) in
      absurd (omega (arith, more, whole, div_mod_pow k b))
]

field_join : (c s k : ℕ) → c * 2 ^ k * 2 ^ s ≡ c * 2 ^ (s + k)
field_join c s k = omega (arith, ap (λ (t : ℕ). c * t) (pow_add s k))

-- A byte stays a byte.
pub replace_bits-lt : (s k val b : ℕ) → s + k ≤ 8 → b < 256 → replace_bits s k val b < 256
replace_bits-lt s k val b h small =
    let high = b / 2 ^ (s + k) in
    let word = val % 2 ^ k + high * 2 ^ k in
    let sum : bit_or (val % 2 ^ k) (high * 2 ^ k) ≡ word =
      bit_or_disjoint k (val % 2 ^ k) high (mod_pow_lt k val) in
    let field : suc word ≤ (high + 1) * 2 ^ k = omega (arith, mod_pow_lt k val) in
    let up : suc word * 2 ^ s ≤ (high + 1) * 2 ^ k * 2 ^ s = mul-le-mul_right (2 ^ s) field in
    let join : (high + 1) * 2 ^ k * 2 ^ s ≡ (high + 1) * 2 ^ (s + k) = field_join (high + 1) s k in
    let room : (high + 1) * 2 ^ (s + k) ≤ 256 =
      field_fits 8 (s + k) high h (high-lt (s + k) b h small) in
    rw (sum, bit_or_disjoint s (b % 2 ^ s) word (mod_pow_lt s b))
      (omega (arith, mod_pow_lt s b, up, join, room))

pub modify_at-bits :
    (i s k val bit : ℕ) (buffer pre mid post : List ℕ)
    → s + k ≤ 8
    → bit ≤ 8
    → i < length buffer
    → length pre ≡ i * 8 + s
    → length mid ≡ k
    → vector_bits buffer bit ≡ pre ++ (mid ++ post)
    → vector_bits (modify_at i (replace_bits s k val) buffer) bit ≡ pre ++ (to_bits k val ++ post)
unfolding modify_at
modify_at-bits i s k val bit [] pre mid post h full inside front middle e = absurd (omega arith)
modify_at-bits zero s k val bit (b ∷ []) pre mid post h full inside front middle e =
    let room : s + k ≤ bit = omega (
      arith,
      ap length e,
      length-to_bits bit b,
      length-append pre (mid ++ post),
      length-append mid post,
    ) in
    sym (append-nil (to_bits bit (replace_bits s k val b)))
    ∙ replace-first bit s k val b [] pre mid post room (omega arith) middle
        (append-nil (to_bits bit b) ∙ e)
modify_at-bits zero s k val bit (b ∷ c ∷ rest) pre mid post h full inside front middle e =
    replace-first 8 s k val b (vector_bits (c ∷ rest) bit) pre mid post h (omega arith) middle e
modify_at-bits (suc i) s k val bit (b ∷ []) pre mid post h full inside front middle e =
    absurd (omega arith)
modify_at-bits (suc i) s k val bit (b ∷ c ∷ rest) pre mid post h full inside front middle e =
    let first = to_bits 8 b in
    let (pre', start, behind) =
      split-front first (vector_bits (c ∷ rest) bit) pre (mid ++ post) (omega arith) e in
    let longer : length pre ≡ 8 + length pre' = ap length start ∙ length-append first pre' in
    let changed = modify_at i (replace_bits s k val) (c ∷ rest) in
    let some_left : 0 < length changed =
      omega (arith, length-modify_at i (replace_bits s k val) (c ∷ rest)) in
    vector_bits-∷ b changed bit some_left
    ∙ ap (λ (t : List ℕ). first ++ t)
        (modify_at-bits i s k val bit (c ∷ rest) pre' mid post h full (omega arith)
          (omega (arith, longer, front)) middle behind)
    ∙ sym (append_assoc first pre' (to_bits k val ++ post))
    ∙ ap (λ (t : List ℕ). t ++ (to_bits k val ++ post)) (sym start)
