-- ===== src/Bits/Lists.antt =====
-- A word as the list of its low bits.
use Prim.Native.Nat.add
use native.Mathlib.Numerals.{one-add}
use native.Mathlib.Nat.{
  pow-le-pow_right, mul-le-mul_right, add-mul-mod_self_right, mod-eq_of_lt, pow-suc, one-le-pow,
  mod-lt, div-add-mod', mul-one, div-one, pow-succ', div-div-eq-div-mul,
}
use storm_net.Prelude.{
  ℕ, zero, suc, ◌+◌, ◌*◌, ◌/◌, ◌%◌, ◌^◌, ◌≤◌, ◌<◌, ◌≡◌, refl, ap, ◌∙◌, sym, List, [], ◌∷◌, ◌++◌,
  length, bit_or, arith, min, ◌-◌, dec_le, append-nil, append-inj,
}
use storm_net.Bits.Or.{bit_or_disjoint}

-- The `n` low bits of a word, the least significant first.
abbrev pub to_bits : ℕ → ℕ → List ℕ
to_bits zero v = []
to_bits (suc n) v = (v % 2) ∷ to_bits n (v / 2)

pub length-to_bits : (n v : ℕ) → length (to_bits n v) ≡ n
length-to_bits zero v = refl
length-to_bits (suc n) v = ap suc (length-to_bits n (v / 2))

-- Powers of two as products.
pub pow_add : (a b : ℕ) → 2 ^ (a + b) ≡ 2 ^ a * 2 ^ b
pow_add zero b = ground arith
pow_add (suc a) b = rw (add.suc a b, pow-suc 2 (a + b), pow-suc 2 a, pow_add a b) (omega arith)

pub pow_mono : (i j : ℕ) → i ≤ j → 2 ^ i ≤ 2 ^ j
pow_mono i j h = pow-le-pow_right (omega arith) h

pub div_mod_pow : (k v : ℕ) → v ≡ v % 2 ^ k + v / 2 ^ k * 2 ^ k
div_mod_pow k v = omega (arith, div-add-mod' v (2 ^ k))

pub mod_pow_lt : (k v : ℕ) → v % 2 ^ k < 2 ^ k
mod_pow_lt k v = mod-lt v (one-le-pow k 2 (omega arith))

-- A field of `w - k` bits, moved up by `k`, stays within `w` bits.
pub field_fits : (w k c : ℕ) → k ≤ w → c < 2 ^ (w - k) → (c + 1) * 2 ^ k ≤ 2 ^ w
field_fits w k c h p =
    let whole : 2 ^ (w - k) * 2 ^ k ≡ 2 ^ w =
      sym (pow_add (w - k) k) ∙ ap (λ (t : ℕ). 2 ^ t) {x = w - k + k} {y = w} (omega arith) in
    omega (arith, mul-le-mul_right (2 ^ k) p)

-- A remainder by a power of two, field by field.
pub mod_pow_add : (s t v : ℕ) → v % 2 ^ (s + t) ≡ v % 2 ^ s + v / 2 ^ s % 2 ^ t * 2 ^ s
mod_pow_add s t v =
    let high = v / 2 ^ s in
    let size : 2 ^ (s + t) ≡ 2 ^ t * 2 ^ s = omega (arith, pow_add s t) in
    let room : suc (high % 2 ^ t) * 2 ^ s ≤ 2 ^ t * 2 ^ s =
      mul-le-mul_right (2 ^ s) (mod_pow_lt t high) in
    let low : v % 2 ^ s + high % 2 ^ t * 2 ^ s < 2 ^ (s + t) =
      omega (arith, mod_pow_lt s v, size, room) in
    let shape : v ≡ v % 2 ^ s + high % 2 ^ t * 2 ^ s + high / 2 ^ t * 2 ^ (s + t) = omega (
      arith,
      div_mod_pow s v,
      ap (λ (x : ℕ). x * 2 ^ s) (div_mod_pow t high),
      ap (λ (x : ℕ). high / 2 ^ t * x) size,
    ) in
    ap (λ (x : ℕ). x % 2 ^ (s + t)) shape
    ∙ add-mul-mod_self_right _ (high / 2 ^ t) (2 ^ (s + t))
    ∙ mod-eq_of_lt low

pub mod_pow_suc : (n v : ℕ) → v % 2 ^ suc n ≡ v % 2 + 2 * (v / 2 % 2 ^ n)
mod_pow_suc n v = omega (arith, mod_pow_add 1 n v, ap (λ (x : ℕ). v % 2 ^ x) (one-add n))

-- The low bits decide the word's remainder.
pub to_bits-inj : (n v u : ℕ) → to_bits n v ≡ to_bits n u → v % 2 ^ n ≡ u % 2 ^ n
to_bits-inj zero v u e = omega arith
to_bits-inj (suc n) v u e =
    let low : v % 2 ≡ u % 2 = cc in
    let high : to_bits n (v / 2) ≡ to_bits n (u / 2) = cc in
    omega (arith, mod_pow_suc n v, mod_pow_suc n u, to_bits-inj n (v / 2) (u / 2) high)

-- A low field below a high field.
pub to_bits-add :
    (k m a c : ℕ) → a < 2 ^ k → to_bits (k + m) (a + c * 2 ^ k) ≡ to_bits k a ++ to_bits m c
to_bits-add zero m a c h =
    let none_low : a ≡ 0 = omega arith in rw (none_low, add.zero m, mul-one, add.zero c)
to_bits-add (suc k) m a c h =
    let double : c * 2 ^ suc k ≡ 2 * (c * 2 ^ k) =
      omega (arith, ap (λ (t : ℕ). c * t) (pow-suc 2 k)) in
    let low : (a + c * 2 ^ suc k) % 2 ≡ a % 2 = omega arith in
    let high : (a + c * 2 ^ suc k) / 2 ≡ a / 2 + c * 2 ^ k = omega arith in
    rw (add.suc k m, low, high, to_bits-add k m (a / 2) c (omega (arith, pow-suc 2 k)))

-- A word splits at any bit.
pub to_bits-split : (k m v : ℕ) → to_bits (k + m) v ≡ to_bits k v ++ to_bits m (v / 2 ^ k)
to_bits-split zero m v = rw (add.zero m, div-one)
to_bits-split (suc k) m v =
    let halves : v / 2 ^ suc k ≡ v / 2 / 2 ^ k =
      rw (pow-succ' 2 k) (sym (div-div-eq-div-mul v 2 (2 ^ k))) in
    rw (add.suc k m, to_bits-split k m (v / 2), halves)

-- Bits above the width do not matter.
pub to_bits-mod_le : (k j v : ℕ) → k ≤ j → to_bits k (v % 2 ^ j) ≡ to_bits k v
to_bits-mod_le zero j v h = refl
to_bits-mod_le (suc k) zero v h = absurd (omega arith)
to_bits-mod_le (suc k) (suc j) v h =
    let low : v % 2 ^ suc j % 2 ≡ v % 2 = omega (arith, mod_pow_suc j v) in
    let high : v % 2 ^ suc j / 2 ≡ v / 2 % 2 ^ j = omega (arith, mod_pow_suc j v) in
    rw (low, high, to_bits-mod_le k j (v / 2) (omega arith))

pub to_bits-mod : (k v : ℕ) → to_bits k (v % 2 ^ k) ≡ to_bits k v
to_bits-mod k v = to_bits-mod_le k k v (omega arith)

-- The first `s` bits, as far as there are so many, and the bits behind them.
pub to_bits-chunk : (s n v : ℕ) → to_bits n v ≡ to_bits (min n s) v ++ to_bits (n - s) (v / 2 ^ s)
to_bits-chunk s n v = elim (dec_le n s) [
  | yes h ↦
      let all : min n s ≡ n = omega arith in
      let none_left : n - s ≡ 0 = omega arith in
      rw (all, none_left) (sym (append-nil (to_bits n v)))
  | no h ↦
      let front : min n s ≡ s = omega arith in
      rw front (ap (λ (t : ℕ). to_bits t v) (omega arith) ∙ to_bits-split s (n - s) v)
]

-- `(a & mask) | (c << k)` holds the bits of both fields.
pub to_bits-or :
    (k m a c : ℕ) → to_bits (k + m) (bit_or (a % 2 ^ k) (c * 2 ^ k)) ≡ to_bits k a ++ to_bits m c
to_bits-or k m a c = rw (
  bit_or_disjoint k (a % 2 ^ k) c (mod_pow_lt k a),
  to_bits-add k m (a % 2 ^ k) c (mod_pow_lt k a),
  to_bits-mod k a,
)

-- The two halves of a read, put together.
pub bit_or_halves : (s t v : ℕ) → bit_or (v % 2 ^ s) (v / 2 ^ s % 2 ^ t * 2 ^ s) ≡ v % 2 ^ (s + t)
bit_or_halves s t v =
    bit_or_disjoint s (v % 2 ^ s) (v / 2 ^ s % 2 ^ t) (mod_pow_lt s v) ∙ sym (mod_pow_add s t v)

-- The bits of a sequence of bytes.
abbrev pub bytes_bits : List ℕ → List ℕ
bytes_bits [] = []
bytes_bits (b ∷ bytes) = to_bits 8 b ++ bytes_bits bytes

abbrev pub IsBytes : List ℕ → Type 0
IsBytes [] = Unit
IsBytes (b ∷ bytes) = (b < 256) × IsBytes bytes

pub bytes_bits-inj :
    (xs ys : List ℕ)
    → IsBytes xs
    → IsBytes ys
    → length xs ≡ length ys
    → bytes_bits xs ≡ bytes_bits ys
    → xs ≡ ys
bytes_bits-inj [] [] p q e h = refl
bytes_bits-inj [] (y ∷ ys) p q e h = absurd (omega arith)
bytes_bits-inj (x ∷ xs) [] p q e h = absurd (omega arith)
bytes_bits-inj (x ∷ xs) (y ∷ ys) p q e h =
    let (first, more) = append-inj (to_bits 8 x) (to_bits 8 y) refl h in
    let same : x ≡ y = omega (arith, to_bits-inj 8 x y first) in
    rw (same, bytes_bits-inj xs ys p.1 q.1 (omega arith) more)
