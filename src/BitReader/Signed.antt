-- ===== src/BitReader/Signed.antt =====
-- `ReadSBits` after `WriteSBits`: values that fit the width as signed numbers come back.
use native.Mathlib.Nat.{
  mod-eq_of_lt, one-le-pow, div-eq_of_lt, div-eq_of_lt-le, add-mul-mod_self_right,
}
use storm_net.Prelude.{
  ℕ, ◌+◌, ◌-◌, ◌*◌, ◌/◌, ◌%◌, ◌^◌, ◌≤◌, ◌<◌, ◌≡◌, ◌⊎◌, inl, inr, refl, ap, sym, ◌∙◌, List, ◌++◌,
  arith, ◌==◌, leb, ◌||◌, false,
}
use storm_net.Bits.{to_bits, bit_or_disjoint, pow_add, pow_mono}
use storm_net.Result.{ok}
use storm_net.BitReader.{BitReader, sign_extend, read_sbits}
use storm_net.BitReader.Content.{left, IsValid}
use storm_net.BitReader.Take.{read_ubits-Reads}

-- The words whose value, read as signed, needs no more than n bits: those below half of the width's
-- range, and those as far below the top of the word.
abbrev pub IsSigned : ℕ → ℕ → Type 0
IsSigned n v = (v < 2 ^ (n - 1)) ⊎ ((2 ^ 64 ≤ v + 2 ^ (n - 1)) × (v < 2 ^ 64))

half_pow : (n : ℕ) → 0 < n → 2 ^ n ≡ 2 * 2 ^ (n - 1)
half_pow n pos = ap (λ (t : ℕ). 2 ^ t) {x = n} {y = 1 + (n - 1)} (omega arith) ∙ pow_add 1 (n - 1)

mul_pred : (q m : ℕ) → 1 ≤ q → (q - 1) * m + m ≡ q * m
mul_pred q m h = omega (arith, ap (λ (t : ℕ). t * m) {x = q - 1 + 1} {y = q} (omega arith))

defined : (n : ℕ) → 0 < n → n < 64 → (n == 0 || leb 65 n) ≡ false
defined n pos fits = ground arith

-- Sign extension restores such a word from its low bits.
pub sign_extend-mod : (n v : ℕ) → 0 < n → n < 64 → IsSigned n v → sign_extend (v % 2 ^ n) n ≡ ok v
unfolding sign_extend
sign_extend-mod n v pos fits (inl small) =
    let double = half_pow n pos in
    let whole : v % 2 ^ n ≡ v = mod-eq_of_lt (omega arith) in
    let high : v / 2 ^ (n - 1) ≡ 0 = div-eq_of_lt small in rw (defined n pos fits, whole, high) refl
sign_extend-mod n v pos fits (inr (low, top)) =
    let half_range = 2 ^ (n - 1) in
    let blocks = 2 ^ (64 - n) in
    let double : 2 ^ n ≡ 2 * half_range = half_pow n pos in
    let whole : 2 ^ 64 ≡ blocks * 2 ^ n =
      ap (λ (t : ℕ). 2 ^ t) {x = 64} {y = 64 - n + n} (omega arith) ∙ pow_add (64 - n) n in
    let one : 1 ≤ blocks = one-le-pow (64 - n) 2 (omega arith) in
    let field = v + 2 ^ n - 2 ^ 64 in
    let below : field < 2 ^ n = omega arith in
    let above : 2 ^ 64 - 2 ^ n ≡ (blocks - 1) * 2 ^ n =
      omega (arith, whole, mul_pred blocks (2 ^ n) one) in
    let shape : v ≡ field + (blocks - 1) * 2 ^ n =
      omega (arith, above, pow_mono n 64 (omega arith), one-le-pow (n - 1) 2 (omega arith)) in
    let rest : v % 2 ^ n ≡ field =
      ap (λ (t : ℕ). t % 2 ^ n) shape
      ∙ add-mul-mod_self_right field (blocks - 1) (2 ^ n)
      ∙ mod-eq_of_lt below in
    let high : field / half_range ≡ 1 =
      div-eq_of_lt-le {k = 1} half_range (omega (arith, pow_mono n 64 (omega arith)))
        (omega arith) in
    let narrow : leb 64 n ≡ false = ground arith in
    rw (defined n pos fits, rest, high, narrow, above)
      (ap (λ (t : ℕ). ok t) (bit_or_disjoint n field (blocks - 1) below ∙ sym shape))

-- When the bits left are the `n` low bits of a word that fits `n` bits as a signed number, and then
-- others, reading `n` bits as a signed number, at least one and fewer than 64, returns the word and
-- leaves the others.
pub read_sbits-Takes :
    (n v : ℕ) (r : BitReader) (rest : List ℕ)
    → 0 < n
    → n < 64
    → IsSigned n v
    → IsValid r
    → left r ≡ to_bits n v ++ rest
    → (r' : BitReader) × (read_sbits n r ≡ ok (v, r')) × (left r' ≡ rest) × IsValid r'
unfolding read_sbits
read_sbits-Takes n v r rest pos fits h valid p =
    let (r', read, behind, valid', _) = read_ubits-Reads n v r rest (omega arith) valid p in
    (r', rw (read, sign_extend-mod n v pos fits h), behind, valid')
