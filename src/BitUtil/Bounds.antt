-- ===== src/BitUtil/Bounds.antt =====
-- `GetRequiredBits` and `min_store_t`: how many bits the values up to a maximum need.
use native.Mathlib.Nat.{
  lt_of_mul-lt-mul_right, le_of_mul-le-mul_right, mul-le-mul_right, one-le-pow,
}
use storm_net.Prelude.{
  ℕ, zero, suc, ◌+◌, ◌-◌, ◌*◌, ◌^◌, ◌≤◌, ◌<◌, ◌≡◌, ◌↔◌, refl, ap, sym, ◌∙◌, arith, dec_lt,
}
use storm_net.Bits.{u32, u64, pow_add, pow_mono}
use storm_net.BitUtil.Normal.{Normal}
use storm_net.BitUtil.Clz64.{clz32_64-Counts}
use storm_net.BitUtil.Clz32.{clz16_32-Counts, clz8_16-Counts, clz4_8-Counts}
use storm_net.BitUtil.{
  clz32_64, clz16_32, clz8_16, clz4_8, count_leading_zeros_u64, count_leading_zeros_u32,
  count_leading_zeros_u16, count_leading_zeros_u8, get_required_bits_u64, get_required_bits_u32,
  get_required_bits_u16, get_required_bits_u8,
}

-- `bits` is the length of `x` in binary: it holds `x`, and one bit less does not.
abbrev pub IsBitLength : ℕ → ℕ → Type 0
IsBitLength bits x = (1 ≤ bits) × (x < 2 ^ bits) × (2 ^ (bits - 1) ≤ x)

pub Normal-lt : (w c : ℕ) {x top : ℕ} → 2 * top ≡ 2 ^ w → 0 < x → Normal top x c → c < w
Normal-lt w c {x} e pos h = elim (dec_lt c w) [
  | yes p ↦ p
  | no p ↦
      let big : 2 ^ w ≤ 2 ^ c = pow_mono w c (omega arith) in
      let one : 1 * 2 ^ c ≤ x * 2 ^ c = mul-le-mul_right (2 ^ c) pos in absurd (omega arith)
]

Normal-IsBitLength :
    (w c : ℕ) {x top : ℕ} → 2 * top ≡ 2 ^ w → 0 < x → Normal top x c → IsBitLength (w - c) x
Normal-IsBitLength w c {x} {top} e pos h =
    let below : c < w = Normal-lt w c e pos h in
    let whole : 2 ^ (w - c) * 2 ^ c ≡ 2 ^ w =
      sym (pow_add (w - c) c) ∙ ap (λ (t : ℕ). 2 ^ t) (omega arith) in
    let half : 2 * 2 ^ (w - c - 1) ≡ 2 ^ (w - c) =
      sym (pow_add 1 (w - c - 1)) ∙ ap (λ (t : ℕ). 2 ^ t) (omega arith) in
    let twice : 2 * (2 ^ (w - c - 1) * 2 ^ c) ≡ 2 ^ w =
      omega (arith, whole, ap (λ (t : ℕ). t * 2 ^ c) half) in
    (
      omega arith,
      lt_of_mul-lt-mul_right (2 ^ c) (omega arith),
      le_of_mul-le-mul_right {k = 2 ^ c} (omega arith) (one-le-pow c 2 (omega arith)),
    )

-- A number has one length.
IsBitLength-unique : (a b : ℕ) {x : ℕ} → IsBitLength a x → IsBitLength b x → a ≡ b
IsBitLength-unique a b p q = elim (dec_lt a b) [
  | yes h ↦ absurd (omega (arith, pow_mono a (b - 1) (omega arith)))
  | no h ↦ elim (dec_lt b a) [
    | yes k ↦ absurd (omega (arith, pow_mono b (a - 1) (omega arith)))
    | no k ↦ omega arith
  ]
]

-- A count of bits below 64 survives the arithmetic in size_t and the return as an unsigned int.
cast_count : (w c : ℕ) → c < w → w ≤ 64 → u32 (u64 (w + 2 ^ 64 - c)) ≡ w - c
cast_count w c h k = omega arith

-- `GetRequiredBits` of a positive uint64_t below 2 ^ 64 is its length in binary.
pub get_required_bits_u64-IsBitLength :
    (x : ℕ) → 0 < x → x < 2 ^ 64 → IsBitLength (get_required_bits_u64 x) x
unfolding get_required_bits_u64 count_leading_zeros_u64
get_required_bits_u64-IsBitLength x pos hi =
    let counts = clz32_64-Counts x pos hi in
    rw (cast_count 64 (clz32_64 x) (Normal-lt 64 (clz32_64 x) refl pos counts) (omega arith))
      (Normal-IsBitLength 64 (clz32_64 x) refl pos counts)

get_required_bits_u32-IsBitLength :
    (x : ℕ) → 0 < x → x < 2 ^ 32 → IsBitLength (get_required_bits_u32 x) x
unfolding get_required_bits_u32 count_leading_zeros_u32
get_required_bits_u32-IsBitLength x pos hi =
    let counts = clz16_32-Counts x pos hi in
    rw (cast_count 32 (clz16_32 x) (Normal-lt 32 (clz16_32 x) refl pos counts) (omega arith))
      (Normal-IsBitLength 32 (clz16_32 x) refl pos counts)

get_required_bits_u16-IsBitLength :
    (x : ℕ) → 0 < x → x < 2 ^ 16 → IsBitLength (get_required_bits_u16 x) x
unfolding get_required_bits_u16 count_leading_zeros_u16
get_required_bits_u16-IsBitLength x pos hi =
    let counts = clz8_16-Counts x pos hi in
    rw (cast_count 16 (clz8_16 x) (Normal-lt 16 (clz8_16 x) refl pos counts) (omega arith))
      (Normal-IsBitLength 16 (clz8_16 x) refl pos counts)

get_required_bits_u8-IsBitLength :
    (x : ℕ) → 0 < x → x < 2 ^ 8 → IsBitLength (get_required_bits_u8 x) x
unfolding get_required_bits_u8 count_leading_zeros_u8
get_required_bits_u8-IsBitLength x pos hi =
    let counts = clz4_8-Counts x pos hi in
    rw (cast_count 8 (clz4_8 x) (Normal-lt 8 (clz4_8 x) refl pos counts) (omega arith))
      (Normal-IsBitLength 8 (clz4_8 x) refl pos counts)

-- Zero takes one bit at every width.
get_required_bits_zero :
    (get_required_bits_u64 0 ≡ 1)
    × (get_required_bits_u32 0 ≡ 1)
    × (get_required_bits_u16 0 ≡ 1)
    × (get_required_bits_u8 0 ≡ 1)
unfolding get_required_bits_u64 count_leading_zeros_u64 get_required_bits_u32
    count_leading_zeros_u32 get_required_bits_u16 count_leading_zeros_u16 get_required_bits_u8
    count_leading_zeros_u8 clz32_64 clz16_32 clz8_16 clz4_8
get_required_bits_zero = (refl, refl, refl, refl)

-- Every value up to the maximum fits the bits that the maximum requires.
pub lt-get_required_bits :
    (max_value v : ℕ) → max_value < 2 ^ 64 → v ≤ max_value → v < 2 ^ get_required_bits_u64 max_value
lt-get_required_bits zero v hi h = rw (get_required_bits_zero.0) (omega arith)
lt-get_required_bits (suc m) v hi h =
    omega (arith, get_required_bits_u64-IsBitLength (suc m) (omega arith) hi)

pub get_required_bits-le : (x : ℕ) → x < 2 ^ 64 → get_required_bits_u64 x ≤ 64
get_required_bits-le zero hi = omega (arith, get_required_bits_zero)
get_required_bits-le (suc m) hi = elim (dec_lt 64 (get_required_bits_u64 (suc m))) [
  | yes h ↦ absurd (
      omega (
        arith,
        get_required_bits_u64-IsBitLength (suc m) (omega arith) hi,
        pow_mono 64 (get_required_bits_u64 (suc m) - 1) (omega arith),
      ))
  | no h ↦ omega arith
]

-- The number of bits that a maximum requires does not depend on the type that it is given in.
pub get_required_bits_same_width :
    (x : ℕ)
    → (x < 2 ^ 32 → get_required_bits_u32 x ≡ get_required_bits_u64 x)
      × (x < 2 ^ 16 → get_required_bits_u16 x ≡ get_required_bits_u64 x)
      × (x < 2 ^ 8 → get_required_bits_u8 x ≡ get_required_bits_u64 x)
get_required_bits_same_width zero =
    let z = get_required_bits_zero in (λ h. z.1 ∙ sym z.0, λ h. z.2 ∙ sym z.0, λ h. z.3 ∙ sym z.0)
get_required_bits_same_width (suc m) = (
  λ h.
      IsBitLength-unique _ _ (get_required_bits_u32-IsBitLength (suc m) (omega arith) h)
        (get_required_bits_u64-IsBitLength (suc m) (omega arith) (omega arith)),
  λ h.
      IsBitLength-unique _ _ (get_required_bits_u16-IsBitLength (suc m) (omega arith) h)
        (get_required_bits_u64-IsBitLength (suc m) (omega arith) (omega arith)),
  λ h.
      IsBitLength-unique _ _ (get_required_bits_u8-IsBitLength (suc m) (omega arith) h)
        (get_required_bits_u64-IsBitLength (suc m) (omega arith) (omega arith)),
)

-- A width of at least one bit holds a value below 2 ^ 64 exactly when it has the required bits.
pub get_required_bits-le_iff :
    (k x : ℕ) → 0 < k → x < 2 ^ 64 → (get_required_bits_u64 x ≤ k) ↔ (x < 2 ^ k)
get_required_bits-le_iff k x pos hi = (
  λ h.
      omega
        (arith, lt-get_required_bits x x hi (omega arith), pow_mono (get_required_bits_u64 x) k h),
  λ h. above x h hi,
)
  where
    above : (y : ℕ) → y < 2 ^ k → y < 2 ^ 64 → get_required_bits_u64 y ≤ k
    above zero h top = omega (arith, get_required_bits_zero)
    above (suc m) h top = elim (dec_lt k (get_required_bits_u64 (suc m))) [
      | yes more ↦
          let len = get_required_bits_u64-IsBitLength (suc m) (omega arith) top in
          absurd (omega (arith, pow_mono k (get_required_bits_u64 (suc m) - 1) (omega arith)))
      | no more ↦ omega arith
    ]
