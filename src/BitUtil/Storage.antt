-- ===== src/BitUtil/Storage.antt =====
-- `min_store_t` and the signed instances of `GetRequiredBits`.
use storm_net.Prelude.{
  ℕ, zero, suc, ◌*◌, ◌^◌, ◌≤◌, ◌<◌, ◌≡◌, refl, arith, ltb, if◌then◌else◌, dec_lt,
}
use storm_net.Bits.{pow_mono}
use native.Mathlib.Nat.{mul-le-mul_left, mod-eq_of_lt}
use storm_net.BitUtil.Bounds.{get_required_bits-le_iff, Normal-lt}
use storm_net.BitUtil.Normal.{Normal}
use storm_net.BitUtil.Clz32.{clz16_32-Counts}
use storm_net.BitUtil.{
  clz16_32, count_leading_zeros_signed, get_required_bits_u32, count_leading_zeros_u32,
  get_required_bits_signed, min_store_bits,
}

-- For a maximum below 2 ^ 64, `min_store_t` picks the narrowest of the four unsigned types that
-- holds it.
pub min_store_bits_lem :
    (x : ℕ)
    → x < 2 ^ 64
    → min_store_bits x ≡ (
        if ltb x (2 ^ 8)
        then 8
        else if ltb x (2 ^ 16)
        then 16
        else if ltb x (2 ^ 32)
        then 32
        else 64)
unfolding min_store_bits
min_store_bits_lem x hi = ground (
  arith,
  get_required_bits-le_iff 8 x (omega arith) hi,
  get_required_bits-le_iff 16 x (omega arith) hi,
  get_required_bits-le_iff 32 x (omega arith) hi,
)

clz16_32-short : (x : ℕ) → x < 2 ^ 15 → (16 < clz16_32 x) × (clz16_32 x < 32)
clz16_32-short zero h = unfold clz16_32 in omega arith
clz16_32-short (suc m) h = elim (dec_lt 16 (clz16_32 (suc m))) [
  | yes p ↦ (p, Normal-lt 32 (clz16_32 (suc m)) refl (omega arith) counts)
  | no p ↦
      let size : suc m * 2 ^ clz16_32 (suc m) ≤ suc m * 2 ^ 16 =
        mul-le-mul_left (suc m) (pow_mono (clz16_32 (suc m)) 16 (omega arith)) in
      absurd (omega (arith, counts))
]
  where
    counts : Normal (2 ^ 31) (suc m) (clz16_32 (suc m))
    counts = clz16_32-Counts (suc m) (omega arith) (omega arith)

-- At `int`, and any value that it holds, the template counts as it does at uint32_t.
pub get_required_bits_signed_int :
    (x : ℕ) → x < 2 ^ 31 → get_required_bits_signed 4 x ≡ get_required_bits_u32 x
unfolding get_required_bits_signed get_required_bits_u32 count_leading_zeros_signed
    count_leading_zeros_u32
get_required_bits_signed_int x h = rw (mod-eq_of_lt {n = x} {m = 2 ^ 32} (omega arith))

-- At `short` no value from 0 up gets a bit count: the leading zeros of 32 bits are taken from a
-- width of 16, and the difference wraps around to 2 ^ 31 or more.
pub get_required_bits_signed_short : (x : ℕ) → x < 2 ^ 15 → 2 ^ 31 ≤ get_required_bits_signed 2 x
unfolding get_required_bits_signed count_leading_zeros_signed
get_required_bits_signed_short x h =
    rw (mod-eq_of_lt {n = x} {m = 2 ^ 32} (omega arith)) (omega (arith, clz16_32-short x h))
