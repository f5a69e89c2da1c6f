-- ===== src/BitUtil.antt =====
-- NetBitUtil.h: the leading zeros of a word, by halving the width, and the number of bits that the
-- values up to a maximum need. `x << k` is computed in the type of the parameter.
mod Normal
pub mod Clz64
pub mod Clz32
pub mod Bounds
pub mod Storage
use storm_net.Prelude.{ℕ, ◌+◌, ◌-◌, ◌*◌, ◌^◌, ◌<◌, leb, ltb, if◌then◌else◌}
use storm_net.Bits.{u8, u16, u32, u64, ◌<<<◌}

pub clz1_64 : ℕ → ℕ
clz1_64 x = if leb x 0x7fffffffffffffff then 1 else 0

pub clz2_64 : ℕ → ℕ
unfolding clz1_64
clz2_64 x = if leb x 0x3fffffffffffffff then 2 + clz1_64 (u64 (x <<< 2)) else clz1_64 x

pub clz4_64 : ℕ → ℕ
unfolding clz2_64
clz4_64 x = if leb x 0x0fffffffffffffff then 4 + clz2_64 (u64 (x <<< 4)) else clz2_64 x

pub clz8_64 : ℕ → ℕ
unfolding clz4_64
clz8_64 x = if leb x 0x00ffffffffffffff then 8 + clz4_64 (u64 (x <<< 8)) else clz4_64 x

pub clz16_64 : ℕ → ℕ
unfolding clz8_64
clz16_64 x = if leb x 0x0000ffffffffffff then 16 + clz8_64 (u64 (x <<< 16)) else clz8_64 x

unfoldable pub clz32_64 : ℕ → ℕ
unfolding clz16_64
clz32_64 x = if leb x 0x00000000ffffffff then 32 + clz16_64 (u64 (x <<< 32)) else clz16_64 x

pub clz1_32 : ℕ → ℕ
clz1_32 x = if leb x 0x7fffffff then 1 else 0

pub clz2_32 : ℕ → ℕ
unfolding clz1_32
clz2_32 x = if leb x 0x3fffffff then 2 + clz1_32 (u32 (x <<< 2)) else clz1_32 x

pub clz4_32 : ℕ → ℕ
unfolding clz2_32
clz4_32 x = if leb x 0x0fffffff then 4 + clz2_32 (u32 (x <<< 4)) else clz2_32 x

pub clz8_32 : ℕ → ℕ
unfolding clz4_32
clz8_32 x = if leb x 0x00ffffff then 8 + clz4_32 (u32 (x <<< 8)) else clz4_32 x

pub clz16_32 : ℕ → ℕ
unfolding clz8_32
clz16_32 x = if leb x 0x0000ffff then 16 + clz8_32 (u32 (x <<< 16)) else clz8_32 x

pub clz1_16 : ℕ → ℕ
clz1_16 x = if leb x 0x7fff then 1 else 0

pub clz2_16 : ℕ → ℕ
unfolding clz1_16
clz2_16 x = if leb x 0x3fff then 2 + clz1_16 (u16 (x <<< 2)) else clz1_16 x

pub clz4_16 : ℕ → ℕ
unfolding clz2_16
clz4_16 x = if leb x 0x0fff then 4 + clz2_16 (u16 (x <<< 4)) else clz2_16 x

pub clz8_16 : ℕ → ℕ
unfolding clz4_16
clz8_16 x = if leb x 0x00ff then 8 + clz4_16 (u16 (x <<< 8)) else clz4_16 x

pub clz1_8 : ℕ → ℕ
clz1_8 x = if leb x 0x7f then 1 else 0

pub clz2_8 : ℕ → ℕ
unfolding clz1_8
clz2_8 x = if leb x 0x3f then 2 + clz1_8 (u8 (x <<< 2)) else clz1_8 x

pub clz4_8 : ℕ → ℕ
unfolding clz2_8
clz4_8 x = if leb x 0x0f then 4 + clz2_8 (u8 (x <<< 4)) else clz2_8 x

-- `CountLeadingZeros` at uint64_t, uint32_t, uint16_t and uint8_t.
unfoldable pub count_leading_zeros_u64 : ℕ → ℕ
count_leading_zeros_u64 val = clz32_64 val

pub count_leading_zeros_u32 : ℕ → ℕ
count_leading_zeros_u32 x = clz16_32 x

pub count_leading_zeros_u16 : ℕ → ℕ
count_leading_zeros_u16 x = clz8_16 x

pub count_leading_zeros_u8 : ℕ → ℕ
count_leading_zeros_u8 x = clz4_8 x

-- The unspecialised template at a value that is not negative: it counts in 32 bits whatever the
-- size of the type. It is taken for `int`, `short`, `char` and `signed char`.
pub count_leading_zeros_signed : ℕ → ℕ
count_leading_zeros_signed val = clz16_32 (u32 val)

-- `GetRequiredBits`: the difference is taken in size_t and returned as an unsigned int.
unfoldable pub get_required_bits_u64 : ℕ → ℕ
get_required_bits_u64 max_value = u32 (u64 (8 * 8 + 2 ^ 64 - count_leading_zeros_u64 max_value))

pub get_required_bits_u32 : ℕ → ℕ
get_required_bits_u32 max_value = u32 (u64 (4 * 8 + 2 ^ 64 - count_leading_zeros_u32 max_value))

pub get_required_bits_u16 : ℕ → ℕ
get_required_bits_u16 max_value = u32 (u64 (2 * 8 + 2 ^ 64 - count_leading_zeros_u16 max_value))

pub get_required_bits_u8 : ℕ → ℕ
get_required_bits_u8 max_value = u32 (u64 (1 * 8 + 2 ^ 64 - count_leading_zeros_u8 max_value))

-- At a signed type of `size` bytes with the unspecialised `CountLeadingZeros`.
pub get_required_bits_signed : ℕ → ℕ → ℕ
get_required_bits_signed size max_value =
    u32 (u64 (size * 8 + 2 ^ 64 - count_leading_zeros_signed max_value))

-- The unsigned type that `min_store_t` picks, by its width.
pub min_store_bits : ℕ → ℕ
min_store_bits max_val =
    let bits = get_required_bits_u64 max_val in
    if ltb 32 bits then 64 else if ltb 16 bits then 32 else if ltb 8 bits then 16 else 8
