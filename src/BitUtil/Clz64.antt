-- ===== src/BitUtil/Clz64.antt =====
-- `ClzHelper` at 64 bits: each level is right on the words whose leading zeros it can count.
use storm_net.Prelude.{◌-◌, ◌^◌, refl, arith}
use storm_net.BitUtil.Normal.{Counts, halve-Counts}
use storm_net.BitUtil.{clz1_64, clz2_64, clz4_64, clz8_64, clz16_64, clz32_64}

clz1_64-Counts : Counts (2 ^ 63) (2 ^ 62) clz1_64
unfolding clz1_64
clz1_64-Counts x lo hi = ground arith

clz2_64-Counts : Counts (2 ^ 63) (2 ^ 60) clz2_64
unfolding clz2_64
clz2_64-Counts =
    halve-Counts (2 ^ 63) (2 ^ 62) (2 ^ 60) 2 (2 ^ 62 - 1) clz1_64 clz1_64-Counts refl (omega arith)
      (omega arith)

clz4_64-Counts : Counts (2 ^ 63) (2 ^ 56) clz4_64
unfolding clz4_64
clz4_64-Counts =
    halve-Counts (2 ^ 63) (2 ^ 60) (2 ^ 56) 4 (2 ^ 60 - 1) clz2_64 clz2_64-Counts refl (omega arith)
      (omega arith)

clz8_64-Counts : Counts (2 ^ 63) (2 ^ 48) clz8_64
unfolding clz8_64
clz8_64-Counts =
    halve-Counts (2 ^ 63) (2 ^ 56) (2 ^ 48) 8 (2 ^ 56 - 1) clz4_64 clz4_64-Counts refl (omega arith)
      (omega arith)

clz16_64-Counts : Counts (2 ^ 63) (2 ^ 32) clz16_64
unfolding clz16_64
clz16_64-Counts =
    halve-Counts (2 ^ 63) (2 ^ 48) (2 ^ 32) 16 (2 ^ 48 - 1) clz8_64 clz8_64-Counts refl
      (omega arith) (omega arith)

pub clz32_64-Counts : Counts (2 ^ 63) (2 ^ 0) clz32_64
unfolding clz32_64
clz32_64-Counts =
    halve-Counts (2 ^ 63) (2 ^ 32) (2 ^ 0) 32 (2 ^ 32 - 1) clz16_64 clz16_64-Counts refl
      (omega arith) (omega arith)
