-- ===== src/BitUtil/Clz32.antt =====
-- `ClzHelper` at 32, 16 and 8 bits.
use storm_net.Prelude.{◌-◌, ◌^◌, refl, arith}
use storm_net.BitUtil.Normal.{Counts, halve-Counts}
use storm_net.BitUtil.{
  clz1_32, clz2_32, clz4_32, clz8_32, clz16_32, clz1_16, clz2_16, clz4_16, clz8_16, clz1_8, clz2_8,
  clz4_8,
}

clz1_32-Counts : Counts (2 ^ 31) (2 ^ 30) clz1_32
unfolding clz1_32
clz1_32-Counts x lo hi = ground arith

clz2_32-Counts : Counts (2 ^ 31) (2 ^ 28) clz2_32
unfolding clz2_32
clz2_32-Counts =
    halve-Counts (2 ^ 31) (2 ^ 30) (2 ^ 28) 2 (2 ^ 30 - 1) clz1_32 clz1_32-Counts refl (omega arith)
      (omega arith)

clz4_32-Counts : Counts (2 ^ 31) (2 ^ 24) clz4_32
unfolding clz4_32
clz4_32-Counts =
    halve-Counts (2 ^ 31) (2 ^ 28) (2 ^ 24) 4 (2 ^ 28 - 1) clz2_32 clz2_32-Counts refl (omega arith)
      (omega arith)

clz8_32-Counts : Counts (2 ^ 31) (2 ^ 16) clz8_32
unfolding clz8_32
clz8_32-Counts =
    halve-Counts (2 ^ 31) (2 ^ 24) (2 ^ 16) 8 (2 ^ 24 - 1) clz4_32 clz4_32-Counts refl (omega arith)
      (omega arith)

pub clz16_32-Counts : Counts (2 ^ 31) (2 ^ 0) clz16_32
unfolding clz16_32
clz16_32-Counts =
    halve-Counts (2 ^ 31) (2 ^ 16) (2 ^ 0) 16 (2 ^ 16 - 1) clz8_32 clz8_32-Counts refl (omega arith)
      (omega arith)

clz1_16-Counts : Counts (2 ^ 15) (2 ^ 14) clz1_16
unfolding clz1_16
clz1_16-Counts x lo hi = ground arith

clz2_16-Counts : Counts (2 ^ 15) (2 ^ 12) clz2_16
unfolding clz2_16
clz2_16-Counts =
    halve-Counts (2 ^ 15) (2 ^ 14) (2 ^ 12) 2 (2 ^ 14 - 1) clz1_16 clz1_16-Counts refl (omega arith)
      (omega arith)

clz4_16-Counts : Counts (2 ^ 15) (2 ^ 8) clz4_16
unfolding clz4_16
clz4_16-Counts =
    halve-Counts (2 ^ 15) (2 ^ 12) (2 ^ 8) 4 (2 ^ 12 - 1) clz2_16 clz2_16-Counts refl (omega arith)
      (omega arith)

pub clz8_16-Counts : Counts (2 ^ 15) (2 ^ 0) clz8_16
unfolding clz8_16
clz8_16-Counts =
    halve-Counts (2 ^ 15) (2 ^ 8) (2 ^ 0) 8 (2 ^ 8 - 1) clz4_16 clz4_16-Counts refl (omega arith)
      (omega arith)

clz1_8-Counts : Counts (2 ^ 7) (2 ^ 6) clz1_8
unfolding clz1_8
clz1_8-Counts x lo hi = ground arith

clz2_8-Counts : Counts (2 ^ 7) (2 ^ 4) clz2_8
unfolding clz2_8
clz2_8-Counts =
    halve-Counts (2 ^ 7) (2 ^ 6) (2 ^ 4) 2 (2 ^ 6 - 1) clz1_8 clz1_8-Counts refl (omega arith)
      (omega arith)

pub clz4_8-Counts : Counts (2 ^ 7) (2 ^ 0) clz4_8
unfolding clz4_8
clz4_8-Counts =
    halve-Counts (2 ^ 7) (2 ^ 4) (2 ^ 0) 4 (2 ^ 4 - 1) clz2_8 clz2_8-Counts refl (omega arith)
      (omega arith)
