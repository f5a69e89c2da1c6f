-- ===== src/Examples/Numbers.antt =====
-- NetBitUtil.h at concrete numbers.
use storm_net.Prelude.{arith}
use storm_net.BitUtil.{get_required_bits_u64}
use storm_net.BitUtil.Bounds.{IsBitLength, get_required_bits_u64-IsBitLength}

get_required_bits_u64-IsBitLength_example : IsBitLength (get_required_bits_u64 1000) 1000
get_required_bits_u64-IsBitLength_example =
    get_required_bits_u64-IsBitLength 1000 (omega arith) (omega arith)
