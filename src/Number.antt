-- ===== src/Number.antt =====
-- NetReflectionNumber.h: `NetRangedNumber<NumericType, Min, Max>` at an unsigned type of 64 bits: its
-- arithmetic wraps around, and the result is brought back into the range. The constructor without
-- arguments can be instantiated at `int` only, and is left out.
pub mod Range
use storm_net.Prelude.{ℕ, ◌+◌, ◌-◌, ◌*◌, ◌/◌, ◌%◌, ◌^◌, min, max, bit_or, if◌then◌else◌, ◌==◌, leb}
use Prim.Native.Nat.{bit_and, bit_xor}
use storm_net.Bits.{u64}
use storm_net.Result.{Result, ok, err, undefined_behaviour, ◌>>=◌}
use storm_net.BitUtil.{get_required_bits_u64}
use storm_net.BitWriter.{BitWriter, write_bits}
use storm_net.BitReader.{BitReader, read_ubits}

-- The assignments: `=`, `++`, `--` and those with an operator, each with its right-hand side.
pub data Assignment : Type 0 where
  assign add subtract multiply divide modulo and_with or_with xor_with shift_right shift_left :
      ℕ → Assignment
  increment decrement : Assignment

-- What the operator of an assignment returns at `uint64_t`.
pub compute : Assignment → ℕ → Result ℕ
compute (assign val) value = ok (u64 val)
compute (add val) value = ok (u64 (value + val))
compute (subtract val) value = ok (u64 (value + 2 ^ 64 - u64 val))
compute (multiply val) value = ok (u64 (value * val))
compute (divide val) value = if val == 0 then err undefined_behaviour else ok (value / val)
compute (modulo val) value = if val == 0 then err undefined_behaviour else ok (value % val)
compute (and_with val) value = ok (u64 (bit_and value val))
compute (or_with val) value = ok (u64 (bit_or value val))
compute (xor_with val) value = ok (u64 (bit_xor value val))
compute (shift_right val) value =
    if leb 64 val then err undefined_behaviour else ok (value / 2 ^ val)
compute (shift_left val) value =
    if leb 64 val then err undefined_behaviour else ok (u64 (value * 2 ^ val))
compute increment value = ok (u64 (value + 1))
compute decrement value = ok (u64 (value + 2 ^ 64 - 1))

module _ (lowest highest : ℕ) where
  -- `Set`
  unfoldable pub set_value : ℕ → ℕ
  set_value val = max lowest (min highest val)

  -- `NetRangedNumber(NumericType val)`
  pub construct : ℕ → ℕ
  unfolding set_value
  construct val = set_value val

  unfoldable pub assign_by : Assignment → ℕ → Result ℕ
  unfolding set_value compute
  assign_by op value = compute op value >>= λ val. ok (set_value val)

  pub serialize_ranged : ℕ → BitWriter → BitWriter
  serialize_ranged val w =
      write_bits (u64 (val + 2 ^ 64 - lowest))
        (get_required_bits_u64 (u64 (highest + 2 ^ 64 - lowest))) w

  pub deserialize_ranged : ℕ → BitReader → Result (ℕ × BitReader)
  unfolding set_value
  deserialize_ranged val r =
      read_ubits (get_required_bits_u64 (u64 (highest + 2 ^ 64 - lowest))) r >>= λ ranged_val.
      ok (set_value (u64 (ranged_val.0 + lowest)), ranged_val.1)
