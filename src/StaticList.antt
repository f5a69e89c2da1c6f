-- ===== src/StaticList.antt =====
-- NetReflectionStaticList.h: `NetReflectionStaticListPtr`, the index of an element of a list that is
-- the same on both sides.
pub mod Search
pub mod Wire
use storm_net.Prelude.{
  ℕ, zero, suc, ◌+◌, List, [], ◌∷◌, Bool, if◌then◌else◌, ◌==◌, length, get_elem?, Option, none,
  some, false,
}
use storm_net.Result.{Result, ok, err, not_in_list, undefined_behaviour, ◌>>=◌}
use storm_net.BitUtil.{get_required_bits_signed}
use storm_net.BitWriter.{BitWriter, write_bits}
use storm_net.BitReader.{BitReader, read_ubits}

-- A pointer: to an element of the list, or to something else.
pub data Pointer : Type 0 where
  to_element : ℕ → Pointer
  elsewhere : Pointer

abbrev pub is_element : Pointer → ℕ → Bool
is_element (to_element k) index = k == index
is_element elsewhere index = false

-- The loop of `operator = (const DataType * val)` over the indices that are left.
pub assign_loop : Pointer → ℕ → ℕ → Result ℕ
assign_loop val index zero = err not_in_list
assign_loop val index (suc remaining) =
    let rest = assign_loop val (index + 1) remaining in
    if is_element val index then ok index else rest

-- `DataList` is a pointer to the variable that points to the list: behind its first place there is
-- nothing that the sources define.
pub data_list_at : ℕ → Result Pointer
data_list_at zero = ok (to_element 0)
data_list_at (suc k) = err undefined_behaviour

module _ {D : Type 0} where
  -- `operator = (const DataType * val)`, which `operator = (const DataType & val)` calls.
  pub assign : List D → Pointer → Result ℕ
  unfolding assign_loop
  assign list val = assign_loop val 0 (length list)

  -- The loop of `SetTo`; `matches` is the comparison with its argument.
  pub set_loop : (D → Bool) → ℕ → List D → Result ℕ
  set_loop matches index [] = err not_in_list
  set_loop matches index (elem ∷ elems) =
      let rest = set_loop matches (index + 1) elems in if matches elem then ok index else rest

  unfoldable pub set_to : (D → Bool) → List D → Result ℕ
  unfolding set_loop
  set_to matches list = set_loop matches 0 list

  -- `operator *`, `Value` and the other ways to the element.
  pub value : List D → ℕ → Result D
  value list current_index = elim (get_elem? list current_index) [
    | none ↦ err undefined_behaviour
    | some elem ↦ ok elem
  ]

  pub serialize_static : List D → ℕ → BitWriter → BitWriter
  serialize_static list current_index w =
      write_bits current_index (get_required_bits_signed 4 (length list)) w

  pub deserialize_static : List D → ℕ → BitReader → Result (ℕ × BitReader)
  unfolding assign data_list_at
  deserialize_static list current_index r =
      read_ubits (get_required_bits_signed 4 (length list)) r >>= λ index.
      data_list_at (index.0) >>= λ val. assign list val >>= λ found. ok (found, index.1)
