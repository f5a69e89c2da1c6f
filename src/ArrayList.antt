-- ===== src/ArrayList.antt =====
-- NetReflectionArrayList.h: `NetArrayList<T, MaxSize>`, a vector that may not grow past its maximum.
-- An index past the end, where the C++ library gives no meaning to the call, is
-- `undefined_behaviour`.
pub mod Bounds
pub mod Edit
pub mod Wire
pub mod Delta
use storm_net.Prelude.{
  ℕ, zero, suc, ◌+◌, ◌-◌, List, [], ◌∷◌, ◌++◌, Bool, true, false, ◌&&◌, if◌then◌else◌, ◌==◌, ltb,
  leb, length, take, drop, set, replicate, Option, none, some,
}
use storm_net.Result.{Result, ok, err, list_overflow, undefined_behaviour, ◌>>=◌}
use storm_net.BitUtil.{get_required_bits_u64}
use storm_net.BitWriter.{BitWriter, write_bits}
use storm_net.BitReader.{BitReader, read_ubits}
use storm_net.Codec.{Codec}
use storm_net.Codec.Each.{serialize_each, deserialize_each}

module _ {T : Type 0} where
  -- The loop of `operator ==` over lists of one length, by a comparison of the elements.
  pub elements_eq : (T → T → Bool) → List T → List T → Bool
  elements_eq eq [] ys = true
  elements_eq eq (x ∷ xs) [] = false
  elements_eq eq (x ∷ xs) (y ∷ ys) = if eq x y then elements_eq eq xs ys else false

  unfoldable pub list_eq : (T → T → Bool) → List T → List T → Bool
  unfolding elements_eq
  list_eq eq xs ys = if length xs == length ys then elements_eq eq xs ys else false

  -- `vector::insert` and `vector::erase` at an index inside the vector.
  pub insert_index : ℕ → T → List T → List T
  insert_index zero t xs = t ∷ xs
  insert_index (suc i) t [] = t ∷ []
  insert_index (suc i) t (x ∷ xs) = x ∷ insert_index i t xs

  pub erase_index : ℕ → List T → List T
  erase_index i [] = []
  erase_index zero (x ∷ xs) = xs
  erase_index (suc i) (x ∷ xs) = x ∷ erase_index i xs

  -- `vector::resize`
  pub resize_to : T → ℕ → List T → List T
  resize_to default n xs = take n xs ++ replicate (n - length xs) default

  module _ (max_size : ℕ) where
    -- `PushBack`, `push_back`, `EmplaceBack` and `emplace_back`
    pub push_back : T → List T → Result (List T)
    push_back val xs = if leb max_size (length xs) then err list_overflow else ok (xs ++ val ∷ [])

    -- `InsertAt`
    pub insert_at : T → ℕ → List T → Result (List T)
    unfolding insert_index
    insert_at val logical_index xs =
        if leb max_size (length xs)
        then err list_overflow
        else if logical_index == length xs
        then ok (xs ++ val ∷ [])
        else if ltb (length xs) logical_index
        then err undefined_behaviour
        else ok (insert_index logical_index val xs)

    -- `EmplaceAt` puts the new element in place of the one at the index.
    pub emplace_at : ℕ → T → List T → Result (List T)
    emplace_at logical_index val xs =
        if leb max_size (length xs)
        then err list_overflow
        else if logical_index == length xs
        then ok (xs ++ val ∷ [])
        else if ltb (length xs) logical_index
        then err undefined_behaviour
        else ok (set xs logical_index val)

    -- `insert(pos, val)` and `emplace(pos, args)`, by the index of the iterator.
    pub insert : ℕ → T → List T → Result (List T)
    unfolding insert_index
    insert pos val xs =
        if leb max_size (length xs)
        then err list_overflow
        else if ltb (length xs) pos
        then err undefined_behaviour
        else ok (insert_index pos val xs)

    -- `RemoveAt` and `erase(pos)`
    pub remove_at : ℕ → List T → Result (List T)
    unfolding erase_index
    remove_at logical_index xs =
        if ltb logical_index (length xs)
        then ok (erase_index logical_index xs)
        else err undefined_behaviour

    -- `erase(pos, end)`
    pub erase_range : ℕ → ℕ → List T → Result (List T)
    erase_range pos last xs =
        if leb pos last && leb last (length xs)
        then ok (take pos xs ++ drop last xs)
        else err undefined_behaviour

    pub resize : T → ℕ → List T → Result (List T)
    unfolding resize_to
    resize default new_size xs =
        if ltb max_size new_size then err list_overflow else ok (resize_to default new_size xs)

    pub clear : List T → List T
    clear xs = []

module _ {T : Type 0} (c : Codec T) (max_size : ℕ) where
  pub serialize_list : List T → BitWriter → BitWriter
  unfolding serialize_each
  serialize_list val w =
      serialize_each c val (write_bits (length val) (get_required_bits_u64 max_size) w)

  pub deserialize_list : List T → BitReader → Result (List T × BitReader)
  unfolding deserialize_each
  deserialize_list val r = read_ubits (get_required_bits_u64 max_size) r >>= λ size.
      resize max_size c.default (size.0) val >>= λ resized. deserialize_each c resized (size.1)
