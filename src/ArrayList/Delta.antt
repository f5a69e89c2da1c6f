-- ===== src/ArrayList/Delta.antt =====
-- NetReflectionArrayList.h: delta serialization of lists. Each element that both lists have takes one
-- bit, whether it has changed, with its difference behind it.
pub mod Elements
pub mod Send
pub mod Arrives
use storm_net.Prelude.{
  ℕ, zero, suc, ◌+◌, ◌-◌, List, [], ◌∷◌, ◌++◌, Bool, true, false, if◌then◌else◌, ◌==◌, ltb, length,
  set, take, drop, min, Option, none, some, ◌^◌,
}
use storm_net.Bits.{u32}
use storm_net.Result.{Result, ok, err, ◌>>=◌}
use storm_net.BitUtil.{get_required_bits_u64}
use storm_net.BitWriter.{BitWriter, write_bits}
use storm_net.BitReader.{BitReader, read_ubits}
use storm_net.BitWriter.Cursor.{Cursor, reserve, roll_back, write_cursor}
use storm_net.ArrayList.{push_back, remove_at}
use storm_net.Delta.{DeltaCodec}

-- `(int)` of a size, which takes its low 32 bits; a negative number is `none`.
unfoldable pub to_int : ℕ → Option ℕ
to_int size = if ltb (u32 size) (2 ^ 31) then some (u32 size) else none

-- `std::min` of two such numbers.
abbrev pub min_int : Option ℕ → Option ℕ → Option ℕ
min_int none b = none
min_int (some a) none = none
min_int (some a) (some b) = some (min a b)

-- `RemoveAt` of the last index, as often as elements are to go.
pub remove_last : {T : Type 0} → ℕ → ℕ → List T → Result (List T)
remove_last max_size zero xs = ok xs
remove_last max_size (suc count) xs =
    remove_at max_size (length xs - 1) xs >>= λ shorter. remove_last max_size count shorter

module _ {T : Type 0} (d : DeltaCodec T) (max_size : ℕ) where
  -- One element: a bit is reserved, and written when it is known whether there is a difference.
  pub serialize_element : T → T → BitWriter → Result (Bool × BitWriter)
  serialize_element to from w = d.serialize_delta to from (reserve 1 w).1 >>= λ sent.
      write_cursor 1 (reserve 1 w).0 (if sent.0 then 1 else 0) 1 (sent.1) >>= λ done.
      ok (sent.0, done.1)

  -- The loop over lists of different lengths.
  pub serialize_resized : List T → List T → BitWriter → Result BitWriter
  serialize_resized [] from w = ok w
  serialize_resized (t ∷ to) [] w = serialize_resized to [] (d.codec.serialize t w)
  serialize_resized (t ∷ to) (f ∷ from) w =
      serialize_element t f w >>= λ sent. serialize_resized to from (sent.1)

  -- The loop over lists of one length, with the number of the elements that differ.
  pub serialize_same : List T → List T → ℕ → BitWriter → Result (ℕ × BitWriter)
  serialize_same [] from num_wrote w = ok (num_wrote, w)
  serialize_same (t ∷ to) [] num_wrote w = ok (num_wrote, w)
  serialize_same (t ∷ to) (f ∷ from) num_wrote w = serialize_element t f w >>= λ sent.
      serialize_same to from (if sent.0 then num_wrote + 1 else num_wrote) (sent.1)

  pub serialize_list_delta : List T → List T → BitWriter → Result (Bool × BitWriter)
  serialize_list_delta to from w =
      let sized = write_bits (length to) (get_required_bits_u64 max_size) (write_bits 1 1 w) in
      let begin_cursor = (reserve 1 w).0 in
      if length to == length from
      then (serialize_same to from 0 (reserve 1 w).1 >>= λ wrote.
          if ltb 0 (wrote.0)
          then (write_cursor 1 begin_cursor 0 1 (wrote.1) >>= λ done. ok (true, done.1))
          else (roll_back begin_cursor (wrote.1) >>= λ back. ok (false, back)))
      else (serialize_resized to from sized >>= λ wrote. ok (true, wrote))

  -- One element: `if (val_changed) NetDeserializeValueDelta(val[index], reader)`
  pub deserialize_element : T → BitReader → Result (T × BitReader)
  deserialize_element old r = read_ubits 1 r >>= λ changed.
      if changed.0 == 0 then ok (old, changed.1) else d.deserialize_delta old (changed.1)

  pub deserialize_elements : List T → BitReader → Result (List T × BitReader)
  deserialize_elements [] r = ok ([], r)
  deserialize_elements (old ∷ olds) r = deserialize_element old r >>= λ first.
      deserialize_elements olds (first.1) >>= λ others. ok (first.0 ∷ others.0, others.1)

  -- `EmplaceBack`, and the new element read over its default.
  pub deserialize_new : ℕ → List T → BitReader → Result (List T × BitReader)
  deserialize_new zero xs r = ok (xs, r)
  deserialize_new (suc count) xs r = push_back max_size d.codec.default xs >>= λ grown.
      d.codec.deserialize d.codec.default r >>= λ new.
      deserialize_new count (set grown (length xs) (new.0)) (new.1)

  -- What the smaller size is for. When it is negative as an `int`, the loop that removes elements goes
  -- on below the first.
  pub resized_by : List T → ℕ → BitReader → Option ℕ → Result (List T × BitReader)
  resized_by val new_size r none = remove_last max_size (length val) val >>= λ emptied.
      remove_at max_size (2 ^ 64 - 1) emptied >>= λ kept. ok (kept, r)
  resized_by val new_size r (some min_size) =
      deserialize_elements (take min_size val) r >>= λ front.
      remove_last max_size (length val - min_size) (front.0 ++ drop min_size val) >>= λ kept.
      deserialize_new (new_size - length kept) kept (front.1)

  pub deserialize_resized : List T → BitReader → Result (List T × BitReader)
  deserialize_resized val r = read_ubits (get_required_bits_u64 max_size) r >>= λ new_size.
      resized_by val (new_size.0) (new_size.1) (min_int (to_int (length val)) (to_int (new_size.0)))

  pub deserialize_list_delta : List T → BitReader → Result (List T × BitReader)
  deserialize_list_delta val r = read_ubits 1 r >>= λ size_change.
      if size_change.0 == 0
      then deserialize_elements val (size_change.1)
      else deserialize_resized val (size_change.1)
