-- ===== src/Map/Wire.antt =====
-- NetReflectionMap.h: full serialization. The values come in the order of their keys, each behind its
-- key.
pub mod Arrives
use storm_net.Prelude.{
  ℕ, zero, suc, ◌+◌, ◌^◌, ◌≤◌, ◌<◌, ◌≡◌, refl, sym, ap, ◌∙◌, List, [], ◌∷◌, ◌++◌, append_assoc,
  append-nil, true, false, ltb, ◌==◌, if◌then◌else◌, length, Option, none, some, arith,
}
use storm_net.Bits.{to_bits}
use storm_net.Result.{Result, ok, err, undefined_behaviour, ◌>>=◌}
use storm_net.BitUtil.{get_required_bits_u64}
use storm_net.BitWriter.{BitWriter, write_bits}
use storm_net.BitReader.{BitReader, read_ubits}
use storm_net.BitWriter.Content.{IsValid as WriterValid}
use storm_net.BitReader.Content.{left, IsValid as ReaderValid}
use storm_net.Codec.{Codec, Appends, Takes}
use storm_net.Codec.Steps.{write_bits-Appends, Appends-nil, Appends-then, read_ubits-Takes}
use storm_net.Map.{get, insert_or_assign, emplace_at}
use storm_net.Map.Order.{Ascending}

-- `while (current_itr != val.end() && current_itr->first < input_index)`, which erases.
unfoldable pub erase_below : {T : Type 0} → ℕ → List (ℕ × T) → List (ℕ × T)
erase_below k [] = []
erase_below k (entry ∷ entries) =
    let rest = erase_below k entries in if ltb entry.0 k then rest else entry ∷ entries

module _ {T : Type 0} (c : Codec T) (max_size : ℕ) where
  abbrev key_bits : ℕ
  key_bits = get_required_bits_u64 max_size

  unfoldable pub serialize_entries : List (ℕ × T) → BitWriter → BitWriter
  serialize_entries [] w = w
  serialize_entries (entry ∷ entries) w =
      serialize_entries entries (c.serialize entry.1 (write_bits entry.0 key_bits w))

  unfoldable pub serialize_map : List (ℕ × T) → BitWriter → BitWriter
  unfolding serialize_entries
  serialize_map entries w = serialize_entries entries (write_bits (length entries) key_bits w)

  -- The value of a key that is not at the iterator: `EmplaceAt`, in front of the iterator.
  pub receive_new : ℕ → List (ℕ × T) → BitReader → Result (List (ℕ × T) × BitReader)
  receive_new k passed r =
      let placed = emplace_at k c.default passed in
      elim (get k placed) [
        | none ↦ err undefined_behaviour
        | some old ↦ c.deserialize old r >>= λ new. ok (insert_or_assign k (new.0) placed, new.1)
      ]

  -- One value. The map is what the iterator has passed, and what is ahead of it.
  unfoldable pub receive_at :
      ℕ → List (ℕ × T) → List (ℕ × T) → BitReader → Result (List (ℕ × T) × List (ℕ × T) × BitReader)
  receive_at k passed [] r = receive_new k passed r >>= λ new. ok (new.0, [], new.1)
  receive_at k passed (entry ∷ ahead) r =
      let placed = (receive_new k passed r >>= λ new. ok (new.0, entry ∷ ahead, new.1)) in
      if entry.0 == k
      then (c.deserialize entry.1 r >>= λ new. ok (passed ++ (entry.0, new.0) ∷ [], ahead, new.1))
      else placed

  unfoldable pub receive_all :
      ℕ → List (ℕ × T) → List (ℕ × T) → BitReader → Result (List (ℕ × T) × BitReader)
  unfolding receive_at erase_below
  receive_all zero passed ahead r = ok (passed, r)
  receive_all (suc num_elements) passed ahead r = read_ubits key_bits r >>= λ input_index.
      receive_at (input_index.0) passed (erase_below (input_index.0) ahead) (input_index.1)
      >>= λ state. receive_all num_elements (state.0) (state.1) (state.2)

  unfoldable pub deserialize_map : List (ℕ × T) → BitReader → Result (List (ℕ × T) × BitReader)
  unfolding receive_all
  deserialize_map val r =
      read_ubits key_bits r >>= λ num_elements. receive_all (num_elements.0) [] val (num_elements.1)

  -- The bits on the wire: how many values, and each one behind its key.
  abbrev pub encoding_entries : List (ℕ × T) → List ℕ
  encoding_entries [] = []
  encoding_entries (entry ∷ entries) =
      to_bits key_bits (entry.0) ++ (c.encoding (entry.1) ++ encoding_entries entries)

  abbrev pub encoding_map : List (ℕ × T) → List ℕ
  encoding_map entries = to_bits key_bits (length entries) ++ encoding_entries entries

  serialize_entries-Appends :
      (entries : List (ℕ × T)) (w : BitWriter)
      → WriterValid w
      → Appends w (serialize_entries entries w) (encoding_entries entries)
  unfolding serialize_entries
  serialize_entries-Appends [] w v = Appends-nil w v
  serialize_entries-Appends (entry ∷ entries) w v =
      let w1 = write_bits (entry.0) key_bits w in
      let w2 = c.serialize (entry.1) w1 in
      Appends-then w w1 (serialize_entries entries w2) (to_bits key_bits (entry.0))
        (c.encoding (entry.1) ++ encoding_entries entries)
        (write_bits-Appends (entry.0) key_bits w v)
        (λ v1.
          Appends-then w1 w2 (serialize_entries entries w2) (c.encoding (entry.1))
            (encoding_entries entries) (c.serialize-Appends (entry.1) w1 v1)
            (serialize_entries-Appends entries w2))

  pub serialize_map-Appends :
      (entries : List (ℕ × T)) (w : BitWriter)
      → WriterValid w
      → Appends w (serialize_map entries w) (encoding_map entries)
  unfolding serialize_map
  serialize_map-Appends entries w v =
      let w1 = write_bits (length entries) key_bits w in
      Appends-then w w1 (serialize_entries entries w1) (to_bits key_bits (length entries))
        (encoding_entries entries) (write_bits-Appends (length entries) key_bits w v)
        (serialize_entries-Appends entries w1)
