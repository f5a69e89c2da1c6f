-- ===== src/SparseList/Wire.antt =====
-- NetReflectionSparseList.h: full serialization. The number of values is written last, through a
-- cursor at the front; each value has its index in front of it.
pub mod Receive
pub mod ReceiveAll
pub mod Arrives
use storm_net.Prelude.{
  ℕ, zero, suc, ◌+◌, ◌-◌, ◌*◌, ◌^◌, ◌≤◌, ◌<◌, ◌≡◌, refl, ap, sym, ◌∙◌, List, [], ◌∷◌, ◌++◌,
  append_assoc, append-nil, Bool, true, false, if◌then◌else◌, ◌==◌, ltb, leb, Option-cases, inl,
  inr, length, length-append, set, Option, none, some, arith,
}
use storm_net.Bits.{u32, to_bits, length-to_bits}
use storm_net.Result.{Result, ok, err, does_not_return, ◌>>=◌}
use storm_net.BitUtil.{get_required_bits_u64}
use storm_net.BitWriter.{BitWriter, write_bits}
use storm_net.BitReader.{BitReader, read_ubits}
use storm_net.BitWriter.Content.{bits_of, IsValid as WriterValid}
use storm_net.BitWriter.Cursor.{reserve, write_cursor}
use storm_net.BitWriter.Cursor.Reserved.{write_cursor-reserve}
use storm_net.Codec.{Codec, Appends}
use storm_net.Codec.Steps.{write_bits-Appends, Appends-nil, Appends-then}
use storm_net.SparseList.{SparseList, at, has_at, get_at, remove_at, emplace_at}
use storm_net.SparseList.Iterate.{entries, entries-none, entries-some}

-- `(int)` of a word, where only whether it is above another index matters: a negative number is not.
pub cast_index : ℕ → ℕ
cast_index word = if ltb (u32 word) (2 ^ 31) then u32 word else 0

module _ {T : Type 0} where
  -- `while (current_index < input_index)`
  pub remove_below : ℕ → ℕ → SparseList T → SparseList T
  unfolding remove_at
  remove_below zero current_index list = list
  remove_below (suc remaining) current_index list =
      remove_below remaining (current_index + 1) (remove_at current_index list)

  -- `val[index] = ...`
  pub assign_at : ℕ → T → SparseList T → SparseList T
  assign_at index t list = record {
    slots = set list.slots index (some t);
    end_index = list.end_index;
  }

  -- `while (current_index < val.HighestIndex())`; the fuel counts its tests.
  pub remove_rest : ℕ → ℕ → SparseList T → Result (SparseList T)
  unfolding remove_at
  remove_rest zero current_index list = err does_not_return
  remove_rest (suc fuel) current_index list =
      let rest = remove_rest fuel (current_index + 1) (remove_at current_index list) in
      if ltb (current_index + 1) list.end_index then rest else ok list

module _ {T : Type 0} (c : Codec T) (max_size : ℕ) where
  abbrev key_bits : ℕ
  key_bits = get_required_bits_u64 max_size

  -- The loop of the serializer over the indices that are left.
  pub serialize_slots : List (Option T) → ℕ → ℕ → ℕ → BitWriter → ℕ × BitWriter
  serialize_slots slots zero index num_elements w = (num_elements, w)
  serialize_slots slots (suc remaining) index num_elements w = elim (at slots index) [
    | none ↦ serialize_slots slots remaining (index + 1) num_elements w
    | some t ↦
        serialize_slots slots remaining (index + 1) (num_elements + 1)
          (c.serialize t (write_bits index key_bits w))
  ]

  unfoldable pub serialize_sparse : SparseList T → BitWriter → Result BitWriter
  unfolding serialize_slots
  serialize_sparse list w =
      let reserved = reserve key_bits w in
      let written = serialize_slots list.slots list.end_index 0 0 (reserved.1) in
      write_cursor key_bits (reserved.0) (written.0) key_bits (written.1) >>= λ done. ok (done.1)

  module _ (limit : ℕ) where
    -- `if (!val.HasAt(index)) val.EmplaceAt(index)`
    pub place_at : ℕ → SparseList T → Result (SparseList T)
    place_at index val = if has_at val index then ok val else emplace_at limit index c.default val

    -- One value: the slots before it are emptied, and its own is filled if it is empty.
    pub receive : ℕ → SparseList T → BitReader → Result (ℕ × SparseList T × BitReader)
    receive current_index val r = read_ubits key_bits r >>= λ input.
        let input_index = cast_index (input.0) in
        let cleared = remove_below (input_index - current_index) current_index val in
        let index = if ltb current_index input_index then input_index else current_index in
        place_at index cleared >>= λ placed. get_at placed index >>= λ old.
        c.deserialize old (input.1) >>= λ new. ok (index + 1, assign_at index (new.0) placed, new.1)

    pub receive_all : ℕ → ℕ → SparseList T → BitReader → Result (ℕ × SparseList T × BitReader)
    receive_all zero current_index val r = ok (current_index, val, r)
    receive_all (suc num_elements) current_index val r = receive current_index val r >>= λ state.
        receive_all num_elements (state.0) (state.1) (state.2)

    unfoldable pub deserialize_sparse : SparseList T → BitReader → Result (SparseList T × BitReader)
    deserialize_sparse val r = read_ubits key_bits r >>= λ num_elements.
        receive_all (num_elements.0) 0 val (num_elements.1) >>= λ state.
        remove_rest ((state.1).end_index + 1) (state.0) (state.1) >>= λ kept. ok (kept, state.2)

  -- The bits on the wire: how many values, and each one behind its index.
  abbrev pub encoding_pairs : List (ℕ × T) → List ℕ
  encoding_pairs [] = []
  encoding_pairs (pair ∷ pairs) =
      to_bits key_bits (pair.0) ++ (c.encoding (pair.1) ++ encoding_pairs pairs)

  abbrev pub encoding_sparse : SparseList T → List ℕ
  encoding_sparse list =
      to_bits key_bits (length (entries list.slots 0 list.end_index))
      ++ encoding_pairs (entries list.slots 0 list.end_index)

  serialize_slots-none :
      (slots : List (Option T)) (n i num : ℕ) (w : BitWriter)
      → at slots i ≡ none
      → serialize_slots slots (suc n) i num w ≡ serialize_slots slots n (i + 1) num w
  unfolding serialize_slots
  serialize_slots-none slots n i num w e = rw (serialize_slots, e) refl

  serialize_slots-some :
      (slots : List (Option T)) (n i num : ℕ) (w : BitWriter) (t : T)
      → at slots i ≡ some t
      → serialize_slots slots (suc n) i num w
        ≡ serialize_slots slots n (i + 1) (num + 1) (c.serialize t (write_bits i key_bits w))
  unfolding serialize_slots
  serialize_slots-some slots n i num w t e = rw (serialize_slots, e) refl

  serialize_slots-Appends :
      (slots : List (Option T)) (n i num : ℕ) (w : BitWriter)
      → WriterValid w
      → ((serialize_slots slots n i num w).0 ≡ num + length (entries slots i n))
        × Appends w (serialize_slots slots n i num w).1 (encoding_pairs (entries slots i n))
  unfolding serialize_slots
  serialize_slots-Appends slots zero i num w v = (omega arith, Appends-nil w v)
  serialize_slots-Appends slots (suc n) i num w v = elim (Option-cases (at slots i)) [
    | inl free ↦
        rw (serialize_slots-none slots n i num w free, entries-none slots i n free)
          (serialize_slots-Appends slots n (i + 1) num w v)
    | inr (t, held) ↦
        let w1 = write_bits i key_bits w in
        let w2 = c.serialize t w1 in
        let indexed = write_bits-Appends i key_bits w v in
        let valued = c.serialize-Appends t w1 indexed.1 in
        let (count, others) = serialize_slots-Appends slots n (i + 1) (num + 1) w2 valued.1 in
        let w3 = (serialize_slots slots n (i + 1) (num + 1) w2).1 in
        rw (serialize_slots-some slots n i num w t held, entries-some slots i n t held)
          (
            omega (arith, count),
            Appends-then w w1 w3 (to_bits key_bits i)
                (c.encoding t ++ encoding_pairs (entries slots (i + 1) n)) indexed
                (λ v1.
                  Appends-then w1 w2 w3 (c.encoding t) (encoding_pairs (entries slots (i + 1) n))
                    (c.serialize-Appends t w1 v1) (λ _. others)),
          )
  ]

  -- When the number of values needs fewer than 64 bits, and the bits written so far and those of the
  -- list are fewer than 2 ^ 63, the serializer returns and has appended the number of the values that
  -- the list holds, and each value behind its index, in the order of the indices.
  pub serialize_sparse-Appends :
      (list : SparseList T) (w : BitWriter)
      → key_bits < 64
      → WriterValid w
      → length (bits_of w) + length (encoding_sparse list) < 2 ^ 63
      → (w' : BitWriter) × (serialize_sparse list w ≡ ok w') × Appends w w' (encoding_sparse list)
  unfolding serialize_sparse reserve
  serialize_sparse-Appends list w narrow v small =
      let w1 = (reserve key_bits w).1 in
      let reserved : Appends w w1 (to_bits key_bits 0) = write_bits-Appends 0 key_bits w v in
      let written = serialize_slots list.slots list.end_index 0 0 w1 in
      let pairs = entries list.slots 0 list.end_index in
      let (count, appended) = serialize_slots-Appends list.slots list.end_index 0 0 w1 reserved.1 in
      let (cursor, w3, done, result, _, _) =
        write_cursor-reserve key_bits (length pairs) w (written.1) (encoding_pairs pairs) narrow v
          (omega (
            arith,
            ap length (appended.0),
            ap length (reserved.0),
            length-append (bits_of w1) (encoding_pairs pairs),
            length-append (bits_of w) (to_bits key_bits 0),
            length-to_bits key_bits 0,
            length-to_bits key_bits (length pairs),
            length-append (to_bits key_bits (length pairs)) (encoding_pairs pairs),
          ))
          appended in
      (
        w3,
        ap
              (λ (n : ℕ).
                write_cursor key_bits (reserve key_bits w).0 n key_bits (written.1) >>= λ d.
                ok (d.1))
              {x = written.0} (omega (arith, count))
            ∙ ap (λ (m : Result _). m >>= λ d. ok (d.1)) done,
        result,
      )
