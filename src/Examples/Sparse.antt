-- ===== src/Examples/Sparse.antt =====
-- Sparse lists and cursors at concrete values.
use storm_net.Prelude.{
  ℕ, zero, suc, ◌≤◌, ◌≡◌, ◌↔◌, ◌⊎◌, ==_iff, refl, sym, ap, ◌∙◌, arith, List, [], ◌∷◌, length,
  length-append, Bool, true, ◌==◌, ◌&&◌, leb, if◌then◌else◌, none, some,
}
use storm_net.Bits.{to_bits}
use storm_net.Result.{ok, err, bad_alloc}
use storm_net.BitUtil.{get_required_bits_u64, count_leading_zeros_u64, clz32_64}
use storm_net.BitWriter.{BitWriter, empty, write_bits}
use storm_net.BitWriter.Content.{bits_of, IsValid as WriterValid}
use storm_net.BitWriter.Append.{write_bits-Appends}
use storm_net.BitWriter.Cursor.{Cursor, reserve, write_cursor}
use storm_net.BitWriter.Cursor.Reserved.{write_cursor-reserve}
use storm_net.BitReader.{BitReader, new as new_reader, vector_memory}
use storm_net.BitReader.Content.{left, IsValid as ReaderValid}
use storm_net.ReaderVector.Arrival.{vector_memory-lt}
use storm_net.Codec.{Codec, Appends, Takes}
use storm_net.Codec.Basic.{enum_codec}
use storm_net.SparseList.{SparseList, at, try_get, size}
use storm_net.SparseList.Contents.{IsValid, try_get-at}
use storm_net.SparseList.Refinement.{
  Operation, insert, push, emplace_free, remove, reserve_for, run, Steps, run-Steps,
}
use storm_net.SparseList.Iterate.{each, each-entries}
use storm_net.SparseList.Equality.{list_eq, list_eq-try_get}
use storm_net.SparseList.Compress.{compress, compress_lem}
use storm_net.SparseList.Wire.{deserialize_sparse}
use storm_net.SparseList.Wire.Arrives.{deserialize_sparse-try_get}

-- Two values, in the first and in the third of four slots.
abbrev two_values : SparseList ℕ
two_values = record { slots = some 5 ∷ none ∷ some 4 ∷ none ∷ []; end_index = 3 }

two_values-beyond : (i : ℕ) → 3 ≤ i → at two_values.slots i ≡ none
two_values-beyond zero h = absurd (omega arith)
two_values-beyond (suc zero) h = absurd (omega arith)
two_values-beyond (suc (suc zero)) h = absurd (omega arith)
two_values-beyond (suc (suc (suc zero))) h = refl
two_values-beyond (suc (suc (suc (suc i)))) h = refl

two_values-highest : (k : ℕ) → 3 ≡ suc k → (t : ℕ) × (at two_values.slots k ≡ some t)
two_values-highest zero e = absurd (omega arith)
two_values-highest (suc zero) e = absurd (omega arith)
two_values-highest (suc (suc zero)) e = (4, refl)
two_values-highest (suc (suc (suc k))) e = absurd (omega arith)

two_values-IsValid : IsValid 100 two_values
two_values-IsValid = record {
  within = omega arith;
  granted = omega arith;
  beyond = two_values-beyond;
  highest = two_values-highest;
}

abbrev operations : List (Operation ℕ)
operations = insert 6 1 ∷ push 9 ∷ remove 0 ∷ emplace_free 3 ∷ reserve_for 20 ∷ []

run-Steps_example :
    (run 100 operations two_values ≡ err bad_alloc)
    ⊎ ((list : SparseList ℕ) × (run 100 operations two_values ≡ ok list)
        × IsValid 100 list
        × Steps operations (try_get two_values) (try_get list))
run-Steps_example =
    run-Steps 100 operations two_values two_values-IsValid (omega arith)
      (omega arith, (tt, (tt, (tt, (tt, tt)))))

each-entries_example : (each two_values ≡ ok ((0, 5) ∷ (2, 4) ∷ [])) × (size two_values ≡ 2)
each-entries_example = each-entries two_values

list_eq-try_get_example :
    (b : Bool) × (list_eq (λ x y. x == y) two_values two_values ≡ ok b)
    × ((b ≡ true) ↔ (try_get two_values ≡ try_get two_values))
list_eq-try_get_example =
    list_eq-try_get (λ x y. x == y) two_values two_values 100 100 (λ x y. ==_iff x y)
      two_values-IsValid two_values-IsValid

compress_lem_example :
    ((compress two_values).slots ≡ some 5 ∷ some 4 ∷ none ∷ none ∷ [])
    × ((compress two_values).end_index ≡ 3)
compress_lem_example = compress_lem two_values

empty-IsValid : WriterValid empty
empty-IsValid = record {
  some_bit = omega arith;
  one_byte = omega arith;
  no_bytes = λ e. refl;
  bytes = tt;
}

-- Five bits are reserved and three written behind them.
abbrev behind_reserved : BitWriter
behind_reserved = write_bits 6 3 (reserve 5 empty).1

five_reserved : Appends empty (reserve 5 empty).1 (to_bits 5 0)
five_reserved = unfold reserve in write_bits-Appends 0 5 empty empty-IsValid

behind_reserved-Appends : Appends (reserve 5 empty).1 behind_reserved (to_bits 3 6)
behind_reserved-Appends = write_bits-Appends 6 3 (reserve 5 empty).1 five_reserved.1

write_cursor-reserve_example :
    (c : Cursor) × (w : BitWriter) × (write_cursor 5 (reserve 5 empty).0 19 5 behind_reserved
      ≡ ok (c, w))
    × Appends empty w (1 ∷ 1 ∷ 0 ∷ 0 ∷ 1 ∷ 0 ∷ 1 ∷ 1 ∷ [])
    × (length w.buffer ≡ length behind_reserved.buffer)
    × (w.total_bits ≡ behind_reserved.total_bits)
write_cursor-reserve_example =
    write_cursor-reserve 5 19 empty behind_reserved (to_bits 3 6) (omega arith) empty-IsValid
      (unfold bits_of in
        omega (
          arith,
          ap length behind_reserved-Appends.0,
          length-append (bits_of (reserve 5 empty).1) (to_bits 3 6),
          ap length five_reserved.0,
        ))
      behind_reserved-Appends

-- Key bits of a list of at most six values.
three_bits : get_required_bits_u64 6 ≡ 3
three_bits = unfold get_required_bits_u64 count_leading_zeros_u64 clz32_64 in refl

abbrev digits : Codec ℕ
digits = enum_codec 7 (omega arith)

-- The bits of two values behind their indices, and one more.
abbrev packet : BitReader
packet = new_reader (vector_memory (66 ∷ 69 ∷ []) (λ a. 0)) 0 2

packet-IsValid : ReaderValid packet
packet-IsValid = record {
  in_byte = omega arith;
  bytes =
      vector_memory-lt (66 ∷ 69 ∷ []) (λ a. 0) (omega arith, (omega arith, tt)) (λ a. omega arith);
}

-- A list whose only value has a higher index than those that are received.
abbrev old_value : SparseList ℕ
old_value = record { slots = none ∷ none ∷ none ∷ some 1 ∷ []; end_index = 4 }

old_value-beyond : (i : ℕ) → 4 ≤ i → at old_value.slots i ≡ none
old_value-beyond zero h = absurd (omega arith)
old_value-beyond (suc zero) h = absurd (omega arith)
old_value-beyond (suc (suc zero)) h = absurd (omega arith)
old_value-beyond (suc (suc (suc zero))) h = absurd (omega arith)
old_value-beyond (suc (suc (suc (suc i)))) h = refl

old_value-highest : (k : ℕ) → 4 ≡ suc k → (t : ℕ) × (at old_value.slots k ≡ some t)
old_value-highest zero e = absurd (omega arith)
old_value-highest (suc zero) e = absurd (omega arith)
old_value-highest (suc (suc zero)) e = absurd (omega arith)
old_value-highest (suc (suc (suc zero))) e = (1, refl)
old_value-highest (suc (suc (suc (suc k)))) e = absurd (omega arith)

old_value-IsValid : IsValid 100 old_value
old_value-IsValid = record {
  within = omega arith;
  granted = omega arith;
  beyond = old_value-beyond;
  highest = old_value-highest;
}

two_values-Fits : (j t : ℕ) → at two_values.slots j ≡ some t → t ≤ 7
two_values-Fits zero t e = let same : 5 ≡ t = cc in omega arith
two_values-Fits (suc zero) t e = cc
two_values-Fits (suc (suc zero)) t e = let same : 4 ≡ t = cc in omega arith
two_values-Fits (suc (suc (suc zero))) t e = cc
two_values-Fits (suc (suc (suc (suc j)))) t e = cc

deserialize_sparse-try_get_example :
    (list : SparseList ℕ) × Takes (deserialize_sparse digits 6 100 old_value packet) list (0 ∷ [])
    × IsValid 100 list
    × ((j : ℕ)
        → try_get list j
          ≡ (if leb 3 j && (suc j == 4) then try_get old_value j else try_get two_values j))
deserialize_sparse-try_get_example =
    deserialize_sparse-try_get digits 6 100 two_values old_value packet (0 ∷ []) two_values-IsValid
      old_value-IsValid (omega arith) (omega arith) (omega arith) (omega arith)
      (λ j t e. two_values-Fits j t (sym (try_get-at 100 two_values j two_values-IsValid) ∙ e))
      packet-IsValid (unfold left get_required_bits_u64 count_leading_zeros_u64 clz32_64 in refl)
