-- ===== src/Delta/Struct/Send.antt =====
-- The bits of a struct that is sent as its difference from another.
use storm_net.Prelude.{
  ℕ, zero, suc, ◌-◌, dec_lt, ◌+◌, ◌^◌, ◌<◌, ◌≤◌, ◌≡◌, refl, ap, sym, ◌∙◌, List, [], ◌∷◌, ◌++◌,
  append-nil, if◌then◌else◌, ltb, Option, none, some, Bool-cases, Option-cases, inl, inr, length,
  length-append, arith,
}
use storm_net.Bits.{to_bits, length-to_bits, pow_mono}
use storm_net.Result.{ok}
use storm_net.BitUtil.{get_required_bits_u64, count_leading_zeros_u64, clz32_64}
use storm_net.BitUtil.Bounds.{get_required_bits_u64-IsBitLength}
use storm_net.BitWriter.{BitWriter}
use storm_net.BitWriter.Content.{bits_of, IsValid as WriterValid}
use storm_net.BitWriter.Cursor.{reserve}
use storm_net.BitWriter.Cursor.Reserved.{write_cursor-reserve, length-bits_of}
use storm_net.BitWriter.Cursor.RollBack.{roll_back-reserve}
use storm_net.Codec.{Appends}
use storm_net.Codec.Steps.{Appends-then, Appends-nil}
use storm_net.Delta.{Sends, sent_bits, is_sent}
use storm_net.Delta.Struct.{Field, Struct, serialize_field, serialize_fields, serialize_struct}
use storm_net.ArrayList.Delta.Elements.{reserve-Appends}

-- A field that differs, behind its index.
abbrev pub indexed : ℕ → ℕ → Option (List ℕ) → List ℕ
indexed required_bits index none = []
indexed required_bits index (some bits) = to_bits required_bits index ++ bits

abbrev pub fields_bits : (fields : List Field) → ℕ → ℕ → Struct fields → Struct fields → List ℕ
fields_bits [] required_bits index to from = []
fields_bits (field ∷ fields) required_bits index to from =
    indexed required_bits index (field.1.delta to.0 from.0)
    ++ fields_bits fields required_bits (index + 1) to.1 from.1

-- How many fields differ.
abbrev pub differing : (fields : List Field) → Struct fields → Struct fields → ℕ
differing [] to from = 0
differing (field ∷ fields) to from =
    (if is_sent (field.1.delta to.0 from.0) then 1 else 0) + differing fields to.1 from.1

abbrev pub fields_peak : (fields : List Field) → ℕ → Struct fields → Struct fields → ℕ
fields_peak [] required_bits to from = 0
fields_peak (field ∷ fields) required_bits to from =
    required_bits + field.1.peak to.0 from.0 + fields_peak fields required_bits to.1 from.1

abbrev pub width : List Field → ℕ
width fields = get_required_bits_u64 (length fields)

abbrev pub struct_delta : (fields : List Field) → Struct fields → Struct fields → Option (List ℕ)
struct_delta fields to from =
    if ltb 0 (differing fields to from)
    then some (
        to_bits (width fields) (differing fields to from)
        ++ fields_bits fields (width fields) 0 to from)
    else none

abbrev pub struct_peak : (fields : List Field) → Struct fields → Struct fields → ℕ
struct_peak fields to from = width fields + fields_peak fields (width fields) to from

length-indexed :
    (n index : ℕ) (o : Option (List ℕ)) → length (indexed n index o) ≤ n + length (sent_bits o)
length-indexed n index none = omega arith
length-indexed n index (some bits) =
    omega (arith, length-append (to_bits n index) bits, length-to_bits n index)

fields_bits-le :
    (fields : List Field) (n index : ℕ) (to from : Struct fields)
    → length (fields_bits fields n index to from) ≤ fields_peak fields n to from
fields_bits-le [] n index to from = omega arith
fields_bits-le (field ∷ fields) n index to from =
    let o = field.1.delta to.0 from.0 in
    omega (
      arith,
      length-append (indexed n index o) (fields_bits fields n (index + 1) to.1 from.1),
      length-indexed n index o,
      field.1.delta-le to.0 from.0,
      fields_bits-le fields n (index + 1) to.1 from.1,
    )

pub struct_delta-le :
    (fields : List Field) (to from : Struct fields)
    → length (sent_bits (struct_delta fields to from)) ≤ struct_peak fields to from
struct_delta-le fields to from =
    let bound = fields_bits-le fields (width fields) 0 to from in
    elim (Bool-cases (ltb 0 (differing fields to from))) [
      | inl some_differ ↦ rw some_differ (
          omega (
            arith,
            bound,
            length-append (to_bits (width fields) (differing fields to from))
                (fields_bits fields (width fields) 0 to from),
            length-to_bits (width fields) (differing fields to from),
          ))
      | inr none_differ ↦ rw none_differ (omega arith)
    ]

get_required_bits-lt : (x : ℕ) → x < 2 ^ 63 → get_required_bits_u64 x < 64
get_required_bits-lt zero small =
    unfold get_required_bits_u64 count_leading_zeros_u64 clz32_64 in omega arith
get_required_bits-lt (suc m) small = elim (dec_lt 63 (get_required_bits_u64 (suc m))) [
  | yes h ↦ absurd (
      omega (
        arith,
        get_required_bits_u64-IsBitLength (suc m) (omega arith) (omega arith),
        pow_mono 63 (get_required_bits_u64 (suc m) - 1) (omega arith),
      ))
  | no h ↦ omega arith
]

serialize_field-Appends :
    (field : Field) (n index : ℕ) (to from : field.0) (num : ℕ) (w : BitWriter)
    → n < 64
    → WriterValid w
    → length (bits_of w) + (n + field.1.peak to from) < 2 ^ 63
    → (w' : BitWriter) × (serialize_field field n index to from num w
        ≡ ok (num + (if is_sent (field.1.delta to from) then 1 else 0), w'))
      × Appends w w' (indexed n index (field.1.delta to from))
unfolding serialize_field
serialize_field-Appends field n index to from num w narrow v small =
    let reserved = reserve-Appends n w v in
    let sized : length (bits_of (reserve n w).1) ≡ length (bits_of w) + n =
      ap length (reserved.0)
      ∙ length-append (bits_of w) (to_bits n 0)
      ∙ ap (λ (k : ℕ). length (bits_of w) + k) (length-to_bits n 0) in
    let o = field.1.delta to from in
    let (w1, sent, appended) =
      field.1.serialize_delta-Sends to from (reserve n w).1 reserved.1
        (omega (arith, sized, small)) in
    let long : length (bits_of w1) < 2 ^ 63 = omega (
      arith,
      sized,
      ap length (appended.0),
      length-append (bits_of (reserve n w).1) (sent_bits o),
      field.1.delta-le to from,
      small,
    ) in
    elim (Option-cases o) [
      | inl same ↦
          let (w2, back, kept, valid, _) =
            roll_back-reserve n w w1 (sent_bits o) v (omega (arith, length-bits_of w v, small))
              appended in
          rw (sent, same, back)
            (
              w2,
              ap (λ (k : ℕ). ok (k, w2)) (omega arith),
              (kept ∙ sym (append-nil (bits_of w)), valid),
            )
      | inr (bits, differ) ↦
          let (cursor, w2, written, result, _, _) =
            write_cursor-reserve n index w w1 (sent_bits o) narrow v long appended in
          let result' =
            result.0
            ∙ ap (λ (p : Option (List ℕ)). bits_of w ++ (to_bits n index ++ sent_bits p)) differ in
          rw (sent, differ, written) (w2, refl, (result', result.1))
    ]

serialize_fields-Appends :
    (fields : List Field) (n index : ℕ) (to from : Struct fields) (num : ℕ) (w : BitWriter)
    → n < 64
    → WriterValid w
    → length (bits_of w) + fields_peak fields n to from < 2 ^ 63
    → (w' : BitWriter) × (serialize_fields fields n index to from num w
        ≡ ok (num + differing fields to from, w'))
      × Appends w w' (fields_bits fields n index to from)
unfolding serialize_fields
serialize_fields-Appends [] n index to from num w narrow v small =
    (w, ap (λ (k : ℕ). ok (k, w)) (omega arith), Appends-nil w v)
serialize_fields-Appends (field ∷ fields) n index to from num w narrow v small =
    let o = field.1.delta to.0 from.0 in
    let flag : ℕ = (if is_sent o then 1 else 0) in
    let (w1, sent, first) =
      serialize_field-Appends field n index to.0 from.0 num w narrow v (omega (arith, small)) in
    let (w2, done, rest) =
      serialize_fields-Appends fields n (index + 1) to.1 from.1 (num + flag) w1 narrow first.1 (
        omega (
          arith,
          ap length (first.0),
          length-append (bits_of w) (indexed n index o),
          length-indexed n index o,
          field.1.delta-le to.0 from.0,
          small,
        )) in
    (
      w2,
      rw sent (done ∙ ap (λ (k : ℕ). ok (k, w2)) (omega arith)),
      Appends-then w w1 w2 (indexed n index o) (fields_bits fields n (index + 1) to.1 from.1) first
          (λ _. rest),
    )

-- For structs of fewer than 2 ^ 63 fields, when the bits so far and those of all their fields are fewer
-- than 2 ^ 63, the serializer returns. If no field differs, it returns false and leaves the bits of the
-- writer as they were. Otherwise it returns true and has appended the number of the fields that differ,
-- and the difference of each of these behind its index.
pub serialize_struct-Sends :
    (fields : List Field) (to from : Struct fields) (w : BitWriter)
    → length fields < 2 ^ 63
    → WriterValid w
    → length (bits_of w) + struct_peak fields to from < 2 ^ 63
    → Sends (serialize_struct fields to from w) w (struct_delta fields to from)
unfolding serialize_struct
serialize_struct-Sends fields to from w few v small =
    let n = width fields in
    let narrow : n < 64 = get_required_bits-lt (length fields) few in
    let reserved = reserve-Appends n w v in
    let sized : length (bits_of (reserve n w).1) ≡ length (bits_of w) + n =
      ap length (reserved.0)
      ∙ length-append (bits_of w) (to_bits n 0)
      ∙ ap (λ (k : ℕ). length (bits_of w) + k) (length-to_bits n 0) in
    let xs = fields_bits fields n 0 to from in
    let (w1, wrote, appended) =
      serialize_fields-Appends fields n 0 to from 0 (reserve n w).1 narrow reserved.1
        (omega (arith, sized, small)) in
    let wrote' =
      wrote
      ∙ ap (λ (k : ℕ). ok (k, w1)) {x = 0 + differing fields to from} {y = differing fields to from}
          (omega arith) in
    elim (Bool-cases (ltb 0 (differing fields to from))) [
      | inl some_differ ↦
          let (cursor, w2, written, result, _, _) =
            write_cursor-reserve n (differing fields to from) w w1 xs narrow v
              (omega (
                arith,
                sized,
                ap length (appended.0),
                length-append (bits_of (reserve n w).1) xs,
                fields_bits-le fields n 0 to from,
                small,
              ))
              appended in
          rw (wrote', some_differ, written) (w2, refl, result)
      | inr none_differ ↦
          let (w2, back, kept, valid, _) =
            roll_back-reserve n w w1 xs v (omega (arith, length-bits_of w v, small)) appended in
          rw (wrote', none_differ, back) (w2, refl, (kept ∙ sym (append-nil (bits_of w)), valid))
    ]
