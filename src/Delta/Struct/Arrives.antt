-- ===== src/Delta/Struct/Arrives.antt =====
-- A struct that is sent as a difference arrives over the struct that it differs from.
use storm_net.Prelude.{
  ℕ, suc, ◌+◌, ◌-◌, ◌^◌, ◌<◌, ◌≤◌, ◌≡◌, refl, ap, sym, ◌∙◌, List, [], ◌∷◌, ◌++◌, append_assoc, true,
  false, if◌then◌else◌, ◌==◌, ltb, dec_lt, Option, none, some, Bool-cases, Option-cases, inl, inr,
  length, arith,
}
use storm_net.Bits.{to_bits}
use storm_net.Result.{Result, ok}
use storm_net.BitUtil.Bounds.{get_required_bits-le, lt-get_required_bits}
use storm_net.BitReader.{BitReader, read_ubits}
use storm_net.BitReader.Content.{left, IsValid as ReaderValid}
use storm_net.Codec.{Takes}
use storm_net.Codec.Steps.{read_ubits-Takes}
use storm_net.Delta.{is_sent}
use storm_net.Delta.Struct.{
  Field, Struct, Visit, read_next, deserialize_field, deserialize_fields, deserialize_struct,
}
use storm_net.Delta.Struct.Send.{fields_bits, differing, width, struct_delta}

-- Every field arrives as it is sent.
abbrev pub FitFields : (fields : List Field) → Struct fields → Type 0
FitFields [] to = Unit
FitFields (field ∷ fields) to = field.1.codec.Fits to.0 × FitFields fields to.1

-- The index of the first field that differs.
abbrev first : (fields : List Field) → ℕ → Struct fields → Struct fields → ℕ
first [] index to from = index
first (field ∷ fields) index to from =
    let later = first fields (index + 1) to.1 from.1 in
    if is_sent (field.1.delta to.0 from.0) then index else later

abbrev after : Option (List ℕ) → List ℕ → List ℕ → List ℕ
after none more later = later
after (some bits) more later = bits ++ more

-- The bits behind that index.
abbrev body : (fields : List Field) → ℕ → ℕ → Struct fields → Struct fields → List ℕ
body [] n index to from = []
body (field ∷ fields) n index to from =
    after (field.1.delta to.0 from.0) (fields_bits fields n (index + 1) to.1 from.1)
      (body fields n (index + 1) to.1 from.1)

none_differing :
    (fields : List Field) (n index : ℕ) (to from : Struct fields)
    → differing fields to from ≡ 0
    → (from ≡ to) × (fields_bits fields n index to from ≡ [])
none_differing [] n index to from e = (refl, refl)
none_differing (field ∷ fields) n index to from e =
    elim (Option-cases (field.1.delta to.0 from.0)) [
      | inl same ↦
          let e' = rw same at e in
          let (others, no_bits) =
            none_differing fields n (index + 1) to.1 from.1 (omega (arith, e')) in
          let equal = field.1.delta-none to.0 from.0 same in
          (
            ap (λ (t : field.0). (t, from.1)) (sym equal)
                ∙ ap (λ (s : Struct fields). (to.0, s)) others,
            rw same no_bits,
          )
      | inr (bits, differ) ↦ absurd (let e' = rw differ at e in omega (arith, e'))
    ]

fields_bits-first :
    (fields : List Field) (n index : ℕ) (to from : Struct fields)
    → 0 < differing fields to from
    → (fields_bits fields n index to from
        ≡ to_bits n (first fields index to from) ++ body fields n index to from)
      × (index ≤ first fields index to from)
      × (first fields index to from < index + length fields)
fields_bits-first [] n index to from some_differ = absurd (omega arith)
fields_bits-first (field ∷ fields) n index to from some_differ =
    elim (Option-cases (field.1.delta to.0 from.0)) [
      | inl same ↦
          let later = rw same at some_differ in
          let (bits, low, high) =
            fields_bits-first fields n (index + 1) to.1 from.1 (omega (arith, later)) in
          rw same (bits, omega (arith, low), omega (arith, high))
      | inr (bits, differ) ↦ rw differ (
        append_assoc (to_bits n index) bits (fields_bits fields n (index + 1) to.1 from.1),
        omega arith,
        omega arith,
      )
    ]

field-passed :
    (field : Field) (n index : ℕ) (v : Visit field.0)
    → (v.num_remaining == 0) ≡ false
    → (index == v.next_index) ≡ false
    → deserialize_field field n index v ≡ ok v
unfolding deserialize_field
field-passed field n index v some_left other = rw (some_left, other) refl

field-read :
    (field : Field) (n index : ℕ) (v v' : Visit field.0) (t : field.0) (r : BitReader)
    → (v.num_remaining == 0) ≡ false
    → (index == v.next_index) ≡ true
    → field.1.deserialize_delta v.val v.reader ≡ ok (t, r)
    → read_next n (v.num_remaining - 1) v.next_index (t, r) ≡ ok v'
    → deserialize_field field n index v ≡ ok v'
unfolding deserialize_field
field-read field n index v v' t r some_left here read next = rw (some_left, here, read) next

fields-step :
    (field : Field) (fields : List Field) (n index : ℕ) (v : Visit (Struct (field ∷ fields)))
    (v1 : Visit field.0) (v2 : Visit (Struct fields))
    → deserialize_field field n index (record {
      val = v.val.0;
      num_remaining = v.num_remaining;
      next_index = v.next_index;
      reader = v.reader;
    })
      ≡ ok v1
    → deserialize_fields fields n (index + 1) (record {
      val = v.val.1;
      num_remaining = v1.num_remaining;
      next_index = v1.next_index;
      reader = v1.reader;
    })
      ≡ ok v2
    → deserialize_fields (field ∷ fields) n index v
      ≡ ok (record {
        val = (v1.val, v2.val);
        num_remaining = v2.num_remaining;
        next_index = v2.next_index;
        reader = v2.reader;
      })
unfolding deserialize_fields
fields-step field fields n index v v1 v2 one others = rw (one, others) refl

-- When no field is left to come, the others stay.
fields-done :
    (fields : List Field) (n index : ℕ) (v : Visit (Struct fields))
    → (v.num_remaining == 0) ≡ true
    → deserialize_fields fields n index v ≡ ok v
unfolding deserialize_fields deserialize_field
fields-done [] n index v none_left = refl
fields-done (field ∷ fields) n index v none_left = rw none_left (
    let rest =
      fields-done fields n (index + 1)
        (record {
          val = v.val.1;
          num_remaining = v.num_remaining;
          next_index = v.next_index;
          reader = v.reader;
        })
        none_left in
    rw rest refl)

abbrev visit : {S : Type 0} → S → ℕ → ℕ → BitReader → Visit S
visit val num_remaining next_index reader = record {
  val = val;
  num_remaining = num_remaining;
  next_index = next_index;
  reader = reader;
}

-- The fields are read, and no more is to come.
abbrev Visits : {S : Type 0} → Result (Visit S) → S → List ℕ → Type 0
Visits result to rest =
    (next : ℕ) × (r : BitReader) × (result ≡ ok (visit to 0 next r))
    × (left r ≡ rest)
    × ReaderValid r

-- Behind a field that differs: its index is that of the field, and the next one is read if there is one.
field-Visits :
    (field : Field) (fields : List Field) (n index : ℕ) (to from : Struct (field ∷ fields))
    (bits : List ℕ) (r : BitReader) (rest : List ℕ)
    → n ≤ 64
    → index + length (field ∷ fields) ≤ 2 ^ n
    → field.1.delta to.0 from.0 ≡ some bits
    → field.1.codec.Fits to.0
    → ReaderValid r
    → left r ≡ (bits ++ fields_bits fields n (index + 1) to.1 from.1) ++ rest
    → ((r' : BitReader)
        → 0 < differing fields to.1 from.1
        → ReaderValid r'
        → left r' ≡ body fields n (index + 1) to.1 from.1 ++ rest
        → Visits
            (deserialize_fields fields n (index + 1) (
              visit from.1
                (differing fields to.1 from.1)
                (first fields (index + 1) to.1 from.1)
                r'))
            to.1
            rest)
    → Visits
        (deserialize_fields
          (field ∷ fields)
          n
          index
          (visit from (suc (differing fields to.1 from.1)) index r))
        to
        rest
unfolding read_next
field-Visits field fields n index to from bits r rest fits room differ fit v p others =
    let count = differing fields to.1 from.1 in
    let tail = fields_bits fields n (index + 1) to.1 from.1 in
    let (r1, read, behind, v1) =
      field.1.deserialize_delta-Takes to.0 from.0 bits r (tail ++ rest) differ fit v
        (p ∙ append_assoc bits tail rest) in
    let start = visit from.0 (suc count) index r in
    let some_left : (suc count == 0) ≡ false = ground arith in
    let here : (index == index) ≡ true = ground arith in
    let fewer : suc count - 1 ≡ count = omega arith in
    elim (dec_lt 0 count) [
      | no none_left ↦
          let null : (count == 0) ≡ true = ground arith in
          let (equal, no_bits) = none_differing fields n (index + 1) to.1 from.1 (omega arith) in
          let zero_left : count ≡ 0 = omega arith in
          let done : Visit field.0 = visit to.0 count index r1 in
          (
            index,
            r1,
            fields-step field fields n index (visit from (suc count) index r) done
                  (visit from.1 count index r1)
                  (field-read field n index start done to.0 r1 some_left here read
                    (rw (fewer, null) refl))
                  (fields-done fields n (index + 1) (visit from.1 count index r1) null)
                ∙ ap (λ (s : Struct fields). ok (visit (to.0, s) count index r1)) equal
                ∙ ap (λ (k : ℕ). ok (visit to k index r1)) zero_left,
            behind ∙ ap (λ (l : List ℕ). l ++ rest) no_bits,
            v1,
          )
      | yes more ↦
          let null : (count == 0) ≡ false = ground arith in
          let (split, low, high) = fields_bits-first fields n (index + 1) to.1 from.1 more in
          let next = first fields (index + 1) to.1 from.1 in
          let (r2, read2, behind2, v2) =
            read_ubits-Takes n next r1 (body fields n (index + 1) to.1 from.1 ++ rest) fits
              (omega (arith, high, room)) v1
              (behind
                ∙ ap (λ (l : List ℕ). l ++ rest) split
                ∙ append_assoc (to_bits n next) (body fields n (index + 1) to.1 from.1) rest) in
          let done : Visit field.0 = visit to.0 count next r2 in
          let (last, r3, rests, behind3, v3) = others r2 more v2 behind2 in
          (
            last,
            r3,
            fields-step field fields n index (visit from (suc count) index r) done
                (visit to.1 0 last r3)
                (field-read field n index start done to.0 r1 some_left here read
                  (rw (fewer, null, read2) refl))
                rests,
            behind3,
            v3,
          )
    ]

fields-Visits :
    (fields : List Field) (n index : ℕ) (to from : Struct fields) (r : BitReader) (rest : List ℕ)
    → n ≤ 64
    → index + length fields ≤ 2 ^ n
    → 0 < differing fields to from
    → FitFields fields to
    → ReaderValid r
    → left r ≡ body fields n index to from ++ rest
    → Visits
        (deserialize_fields fields n index
          (visit from (differing fields to from) (first fields index to from) r))
        to
        rest
fields-Visits [] n index to from r rest fits room some_differ fit v p = absurd (omega arith)
fields-Visits (field ∷ fields) n index to from r rest fits room some_differ fit v p =
    elim (Option-cases (field.1.delta to.0 from.0)) [
      | inl same ↦
          let some_later : 0 < differing fields to.1 from.1 =
            (let later = rw same at some_differ in omega (arith, later)) in
          let (_, low, _) = fields_bits-first fields n (index + 1) to.1 from.1 some_later in
          let next = first fields (index + 1) to.1 from.1 in
          let count = differing fields to.1 from.1 in
          let (last, r', rests, behind, v') =
            fields-Visits fields n (index + 1) to.1 from.1 r rest fits (omega (arith, room))
              some_later fit.1 v (rw same at p) in
          let some_left : (count == 0) ≡ false = ground (arith, some_later) in
          let elsewhere : (index == next) ≡ false = ground (arith, low) in
          let equal = field.1.delta-none to.0 from.0 same in
          let none_here : 0 + count ≡ count = omega arith in
          rw same (
            rw none_here (
              last,
              r',
              fields-step field fields n index (visit from count next r) (visit from.0 count next r)
                    (visit to.1 0 last r')
                    (field-passed field n index (visit from.0 count next r) some_left elsewhere)
                    rests
                  ∙ ap (λ (t : field.0). ok (visit (t, to.1) 0 last r')) (sym equal),
              behind,
              v',
            ))
      | inr (bits, differ) ↦
          let one_here : 1 + differing fields to.1 from.1 ≡ suc (differing fields to.1 from.1) =
            omega arith in
          let p' = rw differ at p in
          rw differ (
            rw one_here (
              field-Visits field fields n index to from bits r rest fits room differ fit.0 v p'
                (λ r' more v' q.
                  fields-Visits fields n (index + 1) to.1 from.1 r' rest fits (omega (arith, room))
                    more fit.1 v' q)))
    ]

visited-Takes :
    (fields : List Field) (to from : Struct fields) (count next : ℕ) (r r1 r2 : BitReader)
    (rest : List ℕ)
    → read_ubits (width fields) r ≡ ok (count, r1)
    → read_ubits (width fields) r1 ≡ ok (next, r2)
    → Visits (deserialize_fields fields (width fields) 0 (visit from count next r2)) to rest
    → Takes (deserialize_struct fields from r) to rest
unfolding deserialize_struct
visited-Takes fields to from count next r r1 r2 rest read read' (last, r3, visited, behind, v) =
    (r3, rw (read, read', visited) refl, behind, v)

-- The difference of two structs that differ is read over the one as the other, whose fields fit; there
-- are fewer than 2 ^ 64 fields. It holds of fields of every type that meets the interface.
pub deserialize_struct-Takes :
    (fields : List Field) (to from : Struct fields) (bits : List ℕ) (r : BitReader) (rest : List ℕ)
    → length fields < 2 ^ 64
    → struct_delta fields to from ≡ some bits
    → FitFields fields to
    → ReaderValid r
    → left r ≡ bits ++ rest
    → Takes (deserialize_struct fields from r) to rest
deserialize_struct-Takes fields to from bits r rest few differ fit v p =
    let n = width fields in
    let count = differing fields to from in
    let next = first fields 0 to from in
    elim (Bool-cases (ltb 0 count)) [
      | inr none_differ ↦ absurd (let e = rw none_differ at differ in cc)
      | inl some_differ ↦
          let more : 0 < count = ground arith in
          let (split, low, high) = fields_bits-first fields n 0 to from more in
          let below = lt-get_required_bits (length fields) (length fields) few (omega arith) in
          let narrow = get_required_bits-le (length fields) few in
          let e : some (to_bits n count ++ fields_bits fields n 0 to from) ≡ some bits =
            rw some_differ at differ in
          let whole : bits ≡ to_bits n count ++ fields_bits fields n 0 to from = cc in
          let (r1, read, behind1, v1) =
            read_ubits-Takes n count r (fields_bits fields n 0 to from ++ rest) narrow
              (omega (arith, differing-le fields to from, below)) v
              (p
                ∙ ap (λ (l : List ℕ). l ++ rest) whole
                ∙ append_assoc (to_bits n count) (fields_bits fields n 0 to from) rest) in
          let (r2, read', behind2, v2) =
            read_ubits-Takes n next r1 (body fields n 0 to from ++ rest) narrow
              (omega (arith, high, below)) v1
              (behind1
                ∙ ap (λ (l : List ℕ). l ++ rest) split
                ∙ append_assoc (to_bits n next) (body fields n 0 to from) rest) in
          visited-Takes fields to from count next r r1 r2 rest read read' (
            fields-Visits fields n 0 to from r2 rest narrow (omega (arith, below)) more fit v2
              behind2)
    ]
  where
    differing-le :
        (fields : List Field) (to from : Struct fields) → differing fields to from ≤ length fields
    differing-le [] to from = omega arith
    differing-le (field ∷ fields) to from =
        elim (Bool-cases (is_sent (field.1.delta to.0 from.0))) [
          | inl sent ↦ rw sent (omega (arith, differing-le fields to.1 from.1))
          | inr same ↦ rw same (omega (arith, differing-le fields to.1 from.1))
        ]
