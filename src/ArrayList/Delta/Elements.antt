-- ===== src/ArrayList/Delta/Elements.antt =====
-- One element of a list, sent as a difference.
use storm_net.Prelude.{
  ℕ, suc, ◌+◌, ◌^◌, ◌<◌, ◌≡◌, refl, ap, sym, ◌∙◌, List, [], ◌∷◌, ◌++◌, if◌then◌else◌, Option, none,
  some, Option-cases, inl, inr, length, length-append, arith,
}
use storm_net.Bits.{to_bits}
use storm_net.Result.{ok}
use storm_net.BitWriter.{BitWriter}
use storm_net.BitReader.{BitReader}
use storm_net.BitWriter.Content.{bits_of, IsValid as WriterValid}
use storm_net.BitWriter.Cursor.{reserve}
use storm_net.BitWriter.Cursor.Reserved.{write_cursor-reserve}
use storm_net.BitReader.Content.{left, IsValid as ReaderValid}
use storm_net.Codec.{Appends, Takes}
use storm_net.Codec.Steps.{write_bits-Appends, read_ubits-Takes}
use storm_net.Delta.{DeltaCodec, sent_bits, is_sent}
use storm_net.ArrayList.Delta.{serialize_element, deserialize_element}

-- Whether something was sent, and what.
abbrev pub flagged : Option (List ℕ) → List ℕ
flagged none = 0 ∷ []
flagged (some bits) = 1 ∷ bits

flag_bits :
    (o : Option (List ℕ)) → to_bits 1 (if is_sent o then 1 else 0) ++ sent_bits o ≡ flagged o
flag_bits none = refl
flag_bits (some bits) = refl

pub reserve-Appends :
    (n : ℕ) (w : BitWriter) → WriterValid w → Appends w (reserve n w).1 (to_bits n 0)
unfolding reserve
reserve-Appends n w v = write_bits-Appends 0 n w v

module _ {T : Type 0} (d : DeltaCodec T) (max_size : ℕ) where
  pub serialize_element-Appends :
      (to from : T) (w : BitWriter)
      → WriterValid w
      → length (bits_of w) + suc (d.peak to from) < 2 ^ 63
      → (w' : BitWriter) × (serialize_element d max_size to from w
          ≡ ok (is_sent (d.delta to from), w'))
        × Appends w w' (flagged (d.delta to from))
  unfolding serialize_element
  serialize_element-Appends to from w v small =
      let reserved = reserve-Appends 1 w v in
      let o = d.delta to from in
      let (w1, sent, appended) =
        d.serialize_delta-Sends to from (reserve 1 w).1 reserved.1
          (omega (arith, ap length (reserved.0), length-append (bits_of w) (0 ∷ []), small)) in
      let (cursor, w2, written, result, _, _) =
        write_cursor-reserve 1 (if is_sent o then 1 else 0) w w1 (sent_bits o) (omega arith) v
          (omega (
            arith,
            ap length (reserved.0),
            length-append (bits_of w) (0 ∷ []),
            ap length (appended.0),
            length-append (bits_of (reserve 1 w).1) (sent_bits o),
            d.delta-le to from,
            small,
          ))
          appended in
      (
        w2,
        rw (sent, written) refl,
        (result.0 ∙ ap (λ (l : List ℕ). bits_of w ++ l) (flag_bits o), result.1),
      )

  pub deserialize_element-Takes :
      (to from : T) (r : BitReader) (rest : List ℕ)
      → d.codec.Fits to
      → ReaderValid r
      → left r ≡ flagged (d.delta to from) ++ rest
      → Takes (deserialize_element d max_size from r) to rest
  unfolding deserialize_element
  deserialize_element-Takes to from r rest fits v p = elim (Option-cases (d.delta to from)) [
    | inl same ↦
        let (r1, read, behind, v1) =
          read_ubits-Takes 1 0 r rest (omega arith) (omega arith) v
            (p ∙ ap (λ (o : Option (List ℕ)). flagged o ++ rest) same) in
        let equal = d.delta-none to from same in
        (r1, rw read (ap (λ (x : T). ok (x, r1)) (sym equal)), behind, v1)
    | inr (bits, differ) ↦
        let (r1, read, behind, v1) =
          read_ubits-Takes 1 1 r (bits ++ rest) (omega arith) (omega arith) v
            (p ∙ ap (λ (o : Option (List ℕ)). flagged o ++ rest) differ) in
        rw read (d.deserialize_delta-Takes to from bits r1 rest differ fits v1 behind)
  ]
