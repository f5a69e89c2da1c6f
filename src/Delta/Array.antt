-- ===== src/Delta/Array.antt =====
-- NetSerializeDelta.h and NetDeserializeDelta.h: arrays are sent as a whole, and taken back when no
-- element differs.
use storm_net.Prelude.{
  ℕ, ◌+◌, ◌^◌, ◌<◌, ◌≡◌, refl, sym, ◌∙◌, List, [], ◌∷◌, append-nil, Bool, true, false, Bool-cases,
  inl, inr, if◌then◌else◌, ◌==◌, Option, none, some, length, arith,
}
use storm_net.Result.{Result, ok, ◌>>=◌}
use storm_net.BitWriter.{BitWriter}
use storm_net.BitReader.{BitReader}
use storm_net.BitWriter.Content.{bits_of, IsValid as WriterValid}
use storm_net.BitWriter.Cursor.{reserve, roll_back}
use storm_net.BitWriter.Cursor.RollBack.{roll_back-reserve}
use storm_net.Codec.{Codec, Appends}
use storm_net.Codec.Steps.{Appends-nil, Appends-then}
use storm_net.Codec.Each.{deserialize_each, encoding_each}
use storm_net.Delta.{Sends}
use storm_net.ArrayList.Delta.Elements.{reserve-Appends}

module _ {T : Type 0} (c : Codec T) (eq : T → T → Bool) where
  -- The loop, with the number of the elements that differ.
  pub serialize_elements : List T → List T → ℕ → BitWriter → ℕ × BitWriter
  serialize_elements [] from num_differ w = (num_differ, w)
  serialize_elements (t ∷ to) [] num_differ w = (num_differ, w)
  serialize_elements (t ∷ to) (f ∷ from) num_differ w =
      serialize_elements to from (if eq t f then num_differ else num_differ + 1) (c.serialize t w)

  pub serialize_array_delta : List T → List T → BitWriter → Result (Bool × BitWriter)
  serialize_array_delta to from w =
      let reserved = reserve 0 w in
      let sent = serialize_elements to from 0 reserved.1 in
      if sent.0 == 0
      then (roll_back reserved.0 sent.1 >>= λ back. ok (false, back))
      else ok (true, sent.1)

  unfoldable pub deserialize_array_delta : List T → BitReader → Result (List T × BitReader)
  unfolding deserialize_each
  deserialize_array_delta val r = deserialize_each c val r

  abbrev pub differences : List T → List T → ℕ → ℕ
  differences [] from num = num
  differences (t ∷ to) [] num = num
  differences (t ∷ to) (f ∷ from) num = differences to from (if eq t f then num else num + 1)

  abbrev pub array_delta : List T → List T → Option (List ℕ)
  array_delta to from = if differences to from 0 == 0 then none else some (encoding_each c to)

  serialize_elements-Appends :
      (to from : List T) (num : ℕ) (w : BitWriter)
      → length to ≡ length from
      → WriterValid w
      → ((serialize_elements to from num w).0 ≡ differences to from num)
        × Appends w (serialize_elements to from num w).1 (encoding_each c to)
  unfolding serialize_elements
  serialize_elements-Appends [] from num w e v = (refl, Appends-nil w v)
  serialize_elements-Appends (t ∷ to) [] num w e v = absurd (omega arith)
  serialize_elements-Appends (t ∷ to) (f ∷ from) num w e v =
      let first = c.serialize-Appends t w v in
      let num' = (if eq t f then num else num + 1) in
      let (count, rest) =
        serialize_elements-Appends to from num' (c.serialize t w) (omega arith) first.1 in
      (
        count,
        Appends-then w (c.serialize t w) _ (c.encoding t) (encoding_each c to) first (λ _. rest),
      )

  -- For arrays of one length, in a vector of fewer than 2 ^ 64 bytes, the serializer returns. If no
  -- element differs, it returns false and leaves the bits of the writer as they were; otherwise it
  -- returns true and has appended all elements.
  pub serialize_array_delta-Sends :
      (to from : List T) (w : BitWriter)
      → length to ≡ length from
      → length w.buffer < 2 ^ 64
      → WriterValid w
      → Sends (serialize_array_delta to from w) w (array_delta to from)
  unfolding serialize_array_delta
  serialize_array_delta-Sends to from w e small v =
      let reserved = reserve-Appends 0 w v in
      let sent = serialize_elements to from 0 (reserve 0 w).1 in
      let (count, appended) = serialize_elements-Appends to from 0 (reserve 0 w).1 e reserved.1 in
      elim (Bool-cases (differences to from 0 == 0)) [
        | inl same ↦
            let (w2, back, kept, valid, _) =
              roll_back-reserve 0 w sent.1 (encoding_each c to) v small appended in
            rw (count, same, back) (w2, refl, (kept ∙ sym (append-nil (bits_of w)), valid))
        | inr differ ↦
            rw (count, differ)
              (
                sent.1,
                refl,
                Appends-then w (reserve 0 w).1 sent.1 [] (encoding_each c to) reserved
                    (λ _. appended),
              )
      ]
