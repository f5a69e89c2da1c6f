-- ===== src/Delta/Plain.antt =====
-- NetSerializeDelta.h and NetDeserializeDelta.h: types that are not reflected, strings among them, are
-- sent as a whole unless they are equal.
use storm_net.Prelude.{
  ℕ, ◌≤◌, ◌≡◌, ◌↔◌, refl, List, ◌++◌, Bool, true, false, Bool-cases, inl, inr, Option, none, some,
  length, if◌then◌else◌, arith,
}
use storm_net.Result.{Result, ok}
use storm_net.BitWriter.{BitWriter}
use storm_net.BitReader.{BitReader}
use storm_net.BitWriter.Content.{IsValid as WriterValid}
use storm_net.BitReader.Content.{left, IsValid as ReaderValid}
use storm_net.Codec.{Codec, Takes}
use storm_net.Codec.Steps.{Appends-nil}
use storm_net.Delta.{DeltaCodec, Sends, sent_bits}

module _ {T : Type 0} (c : Codec T) (eq : T → T → Bool) where
  -- `NetSerializeDeltaType` of a type that is not reflected; `eq` is its `operator ==`.
  pub serialize_plain : T → T → BitWriter → Result (Bool × BitWriter)
  serialize_plain to from w = if eq to from then ok (false, w) else ok (true, c.serialize to w)

  pub deserialize_plain : T → BitReader → Result (T × BitReader)
  deserialize_plain val r = c.deserialize val r

  abbrev pub plain_delta : T → T → Option (List ℕ)
  plain_delta to from = if eq to from then none else some (c.encoding to)

  pub plain_delta-le :
      (to from : T) → length (sent_bits (plain_delta to from)) ≤ length (c.encoding to)
  plain_delta-le to from = elim (Bool-cases (eq to from)) [
    | inl same ↦ rw same (omega arith)
    | inr differ ↦ rw differ (omega arith)
  ]

  pub serialize_plain-Sends :
      (to from : T) (w : BitWriter)
      → WriterValid w
      → Sends (serialize_plain to from w) w (plain_delta to from)
  unfolding serialize_plain
  serialize_plain-Sends to from w v = elim (Bool-cases (eq to from)) [
    | inl same ↦ rw same (w, refl, Appends-nil w v)
    | inr differ ↦ rw differ (c.serialize to w, refl, c.serialize-Appends to w v)
  ]

  module _ (decides : (x y : T) → (eq x y ≡ true) ↔ (x ≡ y)) where
    pub plain_delta-none : (to from : T) → plain_delta to from ≡ none → to ≡ from
    plain_delta-none to from e = elim (Bool-cases (eq to from)) [
      | inl same ↦ (decides to from).0 same
      | inr differ ↦ cc (rw differ at e)
    ]

    pub deserialize_plain-Takes :
        (to from : T) (bits : List ℕ) (r : BitReader) (rest : List ℕ)
        → plain_delta to from ≡ some bits
        → c.Fits to
        → ReaderValid r
        → left r ≡ bits ++ rest
        → Takes (deserialize_plain from r) to rest
    unfolding deserialize_plain
    deserialize_plain-Takes to from bits r rest e fits v p = elim (Bool-cases (eq to from)) [
      | inl same ↦ cc (rw same at e)
      | inr differ ↦
          let whole : c.encoding to ≡ bits = cc (rw differ at e) in
          c.deserialize-Takes from to r rest fits v (rw whole p)
    ]

    abbrev pub plain_delta_codec : DeltaCodec T
    plain_delta_codec = record {
      codec = c;
      serialize_delta = serialize_plain;
      deserialize_delta = deserialize_plain;
      delta = plain_delta;
      peak = λ to from. length (c.encoding to);
      delta-le = plain_delta-le;
      serialize_delta-Sends = λ to from w v small. serialize_plain-Sends to from w v;
      delta-none = plain_delta-none;
      deserialize_delta-Takes = deserialize_plain-Takes;
    }
