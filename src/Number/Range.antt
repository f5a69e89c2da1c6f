-- ===== src/Number/Range.antt =====
-- A ranged number stays in its range, and arrives as it is sent.
use storm_net.Prelude.{ℕ, ◌+◌, ◌-◌, ◌^◌, ◌≤◌, ◌<◌, ◌≡◌, ap, subst, List, ◌++◌, arith}
use storm_net.Bits.{to_bits, u64}
use storm_net.Result.{ok, >>=-eq-ok}
use storm_net.BitUtil.{get_required_bits_u64}
use storm_net.BitUtil.Bounds.{lt-get_required_bits, get_required_bits-le}
use storm_net.BitWriter.{BitWriter}
use storm_net.BitReader.{BitReader, read_ubits}
use storm_net.BitWriter.Content.{IsValid as WriterValid}
use storm_net.BitReader.Content.{left, IsValid as ReaderValid}
use storm_net.Codec.{Codec, Appends, Takes}
use storm_net.Codec.Steps.{write_bits-Appends, read_ubits-Takes, Takes-bind}
use storm_net.Number.{
  Assignment, compute, set_value, construct, assign_by, serialize_ranged, deserialize_ranged,
}

abbrev pub InRange : ℕ → ℕ → ℕ → Type 0
InRange lowest highest val = (lowest ≤ val) × (val ≤ highest)

set_value-InRange :
    (lowest highest val : ℕ)
    → lowest ≤ highest
    → InRange lowest highest (set_value lowest highest val)
unfolding set_value
set_value-InRange lowest highest val h = (omega arith, omega arith)

-- Whatever an assignment that returns computes, and however it wraps around, the value that it
-- leaves is in the range, when that is not empty, and so is any value that a number is made from.
pub assign_by-InRange :
    (lowest highest : ℕ) (op : Assignment) (value value' first : ℕ)
    → lowest ≤ highest
    → assign_by lowest highest op value ≡ ok value'
    → InRange lowest highest value' × InRange lowest highest (construct lowest highest first)
unfolding assign_by construct
assign_by-InRange lowest highest op value value' first h e =
    let (val, computed, stored) = >>=-eq-ok (compute op value) _ e in
    let same : set_value lowest highest val ≡ value' = cc in
    (
      subst (InRange lowest highest) same (set_value-InRange lowest highest val h),
      set_value-InRange lowest highest first h,
    )

module _ (lowest highest : ℕ) (ordered : lowest ≤ highest) (small : highest < 2 ^ 64) where
  span : u64 (highest + 2 ^ 64 - lowest) ≡ highest - lowest
  span = omega arith

  abbrev pub encoding_ranged : ℕ → List ℕ
  encoding_ranged val =
      to_bits (get_required_bits_u64 (highest - lowest)) (u64 (val + 2 ^ 64 - lowest))

  pub serialize_ranged-Appends :
      (val : ℕ) (w : BitWriter)
      → WriterValid w
      → Appends w (serialize_ranged lowest highest val w) (encoding_ranged val)
  unfolding serialize_ranged
  serialize_ranged-Appends val w v = rw span (
      write_bits-Appends (u64 (val + 2 ^ 64 - lowest)) (get_required_bits_u64 (highest - lowest)) w
        v)

  -- When the bits left are the distance of a value in the range from its lowest one, in the bits that
  -- the widest distance requires, and then others, deserializing returns the value and leaves the
  -- others, for every range of 64-bit words.
  pub deserialize_ranged-Takes :
      (old val : ℕ) (r : BitReader) (rest : List ℕ)
      → InRange lowest highest val
      → ReaderValid r
      → left r ≡ encoding_ranged val ++ rest
      → Takes (deserialize_ranged lowest highest old r) val rest
  unfolding deserialize_ranged
  deserialize_ranged-Takes old val r rest fits v p =
      let width = get_required_bits_u64 (highest - lowest) in
      let below : u64 (val + 2 ^ 64 - lowest) ≤ highest - lowest = omega arith in
      let back : set_value lowest highest (u64 (u64 (val + 2 ^ 64 - lowest) + lowest)) ≡ val =
        unfold set_value in omega arith in
      rw span (
        Takes-bind (read_ubits width r) _
          (read_ubits-Takes width (u64 (val + 2 ^ 64 - lowest)) r rest
            (get_required_bits-le (highest - lowest) (omega arith))
            (lt-get_required_bits (highest - lowest) _ (omega arith) below) v p)
          (λ r' v' p'. (r', ap (λ (t : ℕ). ok (t, r')) back, p', v')))

  abbrev pub ranged_codec : Codec ℕ
  ranged_codec = record {
    default = construct lowest highest 0;
    serialize = serialize_ranged lowest highest;
    deserialize = deserialize_ranged lowest highest;
    Fits = InRange lowest highest;
    encoding = encoding_ranged;
    serialize-Appends = serialize_ranged-Appends;
    deserialize-Takes = deserialize_ranged-Takes;
  }
