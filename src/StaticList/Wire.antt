-- ===== src/StaticList/Wire.antt =====
-- What becomes of an index on the wire.
use storm_net.Prelude.{
  ℕ, zero, suc, ◌^◌, ◌<◌, ◌≡◌, ◌∙◌, List, ◌++◌, if◌then◌else◌, ◌==◌, length, arith,
}
use storm_net.Bits.{to_bits}
use storm_net.Result.{ok, err, undefined_behaviour, ◌>>=◌}
use storm_net.BitUtil.{get_required_bits_u64, get_required_bits_signed}
use storm_net.BitUtil.Bounds.{
  lt-get_required_bits, get_required_bits-le, get_required_bits_same_width,
}
use storm_net.BitUtil.Storage.{get_required_bits_signed_int}
use storm_net.BitWriter.{BitWriter}
use storm_net.BitReader.{BitReader}
use storm_net.BitWriter.Content.{IsValid as WriterValid}
use storm_net.BitReader.Content.{left, IsValid as ReaderValid}
use storm_net.Codec.{Appends}
use storm_net.Codec.Steps.{write_bits-Appends, read_ubits-Takes}
use storm_net.StaticList.{assign, data_list_at, serialize_static, deserialize_static}
use storm_net.StaticList.Search.{assign-to_element}

pub width-signed :
    (size : ℕ) → size < 2 ^ 31 → get_required_bits_signed 4 size ≡ get_required_bits_u64 size
width-signed size h =
    get_required_bits_signed_int size h ∙ (get_required_bits_same_width size).0 (omega arith)

-- The index of an element of a list of fewer than 2 ^ 31 elements is written in the bits that the
-- size of the list requires. Reading these bits gives the first element back; for any other index
-- the reader looks behind the variable that points to the list.
pub deserialize_static-serialize :
    {D : Type 0} (list : List D) (k old : ℕ) (w : BitWriter) (r : BitReader) (rest : List ℕ)
    → k < length list
    → length list < 2 ^ 31
    → WriterValid w
    → ReaderValid r
    → left r ≡ to_bits (get_required_bits_u64 (length list)) k ++ rest
    → (Appends w (serialize_static list k w) (to_bits (get_required_bits_u64 (length list)) k))
      × (r' : BitReader) × (left r' ≡ rest)
      × (deserialize_static list old r ≡ (if k == 0 then ok (0, r') else err undefined_behaviour))
unfolding serialize_static deserialize_static data_list_at
deserialize_static-serialize list k old w r rest inside size wv rv p =
    let width = width-signed (length list) size in
    let (r', read, behind, valid) =
      read_ubits-Takes (get_required_bits_u64 (length list)) k r rest
        (get_required_bits-le (length list) (omega arith))
        (lt-get_required_bits (length list) k (omega arith) (omega arith)) rv p in
    (
      rw width (write_bits-Appends k (get_required_bits_u64 (length list)) w wv),
      r',
      behind,
      rw (width, read) (looked_up k inside r'),
    )
  where
    looked_up :
        (j : ℕ)
        → j < length list
        → (s : BitReader)
        → (data_list_at j >>= λ val.
            assign list val >>= λ found. let pair : ℕ × BitReader = (found, s) in ok pair)
          ≡ (if j == 0 then ok (0, s) else err undefined_behaviour)
    looked_up zero h s = rw (assign-to_element list zero) ground arith
    looked_up (suc j) h s = ground arith
