-- ===== src/ArrayList/Wire.antt =====
-- A list arrives as it is sent, and no message makes the receiver's list longer than its maximum.
use storm_net.Prelude.{
  ℕ, ◌≤◌, ◌<◌, ◌^◌, ◌≡◌, ◌↔◌, subst, refl, ap, List, [], ◌∷◌, ◌++◌, length, arith, Bool, true,
  false, ltb, ltb-false→le, suc, Bool-cases, inl, inr,
}
use storm_net.Bits.{to_bits}
use storm_net.Result.{ok, >>=-eq-ok}
use storm_net.BitUtil.{get_required_bits_u64}
use storm_net.BitUtil.Bounds.{lt-get_required_bits, get_required_bits-le}
use storm_net.BitWriter.{BitWriter, write_bits}
use storm_net.BitReader.{BitReader, read_ubits}
use storm_net.BitWriter.Content.{IsValid as WriterValid}
use storm_net.BitReader.Content.{left, IsValid as ReaderValid}
use storm_net.Codec.{Codec, Appends, Takes}
use storm_net.Codec.Steps.{write_bits-Appends, Appends-then, read_field}
use storm_net.Codec.Each.{
  All, serialize_each, deserialize_each, encoding_each, serialize_each-Appends,
  deserialize_each-Takes,
}
use storm_net.ArrayList.{list_eq, resize, resize_to, serialize_list, deserialize_list}
use storm_net.ArrayList.Bounds.{length-resize_to}

list_eq_sound :
    {T : Type 0} (eq : T → T → Bool) (xs ys : List T)
    → ((x y : T) → (eq x y ≡ true) ↔ (x ≡ y))
    → list_eq eq xs ys ≡ true
    → xs ≡ ys
unfolding list_eq
list_eq_sound eq [] [] h e = refl
list_eq_sound eq [] (y ∷ ys) h e = ground arith
list_eq_sound eq (x ∷ xs) [] h e = ground arith
list_eq_sound eq (x ∷ xs) (y ∷ ys) h e = ground (arith, (h x y).0, list_eq_sound eq xs ys h)

list_eq_refl :
    {T : Type 0} (eq : T → T → Bool) (xs : List T)
    → ((x y : T) → (eq x y ≡ true) ↔ (x ≡ y))
    → list_eq eq xs xs ≡ true
unfolding list_eq
list_eq_refl eq [] h = ground arith
list_eq_refl eq (x ∷ xs) h =
    let same : eq x x ≡ true = (h x x).1 refl in ground (arith, list_eq_refl eq xs h)

-- `operator ==` decides equality of the lists when it is given a test that decides it of elements.
pub list_eq_iff :
    {T : Type 0} (eq : T → T → Bool) (xs ys : List T)
    → ((x y : T) → (eq x y ≡ true) ↔ (x ≡ y))
    → (list_eq eq xs ys ≡ true) ↔ (xs ≡ ys)
list_eq_iff eq xs ys h = (
  λ e. list_eq_sound eq xs ys h e,
  λ e. subst (λ (l : List _). list_eq eq xs l ≡ true) e (list_eq_refl eq xs h),
)

module _ {T : Type 0} (c : Codec T) (max_size : ℕ) (size_fits : max_size < 2 ^ 64) where
  abbrev pub encoding_list : List T → List ℕ
  encoding_list ts = to_bits (get_required_bits_u64 max_size) (length ts) ++ encoding_each c ts

  pub serialize_list-Appends :
      (ts : List T) (w : BitWriter)
      → WriterValid w
      → Appends w (serialize_list c max_size ts w) (encoding_list ts)
  unfolding serialize_list
  serialize_list-Appends ts w v =
      let bits = get_required_bits_u64 max_size in
      let sized = write_bits (length ts) bits w in
      Appends-then w sized (serialize_each c ts sized) (to_bits bits (length ts))
        (encoding_each c ts) (write_bits-Appends (length ts) bits w v)
        (serialize_each-Appends c ts sized)

  -- When the bits left are the encoding of a list that is within its maximum and whose elements fit,
  -- its length first, and then others, deserializing over any earlier list returns the list and leaves
  -- the others. The maximum is below 2 ^ 64.
  pub deserialize_list-Takes :
      (old ts : List T) (r : BitReader) (rest : List ℕ)
      → (length ts ≤ max_size) × All c.Fits ts
      → ReaderValid r
      → left r ≡ encoding_list ts ++ rest
      → Takes (deserialize_list c max_size old r) ts rest
  unfolding deserialize_list resize
  deserialize_list-Takes old ts r rest fits v p =
      let bits = get_required_bits_u64 max_size in
      let room : ltb max_size (length ts) ≡ false = ground arith in
      read_field bits (length ts) r (encoding_each c ts) rest _
        (get_required_bits-le max_size size_fits)
        (lt-get_required_bits max_size (length ts) size_fits fits.0) v p
        (λ r' v' p'. rw room (
          deserialize_each-Takes c (resize_to c.default (length ts) old) ts r' rest
            (length-resize_to c.default (length ts) old) fits.1 v' p'))

  abbrev pub list_codec : Codec (List T)
  list_codec = record {
    default = [];
    serialize = serialize_list c max_size;
    deserialize = deserialize_list c max_size;
    Fits = λ ts. (length ts ≤ max_size) × All c.Fits ts;
    encoding = encoding_list;
    serialize-Appends = serialize_list-Appends;
    deserialize-Takes = deserialize_list-Takes;
  }

module _ {T : Type 0} (c : Codec T) where
  length-deserialize_each :
      (olds ts : List T) (r r' : BitReader)
      → deserialize_each c olds r ≡ ok (ts, r')
      → length ts ≡ length olds
  unfolding deserialize_each
  length-deserialize_each [] ts r r' e = ground arith
  length-deserialize_each (old ∷ olds) ts r r' e =
      let (first, read, more) = >>=-eq-ok (c.deserialize old r) _ e in
      let (others, read', done) = >>=-eq-ok (deserialize_each c olds (first.1)) _ more in
      let same : ts ≡ first.0 ∷ others.0 = ground arith in
      rw same (ap suc (length-deserialize_each olds (others.0) (first.1) (others.1) read'))

-- Whatever bits arrive, a list that is received is within its maximum.
pub deserialize_list-le :
    {T : Type 0} (c : Codec T) (max_size : ℕ) (old ts : List T) (r r' : BitReader)
    → deserialize_list c max_size old r ≡ ok (ts, r')
    → length ts ≤ max_size
unfolding deserialize_list resize
deserialize_list-le c max_size old ts r r' e =
    let (size, read, more) = >>=-eq-ok (read_ubits (get_required_bits_u64 max_size) r) _ e in
    let (resized, within, rest) = >>=-eq-ok (resize max_size c.default (size.0) old) _ more in
    let length_kept = length-deserialize_each c resized ts (size.1) r' rest in
    elim (Bool-cases (ltb max_size (size.0))) [
      | inl over ↦ ground arith
      | inr fits ↦
          let made : resized ≡ resize_to c.default (size.0) old = ground arith in
          omega (
            arith,
            length_kept,
            ap length made,
            length-resize_to c.default (size.0) old,
            ltb-false→le max_size (size.0) fits,
          )
    ]
