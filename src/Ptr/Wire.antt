-- ===== src/Ptr/Wire.antt =====
-- Pointers on the wire: a flag, and the object behind it. A shared object is read in place, so that its
-- other owners see what arrived.
use storm_net.Prelude.{
  ℕ, ◌≡◌, ◌≢◌, ◌∙◌, refl, ap, List, ◌++◌, append_assoc, arith, Option, none, some, true, false,
  ◌==◌, Bool-cases, inl, inr,
}
use storm_net.Bits.{to_bits}
use storm_net.Result.{ok, err, not_constructible}
use storm_net.BitWriter.{BitWriter, write_bits}
use storm_net.BitReader.{BitReader, read_ubits}
use storm_net.BitWriter.Content.{IsValid as WriterValid}
use storm_net.BitReader.Content.{left, IsValid as ReaderValid}
use storm_net.Codec.{Codec, Appends}
use storm_net.Codec.Steps.{read_ubits-Takes, write_bits-Appends, Appends-then}
use storm_net.Optional.Wire.{encoding_optional, FitsOptional}
use storm_net.Ptr.{
  put, serialize_shared, deserialize_unique, shared_target, construct_shared, deserialize_shared,
}

-- What a pointer leads to.
abbrev pub object : {T : Type 0} → (ℕ → T) → Option ℕ → Option T
object heap none = none
object heap (some address) = some (heap address)

-- Where an object that arrives is put.
abbrev pub place : ℕ → Option ℕ → ℕ
place fresh none = fresh
place fresh (some address) = address

-- The pointer afterwards.
abbrev pub led : ℕ → Option ℕ → Option ℕ → Option ℕ
led fresh val none = none
led fresh val (some address) = some (place fresh val)

put-here : {T : Type 0} (a : ℕ) (t : T) (heap : ℕ → T) → put a t heap a ≡ t
unfolding put
put-here a t heap = let same : (a == a) ≡ true = ground arith in rw same refl

put-elsewhere :
    {T : Type 0} (a : ℕ) (t : T) (heap : ℕ → T) (b : ℕ) → (b == a) ≡ false → put a t heap b ≡ heap b
unfolding put
put-elsewhere a t heap b other = rw other refl

module _ {T : Type 0} (c : Codec T) where
  serialize_shared-Appends :
      (heap : ℕ → T) (val : Option ℕ) (w : BitWriter)
      → WriterValid w
      → Appends w (serialize_shared c heap val w) (encoding_optional c (object heap val))
  unfolding serialize_shared
  serialize_shared-Appends heap none w v = write_bits-Appends 0 1 w v
  serialize_shared-Appends heap (some a) w v =
      Appends-then w (write_bits 1 1 w) (c.serialize (heap a) (write_bits 1 1 w)) (to_bits 1 1)
        (c.encoding (heap a)) (write_bits-Appends 1 1 w v)
        (c.serialize-Appends (heap a) (write_bits 1 1 w))

  -- The heap that the object is read into differs from the old one at its place only.
  target-place :
      (fresh : ℕ) (val : Option ℕ) (heap : ℕ → T)
      → (heap' : ℕ → T) × (shared_target c true fresh val heap ≡ ok (place fresh val, heap'))
        × ((b : ℕ) → (b == place fresh val) ≡ false → heap' b ≡ heap b)
  unfolding shared_target construct_shared
  target-place fresh none heap =
      (put fresh c.default heap, refl, λ b other. put-elsewhere fresh c.default heap b other)
  target-place fresh (some a) heap = (heap, refl, λ b other. refl)

  received :
      (fresh : ℕ) (val : Option ℕ) (heap heap' : ℕ → T) (t : T) (r r1 r2 : BitReader)
      → read_ubits 1 r ≡ ok (1, r1)
      → shared_target c true fresh val heap ≡ ok (place fresh val, heap')
      → c.deserialize (heap' (place fresh val)) r1 ≡ ok (t, r2)
      → deserialize_shared c true fresh val heap r
        ≡ ok (some (place fresh val), put (place fresh val) t heap', r2)
  unfolding deserialize_shared
  received fresh val heap heap' t r r1 r2 flag held read = rw (flag, held, read) refl

  received_null :
      (fresh : ℕ) (val : Option ℕ) (heap : ℕ → T) (r r1 : BitReader)
      → read_ubits 1 r ≡ ok (0, r1)
      → deserialize_shared c true fresh val heap r ≡ ok (none, heap, r1)
  unfolding deserialize_shared
  received_null fresh val heap r r1 flag = rw flag refl

  -- Reading into a null pointer to a type without a default constructor throws when an object
  -- arrives, whichever the pointer.
  pub deserialize_unique-throws :
      (fresh : ℕ) (heap : ℕ → T) (r : BitReader) (t : T) (rest : List ℕ)
      → ReaderValid r
      → left r ≡ encoding_optional c (some t) ++ rest
      → (deserialize_unique c false none r ≡ err not_constructible)
        × (deserialize_shared c false fresh none heap r ≡ err not_constructible)
  unfolding deserialize_unique deserialize_shared shared_target construct_shared
  deserialize_unique-throws fresh heap r t rest v p =
      let (r', read, behind, valid) =
        read_ubits-Takes 1 1 r (c.encoding t ++ rest) (omega arith) (omega arith) v
          (p ∙ append_assoc (to_bits 1 1) (c.encoding t) rest) in
      (rw read refl, rw read refl)

-- A shared pointer is written as a flag and, unless it is null, the object that it leads to. Read over
-- any pointer to a type with a default constructor, it leads to the same object, or is null; the bits
-- behind are left. An object that arrives is put where the old pointer led, so that every other owner
-- of that address sees it, or at a fresh address if the old pointer was null; a null pointer that
-- arrives leaves the old object to its other owners. No other object changes. The object fits.
pub deserialize_shared-serialize :
    {T : Type 0} (c : Codec T) (sender heap : ℕ → T) (sent val : Option ℕ) (fresh : ℕ)
    (w : BitWriter) (r : BitReader) (rest : List ℕ)
    → WriterValid w
    → FitsOptional c (object sender sent)
    → ReaderValid r
    → left r ≡ encoding_optional c (object sender sent) ++ rest
    → Appends w (serialize_shared c sender sent w) (encoding_optional c (object sender sent))
      × (val' : Option ℕ) × (heap' : ℕ → T) × (r' : BitReader) × (deserialize_shared c true fresh
            val heap r
          ≡ ok (val', heap', r'))
      × (object heap' val' ≡ object sender sent)
      × (val' ≡ led fresh val sent)
      × ((b : ℕ) → val' ≢ some b → heap' b ≡ heap b)
      × (left r' ≡ rest)
      × ReaderValid r'
deserialize_shared-serialize c sender heap none val fresh w r rest wv fits v p =
    let (r1, flag, behind, v1) = read_ubits-Takes 1 0 r rest (omega arith) (omega arith) v p in
    (
      serialize_shared-Appends c sender none w wv,
      none,
      heap,
      r1,
      received_null c fresh val heap r r1 flag,
      refl,
      refl,
      λ b other. refl,
      behind,
      v1,
    )
deserialize_shared-serialize c sender heap (some a) val fresh w r rest wv fits v p =
    let t = sender a in
    let at = place fresh val in
    let (r1, flag, behind1, v1) =
      read_ubits-Takes 1 1 r (c.encoding t ++ rest) (omega arith) (omega arith) v
        (p ∙ append_assoc (to_bits 1 1) (c.encoding t) rest) in
    let (heap1, held, same) = target-place c fresh val heap in
    let (r2, read, behind2, v2) = c.deserialize-Takes (heap1 at) t r1 rest fits v1 behind1 in
    (
      serialize_shared-Appends c sender (some a) w wv,
      some at,
      put at t heap1,
      r2,
      received c fresh val heap heap1 t r r1 r2 flag held read,
      ap (λ (x : _). some x) (put-here at t heap1),
      refl,
      λ b other. elim (Bool-cases (b == at)) [
        | inl here ↦ let e : at ≡ b = ground arith in absurd (other (ap (λ (k : ℕ). some k) e))
        | inr elsewhere ↦ put-elsewhere at t heap1 b elsewhere ∙ same b elsewhere
      ],
      behind2,
      v2,
    )
