-- ===== src/ArrayList/Delta/Arrives.antt =====
-- A list that is received as its difference from another.
use native.Mathlib.Nat.{mod-eq_of_lt}
use storm_net.Prelude.{
  ℕ, zero, suc, ◌+◌, ◌-◌, ◌^◌, ◌<◌, ◌≤◌, ◌≡◌, refl, ap, sym, ◌∙◌, List, [], ◌∷◌, ◌++◌, append_assoc,
  append-nil, true, false, ◌==◌, ltb, leb, some, Bool-cases, inl, inr, Option, length,
  length-append, length-drop, length-take_le, take-append-drop, take, drop, set, min, arith,
}
use storm_net.Bits.{u32, to_bits}
use storm_net.Result.{Result, ok, ◌>>=◌}
use storm_net.BitUtil.{get_required_bits_u64}
use storm_net.BitUtil.Bounds.{lt-get_required_bits, get_required_bits-le}
use storm_net.BitReader.{BitReader, read_ubits}
use storm_net.BitReader.Content.{left, IsValid as ReaderValid}
use storm_net.Codec.{Takes}
use storm_net.Codec.Each.{All}
use storm_net.Codec.Steps.{read_ubits-Takes, Takes-bind}
use storm_net.ArrayList.{push_back, remove_at, erase_index}
use storm_net.Delta.{DeltaCodec}
use storm_net.ArrayList.Delta.{
  deserialize_element, deserialize_elements, remove_last, deserialize_new, deserialize_resized,
  resized_by, deserialize_list_delta, to_int, min_int,
}
use storm_net.ArrayList.Delta.Elements.{flagged, deserialize_element-Takes}
use storm_net.ArrayList.Delta.Send.{elements_bits, differing, list_delta}

-- Removing the last element.
erase_index-last : {T : Type 0} (xs : List T) (x : T) → erase_index (length xs) (xs ++ x ∷ []) ≡ xs
unfolding erase_index
erase_index-last [] x = refl
erase_index-last (y ∷ xs) x = ap (λ (l : List _). y ∷ l) (erase_index-last xs x)

-- Every list is empty or ends in an element.
last-cases :
    {T : Type 0} (n : ℕ) (xs : List T)
    → length xs ≡ suc n
    → (ys : List T) × (y : T) × (xs ≡ ys ++ y ∷ []) × (length ys ≡ n)
last-cases n [] e = absurd (omega arith)
last-cases zero (x ∷ []) e = ([], x, refl, refl)
last-cases zero (x ∷ y ∷ xs) e = absurd (omega arith)
last-cases (suc n) (x ∷ xs) e =
    let (ys, y, shape, long) = last-cases n xs (omega arith) in
    (x ∷ ys, y, ap (λ (l : List _). x ∷ l) shape, ap suc long)

removed :
    {T : Type 0} (max_size : ℕ) (xs : List T) (x : T)
    → remove_at max_size (length (xs ++ x ∷ []) - 1) (xs ++ x ∷ []) ≡ ok xs
unfolding remove_at
removed max_size xs x =
    let long = length-append xs (x ∷ []) in
    let last : length (xs ++ x ∷ []) - 1 ≡ length xs = omega (arith, long) in
    let inside : ltb (length xs) (length (xs ++ x ∷ [])) ≡ true = ground (arith, long) in
    rw (last, inside) (ap (λ (l : List _). ok l) (erase_index-last xs x))

remove_last-front :
    {T : Type 0} (max_size n : ℕ) (front back : List T)
    → length back ≡ n
    → remove_last max_size n (front ++ back) ≡ ok front
unfolding remove_last
remove_last-front max_size zero front [] e = ap (λ (l : List _). ok l) (append-nil front)
remove_last-front max_size zero front (x ∷ back) e = absurd (omega arith)
remove_last-front max_size (suc n) front back e =
    let (ys, y, shape, long) = last-cases n back e in
    let whole : front ++ back ≡ (front ++ ys) ++ y ∷ [] =
      ap (λ (l : List _). front ++ l) shape ∙ sym (append_assoc front ys (y ∷ [])) in
    rw whole (
      ap (λ (m : Result (List _)). m >>= λ shorter. remove_last max_size n shorter)
        (removed max_size (front ++ ys) y)
      ∙ remove_last-front max_size n front ys long)

set-last : {T : Type 0} (xs : List T) (x y : T) → set (xs ++ x ∷ []) (length xs) y ≡ xs ++ y ∷ []
set-last [] x y = refl
set-last (z ∷ xs) x y = ap (λ (l : List _). z ∷ l) (set-last xs x y)

to_int-small : (size : ℕ) → size < 2 ^ 31 → to_int size ≡ some size
unfolding to_int
to_int-small size h =
    let whole : u32 size ≡ size = mod-eq_of_lt (omega arith) in
    let low : ltb size (2 ^ 31) ≡ true = ground arith in rw (whole, low) refl

module _ {T : Type 0} (d : DeltaCodec T) (max_size : ℕ) where
  -- The elements that both lists have, and those that only the new one has.
  elements_bits-split :
      (to from : List T) (m : ℕ)
      → m ≡ min (length from) (length to)
      → elements_bits d max_size to from
        ≡ elements_bits d max_size (take m to) (take m from)
          ++ elements_bits d max_size (drop m to) []
  elements_bits-split [] from m e = let nothing : m ≡ 0 = omega arith in rw nothing refl
  elements_bits-split (t ∷ to) [] m e = let nothing : m ≡ 0 = omega arith in rw nothing refl
  elements_bits-split (t ∷ to) (f ∷ from) zero e = absurd (omega arith)
  elements_bits-split (t ∷ to) (f ∷ from) (suc m) e =
      ap (λ (l : List ℕ). flagged (d.delta t f) ++ l) (elements_bits-split to from m (omega arith))
      ∙ sym (
          append_assoc (flagged (d.delta t f)) (elements_bits d max_size (take m to) (take m from))
            (elements_bits d max_size (drop m to) []))

  deserialize_elements-Takes :
      (to from : List T) (r : BitReader) (rest : List ℕ)
      → length to ≡ length from
      → All d.codec.Fits to
      → ReaderValid r
      → left r ≡ elements_bits d max_size to from ++ rest
      → Takes (deserialize_elements d max_size from r) to rest
  unfolding deserialize_elements
  deserialize_elements-Takes [] [] r rest e fits v p = (r, refl, p, v)
  deserialize_elements-Takes [] (f ∷ from) r rest e fits v p = absurd (omega arith)
  deserialize_elements-Takes (t ∷ to) [] r rest e fits v p = absurd (omega arith)
  deserialize_elements-Takes (t ∷ to) (f ∷ from) r rest e fits v p =
      let others = elements_bits d max_size to from in
      Takes-bind (deserialize_element d max_size f r) _
        (deserialize_element-Takes d max_size t f r (others ++ rest) fits.0 v
          (p ∙ append_assoc (flagged (d.delta t f)) others rest))
        (λ r' v' p'.
          Takes-bind (deserialize_elements d max_size from r') _
            (deserialize_elements-Takes to from r' rest (omega arith) fits.1 v' p')
            (λ r'' v'' p''. (r'', refl, p'', v'')))

  deserialize_new-Takes :
      (new kept : List T) (r : BitReader) (rest : List ℕ)
      → length kept + length new ≤ max_size
      → All d.codec.Fits new
      → ReaderValid r
      → left r ≡ elements_bits d max_size new [] ++ rest
      → Takes (deserialize_new d max_size (length new) kept r) (kept ++ new) rest
  unfolding deserialize_new push_back
  deserialize_new-Takes [] kept r rest room fits v p =
      (r, ap (λ (l : List T). ok (l, r)) (sym (append-nil kept)), p, v)
  deserialize_new-Takes (t ∷ new) kept r rest room fits v p =
      let others = elements_bits d max_size new [] in
      let free : leb max_size (length kept) ≡ false = ground arith in
      let (r1, read, behind, v1) =
        d.codec.deserialize-Takes d.codec.default t r (others ++ rest) fits.0 v
          (p ∙ append_assoc (d.codec.encoding t) others rest) in
      let (r2, done, behind', v2) =
        deserialize_new-Takes new (kept ++ t ∷ []) r1 rest
          (omega (arith, length-append kept (t ∷ []))) fits.1 v1 behind in
      (
        r2,
        rw (free, read, set-last kept d.codec.default t)
            (done ∙ ap (λ (l : List T). ok (l, r2)) (append_assoc kept (t ∷ []) new)),
        behind',
        v2,
      )

  All-split :
      (m : ℕ) (ts : List T)
      → All d.codec.Fits ts
      → All d.codec.Fits (take m ts) × All d.codec.Fits (drop m ts)
  All-split zero ts fits = (tt, fits)
  All-split (suc m) [] fits = (tt, tt)
  All-split (suc m) (t ∷ ts) fits =
      let (front, back) = All-split m ts fits.1 in ((fits.0, front), back)

  -- One read after the other.
  resized-step :
      (from front kept list : List T) (n m : ℕ) (r r1 r2 r3 : BitReader)
      → m ≡ min (length from) n
      → (length from < 2 ^ 31) × (n < 2 ^ 31)
      → read_ubits (get_required_bits_u64 max_size) r ≡ ok (n, r1)
      → deserialize_elements d max_size (take m from) r1 ≡ ok (front, r2)
      → remove_last max_size (length from - m) (front ++ drop m from) ≡ ok kept
      → deserialize_new d max_size (n - length kept) kept r2 ≡ ok (list, r3)
      → deserialize_resized d max_size from r ≡ ok (list, r3)
  unfolding deserialize_resized resized_by
  resized-step from front kept list n m r r1 r2 r3 e small read elements removes fresh = rw read (
      ap (λ (a : Option ℕ). resized_by d max_size from n r1 (min_int a (to_int n)))
        (to_int-small (length from) small.0)
      ∙ ap (λ (b : Option ℕ). resized_by d max_size from n r1 (min_int (some (length from)) b))
          (to_int-small n small.1)
      ∙ rw (sym e, elements, removes, fresh) refl)

  deserialize_resized-Takes :
      (to from : List T) (r : BitReader) (rest : List ℕ)
      → (length to ≤ max_size) × All d.codec.Fits to
      → max_size < 2 ^ 31
      → length from < 2 ^ 31
      → ReaderValid r
      → left r
        ≡ (to_bits (get_required_bits_u64 max_size) (length to) ++ elements_bits d max_size to from)
          ++ rest
      → Takes (deserialize_resized d max_size from r) to rest
  deserialize_resized-Takes to from r rest fits wide short v p =
      let bits = get_required_bits_u64 max_size in
      let m = min (length from) (length to) in
      let whole = elements_bits d max_size to from in
      let front = take m to in
      let back = drop m to in
      let (r1, read, behind, v1) =
        read_ubits-Takes bits (length to) r (whole ++ rest)
          (get_required_bits-le max_size (omega arith))
          (lt-get_required_bits max_size (length to) (omega arith) fits.0) v
          (p ∙ append_assoc (to_bits bits (length to)) whole rest) in
      let split : left r1
          ≡ elements_bits d max_size front (take m from)
            ++ (elements_bits d max_size back [] ++ rest) =
        behind
        ∙ ap (λ (l : List ℕ). l ++ rest) (elements_bits-split to from m refl)
        ∙ append_assoc (elements_bits d max_size front (take m from))
            (elements_bits d max_size back []) rest in
      let (fits1, fits2) = All-split m to fits.1 in
      let long = length-take_le m to (omega arith) in
      let long' = length-take_le m from (omega arith) in
      let (r2, elements, behind2, v2) =
        deserialize_elements-Takes front (take m from) r1 (elements_bits d max_size back [] ++ rest)
          (omega (arith, long, long')) fits1 v1 split in
      let removes =
        remove_last-front max_size (length from - m) front (drop m from) (length-drop m from) in
      let (r3, fresh, behind3, v3) =
        deserialize_new-Takes back front r2 rest (omega (arith, long, length-drop m to, fits.0))
          fits2 v2 behind2 in
      let count : length to - length front ≡ length back = omega (arith, long, length-drop m to) in
      let parts = take-append-drop m to in
      (
        r3,
        resized-step from front front to (length to) m r r1 r2 r3 refl
            (short, omega (arith, fits.0)) read elements removes
            (ap (λ (k : ℕ). deserialize_new d max_size k front r2) count
              ∙ fresh
              ∙ ap (λ (l : List T). ok (l, r3)) parts),
        behind3,
        v3,
      )

  -- A list within the maximum whose elements fit, sent as its difference from another, is read back
  -- over that other one, and the bits behind are left. The maximum and the length of the other list are
  -- below 2 ^ 31, so that both lengths are positive as an `int`.
  pub deserialize_list_delta-Takes :
      (to from : List T) (bits : List ℕ) (r : BitReader) (rest : List ℕ)
      → max_size < 2 ^ 31
      → length from < 2 ^ 31
      → list_delta d max_size to from ≡ some bits
      → (length to ≤ max_size) × All d.codec.Fits to
      → ReaderValid r
      → left r ≡ bits ++ rest
      → Takes (deserialize_list_delta d max_size from r) to rest
  unfolding deserialize_list_delta
  deserialize_list_delta-Takes to from bits r rest wide short e fits v p =
      elim (Bool-cases (length to == length from)) [
        | inr other ↦
            let whole : 1
                  ∷ (to_bits (get_required_bits_u64 max_size) (length to)
                      ++ elements_bits d max_size to from)
                ≡ bits =
              cc (rw other at e) in
            let (r1, read, behind, v1) =
              read_ubits-Takes 1 1 r _ (omega arith) (omega arith) v
                (p ∙ ap (λ (l : List ℕ). l ++ rest) (sym whole)) in
            rw read (deserialize_resized-Takes to from r1 rest fits wide short v1 behind)
        | inl same ↦ elim (Bool-cases (ltb 0 (differing d max_size to from))) [
          | inr none_differ ↦ cc (rw (same, none_differ) at e)
          | inl some_differ ↦
              let whole : 0 ∷ elements_bits d max_size to from ≡ bits =
                cc (rw (same, some_differ) at e) in
              let (r1, read, behind, v1) =
                read_ubits-Takes 1 0 r (elements_bits d max_size to from ++ rest) (omega arith)
                  (omega arith) v (p ∙ ap (λ (l : List ℕ). l ++ rest) (sym whole)) in
              rw read (deserialize_elements-Takes to from r1 rest (ground arith) fits.1 v1 behind)
        ]
      ]
