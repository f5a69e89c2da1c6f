-- ===== src/ArrayList/Delta/Send.antt =====
-- The bits of a list that is sent as its difference from another.
use storm_net.Prelude.{
  ℕ, suc, ◌+◌, ◌^◌, ◌<◌, ◌≤◌, ◌≡◌, refl, ap, sym, ◌∙◌, List, [], ◌∷◌, ◌++◌, append-nil, Bool, true,
  false, if◌then◌else◌, ◌==◌, ltb, Option, none, some, Bool-cases, Option-cases, inl, inr, length,
  length-append, arith,
}
use storm_net.Bits.{to_bits, length-to_bits}
use storm_net.Result.{ok}
use storm_net.BitUtil.{get_required_bits_u64}
use storm_net.BitWriter.{BitWriter, write_bits}
use storm_net.BitWriter.Content.{bits_of, IsValid as WriterValid}
use storm_net.BitWriter.Cursor.{reserve}
use storm_net.BitWriter.Cursor.Reserved.{write_cursor-reserve, length-bits_of}
use storm_net.BitWriter.Cursor.RollBack.{roll_back-reserve}
use storm_net.Codec.{Appends}
use storm_net.Codec.Steps.{write_bits-Appends, Appends-then, Appends-nil}
use storm_net.Delta.{DeltaCodec, Sends, sent_bits, is_sent}
use storm_net.ArrayList.Delta.{serialize_resized, serialize_same, serialize_list_delta}
use storm_net.ArrayList.Delta.Elements.{flagged, reserve-Appends, serialize_element-Appends}

pub length-flagged : (o : Option (List ℕ)) → length (flagged o) ≡ suc (length (sent_bits o))
length-flagged none = refl
length-flagged (some bits) = refl

module _ {T : Type 0} (d : DeltaCodec T) (max_size : ℕ) where
  -- The elements that both lists have, flagged, and then the others.
  abbrev pub elements_bits : List T → List T → List ℕ
  elements_bits [] from = []
  elements_bits (t ∷ to) [] = d.codec.encoding t ++ elements_bits to []
  elements_bits (t ∷ to) (f ∷ from) = flagged (d.delta t f) ++ elements_bits to from

  abbrev pub elements_peak : List T → List T → ℕ
  elements_peak [] from = 0
  elements_peak (t ∷ to) [] = length (d.codec.encoding t) + elements_peak to []
  elements_peak (t ∷ to) (f ∷ from) = suc (d.peak t f) + elements_peak to from

  -- How many elements differ.
  abbrev pub differing : List T → List T → ℕ
  differing [] from = 0
  differing (t ∷ to) [] = 0
  differing (t ∷ to) (f ∷ from) = (if is_sent (d.delta t f) then 1 else 0) + differing to from

  abbrev pub list_delta : List T → List T → Option (List ℕ)
  list_delta to from =
      if length to == length from
      then if ltb 0 (differing to from) then some (0 ∷ elements_bits to from) else none
      else some
          (1 ∷ (to_bits (get_required_bits_u64 max_size) (length to) ++ elements_bits to from))

  abbrev pub list_peak : List T → List T → ℕ
  list_peak to from = suc (get_required_bits_u64 max_size + elements_peak to from)

  elements_bits-le : (to from : List T) → length (elements_bits to from) ≤ elements_peak to from
  elements_bits-le [] from = omega arith
  elements_bits-le (t ∷ to) [] =
      omega
        (arith, length-append (d.codec.encoding t) (elements_bits to []), elements_bits-le to [])
  elements_bits-le (t ∷ to) (f ∷ from) = omega (
    arith,
    length-append (flagged (d.delta t f)) (elements_bits to from),
    length-flagged (d.delta t f),
    d.delta-le t f,
    elements_bits-le to from,
  )

  pub list_delta-le :
      (to from : List T) → length (sent_bits (list_delta to from)) ≤ list_peak to from
  list_delta-le to from =
      let bound = elements_bits-le to from in
      elim (Bool-cases (length to == length from)) [
        | inl same ↦ elim (Bool-cases (ltb 0 (differing to from))) [
          | inl some_differ ↦ rw (same, some_differ) (omega (arith, bound))
          | inr none_differ ↦ rw (same, none_differ) (omega arith)
        ]
        | inr other ↦ rw other (
            omega (
              arith,
              bound,
              length-append (to_bits (get_required_bits_u64 max_size) (length to))
                  (elements_bits to from),
              length-to_bits (get_required_bits_u64 max_size) (length to),
            ))
      ]

  -- What an element adds to the bits.
  grown :
      (t f : T) (w w' : BitWriter)
      → Appends w w' (flagged (d.delta t f))
      → length (bits_of w') ≤ length (bits_of w) + suc (d.peak t f)
  grown t f w w' a = omega (
    arith,
    ap length (a.0),
    length-append (bits_of w) (flagged (d.delta t f)),
    length-flagged (d.delta t f),
    d.delta-le t f,
  )

  serialize_resized-Appends :
      (to from : List T) (w : BitWriter)
      → WriterValid w
      → length (bits_of w) + elements_peak to from < 2 ^ 63
      → (w' : BitWriter) × (serialize_resized d max_size to from w ≡ ok w')
        × Appends w w' (elements_bits to from)
  unfolding serialize_resized
  serialize_resized-Appends [] from w v small = (w, refl, Appends-nil w v)
  serialize_resized-Appends (t ∷ to) [] w v small =
      let w1 = d.codec.serialize t w in
      let first = d.codec.serialize-Appends t w v in
      let (w2, done, rest) = serialize_resized-Appends to [] w1 first.1 (
        omega
          (arith, ap length (first.0), length-append (bits_of w) (d.codec.encoding t), small)) in
      (w2, done, Appends-then w w1 w2 (d.codec.encoding t) (elements_bits to []) first (λ _. rest))
  serialize_resized-Appends (t ∷ to) (f ∷ from) w v small =
      let (w1, sent, first) = serialize_element-Appends d max_size t f w v (omega arith) in
      let (w2, done, rest) =
        serialize_resized-Appends to from w1 first.1 (omega (arith, grown t f w w1 first, small)) in
      (
        w2,
        rw sent done,
        Appends-then w w1 w2 (flagged (d.delta t f)) (elements_bits to from) first (λ _. rest),
      )

  serialize_same-Appends :
      (to from : List T) (num : ℕ) (w : BitWriter)
      → length to ≡ length from
      → WriterValid w
      → length (bits_of w) + elements_peak to from < 2 ^ 63
      → (w' : BitWriter) × (serialize_same d max_size to from num w
          ≡ ok (num + differing to from, w'))
        × Appends w w' (elements_bits to from)
  unfolding serialize_same
  serialize_same-Appends [] from num w e v small =
      (w, ap (λ (n : ℕ). ok (n, w)) (omega arith), Appends-nil w v)
  serialize_same-Appends (t ∷ to) [] num w e v small = absurd (omega arith)
  serialize_same-Appends (t ∷ to) (f ∷ from) num w e v small =
      let (w1, sent, first) = serialize_element-Appends d max_size t f w v (omega arith) in
      let flag = is_sent (d.delta t f) in
      let num' = if flag then num + 1 else num in
      let (w2, done, rest) =
        serialize_same-Appends to from num' w1 (omega arith) first.1
          (omega (arith, grown t f w w1 first, small)) in
      (
        w2,
        rw sent (done ∙ ap (λ (n : ℕ). ok (n, w2)) (counted flag num (differing to from))),
        Appends-then w w1 w2 (flagged (d.delta t f)) (elements_bits to from) first (λ _. rest),
      )
    where
      counted :
          (flag : Bool) (n k : ℕ)
          → (if flag then n + 1 else n) + k ≡ n + ((if flag then 1 else 0) + k)
      counted true n k = omega arith
      counted false n k = omega arith

  differ_size-Sends :
      (to from : List T) (w : BitWriter)
      → (length to == length from) ≡ false
      → WriterValid w
      → length (bits_of w) + list_peak to from < 2 ^ 63
      → Sends (serialize_list_delta d max_size to from w) w (list_delta to from)
  unfolding serialize_list_delta
  differ_size-Sends to from w other v small =
      let bits = get_required_bits_u64 max_size in
      let w1 = write_bits 1 1 w in
      let w2 = write_bits (length to) bits w1 in
      let first = write_bits-Appends 1 1 w v in
      let second = write_bits-Appends (length to) bits w1 first.1 in
      let (w3, done, rest) = serialize_resized-Appends to from w2 second.1 (
        omega (
          arith,
          ap length (first.0),
          length-append (bits_of w) (1 ∷ []),
          ap length (second.0),
          length-append (bits_of w1) (to_bits bits (length to)),
          length-to_bits bits (length to),
          small,
        )) in
      rw (other, done)
        (
          w3,
          refl,
          Appends-then w w1 w3 (1 ∷ []) (to_bits bits (length to) ++ elements_bits to from) first
              (λ v1.
                Appends-then w1 w2 w3 (to_bits bits (length to)) (elements_bits to from) second
                  (λ _. rest)),
        )

  same_size-Sends :
      (to from : List T) (w : BitWriter)
      → (length to == length from) ≡ true
      → WriterValid w
      → length (bits_of w) + list_peak to from < 2 ^ 63
      → Sends (serialize_list_delta d max_size to from w) w (list_delta to from)
  unfolding serialize_list_delta
  same_size-Sends to from w same v small =
      let reserved = reserve-Appends 1 w v in
      let sized : length (bits_of (reserve 1 w).1) ≡ length (bits_of w) + 1 =
        ap length (reserved.0) ∙ length-append (bits_of w) (0 ∷ []) in
      let (w1, wrote, appended) =
        serialize_same-Appends to from 0 (reserve 1 w).1 (ground arith) reserved.1
          (omega (arith, sized, small)) in
      let count : 0 + differing to from ≡ differing to from = omega arith in
      let wrote' = wrote ∙ ap (λ (n : ℕ). ok (n, w1)) count in
      elim (Bool-cases (ltb 0 (differing to from))) [
        | inl some_differ ↦
            let (cursor, w2, written, result, _, _) =
              write_cursor-reserve 1 0 w w1 (elements_bits to from) (omega arith) v
                (omega (
                  arith,
                  sized,
                  ap length (appended.0),
                  length-append (bits_of (reserve 1 w).1) (elements_bits to from),
                  elements_bits-le to from,
                  small,
                ))
                appended in
            rw (same, wrote', some_differ, written) (w2, refl, result)
        | inr none_differ ↦
            let (w2, back, kept, valid, _) =
              roll_back-reserve 1 w w1 (elements_bits to from) v
                (omega (arith, length-bits_of w v, small)) appended in
            rw (same, wrote', none_differ, back)
              (w2, refl, (kept ∙ sym (append-nil (bits_of w)), valid))
      ]

  -- For lists of any lengths, when the bits so far and those of all their elements are fewer than
  -- 2 ^ 63, the serializer returns. If the lists have the same length and no element differs, it
  -- returns false and leaves the bits of the writer as they were. Otherwise it returns true and has
  -- appended the flag for a change of size, the new size if there is one, for each element that both
  -- lists have whether it differs and its difference, and the new elements as a whole.
  pub serialize_list_delta-Sends :
      (to from : List T) (w : BitWriter)
      → WriterValid w
      → length (bits_of w) + list_peak to from < 2 ^ 63
      → Sends (serialize_list_delta d max_size to from w) w (list_delta to from)
  serialize_list_delta-Sends to from w v small = elim (Bool-cases (length to == length from)) [
    | inl same ↦ same_size-Sends to from w same v small
    | inr other ↦ differ_size-Sends to from w other v small
  ]

  none_differing : (to from : List T) → length to ≡ length from → differing to from ≡ 0 → to ≡ from
  none_differing [] [] h e = refl
  none_differing [] (f ∷ from) h e = absurd (omega arith)
  none_differing (t ∷ to) [] h e = absurd (omega arith)
  none_differing (t ∷ to) (f ∷ from) h e = elim (Option-cases (d.delta t f)) [
    | inl same ↦
        let counted : 0 + differing to from ≡ 0 =
          sym (ap (λ (o : Option (List ℕ)). (if is_sent o then 1 else 0) + differing to from) same)
          ∙ e in
        let rest = none_differing to from (omega arith) (omega arith) in
        let first = d.delta-none t f same in cc
    | inr (bits, differ) ↦
        let counted : 1 + differing to from ≡ 0 =
          sym
            (ap (λ (o : Option (List ℕ)). (if is_sent o then 1 else 0) + differing to from) differ)
          ∙ e in
        absurd (omega arith)
  ]

  pub list_delta-none : (to from : List T) → list_delta to from ≡ none → to ≡ from
  list_delta-none to from e = elim (Bool-cases (length to == length from)) [
    | inr other ↦ cc (rw other at e)
    | inl same ↦ elim (Bool-cases (ltb 0 (differing to from))) [
      | inl some_differ ↦ cc (rw (same, some_differ) at e)
      | inr none_differ ↦ none_differing to from (ground arith) (ground arith)
    ]
  ]
