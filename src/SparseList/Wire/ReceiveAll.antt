-- ===== src/SparseList/Wire/ReceiveAll.antt =====
-- All values of a sparse list received, and the slots above them emptied.
use storm_net.Prelude.{
  ℕ, zero, suc, ◌+◌, ◌-◌, ◌*◌, ◌^◌, ◌≤◌, ◌<◌, ◌≡◌, refl, ap, sym, ◌∙◌, subst, List, ◌++◌,
  append_assoc, false, ◌==◌, ltb, Bool-cases, Option-cases, inl, inr, length, none, some,
  ℕ_discrete, dec_lt, max, arith,
}
use storm_net.Bits.{to_bits}
use storm_net.Result.{Result, ok, ◌>>=◌}
use storm_net.BitUtil.{get_required_bits_u64}
use storm_net.BitReader.{BitReader}
use storm_net.BitReader.Content.{left, IsValid as ReaderValid}
use storm_net.Codec.{Codec}
use storm_net.SparseList.{SparseList, at, remove_at}
use storm_net.SparseList.Contents.{IsValid, remove_at-IsValid}
use storm_net.SparseList.Iterate.{entries, entries-none, entries-some}
use storm_net.SparseList.Wire.{remove_rest, receive_all, encoding_pairs}
use storm_net.SparseList.Wire.Receive.{Got, NoneSent, Received, remove_at-Got, receive-Received}

module _ {T : Type 0} (sent old : SparseList T) (limit : ℕ) where
  module _ (c : Codec T) (max_size : ℕ) where
    pub receive_all-Received :
        (n i c0 : ℕ) (list : SparseList T) (r : BitReader) (rest : List ℕ)
        → c0 ≤ i
        → Got sent old limit c0 list
        → NoneSent sent old limit c0 i
        → i + n ≡ sent.end_index
        → 2 * sent.end_index ≤ limit
        → limit < 2 ^ 31
        → sent.end_index ≤ max_size
        → max_size < 2 ^ 64
        → ((j : ℕ) (t : T) → at sent.slots j ≡ some t → c.Fits t)
        → ReaderValid r
        → left r ≡ encoding_pairs c max_size (entries sent.slots i n) ++ rest
        → (last : ℕ) × (c0 ≤ last)
          × (last ≤ sent.end_index)
          × NoneSent sent old limit last sent.end_index
          × Received sent old limit c max_size
              (receive_all c max_size limit (length (entries sent.slots i n)) c0 list r)
              last
              rest
    unfolding receive_all
    receive_all-Received zero i c0 list r rest h g free e room small fits wide fit v p = (
      c0,
      omega arith,
      omega arith,
      (λ j above below. free j above (omega arith)),
      (list, r, refl, g, p, v),
    )
    receive_all-Received (suc n) i c0 list r rest h g free e room small fits wide fit v p =
        elim (Option-cases (at sent.slots i)) [
          | inl none_there ↦
              let skips = entries-none sent.slots i n none_there in
              rw skips (
                receive_all-Received n (i + 1) c0 list r rest (omega arith) g
                  (λ j above below. elim (ℕ_discrete j i) [
                    | yes same ↦ subst (λ (k : ℕ). at sent.slots k ≡ none) (sym same) none_there
                    | no other ↦ free j above (omega arith)
                  ])
                  (omega arith) room small fits wide fit v
                  (p ∙ ap (λ (l : List (ℕ × T)). encoding_pairs c max_size l ++ rest) skips))
          | inr (t, there) ↦
              let takes = entries-some sent.slots i n t there in
              let others = entries sent.slots (i + 1) n in
              let behind = encoding_pairs c max_size others in
              let index = to_bits (get_required_bits_u64 max_size) i in
              let shape : left r ≡ index ++ (c.encoding t ++ (behind ++ rest)) =
                p
                ∙ ap (λ (l : List (ℕ × T)). encoding_pairs c max_size l ++ rest) takes
                ∙ append_assoc index (c.encoding t ++ behind) rest
                ∙ ap (λ (l : List ℕ). index ++ l) (append_assoc (c.encoding t) behind rest) in
              let (list1, r1, done, g1, left1, v1) =
                receive-Received sent old limit c max_size c0 i t list r (behind ++ rest) h g free
                  there (omega arith) small (omega arith) wide (fit i t there) v shape in
              let (last, above, below, none_more, (list2, r2, done2, g2, left2, v2)) =
                receive_all-Received n (i + 1) (i + 1) list1 r1 rest (omega arith) g1
                  (λ j a b. absurd (omega arith)) (omega arith) room small fits wide fit v1 left1 in
              rw takes (
                last,
                omega (arith, above),
                below,
                none_more,
                (
                  list2,
                  r2,
                  ap
                        (λ (m : Result (ℕ × SparseList T × BitReader)). m >>= λ state.
                          receive_all c max_size limit (length others) (state.0) (state.1)
                            (state.2))
                        done
                      ∙ done2,
                  g2,
                  left2,
                  v2,
                ),
              )
        ]

  -- The highest slot stays when another is emptied.
  remove_at-end :
      (i : ℕ) (list : SparseList T)
      → IsValid limit list
      → i + 1 < list.end_index
      → (remove_at i list).end_index ≡ list.end_index
  remove_at-end i list v h =
      let (v', removed) = remove_at-IsValid limit i list v in
      let top = list.end_index - 1 in
      let (t, held) = v.highest top (omega arith) in
      let apart : (i == top) ≡ false = ground arith in
      let stays : at (remove_at i list).slots top ≡ some t = removed top ∙ rw apart held in
      let low : list.end_index ≤ (remove_at i list).end_index =
        elim (dec_lt top (remove_at i list).end_index) [
          | yes k ↦ omega arith
          | no k ↦ cc (v'.beyond top (omega arith))
        ] in
      elim (dec_lt list.end_index (remove_at i list).end_index) [
        | no k ↦ omega (arith, low)
        | yes k ↦
            let over = (remove_at i list).end_index - 1 in
            let (u, there) = v'.highest over (omega arith) in
            let other : (i == over) ≡ false = ground arith in
            let gone : at (remove_at i list).slots over ≡ none =
              removed over ∙ rw other (v.beyond over (omega arith)) in
            cc
      ]

  -- The last loop stops before the highest slot.
  pub remove_rest-Got :
      (fuel i : ℕ) (list : SparseList T)
      → Got sent old limit i list
      → 0 < fuel
      → list.end_index ≤ i + fuel
      → NoneSent sent old limit i (list.end_index - 1)
      → (kept : SparseList T) × (remove_rest fuel i list ≡ ok kept)
        × Got sent old limit (max i (list.end_index - 1)) kept
  unfolding remove_rest
  remove_rest-Got zero i list g fuelled h free = absurd (omega arith)
  remove_rest-Got (suc fuel) i list g fuelled h free =
      elim (Bool-cases (ltb (i + 1) list.end_index)) [
        | inr done ↦ (
          list,
          rw done refl,
          subst (λ (k : ℕ). Got sent old limit k list) {x = i} (ground arith) g,
        )
        | inl more ↦
            let same = remove_at-end i list g.valid (ground arith) in
            let (kept, ends, rest) =
              remove_rest-Got fuel (i + 1) (remove_at i list)
                (remove_at-Got sent old limit i list g (free i (omega arith) (ground arith)))
                (ground arith) (omega (arith, same))
                (λ j above below. free j (omega arith) (omega (arith, same))) in
            (
              kept,
              rw more ends,
              subst (λ (k : ℕ). Got sent old limit k kept)
                  {x = max (i + 1) ((remove_at i list).end_index - 1)} (ground (arith, same)) rest,
            )
      ]
