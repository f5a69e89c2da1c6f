-- ===== src/SparseList/Wire/Arrives.antt =====
-- What a sparse list holds after it has been received over another.
use storm_net.Prelude.{
  ℕ, ◌+◌, suc, ◌-◌, ◌*◌, ◌^◌, ◌≤◌, ◌<◌, ◌≡◌, refl, ap, sym, ◌∙◌, List, ◌++◌, append_assoc, true,
  false, if◌then◌else◌, ◌==◌, ltb, leb, ◌&&◌, length, none, some, ℕ_discrete, dec_lt, max, arith,
}
use storm_net.Bits.{to_bits}
use storm_net.Result.{ok}
use storm_net.BitUtil.{get_required_bits_u64}
use storm_net.BitUtil.Bounds.{lt-get_required_bits, get_required_bits-le}
use storm_net.BitReader.{BitReader, read_ubits}
use storm_net.BitReader.Content.{left, IsValid as ReaderValid}
use storm_net.Codec.{Codec, Takes}
use storm_net.Codec.Steps.{read_ubits-Takes}
use storm_net.SparseList.{SparseList, at, try_get}
use storm_net.SparseList.Contents.{IsValid, try_get-at, at-below}
use storm_net.SparseList.Iterate.{entries, length-entries_le}
use storm_net.SparseList.Wire.{
  remove_rest, receive_all, deserialize_sparse, encoding_pairs, encoding_sparse,
}
use storm_net.SparseList.Wire.ReceiveAll.{receive_all-Received, remove_rest-Got}

last-end :
    {T : Type 0} (limit : ℕ) (sent : SparseList T) (last : ℕ)
    → IsValid limit sent
    → last ≤ sent.end_index
    → ((j : ℕ) → last ≤ j → j < sent.end_index → at sent.slots j ≡ none)
    → last ≡ sent.end_index
last-end limit sent last v below free = elim (dec_lt last sent.end_index) [
  | no h ↦ omega arith
  | yes h ↦
      let (t, held) = v.highest (sent.end_index - 1) (omega arith) in
      let gone = free (sent.end_index - 1) (omega arith) (omega arith) in cc
]

-- Which value an index has in the end.
which :
    {T : Type 0} (limit : ℕ) (sent old list : SparseList T) (j : ℕ)
    → IsValid limit sent
    → IsValid limit old
    → IsValid limit list
    → ((k : ℕ)
        → at list.slots k ≡ (if ltb k sent.end_index then at sent.slots k else at old.slots k))
    → (if ltb j (max sent.end_index (list.end_index - 1)) then at sent.slots j else at old.slots j)
      ≡ (if leb sent.end_index j && (suc j == old.end_index)
          then at old.slots j
          else at sent.slots j)
which limit sent old list j vs vo vl holds = elim (dec_lt j sent.end_index) [
  | yes low ↦
      let a : ltb j (max sent.end_index (list.end_index - 1)) ≡ true = ground arith in
      let b : leb sent.end_index j ≡ false = ground arith in rw (a, b) refl
  | no high ↦ elim (ℕ_discrete (suc j) old.end_index) [
    | yes top ↦
        let (t, held) = vo.highest j (sym top) in
        let kept : at list.slots j ≡ some t = holds j ∙ ground arith in
        let inside = at-below limit list j t vl kept in
        let a : leb sent.end_index j ≡ true = ground arith in
        let b : (suc j == old.end_index) ≡ true = ground arith in
        let short : list.end_index ≤ suc j = elim (dec_lt (suc j) list.end_index) [
          | no h ↦ omega arith
          | yes h ↦
              let k = list.end_index - 1 in
              let (u, there) = vl.highest k (omega arith) in
              let past : ltb k sent.end_index ≡ false = ground arith in
              let gone : at list.slots k ≡ none = holds k ∙ rw past (vo.beyond k (omega arith)) in
              cc
        ] in
        let c : ltb j (max sent.end_index (list.end_index - 1)) ≡ false = ground arith in
        rw (a, b, c) refl
    | no other ↦
        let b : (suc j == old.end_index) ≡ false = ground arith in
        let free : at sent.slots j ≡ none = vs.beyond j (omega arith) in
        elim (dec_lt j (max sent.end_index (list.end_index - 1))) [
          | yes below ↦
              let c : ltb j (max sent.end_index (list.end_index - 1)) ≡ true = ground arith in
              let a : leb sent.end_index j ≡ true = ground arith in rw (a, b, c) refl
          | no above ↦
              let c : ltb j (max sent.end_index (list.end_index - 1)) ≡ false = ground arith in
              let a : leb sent.end_index j ≡ true = ground arith in
              let gone : at old.slots j ≡ none = elim (dec_lt (suc j) old.end_index) [
                | no h ↦ vo.beyond j (omega arith)
                | yes h ↦
                    let k = old.end_index - 1 in
                    let (u, there) = vo.highest k (omega arith) in
                    let past : ltb k sent.end_index ≡ false = ground arith in
                    let kept : at list.slots k ≡ some u = holds k ∙ rw past there in
                    absurd (omega (arith, at-below limit list k u vl kept))
              ] in
              rw (a, b, c) (gone ∙ sym free)
        ]
  ]
]

deserialize-step :
    {T : Type 0} (c : Codec T) (max_size limit : ℕ) (old list kept : SparseList T)
    (r r1 r2 : BitReader) (n last : ℕ)
    → read_ubits (get_required_bits_u64 max_size) r ≡ ok (n, r1)
    → receive_all c max_size limit n 0 old r1 ≡ ok (last, list, r2)
    → remove_rest (list.end_index + 1) last list ≡ ok kept
    → deserialize_sparse c max_size limit old r ≡ ok (kept, r2)
unfolding deserialize_sparse
deserialize-step c max_size limit old list kept r r1 r2 n last read done stops =
    rw (read, done, stops) refl

found :
    {T : Type 0} (limit : ℕ) (sent old : SparseList T) (j : ℕ)
    → IsValid limit sent
    → IsValid limit old
    → (if leb sent.end_index j && (suc j == old.end_index) then at old.slots j else at sent.slots j)
      ≡ (if leb sent.end_index j && (suc j == old.end_index) then try_get old j else try_get sent j)
found limit sent old j vs vo = rw (try_get-at limit sent j vs, try_get-at limit old j vo) refl

-- A list that is sent and received over another arrives, except that the other's highest value stays
-- when its index is not below the end of the list that was sent. Both lists are well-formed, the
-- indices are below the maximum, which is below 2 ^ 64, the values fit, the bits left are the encoding
-- and others behind it, which are left, and `malloc` grants at least twice as many slots as the list
-- has indices, and fewer than 2 ^ 31.
pub deserialize_sparse-try_get :
    {T : Type 0} (c : Codec T) (max_size limit : ℕ) (sent old : SparseList T) (r : BitReader)
    (rest : List ℕ)
    → IsValid limit sent
    → IsValid limit old
    → sent.end_index ≤ max_size
    → max_size < 2 ^ 64
    → 2 * sent.end_index ≤ limit
    → limit < 2 ^ 31
    → ((j : ℕ) (t : T) → try_get sent j ≡ some t → c.Fits t)
    → ReaderValid r
    → left r ≡ encoding_sparse c max_size sent ++ rest
    → (list : SparseList T) × Takes (deserialize_sparse c max_size limit old r) list rest
      × IsValid limit list
      × ((j : ℕ)
          → try_get list j ≡ (
              if leb sent.end_index j && (suc j == old.end_index)
              then try_get old j
              else try_get sent j))
deserialize_sparse-try_get c max_size limit sent old r rest vs vo fits wide room small fit v p =
    let bits = get_required_bits_u64 max_size in
    let pairs = entries sent.slots 0 sent.end_index in
    let (r1, read, behind, v1) =
      read_ubits-Takes bits (length pairs) r (encoding_pairs c max_size pairs ++ rest)
        (get_required_bits-le max_size wide)
        (lt-get_required_bits max_size (length pairs) wide
          (omega (arith, length-entries_le sent.slots 0 sent.end_index)))
        v (p ∙ append_assoc (to_bits bits (length pairs)) (encoding_pairs c max_size pairs) rest) in
    let (last, _, below, none_more, (list, r2, done, g, left2, v2)) =
      receive_all-Received sent old limit c max_size sent.end_index 0 0 old r1 rest (omega arith)
        (record { valid = vo; holds = λ j. ground arith }) (λ j a b. absurd (omega arith))
        (omega arith) room small fits wide (λ j t e. fit j t (try_get-at limit sent j vs ∙ e)) v1
        behind in
    let ends = last-end limit sent last vs below none_more in
    let (kept, stops, final) =
      remove_rest-Got sent old limit (list.end_index + 1) last list g (omega arith) (omega arith)
        (λ j above _. vs.beyond j (omega arith)) in
    (
      kept,
      (
        r2,
        deserialize-step c max_size limit old list kept r r1 r2 (length pairs) last read done stops,
        left2,
        v2,
      ),
      final.valid,
      λ j.
          try_get-at limit kept j final.valid
          ∙ final.holds j
          ∙ ap
              (λ (n : ℕ).
                if ltb j (max n (list.end_index - 1)) then at sent.slots j else at old.slots j)
              ends
          ∙ which limit sent old list j vs vo g.valid (λ k.
            g.holds k ∙ ap (λ (n : ℕ). if ltb k n then at sent.slots k else at old.slots k) ends)
          ∙ found limit sent old j vs vo,
    )
