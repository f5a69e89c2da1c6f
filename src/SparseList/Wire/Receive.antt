-- ===== src/SparseList/Wire/Receive.antt =====
-- One value of a sparse list, received over another list.
use native.Mathlib.Nat.{mod-eq_of_lt}
use storm_net.Prelude.{
  ℕ, zero, suc, ◌+◌, ◌-◌, ◌*◌, ◌^◌, ◌≤◌, ◌<◌, ◌≡◌, refl, ap, sym, ◌∙◌, subst, List, ◌++◌, true,
  false, if◌then◌else◌, ◌==◌, ltb, Option-cases, inl, inr, set, none, some, ℕ_discrete, dec_lt,
  arith,
}
use storm_net.Bits.{u32, to_bits}
use storm_net.Result.{Result, ok}
use storm_net.BitUtil.{get_required_bits_u64}
use storm_net.BitUtil.Bounds.{lt-get_required_bits, get_required_bits-le}
use storm_net.BitReader.{BitReader, read_ubits}
use storm_net.BitReader.Content.{left, IsValid as ReaderValid}
use storm_net.Codec.{Codec}
use storm_net.Codec.Steps.{read_ubits-Takes}
use storm_net.SparseList.{SparseList, at, is_some, has_at, get_at, remove_at, insert_at, emplace_at}
use storm_net.SparseList.Contents.{
  IsValid, remove_at-IsValid, has_at-at, get_at-at, with_value, with_value-IsValid, raised,
}
use storm_net.SparseList.Insert.{insert_at-Becomes}
use storm_net.SparseList.Wire.{cast_index, remove_below, assign_at, place_at, receive}

cast_index-small : (n : ℕ) → n < 2 ^ 31 → cast_index n ≡ n
unfolding cast_index
cast_index-small n h =
    let whole : u32 n ≡ n = mod-eq_of_lt (omega arith) in
    let low : ltb n (2 ^ 31) ≡ true = ground arith in rw (whole, low) refl

module _ {T : Type 0} (sent old : SparseList T) (limit : ℕ) where
  -- Up to an index the list is the one that was sent, and from it on the old one.
  pub record Got (index : ℕ) (list : SparseList T) : Type 0 where
    pub valid : IsValid limit list
    pub holds :
        (j : ℕ) → at list.slots j ≡ (if ltb j index then at sent.slots j else at old.slots j)

  -- Nothing was sent for these indices.
  abbrev pub NoneSent : ℕ → ℕ → Type 0
  NoneSent from to = (j : ℕ) → from ≤ j → j < to → at sent.slots j ≡ none

  pub remove_at-Got :
      (i : ℕ) (list : SparseList T)
      → Got i list
      → at sent.slots i ≡ none
      → Got (i + 1) (remove_at i list)
  remove_at-Got i list g free =
      let (valid, removed) = remove_at-IsValid limit i list g.valid in
      record {
        valid = valid;
        holds = λ j. removed j ∙ (elim (ℕ_discrete i j) [
          | yes same ↦
              let here : (i == j) ≡ true = ground arith in
              let below : ltb j (i + 1) ≡ true = ground arith in
              rw (here, below) (sym (subst (λ (k : ℕ). at sent.slots k ≡ none) same free))
          | no other ↦
              let apart : (i == j) ≡ false = ground arith in
              let shift : ltb j (i + 1) ≡ ltb j i = ground arith in rw (apart, shift) (g.holds j)
        ]);
      }

  remove_below-Got :
      (n i : ℕ) (list : SparseList T)
      → Got i list
      → NoneSent i (i + n)
      → Got (i + n) (remove_below n i list)
  unfolding remove_below
  remove_below-Got zero i list g free = subst (λ (k : ℕ). Got k list) {x = i} (omega arith) g
  remove_below-Got (suc n) i list g free =
      let rest =
        remove_below-Got n (i + 1) (remove_at i list)
          (remove_at-Got i list g (free i (omega arith) (omega arith)))
          (λ j above below. free j (omega arith) (omega arith)) in
      subst (λ (k : ℕ). Got k (remove_below n (i + 1) (remove_at i list))) {x = i + 1 + n}
        (omega arith) rest

  -- The slot of a value is there, whatever it holds.
  abbrev Ready : ℕ → SparseList T → Type 0
  Ready i list =
      IsValid limit list
      × ((o : T) × (at list.slots i ≡ some o))
      × ((j : ℕ)
          → (i == j) ≡ false
          → at list.slots j ≡ (if ltb j i then at sent.slots j else at old.slots j))

  module _ (c : Codec T) (max_size : ℕ) where
    placed-has :
        (i : ℕ) (list : SparseList T)
        → has_at list i ≡ true
        → place_at c max_size limit i list ≡ ok list
    unfolding place_at
    placed-has i list e = rw e refl

    placed-new :
        (i : ℕ) (list : SparseList T)
        → has_at list i ≡ false
        → place_at c max_size limit i list ≡ insert_at limit i c.default list
    unfolding place_at emplace_at
    placed-new i list e = rw e refl

    place_at-Ready :
        (i : ℕ) (list : SparseList T)
        → Got i list
        → 2 * i < limit
        → limit < 2 ^ 31
        → (placed : SparseList T) × (place_at c max_size limit i list ≡ ok placed) × Ready i placed
    place_at-Ready i list g room small =
        let held = has_at-at limit list i g.valid in
        elim (Option-cases (at list.slots i)) [
          | inr (t, there) ↦
              let has : has_at list i ≡ true = held ∙ ap is_some there in
              (list, placed-has i list has, (g.valid, (t, there), λ j other. g.holds j))
          | inl free ↦
              let has : has_at list i ≡ false = held ∙ ap is_some free in
              elim (insert_at-Becomes limit i c.default list g.valid (omega arith)) [
                | inl (_, full) ↦ absurd (omega arith)
                | inr (placed, done, valid, holds) ↦ (
                  placed,
                  placed-new i list has ∙ done,
                  (
                    valid,
                    (c.default, holds i ∙ ground arith),
                    λ j other. holds j ∙ rw other (g.holds j),
                  ),
                )
              ]
        ]

    receive-step :
        (c0 i : ℕ) (list placed : SparseList T) (r r1 r2 : BitReader) (o t : T)
        → c0 ≤ i
        → i < 2 ^ 31
        → read_ubits (get_required_bits_u64 max_size) r ≡ ok (i, r1)
        → place_at c max_size limit i (remove_below (i - c0) c0 list) ≡ ok placed
        → get_at placed i ≡ ok o
        → c.deserialize o r1 ≡ ok (t, r2)
        → receive c max_size limit c0 list r ≡ ok (i + 1, assign_at i t placed, r2)
    unfolding receive
    receive-step c0 i list placed r r1 r2 o t h small read places gets value =
        let cast = cast_index-small i small in
        let index : (if ltb c0 i then i else c0) ≡ i = ground arith in
        rw (read, cast, index, places, gets, value) refl

    assign_at-Got :
        (i : ℕ) (t : T) (placed : SparseList T)
        → Ready i placed
        → at sent.slots i ≡ some t
        → Got (i + 1) (assign_at i t placed)
    unfolding assign_at
    assign_at-Got i t placed (valid, (o, there), others) e =
        let inside : i < placed.end_index = elim (dec_lt i placed.end_index) [
          | yes h ↦ h
          | no h ↦ cc (valid.beyond i (omega arith))
        ] in
        let (v, holds) = with_value-IsValid limit i t placed valid (omega arith) in
        let ends : with_value i t placed ≡ assign_at i t placed =
          ap (λ (n : ℕ). record { slots = set placed.slots i (some t); end_index = n })
            (raised placed.end_index i ∙ omega arith) in
        record {
          valid = subst (λ (l : SparseList T). IsValid limit l) ends v;
          holds = λ j. holds j ∙ (elim (ℕ_discrete i j) [
            | yes same ↦
                let at_j : (i == j) ≡ true = ground arith in
                let below : ltb j (i + 1) ≡ true = ground arith in
                rw (at_j, below) (sym (subst (λ (k : ℕ). at sent.slots k ≡ some t) same e))
            | no other ↦
                let apart : (i == j) ≡ false = ground arith in
                let shift : ltb j (i + 1) ≡ ltb j i = ground arith in
                rw (apart, shift) (others j apart)
          ]);
        }

    -- What a read of values leaves: the list up to the next index, and the bits behind.
    abbrev pub Received : Result (ℕ × SparseList T × BitReader) → ℕ → List ℕ → Type 0
    Received result index rest =
        (list : SparseList T) × (r : BitReader) × (result ≡ ok (index, list, r))
        × Got index list
        × (left r ≡ rest)
        × ReaderValid r

    pub receive-Received :
        (c0 i : ℕ) (t : T) (list : SparseList T) (r : BitReader) (rest : List ℕ)
        → c0 ≤ i
        → Got c0 list
        → NoneSent c0 i
        → at sent.slots i ≡ some t
        → 2 * i < limit
        → limit < 2 ^ 31
        → i ≤ max_size
        → max_size < 2 ^ 64
        → c.Fits t
        → ReaderValid r
        → left r ≡ to_bits (get_required_bits_u64 max_size) i ++ (c.encoding t ++ rest)
        → Received (receive c max_size limit c0 list r) (i + 1) rest
    receive-Received c0 i t list r rest h g free here room small fits wide fit v p =
        let bits = get_required_bits_u64 max_size in
        let (r1, read, behind, v1) =
          read_ubits-Takes bits i r (c.encoding t ++ rest) (get_required_bits-le max_size wide)
            (lt-get_required_bits max_size i wide fits) v p in
        let to : c0 + (i - c0) ≡ i = omega arith in
        let cleared =
          subst (λ (k : ℕ). Got k (remove_below (i - c0) c0 list)) to
            (remove_below-Got (i - c0) c0 list g (λ j above below. free j above (omega arith))) in
        let (placed, places, ready) =
          place_at-Ready i (remove_below (i - c0) c0 list) cleared room small in
        let (o, there) = ready.1 in
        let gets = get_at-at limit placed i o ready.0 there in
        let (r2, value, behind', v2) = c.deserialize-Takes o t r1 rest fit v1 behind in
        (
          assign_at i t placed,
          r2,
          receive-step c0 i list placed r r1 r2 o t h (omega arith) read places gets value,
          assign_at-Got i t placed ready here,
          behind',
          v2,
        )
