-- ===== src/SparseList/Grow.antt =====
-- That growing ends, and what it leaves in the slots.
use storm_net.Prelude.{
  ℕ, zero, suc, ◌+◌, ◌-◌, ◌*◌, ◌^◌, ◌≤◌, ◌<◌, ◌≡◌, refl, ◌⊎◌, inl, inr, ◌++◌, true, false,
  if◌then◌else◌, ◌==◌, ltb, leb, Bool-cases, length, length-append, length-take_le,
  length-replicate, take, replicate, Option, none, arith,
}
use storm_net.Bits.{u64}
use storm_net.Result.{Result, ok, err, bad_alloc}
use storm_net.SparseList.{SparseList, at, double, grow_to, grow, grow_to_fit}
use storm_net.SparseList.Slots.{at-padded}

fits_later : (fuel old : ℕ) → old * 2 ^ suc fuel ≡ old * 2 * 2 ^ fuel
fits_later fuel old = grind arith

double-more :
    (fuel old index n : ℕ)
    → u64 (old * 2) ≡ old * 2
    → leb (old * 2) index ≡ true
    → double fuel (old * 2) index ≡ ok n
    → double (suc fuel) old index ≡ ok n
unfolding double
double-more fuel old index n exact more found = rw (exact, more) found

double-done :
    (fuel old index : ℕ)
    → u64 (old * 2) ≡ old * 2
    → leb (old * 2) index ≡ false
    → double (suc fuel) old index ≡ ok (old * 2)
unfolding double
double-done fuel old index exact done = rw (exact, done) refl

-- Within 63 doublings.
double-returns :
    (fuel old index : ℕ)
    → 0 < old
    → old ≤ index
    → index < old * 2 ^ fuel
    → index < 2 ^ 63
    → (new_capacity : ℕ) × (double fuel old index ≡ ok new_capacity)
      × (index < new_capacity)
      × (new_capacity ≤ 2 * index)
double-returns zero old index pos h fits small = absurd (omega arith)
double-returns (suc fuel) old index pos h fits small =
    let exact : u64 (old * 2) ≡ old * 2 = omega arith in
    elim (Bool-cases (leb (old * 2) index)) [
      | inl more ↦
          let later : index < old * 2 * 2 ^ fuel = omega (arith, fits_later fuel old) in
          let (n, found, above, bound) =
            double-returns fuel (old * 2) index (omega arith) (ground arith) later small in
          (n, double-more fuel old index n exact more found, above, bound)
      | inr done ↦ (old * 2, double-done fuel old index exact done, ground arith, omega arith)
    ]

module _ {T : Type 0} where
  -- A list with the same elements, in an array of this many slots.
  pub record Grown (list list' : SparseList T) (slots : ℕ) : Type 0 where
    pub sized : length list'.slots ≡ slots
    pub same_end : list'.end_index ≡ list.end_index
    pub same_slots :
        (i : ℕ) → at list'.slots i ≡ (if ltb i list.end_index then at list.slots i else none)

  abbrev pub no_slot : Option T
  no_slot = none

  abbrev pub GrowsTo : Result (SparseList T) → ℕ → ℕ → SparseList T → Type 0
  GrowsTo result limit slots list =
      ((limit < slots) × (result ≡ err bad_alloc))
      ⊎ ((slots ≤ limit) × ((list' : SparseList T) × (result ≡ ok list') × Grown list list' slots))

  pub grow_to-GrowsTo :
      (limit n : ℕ) (list : SparseList T)
      → list.end_index ≤ length list.slots
      → list.end_index ≤ n
      → GrowsTo (grow_to limit n list) limit n list
  unfolding grow_to
  grow_to-GrowsTo limit n list h k = elim (Bool-cases (ltb limit n)) [
    | inl over ↦ inl (ground arith, rw over refl)
    | inr fits ↦ inr (
      ground arith,
      (
        record {
          slots = take list.end_index list.slots ++ replicate (n - list.end_index) none;
          end_index = list.end_index;
        },
        rw fits refl,
        record {
          sized = omega (
            arith,
            length-append (take list.end_index list.slots) (replicate (n - list.end_index) no_slot),
            length-take_le list.end_index list.slots (omega arith),
            length-replicate (n - list.end_index) no_slot,
          );
          same_end = refl;
          same_slots = λ i. at-padded list.end_index (n - list.end_index) list.slots i h;
        },
      ),
    )
  ]

  pub grow-GrowsTo :
      (limit : ℕ) (list : SparseList T)
      → list.end_index ≤ length list.slots
      → length list.slots < 2 ^ 63
      → GrowsTo
          (grow limit list)
          limit
          (if length list.slots == 0 then 1 else length list.slots * 2)
          list
  unfolding grow
  grow-GrowsTo limit list h small = elim (Bool-cases (length list.slots == 0)) [
    | inl empty ↦ rw empty (grow_to-GrowsTo limit 1 list h (ground arith))
    | inr some_slots ↦
        let exact : u64 (length list.slots * 2) ≡ length list.slots * 2 = omega arith in
        rw (some_slots, exact) (grow_to-GrowsTo limit (length list.slots * 2) list h (omega arith))
  ]

  -- The array holds the index, and unless it was empty it is at most twice as long as it must be.
  pub grow_to_fit-GrowsTo :
      (limit index : ℕ) (list : SparseList T)
      → list.end_index ≤ length list.slots
      → index < 2 ^ 63
      → length list.slots ≤ index
      → (slots : ℕ) × (index < slots)
        × (slots ≤ 2 * index + 1)
        × GrowsTo (grow_to_fit limit index list) limit slots list
  unfolding grow_to_fit
  grow_to_fit-GrowsTo limit index list h small beyond =
      let outside : ltb index (length list.slots) ≡ false = ground arith in
      elim (Bool-cases (length list.slots == 0)) [
        | inl empty ↦
            let exact : u64 (index + 1) ≡ index + 1 = omega arith in
            (
              index + 1,
              omega arith,
              omega arith,
              rw (outside, empty, exact) (grow_to-GrowsTo limit (index + 1) list h (omega arith)),
            )
        | inr some_slots ↦
            let pos : 0 < length list.slots = ground arith in
            let (slots, found, above, bound) =
              double-returns 64 (length list.slots) index pos beyond (omega arith) small in
            (
              slots,
              above,
              omega arith,
              rw (outside, some_slots, found)
                  (grow_to-GrowsTo limit slots list h (omega (arith, above))),
            )
      ]
