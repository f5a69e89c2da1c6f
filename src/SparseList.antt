-- ===== src/SparseList.antt =====
-- NetReflectionSparseList.h: `NetSparseList<T, MaxSize>`, an array of slots that are valid or not.
-- The array is the list of its slots, an invalid one is `none`; the field `end_index` is
-- `m_HighestIndex + 1`, which is what `end()` holds. `malloc` grants arrays of up to `limit` slots.
-- The limit is below 2 ^ 31, so that the casts to `int` keep indices and capacities.
pub mod Slots
pub mod Grow
pub mod Contents
pub mod Insert
pub mod Iterate
pub mod Equality
pub mod Compress
pub mod Wire
pub mod Emplace
pub mod Refinement
use storm_net.Prelude.{
  ℕ, zero, suc, ◌+◌, ◌-◌, ◌*◌, ◌^◌, List, [], ◌∷◌, ◌++◌, Bool, true, false, ◌&&◌, ◌||◌, not,
  if◌then◌else◌, ◌==◌, ltb, leb, length, take, drop, set, replicate, Option, none, some,
}
use storm_net.Bits.{u64}
use storm_net.Result.{Result, ok, err, invalid_index, bad_alloc, does_not_return, ◌>>=◌}

pub record SparseList (T : Type 0) : Type 0 where
  pub slots : List (Option T)
  pub end_index : ℕ

-- `m_Values[index]`
abbrev pub at {ℓ} : {T : Type ℓ} → List (Option T) → ℕ → Option T
at [] index = none
at (slot ∷ slots) zero = slot
at (slot ∷ slots) (suc index) = at slots index

abbrev pub is_some {ℓ} : {T : Type ℓ} → Option T → Bool
is_some none = false
is_some (some t) = true

-- The doubling loop of `GrowToFit`: a capacity that has been doubled 64 times is 0 and stays 0.
pub double : ℕ → ℕ → ℕ → Result ℕ
double zero new_capacity logical_index = err does_not_return
double (suc fuel) new_capacity logical_index =
    let doubled = u64 (new_capacity * 2) in
    let rest = double fuel doubled logical_index in
    if leb doubled logical_index then rest else ok doubled

-- The loop of `RemoveAt` that looks for the highest valid slot.
pub shrink {ℓ} : {T : Type ℓ} → List (Option T) → ℕ → ℕ
shrink slots zero = zero
shrink slots (suc highest) = elim (at slots highest) [
  | none ↦ shrink slots highest
  | some t ↦ suc highest
]

-- The loop of `Emplace` over the slots that are left.
pub find_free {ℓ} : {T : Type ℓ} → ℕ → List (Option T) → Option ℕ
find_free index [] = none
find_free index (slot ∷ slots) =
    let rest = find_free (index + 1) slots in if is_some slot then rest else some index

-- The loop of `Size` over the slots that are left.
pub count_valid {ℓ} : {T : Type ℓ} → List (Option T) → ℕ → ℕ
count_valid slots zero = 0
count_valid [] (suc n) = 0
count_valid (slot ∷ slots) (suc n) =
    let rest = count_valid slots n in if is_some slot then suc rest else rest

module _ {T : Type 0} where
  unfoldable pub new : SparseList T
  new = record { slots = []; end_index = 0 }

  pub capacity : SparseList T → ℕ
  capacity list = length list.slots

  -- `DestroyAllElementsAndInvalidate`
  abbrev pub invalidate_all : SparseList T → List (Option T)
  invalidate_all list = replicate list.end_index none ++ drop list.end_index list.slots

  unfoldable pub clear : SparseList T → SparseList T
  clear list = record { slots = invalidate_all list; end_index = 0 }

  unfoldable pub has_at : SparseList T → ℕ → Bool
  has_at list index =
      if list.end_index == 0
      then false
      else if leb list.end_index index
      then false
      else is_some (at list.slots index)

  unfoldable pub try_get : SparseList T → ℕ → Option T
  try_get list index =
      if list.end_index == 0
      then none
      else if leb list.end_index index
      then none
      else at list.slots index

  -- `operator []` and `GetAt`
  pub get_at : SparseList T → ℕ → Result T
  get_at list index =
      if list.end_index == 0
      then err invalid_index
      else if leb list.end_index index
      then err invalid_index
      else elim (at list.slots index) [ none ↦ err invalid_index | some t ↦ ok t ]

  unfoldable pub size : SparseList T → ℕ
  unfolding count_valid
  size list = count_valid list.slots list.end_index

  -- `Remove` is `RemoveAt` at the place of the iterator.
  unfoldable pub remove_at : ℕ → SparseList T → SparseList T
  unfolding shrink
  remove_at logical_index list =
      let slots = set list.slots logical_index none in
      if leb (length list.slots) logical_index
      then list
      else if is_some (at list.slots logical_index)
      then record { slots = slots; end_index = shrink slots list.end_index }
      else list

  module _ (limit : ℕ) where
    -- `Grow(requested_size)`, where the request is not below `end_index`.
    pub grow_to : ℕ → SparseList T → Result (SparseList T)
    grow_to requested_size list =
        if ltb limit requested_size
        then err bad_alloc
        else ok (record {
          slots =
              take list.end_index list.slots ++ replicate (requested_size - list.end_index) none;
          end_index = list.end_index;
        })

    -- `Grow()`
    pub grow : SparseList T → Result (SparseList T)
    unfolding grow_to
    grow list =
        if length list.slots == 0
        then grow_to 1 list
        else grow_to (u64 (length list.slots * 2)) list

    pub reserve : ℕ → SparseList T → Result (SparseList T)
    unfolding grow_to
    reserve new_size list =
        if ltb (length list.slots) new_size then grow_to new_size list else ok list

    pub grow_to_fit : ℕ → SparseList T → Result (SparseList T)
    unfolding grow_to double
    grow_to_fit logical_index list =
        if ltb logical_index (length list.slots)
        then ok list
        else if length list.slots == 0
        then grow_to (u64 (logical_index + 1)) list
        else double 64 (length list.slots) logical_index >>= λ new_capacity.
            grow_to new_capacity list

    pub insert_at : ℕ → T → SparseList T → Result (SparseList T)
    unfolding grow_to_fit
    insert_at logical_index val list = grow_to_fit logical_index list >>= λ grown. ok (record {
      slots = set grown.slots logical_index (some val);
      end_index =
          if (grown.end_index == 0) || ltb (grown.end_index - 1) logical_index
          then logical_index + 1
          else grown.end_index;
    })

    -- `EmplaceAt`, with the value that its arguments construct.
    unfoldable pub emplace_at : ℕ → T → SparseList T → Result (SparseList T)
    unfolding insert_at
    emplace_at logical_index val list = insert_at logical_index val list

    pub push_back : T → SparseList T → Result (SparseList T)
    unfolding grow
    push_back val list =
        (if list.end_index == length list.slots then grow list else ok list) >>= λ grown.
        ok (record {
          slots = set grown.slots grown.end_index (some val);
          end_index = grown.end_index + 1;
        })

    -- `EmplaceBack`, with the value that its arguments construct.
    pub emplace_back : T → SparseList T → Result (SparseList T)
    unfolding push_back
    emplace_back val list = push_back val list

    pub emplace : T → SparseList T → Result (ℕ × SparseList T)
    unfolding find_free emplace_at emplace_back
    emplace val list = elim (find_free 0 list.slots) [
      | some index ↦ emplace_at index val list >>= λ placed. ok (index, placed)
      | none ↦ emplace_back val list >>= λ placed. ok (placed.end_index - 1, placed)
    ]

    -- `Copy`: the array is kept when the other's elements fit into it.
    pub copy : SparseList T → SparseList T → Result (SparseList T)
    copy list rhs =
        let kept = not (ltb (length list.slots) rhs.end_index) in
        let new_capacity = if kept then length list.slots else length rhs.slots in
        if not kept && ltb limit new_capacity
        then err bad_alloc
        else ok (record {
          slots = take rhs.end_index rhs.slots ++ replicate (new_capacity - rhs.end_index) none;
          end_index = rhs.end_index;
        })

  -- `Move` and the move constructor: what the destination and the source then hold.
  pub move : SparseList T → SparseList T × SparseList T
  unfolding new
  move rhs = (rhs, new)
