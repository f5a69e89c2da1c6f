-- ===== src/Map.antt =====
-- NetReflectionMap.h: a map is the list of its keys and values, which `std::map` keeps in the order
-- of the keys. Keys are unsigned.
pub mod Order
pub mod Operations
pub mod Equality
pub mod Wire
use storm_net.Prelude.{
  ℕ, zero, suc, ◌+◌, ◌≤◌, ◌<◌, List, [], ◌∷◌, ◌++◌, Bool, true, false, ◌&&◌, ltb, leb, ◌==◌,
  if◌then◌else◌, length, Option, none, some,
}
use storm_net.Result.{Result, ok, err, map_overflow}

module _ {T : Type 0} where
  -- `std::map::find`, and `Get`
  unfoldable pub get : ℕ → List (ℕ × T) → Option T
  get k [] = none
  get k (entry ∷ entries) =
      let rest = get k entries in if k == entry.0 then some (entry.1) else rest

  -- `std::map::insert_or_assign`
  unfoldable pub insert_or_assign : ℕ → T → List (ℕ × T) → List (ℕ × T)
  insert_or_assign k t [] = (k, t) ∷ []
  insert_or_assign k t (entry ∷ entries) =
      let rest = entry ∷ insert_or_assign k t entries in
      if k == entry.0
      then (k, t) ∷ entries
      else (if ltb k entry.0 then (k, t) ∷ entry ∷ entries else rest)

  -- `std::map::try_emplace`, and `EmplaceAt`: a value that is there stays.
  unfoldable pub emplace_at : ℕ → T → List (ℕ × T) → List (ℕ × T)
  emplace_at k t [] = (k, t) ∷ []
  emplace_at k t (entry ∷ entries) =
      let rest = entry ∷ emplace_at k t entries in
      if k == entry.0
      then entry ∷ entries
      else (if ltb k entry.0 then (k, t) ∷ entry ∷ entries else rest)

  -- `Remove`
  unfoldable pub remove : ℕ → List (ℕ × T) → List (ℕ × T)
  remove k [] = []
  remove k (entry ∷ entries) =
      let rest = entry ∷ remove k entries in if k == entry.0 then entries else rest

  -- `Set`: a full map throws, also when the key is there.
  unfoldable pub set_at : ℕ → ℕ → T → List (ℕ × T) → Result (List (ℕ × T))
  unfolding insert_or_assign
  set_at max_size k t entries =
      if leb max_size (length entries) then err map_overflow else ok (insert_or_assign k t entries)

  pub clear : List (ℕ × T) → List (ℕ × T)
  clear entries = []

  -- The loop of `operator ==`, over maps of one size.
  unfoldable pub same_entries : (T → T → Bool) → List (ℕ × T) → List (ℕ × T) → Bool
  same_entries eq [] others = true
  same_entries eq (entry ∷ entries) [] = false
  same_entries eq (entry ∷ entries) (other ∷ others) =
      let rest = same_entries eq entries others in
      if (other.0 == entry.0) && eq other.1 entry.1 then rest else false

  unfoldable pub map_eq : (T → T → Bool) → List (ℕ × T) → List (ℕ × T) → Bool
  unfolding same_entries
  map_eq eq entries others =
      if length others == length entries then same_entries eq entries others else false
