-- ===== src/ArrayList/Edit.antt =====
-- What insertion puts where, and that removal undoes it.
use storm_net.Prelude.{
  ℕ, zero, suc, ◌≤◌, ◌<◌, ◌≡◌, refl, ap, List, [], ◌∷◌, ◌++◌, length, set, get_elem?, some,
  Bool-cases, inl, inr, leb, ltb, ◌==◌, arith, true, false,
}
use storm_net.Result.{ok}
use storm_net.ArrayList.{insert_index, erase_index, insert_at, emplace_at, remove_at}
use storm_net.ArrayList.Bounds.{length-insert_index, length-set}

module _ {T : Type 0} where
  insert_index-last : (t : T) (xs : List T) → insert_index (length xs) t xs ≡ xs ++ t ∷ []
  unfolding insert_index
  insert_index-last t [] = refl
  insert_index-last t (x ∷ xs) = ap (λ (l : List T). x ∷ l) (insert_index-last t xs)

  erase_index-insert_index :
      (i : ℕ) (t : T) (xs : List T) → i ≤ length xs → erase_index i (insert_index i t xs) ≡ xs
  unfolding insert_index erase_index
  erase_index-insert_index zero t xs h = refl
  erase_index-insert_index (suc i) t [] h = absurd (omega arith)
  erase_index-insert_index (suc i) t (x ∷ xs) h =
      ap (λ (l : List T). x ∷ l) (erase_index-insert_index i t xs (omega arith))

  get_elem?-insert_index :
      (i : ℕ) (t : T) (xs : List T) → i ≤ length xs → get_elem? (insert_index i t xs) i ≡ some t
  unfolding insert_index
  get_elem?-insert_index zero t xs h = refl
  get_elem?-insert_index (suc i) t [] h = absurd (omega arith)
  get_elem?-insert_index (suc i) t (x ∷ xs) h = get_elem?-insert_index i t xs (omega arith)

  pub get_elem?-set :
      (i : ℕ) (t : T) (xs : List T) → i < length xs → get_elem? (set xs i t) i ≡ some t
  get_elem?-set i t [] h = absurd (omega arith)
  get_elem?-set zero t (x ∷ xs) h = refl
  get_elem?-set (suc i) t (x ∷ xs) h = get_elem?-set i t xs (omega arith)

  inserted :
      (max_size i : ℕ) (t : T) (xs : List T)
      → length xs < max_size
      → i ≤ length xs
      → insert_at max_size t i xs ≡ ok (insert_index i t xs)
  unfolding insert_at
  inserted max_size i t xs room h =
      let free : leb max_size (length xs) ≡ false = ground arith in
      let inside : ltb (length xs) i ≡ false = ground arith in
      elim (Bool-cases (i == length xs)) [
        | inl last ↦
            let same : i ≡ length xs = ground arith in
            rw (free, last, same, insert_index-last t xs) refl
        | inr before ↦ rw (free, before, inside)
      ]

-- In a list with room, `InsertAt` before the list's end puts the element at its index, and `RemoveAt`
-- of the index gives the list back. `EmplaceAt` inside the list puts it there too, but in place of
-- the element that the list had: the length stays as it was.
pub insert_at-remove_at :
    {T : Type 0} (max_size i : ℕ) (t : T) (xs : List T)
    → length xs < max_size
    → i < length xs
    → (ys : List T) × (insert_at max_size t i xs ≡ ok ys)
      × (get_elem? ys i ≡ some t)
      × (length ys ≡ suc (length xs))
      × (remove_at max_size i ys ≡ ok xs)
      × (zs : List T) × (emplace_at max_size i t xs ≡ ok zs)
      × (get_elem? zs i ≡ some t)
      × (length zs ≡ length xs)
unfolding remove_at emplace_at
insert_at-remove_at max_size i t xs room h =
    let longer = length-insert_index i t xs in
    let there : ltb i (length (insert_index i t xs)) ≡ true = ground (arith, longer) in
    let free : leb max_size (length xs) ≡ false = ground arith in
    let inside : ltb (length xs) i ≡ false = ground arith in
    let before : (i == length xs) ≡ false = ground arith in
    (
      insert_index i t xs,
      inserted max_size i t xs room (omega arith),
      get_elem?-insert_index i t xs (omega arith),
      longer,
      rw there (ap (λ (l : List _). ok l) (erase_index-insert_index i t xs (omega arith))),
      set xs i t,
      rw (free, before, inside),
      get_elem?-set i t xs h,
      length-set xs i t,
    )
