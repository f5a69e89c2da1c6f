-- ===== src/ArrayList/Bounds.antt =====
-- No operation makes a list longer than its maximum, and none that adds an element works on a full one.
use storm_net.Prelude.{
  ℕ, zero, suc, ◌-◌, ◌≤◌, ◌≡◌, refl, ap, List, [], ◌∷◌, length, length-append, length-replicate,
  length-take_le, length-drop, take, drop, set, replicate, arith, dec_le,
}
use storm_net.Result.{Result, ok, err, list_overflow}
use storm_net.ArrayList.{
  insert_index, erase_index, resize_to, push_back, insert_at, emplace_at, insert, remove_at,
  erase_range, resize, clear,
}

module _ {T : Type 0} where
  pub length-insert_index :
      (i : ℕ) (t : T) (xs : List T) → length (insert_index i t xs) ≡ suc (length xs)
  unfolding insert_index
  length-insert_index zero t xs = refl
  length-insert_index (suc i) t [] = refl
  length-insert_index (suc i) t (x ∷ xs) = ap suc (length-insert_index i t xs)

  pub length-erase_index : (i : ℕ) (xs : List T) → length (erase_index i xs) ≤ length xs
  unfolding erase_index
  length-erase_index i [] = omega arith
  length-erase_index zero (x ∷ xs) = omega arith
  length-erase_index (suc i) (x ∷ xs) = omega (arith, length-erase_index i xs)

  pub length-set : (xs : List T) (i : ℕ) (t : T) → length (set xs i t) ≡ length xs
  length-set [] i t = refl
  length-set (x ∷ xs) zero t = refl
  length-set (x ∷ xs) (suc i) t = ap suc (length-set xs i t)

  length-take_all : (n : ℕ) (xs : List T) → length xs ≤ n → length (take n xs) ≡ length xs
  length-take_all zero [] h = refl
  length-take_all zero (x ∷ xs) h = absurd (omega arith)
  length-take_all (suc n) [] h = refl
  length-take_all (suc n) (x ∷ xs) h = ap suc (length-take_all n xs (omega arith))

  pub length-resize_to : (default : T) (n : ℕ) (xs : List T) → length (resize_to default n xs) ≡ n
  unfolding resize_to
  length-resize_to default n xs = elim (dec_le n (length xs)) [
    | yes h ↦ omega (
      arith,
      length-append (take n xs) (replicate (n - length xs) default),
      length-replicate (n - length xs) default,
      length-take_le n xs (omega arith),
    )
    | no h ↦ omega (
      arith,
      length-append (take n xs) (replicate (n - length xs) default),
      length-replicate (n - length xs) default,
      length-take_all n xs (omega arith),
    )
  ]

-- The operations that change a list.
pub data ListOp (T : Type 0) : Type 0 where
  pushes : T → ListOp T
  inserts_at emplaces_at inserts : ℕ → T → ListOp T
  removes_at : ℕ → ListOp T
  erases : ℕ → ℕ → ListOp T
  resizes : T → ℕ → ListOp T
  clears : ListOp T

unfoldable pub apply : {T : Type 0} → ℕ → ListOp T → List T → Result (List T)
unfolding push_back insert_at emplace_at insert remove_at erase_range resize clear
apply max_size (pushes t) xs = push_back max_size t xs
apply max_size (inserts_at i t) xs = insert_at max_size t i xs
apply max_size (emplaces_at i t) xs = emplace_at max_size i t xs
apply max_size (inserts i t) xs = insert max_size i t xs
apply max_size (removes_at i) xs = remove_at max_size i xs
apply max_size (erases i j) xs = erase_range max_size i j xs
apply max_size (resizes t n) xs = resize max_size t n xs
apply max_size clears xs = ok (clear max_size xs)

-- A list within its maximum is within it after every operation that returns.
pub apply-le :
    {T : Type 0} (max_size : ℕ) (op : ListOp T) (xs ys : List T)
    → length xs ≤ max_size
    → apply max_size op xs ≡ ok ys
    → length ys ≤ max_size
unfolding apply
apply-le max_size (pushes t) xs ys h e = ground (arith, length-append xs (t ∷ []))
apply-le max_size (inserts_at i t) xs ys h e =
    ground (arith, length-append xs (t ∷ []), length-insert_index i t xs)
apply-le max_size (emplaces_at i t) xs ys h e =
    ground (arith, length-append xs (t ∷ []), length-set xs i t)
apply-le max_size (inserts i t) xs ys h e = ground (arith, length-insert_index i t xs)
apply-le max_size (removes_at i) xs ys h e = ground (arith, length-erase_index i xs)
apply-le max_size (erases i j) xs ys h e =
    ground (arith, length-append (take i xs) (drop j xs), length-take_le i xs, length-drop j xs)
apply-le max_size (resizes t n) xs ys h e = ground (arith, length-resize_to t n xs)
apply-le max_size clears xs ys h e = ground arith

-- The operations that add an element throw on a full list, whatever the index.
pub full-overflows :
    {T : Type 0} (max_size i : ℕ) (t : T) (xs : List T)
    → length xs ≡ max_size
    → (apply max_size (pushes t) xs ≡ err list_overflow)
      × (apply max_size (inserts_at i t) xs ≡ err list_overflow)
      × (apply max_size (emplaces_at i t) xs ≡ err list_overflow)
      × (apply max_size (inserts i t) xs ≡ err list_overflow)
unfolding apply
full-overflows max_size i t xs e = ground arith
