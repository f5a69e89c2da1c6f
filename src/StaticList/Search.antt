-- ===== src/StaticList/Search.antt =====
-- What the two searches find.
use storm_net.Prelude.{
  ℕ, zero, suc, ◌+◌, ◌-◌, ◌≤◌, ◌≡◌, refl, List, [], ◌∷◌, Bool, true, false, if◌then◌else◌, ◌==◌,
  ltb, subst, Bool-cases, inl, inr, length, get_elem?, take, some, arith,
}
use storm_net.Result.{ok, err, not_in_list}
use storm_net.StaticList.{to_element, assign_loop, assign, set_loop, set_to, value}

assign_loop-finds :
    (k index remaining last : ℕ)
    → index ≤ k
    → index + remaining ≡ last
    → assign_loop (to_element k) index remaining ≡ (if ltb k last then ok k else err not_in_list)
unfolding assign_loop
assign_loop-finds k index zero last h sum = ground arith
assign_loop-finds k index (suc remaining) last h sum = elim (Bool-cases (k == index)) [
  | inl here ↦
      let same : index ≡ k = ground arith in
      let inside : ltb k last ≡ true = ground arith in rw (here, inside, same)
  | inr later ↦
      rw (later, assign_loop-finds k (index + 1) remaining last (ground arith) (omega arith))
]

-- Whether an element matches.
abbrev pub any : {D : Type 0} → (D → Bool) → List D → Bool
any matches [] = false
any matches (elem ∷ elems) = if matches elem then true else any matches elems

module _ {D : Type 0} (matches : D → Bool) where
  set_loop-first :
      (index : ℕ) (list : List D) (found : ℕ)
      → set_loop matches index list ≡ ok found
      → (index ≤ found)
        × ((elem : D) × (get_elem? list (found - index) ≡ some elem) × (matches elem ≡ true))
        × (any matches (take (found - index) list) ≡ false)
  unfolding set_loop
  set_loop-first index [] found e = cc
  set_loop-first index (x ∷ xs) found e = elim (Bool-cases (matches x)) [
    | inl here ↦
        let same : index ≡ found = ground arith in
        let start : found - index ≡ zero = omega arith in
        (omega arith, (x, rw start refl, here), rw start refl)
    | inr not_here ↦
        let later : set_loop matches (index + 1) xs ≡ ok found = ground arith in
        let (above, (elem, at, hit), before) = set_loop-first (index + 1) xs found later in
        let shift : found - index ≡ suc (found - (index + 1)) = omega arith in
        (omega arith, (elem, rw shift at, hit), rw (shift, not_here) before)
  ]

-- When `SetTo` returns, it has picked the first element that is equal to its argument, and the
-- pointer then leads to it.
pub set_to-first :
    {D : Type 0} (matches : D → Bool) (list : List D) (found : ℕ)
    → set_to matches list ≡ ok found
    → ((elem : D) × (value list found ≡ ok elem) × (matches elem ≡ true))
      × (any matches (take found list) ≡ false)
unfolding set_to value
set_to-first matches list found e =
    let (above, (elem, at, hit), before) = set_loop-first matches 0 list found e in
    let whole : found - 0 ≡ found = omega arith in
    let here : get_elem? list found ≡ some elem =
      subst (λ (t : ℕ). get_elem? list t ≡ some elem) whole at in
    (
      (elem, rw (here, value), hit),
      subst (λ (t : ℕ). any matches (take t list) ≡ false) whole before,
    )

-- A pointer into the list is assigned as its index, and any other throws.
pub assign-to_element :
    {D : Type 0} (list : List D) (k : ℕ)
    → (assign list (to_element k) ≡ (if ltb k (length list) then ok k else err not_in_list))
unfolding assign
assign-to_element list k =
    assign_loop-finds k 0 (length list) (length list) (omega arith) (omega arith)
