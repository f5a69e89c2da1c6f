-- ===== src/SparseList/Slots.antt =====
-- The slots of a sparse list, one by one.
use storm_net.Prelude.{
  ℕ, zero, suc, ◌+◌, ◌≤◌, ◌<◌, ◌≡◌, refl, sym, ◌∙◌, subst, ℕ_discrete, List, [], ◌∷◌, ◌++◌, true,
  if◌then◌else◌, ◌==◌, ltb, length, take, drop, set, replicate, Option, none, some, arith,
  Option-cases, inl, inr,
}
use storm_net.SparseList.{at, is_some, shrink, find_free}

module _ {ℓ} {T : Type ℓ} where
  pub at-set :
      (xs : List (Option T)) (i j : ℕ) (v : Option T)
      → i < length xs
      → at (set xs i v) j ≡ (if i == j then v else at xs j)
  at-set [] i j v h = absurd (omega arith)
  at-set (x ∷ xs) zero zero v h = ground arith
  at-set (x ∷ xs) zero (suc j) v h = ground arith
  at-set (x ∷ xs) (suc i) zero v h = ground arith
  at-set (x ∷ xs) (suc i) (suc j) v h = ground (arith, at-set xs i j v (omega arith))

  pub at-beyond : (xs : List (Option T)) (i : ℕ) → length xs ≤ i → at xs i ≡ none
  at-beyond [] i h = refl
  at-beyond (x ∷ xs) zero h = absurd (omega arith)
  at-beyond (x ∷ xs) (suc i) h = at-beyond xs i (omega arith)

  pub at-inside : (xs : List (Option T)) (i : ℕ) (t : T) → at xs i ≡ some t → i < length xs
  at-inside [] i t e = cc
  at-inside (x ∷ xs) zero t e = omega arith
  at-inside (x ∷ xs) (suc i) t e = omega (arith, at-inside xs i t e)

  pub at-replicate : (n i : ℕ) → at {T = T} (replicate n none) i ≡ none
  at-replicate zero i = refl
  at-replicate (suc n) zero = refl
  at-replicate (suc n) (suc i) = at-replicate n i

  pub at-padded :
      (n m : ℕ) (xs : List (Option T)) (i : ℕ)
      → n ≤ length xs
      → at (take n xs ++ replicate m none) i ≡ (if ltb i n then at xs i else none)
  at-padded zero m xs i h = ground (arith, at-replicate m i)
  at-padded (suc n) m [] i h = absurd (omega arith)
  at-padded (suc n) m (x ∷ xs) zero h = ground arith
  at-padded (suc n) m (x ∷ xs) (suc i) h = ground (arith, at-padded n m xs i (omega arith))

  pub at-cleared :
      (n : ℕ) (xs : List (Option T)) (i : ℕ)
      → n ≤ length xs
      → at (replicate n none ++ drop n xs) i ≡ (if ltb i n then none else at xs i)
  at-cleared zero xs i h = ground arith
  at-cleared (suc n) [] i h = absurd (omega arith)
  at-cleared (suc n) (x ∷ xs) zero h = ground arith
  at-cleared (suc n) (x ∷ xs) (suc i) h = ground (arith, at-cleared n xs i (omega arith))

  -- The highest valid slot below a place.
  shrink-none : (xs : List (Option T)) (n : ℕ) → at xs n ≡ none → shrink xs (suc n) ≡ shrink xs n
  unfolding shrink
  shrink-none xs n e = rw (shrink, e)

  shrink-some :
      (xs : List (Option T)) (n : ℕ) (t : T) → at xs n ≡ some t → shrink xs (suc n) ≡ suc n
  unfolding shrink
  shrink-some xs n t e = rw (shrink, e)

  pub shrink-le : (xs : List (Option T)) (n : ℕ) → shrink xs n ≤ n
  unfolding shrink
  shrink-le xs zero = omega arith
  shrink-le xs (suc n) = elim (Option-cases (at xs n)) [
    | inl e ↦ omega (arith, shrink-none xs n e, shrink-le xs n)
    | inr (t, e) ↦ omega (arith, shrink-some xs n t e)
  ]

  pub shrink-above : (xs : List (Option T)) (n i : ℕ) → shrink xs n ≤ i → i < n → at xs i ≡ none
  shrink-above xs zero i h k = absurd (omega arith)
  shrink-above xs (suc n) i h k = elim (Option-cases (at xs n)) [
    | inr (t, e) ↦ absurd (omega (arith, shrink-some xs n t e))
    | inl e ↦ elim (ℕ_discrete i n) [
      | yes same ↦ rw same e
      | no other ↦ shrink-above xs n i (omega (arith, shrink-none xs n e)) (omega arith)
    ]
  ]

  pub shrink-highest :
      (xs : List (Option T)) (n k : ℕ) → shrink xs n ≡ suc k → (t : T) × (at xs k ≡ some t)
  unfolding shrink
  shrink-highest xs zero k e = ground arith
  shrink-highest xs (suc n) k e = elim (Option-cases (at xs n)) [
    | inl none_there ↦ shrink-highest xs n k (sym (shrink-none xs n none_there) ∙ e)
    | inr (t, there) ↦
        let same : n ≡ k = omega (arith, shrink-some xs n t there) in
        (t, subst (λ (m : ℕ). at xs m ≡ some t) same there)
  ]

  pub find_free-first :
      (xs : List (Option T)) (index k : ℕ)
      → find_free index xs ≡ some k
      → (j : ℕ) × (k ≡ index + j)
        × (j < length xs)
        × (at xs j ≡ none)
        × ((i : ℕ) → i < j → is_some (at xs i) ≡ true)
  unfolding find_free
  find_free-first [] index k e = cc
  find_free-first (none ∷ xs) index k e =
      (0, ground arith, omega arith, refl, λ i h. absurd (omega arith))
  find_free-first (some t ∷ xs) index k e =
      let (j, place, inside, free, before) = find_free-first xs (index + 1) k e in
      (suc j, omega arith, omega arith, free, valid_before t xs j before)
    where
      valid_before :
          (t : T) (xs : List (Option T)) (j : ℕ)
          → ((i : ℕ) → i < j → is_some (at xs i) ≡ true)
          → (i : ℕ) → i < suc j
          → is_some (at (some t ∷ xs) i) ≡ true
      valid_before t xs j before zero h = refl
      valid_before t xs j before (suc i) h = before i (omega arith)

  pub find_free-full :
      (xs : List (Option T)) (index : ℕ)
      → find_free index xs ≡ none
      → (i : ℕ) → i < length xs
      → is_some (at xs i) ≡ true
  unfolding find_free
  find_free-full [] index e i h = absurd (omega arith)
  find_free-full (none ∷ xs) index e i h = ground arith
  find_free-full (some t ∷ xs) index e zero h = refl
  find_free-full (some t ∷ xs) index e (suc i) h =
      find_free-full xs (index + 1) (ground arith) i (omega arith)
