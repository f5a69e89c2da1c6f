-- ===== src/Map/Order.antt =====
-- Maps in the order of their keys, as partial functions.
use storm_net.Prelude.{
  ℕ, suc, ◌≤◌, ◌<◌, ◌≡◌, refl, List, [], ◌∷◌, true, false, Bool-cases, inl, inr, ltb, ◌==◌, none,
  some, arith,
}
use storm_net.Map.{get}

-- Every key is at least the bound, and above the one before it.
abbrev pub Ascending : {T : Type 0} → ℕ → List (ℕ × T) → Type 0
Ascending low [] = Unit
Ascending low (entry ∷ entries) = (low ≤ entry.0) × Ascending (suc entry.0) entries

-- Where a key stands to another.
pub data Place (k j : ℕ) : Type 0 where
  here : (k == j) ≡ true → k ≡ j → Place k j
  before : (k == j) ≡ false → ltb k j ≡ true → k < j → Place k j
  behind : (k == j) ≡ false → ltb k j ≡ false → j < k → Place k j

pub place : (k j : ℕ) → Place k j
place k j = elim (Bool-cases (k == j)) [
  | inl same ↦ here same (ground arith)
  | inr other ↦ elim (Bool-cases (ltb k j)) [
    | inl below ↦ before other below (ground arith)
    | inr above ↦ behind other above (ground arith)
  ]
]

module _ {T : Type 0} where
  pub get-head : (k : ℕ) (t : T) (entries : List (ℕ × T)) → get k ((k, t) ∷ entries) ≡ some t
  unfolding get
  get-head k t entries = let same : (k == k) ≡ true = ground arith in rw same refl

  pub get-tail :
      (k j : ℕ) (t : T) (entries : List (ℕ × T))
      → (k == j) ≡ false
      → get k ((j, t) ∷ entries) ≡ get k entries
  unfolding get
  get-tail k j t entries other = rw other refl

  pub Ascending-weaken :
      (low low' : ℕ) (entries : List (ℕ × T))
      → low ≤ low'
      → Ascending low' entries
      → Ascending low entries
  Ascending-weaken low low' [] h a = tt
  Ascending-weaken low low' (entry ∷ entries) h a = (omega (arith, a.0), a.1)

  -- Below the bound there is nothing.
  pub get-below :
      (k low : ℕ) (entries : List (ℕ × T)) → Ascending low entries → k < low → get k entries ≡ none
  unfolding get
  get-below k low [] a h = refl
  get-below k low (entry ∷ entries) a h =
      let other : (k == entry.0) ≡ false = ground (arith, a.0) in
      rw other (get-below k (suc (entry.0)) entries a.1 (omega (arith, a.0)))
