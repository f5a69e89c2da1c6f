-- ===== src/Map/Equality.antt =====
-- `operator ==` of maps compares the partial functions that they stand for.
use storm_net.Prelude.{
  ℕ, suc, ◌<◌, ◌≡◌, ◌↔◌, refl, sym, ap, ◌∙◌, subst, List, [], ◌∷◌, true, false, Bool, Bool-cases,
  inl, inr, ◌==◌, length, none, arith,
}
use storm_net.Map.{get, same_entries, map_eq}
use storm_net.Map.Order.{Ascending, here, before, behind, place, get-head, get-tail, get-below}

module _ {T : Type 0} where
  get-nil : (k : ℕ) → get {T = T} k [] ≡ none
  unfolding get
  get-nil k = refl

  -- The first key of either map is that of the other, when both hold the same.
  first-same :
      (low low' k j : ℕ) (t u : T) (xs ys : List (ℕ × T))
      → Ascending low ((k, t) ∷ xs)
      → Ascending low' ((j, u) ∷ ys)
      → ((i : ℕ) → get i ((k, t) ∷ xs) ≡ get i ((j, u) ∷ ys))
      → k ≡ j
  first-same low low' k j t u xs ys a b same = elim (place k j) [
    | here e k-is ↦ k-is
    | before other below lt ↦
        let found = sym (get-head k t xs) ∙ same k in
        let nothing = get-tail k j u ys other ∙ get-below k (suc j) ys b.1 (omega arith) in
        absurd cc
    | behind other above lt ↦
        let apart : (j == k) ≡ false = ground arith in
        let found = sym (get-head j u ys) ∙ sym (same j) in
        let nothing = get-tail j k t xs apart ∙ get-below j (suc k) xs a.1 (omega arith) in
        absurd cc
  ]

  -- Behind a first key that both have, both hold the same.
  others-same :
      (k : ℕ) (t u : T) (xs ys : List (ℕ × T))
      → Ascending (suc k) xs
      → Ascending (suc k) ys
      → ((i : ℕ) → get i ((k, t) ∷ xs) ≡ get i ((k, u) ∷ ys))
      → (i : ℕ) → get i xs ≡ get i ys
  others-same k t u xs ys a b same i = elim (Bool-cases (i == k)) [
    | inl e ↦
        let low : i < suc k = ground arith in
        get-below i (suc k) xs a low ∙ sym (get-below i (suc k) ys b low)
    | inr other ↦ sym (get-tail i k t xs other) ∙ same i ∙ get-tail i k u ys other
  ]

  -- Maps that hold the same are the same list.
  pub get-ext :
      (low low' : ℕ) (xs ys : List (ℕ × T))
      → Ascending low xs
      → Ascending low' ys
      → ((i : ℕ) → get i xs ≡ get i ys)
      → xs ≡ ys
  get-ext low low' [] [] a b same = refl
  get-ext low low' [] ((j, u) ∷ ys) a b same =
      let found = get-head j u ys in let e = same j in let nothing = get-nil j in absurd cc
  get-ext low low' ((k, t) ∷ xs) [] a b same =
      let found = get-head k t xs in let e = same k in let nothing = get-nil k in absurd cc
  get-ext low low' ((k, t) ∷ xs) ((j, u) ∷ ys) a b same =
      let keys = first-same low low' k j t u xs ys a b same in
      let b' = subst (λ (i : ℕ). Ascending (suc i) ys) (sym keys) b.1 in
      let same' : (i : ℕ) → get i ((k, t) ∷ xs) ≡ get i ((k, u) ∷ ys) =
        λ i. same i ∙ ap (λ (m : ℕ). get i ((m, u) ∷ ys)) (sym keys) in
      let rest = get-ext (suc k) (suc k) xs ys a.1 b' (others-same k t u xs ys a.1 b' same') in
      let values : t ≡ u = let p = sym (get-head k t xs) ∙ same' k ∙ get-head k u ys in cc in
      rw (keys, values, rest) refl

  module _ (eq : T → T → Bool) (decides : (x y : T) → (eq x y ≡ true) ↔ (x ≡ y)) where
    same_entries_refl : (xs : List (ℕ × T)) → same_entries eq xs xs ≡ true
    unfolding same_entries
    same_entries_refl [] = refl
    same_entries_refl ((k, t) ∷ xs) =
        let keys : (k == k) ≡ true = ground arith in
        rw (keys, (decides t t).1 refl, same_entries_refl xs) refl

    same_entries_sound :
        (xs ys : List (ℕ × T))
        → (length ys == length xs) ≡ true
        → same_entries eq xs ys ≡ true
        → xs ≡ ys
    unfolding same_entries
    same_entries_sound [] [] sizes e = refl
    same_entries_sound [] (y ∷ ys) sizes e = absurd (ground arith)
    same_entries_sound (x ∷ xs) [] sizes e = absurd (ground arith)
    same_entries_sound ((k, t) ∷ xs) ((j, u) ∷ ys) sizes e = elim (Bool-cases (j == k)) [
      | inl keys ↦ elim (Bool-cases (eq u t)) [
        | inl values ↦
            let rest = same_entries_sound xs ys (ground arith) (rw (keys, values) at e) in
            let keys' : j ≡ k = ground arith in
            let values' : u ≡ t = (decides u t).0 values in rw (keys', values', rest) refl
        | inr other ↦ absurd (let no = rw (keys, other) at e in cc)
      ]
      | inr other ↦ absurd (let no = rw other at e in cc)
    ]

-- `operator ==` of two maps whose keys ascend is true just when each key holds the same in both, for
-- values whose own operator decides whether they are equal.
pub map_eq-get :
    {T : Type 0} (eq : T → T → Bool) (xs ys : List (ℕ × T))
    → ((x y : T) → (eq x y ≡ true) ↔ (x ≡ y))
    → Ascending 0 xs
    → Ascending 0 ys
    → (map_eq eq xs ys ≡ true) ↔ ((k : ℕ) → get k xs ≡ get k ys)
unfolding map_eq
map_eq-get {T = T} eq xs ys decides a b = (
  λ e. elim (Bool-cases (length ys == length xs)) [
    | inl sizes ↦
        let same = same_entries_sound eq decides xs ys sizes (rw sizes at e) in λ k. ap (get k) same
    | inr other ↦ absurd (let no = rw other at e in cc)
  ],
  λ same.
      let sizes : (length xs == length xs) ≡ true = ground arith in
      subst (λ (zs : List (ℕ × T)). map_eq eq xs zs ≡ true) (get-ext 0 0 xs ys a b same)
        (rw sizes (same_entries_refl eq decides xs)),
)
