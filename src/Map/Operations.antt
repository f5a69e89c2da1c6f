-- ===== src/Map/Operations.antt =====
-- Each operation of a map keeps its order, and changes the partial function that it stands for.
use storm_net.Prelude.{
  ℕ, suc, ◌≤◌, ◌≡◌, refl, sym, subst, List, [], ◌∷◌, true, false, Bool, Bool-cases, inl, inr, leb,
  ◌==◌, if◌then◌else◌, length, Option, none, some, arith,
}
use storm_net.Result.{Result, ok, err, map_overflow}
use storm_net.Map.{get, insert_or_assign, emplace_at, remove, set_at, clear}
use storm_net.Map.Order.{Ascending, here, before, behind, place, get-below, Ascending-weaken}

pub data Operation (T : Type 0) : Type 0 where
  setting : ℕ → T → Operation T
  emplacing : ℕ → T → Operation T
  removing : ℕ → Operation T
  clearing : Operation T

unfoldable pub apply : {T : Type 0} → ℕ → Operation T → List (ℕ × T) → Result (List (ℕ × T))
apply max_size (setting k t) entries = set_at max_size k t entries
apply max_size (emplacing k t) entries = ok (emplace_at k t entries)
apply max_size (removing k) entries = ok (remove k entries)
apply max_size clearing entries = ok (clear entries)

-- Only `Set` throws, on a full map.
abbrev pub refused : {T : Type 0} → ℕ → Operation T → ℕ → Bool
refused max_size (setting k t) size = leb max_size size
refused max_size (emplacing k t) size = false
refused max_size (removing k) size = false
refused max_size clearing size = false

abbrev or_else : {T : Type 0} → Option T → T → Option T
or_else none t = some t
or_else (some held) t = some held

-- What a key holds after an operation.
abbrev pub after : {T : Type 0} → Operation T → (ℕ → Option T) → ℕ → Option T
after (setting k t) held j = if j == k then some t else held j
after (emplacing k t) held j = if j == k then or_else (held j) t else held j
after (removing k) held j = if j == k then none else held j
after clearing held j = none

module _ {T : Type 0} where
  insert_or_assign-Ascending :
      (k : ℕ) (t : T) (low : ℕ) (entries : List (ℕ × T))
      → low ≤ k
      → Ascending low entries
      → Ascending low (insert_or_assign k t entries)
  unfolding insert_or_assign
  insert_or_assign-Ascending k t low [] h a = (h, tt)
  insert_or_assign-Ascending k t low (entry ∷ entries) h a = elim (place k entry.0) [
    | here same e ↦ rw same (h, subst (λ (j : ℕ). Ascending (suc j) entries) (sym e) a.1)
    | before other below lt ↦ rw (other, below) (h, (lt, a.1))
    | behind other above lt ↦
        rw (other, above) (a.0, insert_or_assign-Ascending k t (suc (entry.0)) entries lt a.1)
  ]

  emplace_at-Ascending :
      (k : ℕ) (t : T) (low : ℕ) (entries : List (ℕ × T))
      → low ≤ k
      → Ascending low entries
      → Ascending low (emplace_at k t entries)
  unfolding emplace_at
  emplace_at-Ascending k t low [] h a = (h, tt)
  emplace_at-Ascending k t low (entry ∷ entries) h a = elim (place k entry.0) [
    | here same e ↦ rw same a
    | before other below lt ↦ rw (other, below) (h, (lt, a.1))
    | behind other above lt ↦
        rw (other, above) (a.0, emplace_at-Ascending k t (suc (entry.0)) entries lt a.1)
  ]

  remove-Ascending :
      (k low : ℕ) (entries : List (ℕ × T))
      → Ascending low entries
      → Ascending low (remove k entries)
  unfolding remove
  remove-Ascending k low [] a = tt
  remove-Ascending k low (entry ∷ entries) a = elim (place k entry.0) [
    | here same e ↦ rw same (Ascending-weaken low (suc (entry.0)) entries (omega (arith, a.0)) a.1)
    | before other below lt ↦ rw other (a.0, remove-Ascending k (suc (entry.0)) entries a.1)
    | behind other above lt ↦ rw other (a.0, remove-Ascending k (suc (entry.0)) entries a.1)
  ]

  get-insert_or_assign :
      (k : ℕ) (t : T) (j : ℕ) (entries : List (ℕ × T))
      → get j (insert_or_assign k t entries) ≡ (if j == k then some t else get j entries)
  unfolding get insert_or_assign
  get-insert_or_assign k t j [] = refl
  get-insert_or_assign k t j (entry ∷ entries) = elim (place k entry.0) [
    | here same e ↦ rw same (elim (Bool-cases (j == k)) [
      | inl held ↦ rw held refl
      | inr other ↦ let apart : (j == entry.0) ≡ false = ground arith in rw (other, apart) refl
    ])
    | before other below lt ↦ rw (other, below) refl
    | behind other above lt ↦
        rw (other, above, get-insert_or_assign k t j entries)
          (elim (Bool-cases (j == entry.0)) [
            | inl held ↦ let apart : (j == k) ≡ false = ground arith in rw (held, apart) refl
            | inr apart ↦ rw apart refl
          ])
  ]

  get-emplace_at :
      (k : ℕ) (t : T) (j low : ℕ) (entries : List (ℕ × T))
      → Ascending low entries
      → get j (emplace_at k t entries)
        ≡ (if j == k then or_else (get j entries) t else get j entries)
  unfolding get emplace_at
  get-emplace_at k t j low [] a = refl
  get-emplace_at k t j low (entry ∷ entries) a = elim (place k entry.0) [
    | here same e ↦ rw same (elim (Bool-cases (j == k)) [
      | inl held ↦ let held' : (j == entry.0) ≡ true = ground arith in rw (held, held') refl
      | inr other ↦ rw other refl
    ])
    | before other below lt ↦
        rw (other, below)
          (elim (Bool-cases (j == k)) [
            | inl held ↦
                let apart : (j == entry.0) ≡ false = ground arith in
                let nothing : get j entries ≡ none =
                  get-below j (suc (entry.0)) entries a.1 (ground arith) in
                rw (held, apart, nothing) refl
            | inr apart ↦ rw apart refl
          ])
    | behind other above lt ↦
        rw (other, above, get-emplace_at k t j (suc (entry.0)) entries a.1)
          (elim (Bool-cases (j == entry.0)) [
            | inl held ↦ let apart : (j == k) ≡ false = ground arith in rw (held, apart) refl
            | inr apart ↦ rw apart refl
          ])
  ]

  get-remove :
      (k j low : ℕ) (entries : List (ℕ × T))
      → Ascending low entries
      → get j (remove k entries) ≡ (if j == k then none else get j entries)
  unfolding get remove
  get-remove k j low [] a = elim (Bool-cases (j == k)) [
    | inl held ↦ rw held refl
    | inr other ↦ rw other refl
  ]
  get-remove k j low (entry ∷ entries) a = elim (Bool-cases (k == entry.0)) [
    | inl same ↦ rw same (elim (Bool-cases (j == k)) [
      | inl held ↦ rw held (get-below j (suc (entry.0)) entries a.1 (ground arith))
      | inr other ↦ let apart : (j == entry.0) ≡ false = ground arith in rw (other, apart) refl
    ])
    | inr differ ↦
        rw (differ, get-remove k j (suc (entry.0)) entries a.1)
          (elim (Bool-cases (j == entry.0)) [
            | inl held ↦ let apart : (j == k) ≡ false = ground arith in rw (held, apart) refl
            | inr apart ↦ rw apart refl
          ])
  ]

-- Each operation of a map whose keys ascend either throws, which is a `Set` on a map of the maximal
-- size or more and nothing else, or it leaves a map whose keys ascend and in which every key holds
-- what it held before, but for the one that the operation is about: `Set` gives that the new value,
-- `EmplaceAt` only when it held none, `Remove` takes it away, and `Clear` takes all.
pub apply-after :
    {T : Type 0} (max_size : ℕ) (op : Operation T) (entries : List (ℕ × T))
    → Ascending 0 entries
    → (entries' : List (ℕ × T)) × (apply max_size op entries
        ≡ (if refused max_size op (length entries) then err map_overflow else ok entries'))
      × Ascending 0 entries'
      × ((j : ℕ) → get j entries' ≡ after op (λ k. get k entries) j)
unfolding apply set_at clear
apply-after max_size (setting k t) entries a = (
  insert_or_assign k t entries,
  refl,
  insert_or_assign-Ascending k t 0 entries (omega arith) a,
  λ j. get-insert_or_assign k t j entries,
)
apply-after max_size (emplacing k t) entries a = (
  emplace_at k t entries,
  refl,
  emplace_at-Ascending k t 0 entries (omega arith) a,
  λ j. get-emplace_at k t j 0 entries a,
)
apply-after max_size (removing k) entries a =
    (remove k entries, refl, remove-Ascending k 0 entries a, λ j. get-remove k j 0 entries a)
apply-after max_size clearing entries a = ([], refl, tt, λ j. unfold get in refl)
