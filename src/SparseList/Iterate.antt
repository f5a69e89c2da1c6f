-- ===== src/SparseList/Iterate.antt =====
-- NetReflectionSparseList.h: iterators, and what loops over them see. An iterator is the index that
-- it holds; one whose slot has no value must not be read.
use storm_net.Prelude.{
  ℕ, zero, suc, ◌+◌, ◌-◌, ◌≤◌, ◌<◌, ◌≡◌, refl, sym, ap, ◌∙◌, List, [], ◌∷◌, true, false,
  if◌then◌else◌, ◌==◌, Option-cases, inl, inr, length, Option, none, some, arith,
}
use storm_net.Result.{Result, ok, err, undefined_behaviour, does_not_return, ◌>>=◌}
use storm_net.SparseList.{SparseList, at, size, count_valid}

-- The loop of `begin` and of `operator ++` over the slots that are left.
unfoldable pub skip {ℓ} : {T : Type ℓ} → List (Option T) → ℕ → ℕ → ℕ
skip slots zero index = index
skip slots (suc remaining) index = elim (at slots index) [
  | some t ↦ index
  | none ↦ skip slots remaining (index + 1)
]

module _ {T : Type 0} where
  unfoldable pub begin : SparseList T → ℕ
  unfolding skip
  begin list = skip list.slots list.end_index 0

  -- `operator ++`
  unfoldable pub next : SparseList T → ℕ → ℕ
  unfolding skip
  next list index = skip list.slots (list.end_index - (index + 1)) (index + 1)

  -- `operator *`
  unfoldable pub read : SparseList T → ℕ → Result (ℕ × T)
  read list index = elim (at list.slots index) [
    | none ↦ err undefined_behaviour
    | some t ↦ ok (index, t)
  ]

  -- `for (auto elem : list)`, with the pairs that it sees; the fuel counts the comparisons with `end()`.
  pub each_from : SparseList T → ℕ → ℕ → Result (List (ℕ × T))
  unfolding next read
  each_from list zero itr = err does_not_return
  each_from list (suc fuel) itr =
      if itr == list.end_index
      then ok []
      else let rest = each_from list fuel (next list itr) in
        read list itr >>= λ pair. rest >>= λ pairs. ok (pair ∷ pairs)

  unfoldable pub each : SparseList T → Result (List (ℕ × T))
  unfolding each_from begin
  each list = each_from list (list.end_index + 1) (begin list)

  -- The valid slots among `n` from an index on, in order.
  abbrev pub entries : List (Option T) → ℕ → ℕ → List (ℕ × T)
  entries slots index zero = []
  entries slots index (suc n) = elim (at slots index) [
    | none ↦ entries slots (index + 1) n
    | some t ↦ (index, t) ∷ entries slots (index + 1) n
  ]

  pub skip-none :
      (slots : List (Option T)) (n i : ℕ)
      → at slots i ≡ none
      → skip slots (suc n) i ≡ skip slots n (i + 1)
  unfolding skip
  skip-none slots n i e = rw (skip, e)

  pub skip-some :
      (slots : List (Option T)) (n i : ℕ) (t : T) → at slots i ≡ some t → skip slots n i ≡ i
  unfolding skip
  skip-some slots zero i t e = refl
  skip-some slots (suc n) i t e = rw (skip, e)

  pub read-value :
      (list : SparseList T) (i : ℕ) (t : T) → at list.slots i ≡ some t → read list i ≡ ok (i, t)
  unfolding read
  read-value list i t e = rw (read, e) refl

  pub entries-none :
      (slots : List (Option T)) (i n : ℕ)
      → at slots i ≡ none
      → entries slots i (suc n) ≡ entries slots (i + 1) n
  entries-none slots i n e = rw (entries, e) refl

  pub entries-some :
      (slots : List (Option T)) (i n : ℕ) (t : T)
      → at slots i ≡ some t
      → entries slots i (suc n) ≡ (i, t) ∷ entries slots (i + 1) n
  entries-some slots i n t e = rw (entries, e) refl

  pub length-entries_le : (slots : List (Option T)) (i n : ℕ) → length (entries slots i n) ≤ n
  length-entries_le slots i zero = omega arith
  length-entries_le slots i (suc n) = elim (Option-cases (at slots i)) [
    | inl free ↦ rw (entries-none slots i n free) (omega (arith, length-entries_le slots (i + 1) n))
    | inr (t, held) ↦
        rw (entries-some slots i n t held) (omega (arith, length-entries_le slots (i + 1) n))
  ]

  -- One round of the loop, on a value.
  each-value :
      (list : SparseList T) (fuel i : ℕ) (t : T) (pairs : List (ℕ × T))
      → at list.slots i ≡ some t
      → (i == list.end_index) ≡ false
      → each_from list fuel (next list i) ≡ ok pairs
      → each_from list (suc fuel) i ≡ ok ((i, t) ∷ pairs)
  unfolding each_from
  each-value list fuel i t pairs e more rest = rw (more, read-value list i t e, rest) refl

  each_from-entries :
      (list : SparseList T) (n fuel i : ℕ)
      → n < fuel
      → i + n ≡ list.end_index
      → each_from list fuel (skip list.slots n i) ≡ ok (entries list.slots i n)
  unfolding each_from next
  each_from-entries list zero zero i h e = absurd (omega arith)
  each_from-entries list zero (suc fuel) i h e =
      let last : (i == list.end_index) ≡ true = ground arith in rw last refl
  each_from-entries list (suc n) zero i h e = absurd (omega arith)
  each_from-entries list (suc n) (suc fuel) i h e = elim (Option-cases (at list.slots i)) [
    | inl free ↦
        ap (each_from list (suc fuel)) (skip-none list.slots n i free)
        ∙ each_from-entries list n (suc fuel) (i + 1) (omega arith) (omega arith)
        ∙ ap (λ (l : List (ℕ × T)). ok l) (sym (entries-none list.slots i n free))
    | inr (t, held) ↦
        let more : (i == list.end_index) ≡ false = ground arith in
        let left : list.end_index - (i + 1) ≡ n = omega arith in
        let rest : each_from list fuel (next list i) ≡ ok (entries list.slots (i + 1) n) =
          ap (λ (m : ℕ). each_from list fuel (skip list.slots m (i + 1))) left
          ∙ each_from-entries list n fuel (i + 1) (omega arith) (omega arith) in
        ap (each_from list (suc fuel)) (skip-some list.slots (suc n) i t held)
        ∙ each-value list fuel i t (entries list.slots (i + 1) n) held more rest
        ∙ ap (λ (l : List (ℕ × T)). ok l) (sym (entries-some list.slots i n t held))
  ]

  entries-none_left :
      (slots : List (Option T)) (n i : ℕ)
      → ((k : ℕ) → at slots k ≡ none)
      → length (entries slots i n) ≡ 0
  entries-none_left slots zero i free = refl
  entries-none_left slots (suc n) i free =
      ap length (entries-none slots i n (free i)) ∙ entries-none_left slots n (i + 1) free

  length-entries-∷ :
      (slot : Option T) (slots : List (Option T)) (n i j : ℕ)
      → j ≡ suc i
      → length (entries (slot ∷ slots) j n) ≡ length (entries slots i n)
  length-entries-∷ slot slots zero i j e = refl
  length-entries-∷ slot slots (suc n) i j e = elim (Option-cases (at slots i)) [
    | inl free ↦
        ap length (entries-none (slot ∷ slots) j n (ap (at (slot ∷ slots)) e ∙ free))
        ∙ length-entries-∷ slot slots n (i + 1) (j + 1) (omega arith)
        ∙ ap length (sym (entries-none slots i n free))
    | inr (t, held) ↦
        ap length (entries-some (slot ∷ slots) j n t (ap (at (slot ∷ slots)) e ∙ held))
        ∙ ap suc (length-entries-∷ slot slots n (i + 1) (j + 1) (omega arith))
        ∙ ap length (sym (entries-some slots i n t held))
  ]

  count_valid-entries :
      (slots : List (Option T)) (n : ℕ) → count_valid slots n ≡ length (entries slots 0 n)
  unfolding count_valid
  count_valid-entries slots zero = refl
  count_valid-entries [] (suc n) = sym (entries-none_left [] n (0 + 1) (λ k. refl))
  count_valid-entries (none ∷ slots) (suc n) =
      count_valid-entries slots n ∙ sym (length-entries-∷ none slots n 0 (0 + 1) refl)
  count_valid-entries (some t ∷ slots) (suc n) =
      ap suc (count_valid-entries slots n ∙ sym (length-entries-∷ (some t) slots n 0 (0 + 1) refl))

-- A loop over a sparse list reaches `end()`, after at most one comparison for each index up to the
-- highest and one more; it sees the index and the value of each slot up to the highest that
-- has one, in the order of the indices, and it makes as many rounds as `Size` counts.
pub each-entries :
    {T : Type 0} (list : SparseList T)
    → (each list ≡ ok (entries list.slots 0 list.end_index))
      × (size list ≡ length (entries list.slots 0 list.end_index))
unfolding each begin size
each-entries list = (
  each_from-entries list list.end_index (list.end_index + 1) 0 (omega arith) (omega arith),
  count_valid-entries list.slots list.end_index,
)
