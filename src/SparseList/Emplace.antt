-- ===== src/SparseList/Emplace.antt =====
-- `Emplace`: the first free slot of the array, or the place behind the highest one.
use storm_net.Prelude.{
  ℕ, suc, ◌-◌, ◌^◌, ◌≤◌, ◌<◌, ◌≡◌, ap, ◌∙◌, subst, ◌⊎◌, inl, inr, true, false, Option-cases, length,
  Option, none, some, ℕ_discrete, dec_lt, ◌==◌, arith,
}
use storm_net.Result.{Result, ok, err, bad_alloc, ◌>>=◌}
use storm_net.SparseList.{
  SparseList, at, is_some, insert_at, push_back, emplace, emplace_at, emplace_back, find_free,
}
use storm_net.SparseList.Slots.{find_free-first, find_free-full}
use storm_net.SparseList.Contents.{IsValid, update, with_value, with_value-IsValid}
use storm_net.SparseList.Insert.{insert_at-ok, grow_to_fit-enough, push_back-Becomes}

module _ {T : Type 0} where
  abbrev chosen : ℕ → T → SparseList T → Option ℕ → Result (ℕ × SparseList T)
  chosen limit t list o = elim o [
    | some index ↦ insert_at limit index t list >>= λ placed. ok (index, placed)
    | none ↦ push_back limit t list >>= λ placed. ok (placed.end_index - 1, placed)
  ]

  emplace-found :
      (limit k : ℕ) (t : T) (list placed : SparseList T)
      → find_free 0 list.slots ≡ some k
      → insert_at limit k t list ≡ ok placed
      → emplace limit t list ≡ ok (k, placed)
  unfolding emplace emplace_at emplace_back
  emplace-found limit k t list placed found done =
      ap (chosen limit t list) found ∙ ap (λ (m : Result (SparseList T)). m >>= λ p. ok (k, p)) done

  emplace-full :
      (limit : ℕ) (t : T) (list : SparseList T)
      → find_free 0 list.slots ≡ none
      → emplace limit t list
        ≡ (push_back limit t list >>= λ placed. ok (placed.end_index - 1, placed))
  unfolding emplace emplace_at emplace_back
  emplace-full limit t list full = ap (chosen limit t list) full

  -- A function that is changed behind its values ends there.
  end-update :
      (limit e : ℕ) (t : T) (f : ℕ → Option T) (list : SparseList T)
      → IsValid limit list
      → ((i : ℕ) → e ≤ i → f i ≡ none)
      → ((j : ℕ) → at list.slots j ≡ update f e (some t) j)
      → list.end_index ≡ suc e
  end-update limit e t f list v beyond holds =
      let here : at list.slots e ≡ some t = holds e ∙ ground arith in
      let above : e < list.end_index = elim (dec_lt e list.end_index) [
        | yes h ↦ h
        | no h ↦ cc (v.beyond e (omega arith))
      ] in
      elim (ℕ_discrete list.end_index (suc e)) [
        | yes same ↦ same
        | no other ↦
            let (u, held) = v.highest (list.end_index - 1) (omega arith) in
            let apart : (e == (list.end_index - 1)) ≡ false = ground arith in
            let free : at list.slots (list.end_index - 1) ≡ none =
              holds (list.end_index - 1) ∙ rw apart (beyond (list.end_index - 1) (omega arith)) in
            cc
      ]

  -- The place is free, and every one in front of it is taken.
  pub emplace-Becomes :
      (limit : ℕ) (t : T) (list : SparseList T)
      → IsValid limit list
      → limit < 2 ^ 31
      → (emplace limit t list ≡ err bad_alloc)
        ⊎ ((k : ℕ) × (list' : SparseList T) × (emplace limit t list ≡ ok (k, list'))
            × IsValid limit list'
            × ((j : ℕ) → at list'.slots j ≡ update (at list.slots) k (some t) j)
            × (at list.slots k ≡ none)
            × ((i : ℕ) → i < k → is_some (at list.slots i) ≡ true))
  emplace-Becomes limit t list v small = elim (Option-cases (find_free 0 list.slots)) [
    | inr (k, found) ↦
        let (j, place, inside, free, before) = find_free-first list.slots 0 k found in
        let at_k : j ≡ k = omega (arith, place) in
        let inside_k : k < length list.slots = omega (arith, inside, place) in
        let (valid, holds) = with_value-IsValid limit k t list v inside_k in
        inr (
          k,
          with_value k t list,
          emplace-found limit k t list (with_value k t list) found
              (insert_at-ok limit k t list list (grow_to_fit-enough limit k list inside_k)),
          valid,
          holds,
          subst (λ (n : ℕ). at list.slots n ≡ none) at_k free,
          λ i below. before i (omega (arith, below, place)),
        )
    | inl full ↦ elim (push_back-Becomes limit t list v small) [
      | inl refused ↦ inl (
          emplace-full limit t list full
          ∙ ap (λ (m : Result (SparseList T)). m >>= λ p. ok (p.end_index - 1, p)) refused)
      | inr (placed, done, valid, holds) ↦
          let ends =
            end-update limit list.end_index t (at list.slots) placed valid v.beyond holds in
          let place : placed.end_index - 1 ≡ list.end_index = omega arith in
          inr (
            list.end_index,
            placed,
            emplace-full limit t list full
                ∙ ap (λ (m : Result (SparseList T)). m >>= λ p. ok (p.end_index - 1, p)) done
                ∙ ap (λ (n : ℕ). ok (n, placed)) place,
            valid,
            holds,
            v.beyond list.end_index (omega arith),
            λ i below. find_free-full list.slots 0 full i (omega (arith, v.within, below)),
          )
    ]
  ]
