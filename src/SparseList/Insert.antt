-- ===== src/SparseList/Insert.antt =====
-- Insertion, and the growth of the array that it may need.
use storm_net.Prelude.{
  ℕ, ◌+◌, ◌*◌, ◌^◌, ◌≤◌, ◌<◌, ◌≡◌, refl, sym, ap, ◌∙◌, ◌⊎◌, inl, inr, dec_lt, true, if◌then◌else◌,
  ◌==◌, ltb, Bool-cases, length, max, set, Option, some, arith,
}
use storm_net.Result.{Result, ok, err, bad_alloc, ◌>>=◌}
use storm_net.SparseList.{SparseList, at, grow_to_fit, grow, reserve, grow_to, insert_at, push_back}
use storm_net.SparseList.Grow.{GrowsTo, grow_to-GrowsTo, grow-GrowsTo, grow_to_fit-GrowsTo}
use storm_net.SparseList.Contents.{
  IsValid, Becomes, update, with_value, with_value-IsValid, Grown-IsValid, raised,
}

bigger : (len : ℕ) → len < (if len == 0 then 1 else len * 2)
bigger len = ground arith

max_next : (e : ℕ) → max e (e + 1) ≡ e + 1
max_next e = omega arith

module _ {T : Type 0} where
  -- Growing changes nothing but the capacity.
  grown-Becomes :
      (limit n : ℕ) (result : Result (SparseList T)) (list : SparseList T)
      → IsValid limit list
      → list.end_index ≤ n
      → GrowsTo result limit n list
      → ((limit < n) × (result ≡ err bad_alloc))
        ⊎ ((list' : SparseList T) × (result ≡ ok list')
            × IsValid limit list'
            × ((j : ℕ) → at list'.slots j ≡ at list.slots j)
            × (length list'.slots ≡ n)
            × (list'.end_index ≡ list.end_index))
  grown-Becomes limit n result list v h (inl refused) = inl refused
  grown-Becomes limit n result list v h (inr (granted, (list', e, g))) =
      let (valid, same) = Grown-IsValid limit n list list' v g granted h in
      inr (list', e, valid, same, g.sized, g.same_end)

  pub reserve-Becomes :
      (limit n : ℕ) (list : SparseList T)
      → IsValid limit list
      → (reserve limit n list ≡ err bad_alloc)
        ⊎ Becomes limit (reserve limit n list) (at list.slots)
  unfolding reserve
  reserve-Becomes limit n list v = elim (Bool-cases (ltb (length list.slots) n)) [
    | inr enough ↦ inr (list, rw enough refl, v, λ j. refl)
    | inl more ↦
        let room : list.end_index ≤ n = ground (arith, v.within) in
        elim (grown-Becomes limit n (grow_to limit n list) list v room
          (grow_to-GrowsTo limit n list v.within room)) [
            | inl refused ↦ inl (rw more (refused.1))
            | inr (list', e, valid, same, _, _) ↦ inr (list', rw more e, valid, same)
          ]
  ]

  pub insert_at-ok :
      (limit i : ℕ) (t : T) (list grown : SparseList T)
      → grow_to_fit limit i list ≡ ok grown
      → insert_at limit i t list ≡ ok (with_value i t grown)
  unfolding insert_at
  insert_at-ok limit i t list grown e =
      ap (λ (m : Result (SparseList T)). m >>= λ g. ok (with_value i t g)) e

  insert_at-err :
      (limit i : ℕ) (t : T) (list : SparseList T)
      → grow_to_fit limit i list ≡ err bad_alloc
      → insert_at limit i t list ≡ err bad_alloc
  unfolding insert_at
  insert_at-err limit i t list e =
      ap (λ (m : Result (SparseList T)). m >>= λ g. ok (with_value i t g)) e

  pub grow_to_fit-enough :
      (limit i : ℕ) (list : SparseList T)
      → i < length list.slots
      → grow_to_fit limit i list ≡ ok list
  unfolding grow_to_fit
  grow_to_fit-enough limit i list h =
      let inside : ltb i (length list.slots) ≡ true = ground arith in rw inside refl

  -- `InsertAt` below 2 ^ 63 returns, unless memory runs out.
  pub insert_at-Becomes :
      (limit i : ℕ) (t : T) (list : SparseList T)
      → IsValid limit list
      → i < 2 ^ 63
      → ((insert_at limit i t list ≡ err bad_alloc) × (limit ≤ 2 * i))
        ⊎ Becomes limit (insert_at limit i t list) (update (at list.slots) i (some t))
  insert_at-Becomes limit i t list v small = elim (dec_lt i (length list.slots)) [
    | yes inside ↦
        let (valid, holds) = with_value-IsValid limit i t list v inside in
        inr (
          with_value i t list,
          insert_at-ok limit i t list list (grow_to_fit-enough limit i list inside),
          valid,
          holds,
        )
    | no outside ↦
        let (slots, above, bound, grows) =
          grow_to_fit-GrowsTo limit i list v.within small (omega arith) in
        elim (grown-Becomes limit slots (grow_to_fit limit i list) list v
          (omega (arith, above, v.within)) grows) [
            | inl (over, refused) ↦ inl (insert_at-err limit i t list refused, omega (arith, bound))
            | inr (grown, e, valid, same, sized, _) ↦
                let (valid', holds) =
                  with_value-IsValid limit i t grown valid (omega (arith, above, sized)) in
                inr (
                  with_value i t grown,
                  insert_at-ok limit i t list grown e,
                  valid',
                  λ j. holds j ∙ ap (λ (o : Option T). if i == j then some t else o) (same j),
                )
          ]
  ]

  with_value-end :
      (t : T) (list : SparseList T)
      → with_value list.end_index t list
        ≡ record { slots = set list.slots list.end_index (some t); end_index = list.end_index + 1 }
  with_value-end t list =
      ap (λ (n : ℕ). record { slots = set list.slots list.end_index (some t); end_index = n })
        (raised list.end_index list.end_index ∙ max_next list.end_index)

  push_back-ok :
      (limit : ℕ) (t : T) (list grown : SparseList T)
      → (if list.end_index == length list.slots then grow limit list else ok list) ≡ ok grown
      → push_back limit t list ≡ ok (with_value grown.end_index t grown)
  unfolding push_back
  push_back-ok limit t list grown e =
      (ap
        (λ (m : Result (SparseList T)). m >>= λ g.
          ok (record { slots = set g.slots g.end_index (some t); end_index = g.end_index + 1 }))
        e)
      ∙ ap (λ (g : SparseList T). ok g) (sym (with_value-end t grown))

  push_back-err :
      (limit : ℕ) (t : T) (list : SparseList T)
      → (if list.end_index == length list.slots then grow limit list else ok list) ≡ err bad_alloc
      → push_back limit t list ≡ err bad_alloc
  unfolding push_back
  push_back-err limit t list e =
      ap
        (λ (m : Result (SparseList T)). m >>= λ g.
          ok (record { slots = set g.slots g.end_index (some t); end_index = g.end_index + 1 }))
        e

  -- `PushBack` puts the value behind the highest one.
  pub push_back-Becomes :
      (limit : ℕ) (t : T) (list : SparseList T)
      → IsValid limit list
      → limit < 2 ^ 31
      → (push_back limit t list ≡ err bad_alloc)
        ⊎ Becomes limit (push_back limit t list) (update (at list.slots) list.end_index (some t))
  push_back-Becomes limit t list v small = elim (Bool-cases (list.end_index == length list.slots)) [
    | inr room ↦
        let (valid, holds) =
          with_value-IsValid limit list.end_index t list v (ground (arith, v.within)) in
        inr (
          with_value list.end_index t list,
          push_back-ok limit t list list (rw room refl),
          valid,
          holds,
        )
    | inl full ↦ pushed full
  ]
    where
      pushed :
          (list.end_index == length list.slots) ≡ true
          → (push_back limit t list ≡ err bad_alloc)
            ⊎ Becomes limit
                (push_back limit t list)
                (update (at list.slots) list.end_index (some t))
      pushed full =
          let at_end : list.end_index ≡ length list.slots = ground arith in
          let more = bigger (length list.slots) in
          elim (grown-Becomes limit _ (grow limit list) list v (omega (arith, more, at_end))
            (grow-GrowsTo limit list v.within (omega (arith, v.granted)))) [
              | inl (over, refused) ↦ inl (push_back-err limit t list (rw full refused))
              | inr (grown, e, valid, same, sized, ends) ↦
                  let (valid', holds) =
                    with_value-IsValid limit grown.end_index t grown valid
                      (omega (arith, more, at_end, sized, ends)) in
                  inr (
                    with_value grown.end_index t grown,
                    push_back-ok limit t list grown (rw full e),
                    valid',
                    λ j.
                        holds j
                        ∙ ap (λ (o : Option T). if grown.end_index == j then some t else o) (same j)
                        ∙ ap (λ (n : ℕ). update (at list.slots) n (some t) j) ends,
                  )
            ]
