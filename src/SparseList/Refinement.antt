-- ===== src/SparseList/Refinement.antt =====
-- The methods that change a sparse list as steps on partial functions from indices.
use mathlib.Core.Path.{fun_ext}
use storm_net.Prelude.{
  ℕ, suc, ◌^◌, ◌≤◌, ◌<◌, ◌≡◌, refl, sym, ap, ◌∙◌, subst, ◌⊎◌, inl, inr, List, [], ◌∷◌, true, Option,
  none, some,
}
use storm_net.Result.{Result, ok, err, bad_alloc, ◌>>=◌}
use storm_net.Codec.Each.{All}
use storm_net.SparseList.{
  SparseList, at, is_some, clear, try_get, remove_at, reserve, insert_at, push_back, emplace,
}
use storm_net.SparseList.Emplace.{emplace-Becomes}
use storm_net.SparseList.Contents.{
  IsValid, Becomes, update, try_get-function, clear-IsValid, remove_at-IsValid,
}
use storm_net.SparseList.Insert.{insert_at-Becomes, push_back-Becomes, reserve-Becomes}

pub data Operation (T : Type 0) : Type 0 where
  insert : ℕ → T → Operation T
  push : T → Operation T
  emplace_free : T → Operation T
  remove : ℕ → Operation T
  clear_all : Operation T
  reserve_for : ℕ → Operation T

-- Indices in which the doubling of the capacity does not wrap around.
abbrev pub Allowed : {T : Type 0} → Operation T → Type 0
Allowed (insert i t) = i < 2 ^ 63
Allowed (push t) = Unit
Allowed (emplace_free t) = Unit
Allowed (remove i) = Unit
Allowed clear_all = Unit
Allowed (reserve_for n) = Unit

unfoldable pub apply : {T : Type 0} → ℕ → Operation T → SparseList T → Result (SparseList T)
unfolding insert_at push_back emplace remove_at clear reserve
apply limit (insert i t) list = insert_at limit i t list
apply limit (push t) list = push_back limit t list
apply limit (emplace_free t) list = emplace limit t list >>= λ placed. ok (placed.1)
apply limit (remove i) list = ok (remove_at i list)
apply limit clear_all list = ok (clear list)
apply limit (reserve_for n) list = reserve limit n list

-- What an operation may do to the function that a list stands for.
pub data Step {T : Type 0} : Operation T → (ℕ → Option T) → (ℕ → Option T) → Type 0 where
  inserted : {i : ℕ} {t : T} {f : ℕ → Option T} → Step (insert i t) f (update f i (some t))
  -- behind all that there is, and no further behind than that
  pushed :
      {t : T} {f : ℕ → Option T} (k : ℕ)
      → ((i : ℕ) → k ≤ i → f i ≡ none)
      → ((j : ℕ) → k ≡ suc j → is_some (f j) ≡ true)
      → Step (push t) f (update f k (some t))
  -- in the first place that is free
  emplaced :
      {t : T} {f : ℕ → Option T} (k : ℕ)
      → f k ≡ none
      → ((i : ℕ) → i < k → is_some (f i) ≡ true)
      → Step (emplace_free t) f (update f k (some t))
  removed : {i : ℕ} {f : ℕ → Option T} → Step (remove i) f (update f i none)
  cleared : {f : ℕ → Option T} → Step clear_all f (λ i. none)
  reserved : {n : ℕ} {f : ℕ → Option T} → Step (reserve_for n) f f

module _ {T : Type 0} where
  -- A call that returns a well-formed list has taken a step.
  abbrev Returns : ℕ → Operation T → SparseList T → Result (SparseList T) → Type 0
  Returns limit op list result =
      (list' : SparseList T) × (result ≡ ok list')
      × IsValid limit list'
      × Step op (try_get list) (try_get list')

  takes_step :
      (limit : ℕ) (op : Operation T) (list list' : SparseList T) (f : ℕ → Option T)
      → IsValid limit list
      → IsValid limit list'
      → ((j : ℕ) → at list'.slots j ≡ f j)
      → Step op (at list.slots) f
      → Step op (try_get list) (try_get list')
  takes_step limit op list list' f v v' same step =
      let after : f ≡ try_get list' = sym (try_get-function limit list' v' ∙ fun_ext same) in
      let before : at list.slots ≡ try_get list = sym (try_get-function limit list v) in
      subst (λ (g : ℕ → Option T). Step op g (try_get list')) before
        (subst (λ (g : ℕ → Option T). Step op (at list.slots) g) after step)

  returns :
      (limit : ℕ) (op : Operation T) (list : SparseList T) (result : Result (SparseList T))
      (f : ℕ → Option T)
      → IsValid limit list
      → (result ≡ err bad_alloc) ⊎ Becomes limit result f
      → Step op (at list.slots) f
      → (result ≡ err bad_alloc) ⊎ Returns limit op list result
  returns limit op list result f v (inl refused) step = inl refused
  returns limit op list result f v (inr (list', e, v', same)) step =
      inr (list', e, v', takes_step limit op list list' f v v' same step)

  push-Step :
      (limit : ℕ) (t : T) (list : SparseList T)
      → IsValid limit list
      → Step (push t) (at list.slots) (update (at list.slots) list.end_index (some t))
  push-Step limit t list v =
      pushed list.end_index v.beyond (λ j e. let (u, held) = v.highest j e in rw held refl)

  emplace-Returns :
      (limit : ℕ) (t : T) (list : SparseList T)
      → IsValid limit list
      → limit < 2 ^ 31
      → (apply limit (emplace_free t) list ≡ err bad_alloc)
        ⊎ Returns limit (emplace_free t) list (apply limit (emplace_free t) list)
  unfolding apply
  emplace-Returns limit t list v small = elim (emplace-Becomes limit t list v small) [
    | inl refused ↦ inl (ap (λ (m : Result (ℕ × SparseList T)). m >>= λ p. ok (p.1)) refused)
    | inr (k, list', e, v', holds, free, before) ↦ inr (
      list',
      ap (λ (m : Result (ℕ × SparseList T)). m >>= λ p. ok (p.1)) e,
      v',
      takes_step limit (emplace_free t) list list' (update (at list.slots) k (some t)) v v' holds
          (emplaced k free before),
    )
  ]

-- Every operation on a well-formed list returns or runs out of memory; when it returns, the list is
-- well-formed, and what `TryGet` finds in it has taken the operation's step.
apply-Step :
    {T : Type 0} (limit : ℕ) (op : Operation T) (list : SparseList T)
    → IsValid limit list
    → limit < 2 ^ 31
    → Allowed op
    → (apply limit op list ≡ err bad_alloc)
      ⊎ ((list' : SparseList T) × (apply limit op list ≡ ok list')
          × IsValid limit list'
          × Step op (try_get list) (try_get list'))
unfolding apply
apply-Step limit (insert i t) list v small allowed =
    returns limit (insert i t) list (insert_at limit i t list) _ v
      (refused_or (insert_at-Becomes limit i t list v allowed)) inserted
  where
    refused_or : {A B C : Type 0} → (A × B) ⊎ C → A ⊎ C
    refused_or (inl (a, b)) = inl a
    refused_or (inr c) = inr c
apply-Step limit (push t) list v small allowed =
    returns limit (push t) list (push_back limit t list) _ v
      (push_back-Becomes limit t list v small) (push-Step limit t list v)
apply-Step limit (emplace_free t) list v small allowed = emplace-Returns limit t list v small
apply-Step limit (remove i) list v small allowed =
    let (valid, holds) = remove_at-IsValid limit i list v in
    returns limit (remove i) list (ok (remove_at i list)) _ v
      (inr (remove_at i list, refl, valid, holds)) removed
apply-Step limit clear_all list v small allowed =
    let (valid, holds) = clear-IsValid limit list v in
    returns limit clear_all list (ok (clear list)) _ v (inr (clear list, refl, valid, holds))
      cleared
apply-Step limit (reserve_for n) list v small allowed =
    returns limit (reserve_for n) list (reserve limit n list) (at list.slots) v
      (reserve-Becomes limit n list v) reserved

-- One operation after the other.
unfoldable pub run : {T : Type 0} → ℕ → List (Operation T) → SparseList T → Result (SparseList T)
unfolding apply
run limit [] list = ok list
run limit (op ∷ ops) list = apply limit op list >>= λ list'. run limit ops list'

pub data Steps {T : Type 0} : List (Operation T) → (ℕ → Option T) → (ℕ → Option T) → Type 0 where
  finished : {f : ℕ → Option T} → Steps [] f f
  next :
      {op : Operation T} {ops : List (Operation T)} {f g h : ℕ → Option T}
      → Step op f g
      → Steps ops g h
      → Steps (op ∷ ops) f h

-- In a well-formed list, when `malloc` grants at most `limit` slots and fewer than 2 ^ 31, any sequence
-- of insertions at places or at the end, of removals, clearings and reservations returns or runs out of
-- memory, if the indices of the insertions are below 2 ^ 63. When it returns, the list is well-formed,
-- and what `TryGet` finds at each index has changed by the steps of the operations: an insertion sets
-- its index, one at the end the index behind all others, `Emplace` the first free one, a removal frees
-- its index, clearing frees all, a reservation none.
pub run-Steps :
    {T : Type 0} (limit : ℕ) (ops : List (Operation T)) (list : SparseList T)
    → IsValid limit list
    → limit < 2 ^ 31
    → All Allowed ops
    → (run limit ops list ≡ err bad_alloc)
      ⊎ ((list' : SparseList T) × (run limit ops list ≡ ok list')
          × IsValid limit list'
          × Steps ops (try_get list) (try_get list'))
unfolding run
run-Steps limit [] list v small allowed = inr (list, refl, v, finished)
run-Steps limit (op ∷ ops) list v small allowed =
    elim (apply-Step limit op list v small allowed.0) [
      | inl refused ↦ inl (ap (λ (m : Result (SparseList _)). m >>= λ l. run limit ops l) refused)
      | inr (between, e, v', step) ↦
          let whole = ap (λ (m : Result (SparseList _)). m >>= λ l. run limit ops l) e in
          elim (run-Steps limit ops between v' small allowed.1) [
            | inl refused ↦ inl (whole ∙ refused)
            | inr (list', e', v'', steps) ↦ inr (list', whole ∙ e', v'', next step steps)
          ]
    ]
