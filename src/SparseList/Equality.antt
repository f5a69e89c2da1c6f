-- ===== src/SparseList/Equality.antt =====
-- NetReflectionSparseList.h: `operator ==`, which moves an iterator through each list.
use mathlib.Core.Path.{fun_ext}
use storm_net.Prelude.{
  ℕ, zero, suc, ◌+◌, ◌-◌, ◌≤◌, ◌<◌, ◌≡◌, ◌↔◌, refl, sym, ap, ◌∙◌, subst, List, Bool, true, false,
  ◌&&◌, if◌then◌else◌, ◌==◌, Bool-cases, Option-cases, inl, inr, Option, none, some, arith,
  ℕ_discrete, dec_lt,
}
use storm_net.Result.{Result, ok, err, does_not_return, ◌>>=◌}
use storm_net.SparseList.{SparseList, at, try_get}
use storm_net.SparseList.Contents.{IsValid, try_get-function}
use storm_net.SparseList.Iterate.{skip, skip-none, skip-some, read, read-value, next, begin}

module _ {T : Type 0} where
  -- The loop of `operator ==` from a pair of iterators on; the fuel counts its tests.
  pub eq_from : (T → T → Bool) → SparseList T → SparseList T → ℕ → ℕ → ℕ → Result Bool
  unfolding next read
  eq_from eq list rhs zero itr1 itr2 = err does_not_return
  eq_from eq list rhs (suc fuel) itr1 itr2 =
      if itr1 == list.end_index
      then ok true
      else let rest = eq_from eq list rhs fuel (next list itr1) (next rhs itr2) in
        read list itr1 >>= λ first. read rhs itr2 >>= λ second.
        if (first.0 == second.0) && eq (first.1) (second.1) then rest else ok false

  -- `operator ==`: each round moves the first iterator.
  unfoldable pub list_eq : (T → T → Bool) → SparseList T → SparseList T → Result Bool
  unfolding eq_from begin
  list_eq eq list rhs =
      if list.end_index == rhs.end_index
      then eq_from eq list rhs (list.end_index + 1) (begin list) (begin rhs)
      else ok false

  -- From a free slot on, the loop stops at a value if there is one.
  skip-later :
      (slots : List (Option T)) (n i : ℕ)
      → (k : ℕ) → (u : T) → i ≤ k
      → k < i + n
      → at slots k ≡ some u
      → (i ≤ skip slots n i)
        × (skip slots n i < i + n)
        × ((t : T) × (at slots (skip slots n i) ≡ some t))
  skip-later slots zero i k u h l e = absurd (omega arith)
  skip-later slots (suc n) i k u h l e = elim (Option-cases (at slots i)) [
    | inr (t, held) ↦
        let stays = skip-some slots (suc n) i t held in
        (omega (arith, stays), omega (arith, stays), (t, ap (at slots) stays ∙ held))
    | inl free ↦ elim (ℕ_discrete i k) [
      | yes same ↦ cc
      | no other ↦
          let moves = skip-none slots n i free in
          let (above, below, (t, held)) =
            skip-later slots n (i + 1) k u (omega arith) (omega arith) e in
          (
            omega (arith, moves, above),
            omega (arith, moves, below),
            (t, ap (at slots) moves ∙ held),
          )
    ]
  ]

  module _ (eq : T → T → Bool) (decides : (x y : T) → (eq x y ≡ true) ↔ (x ≡ y))
      (list rhs : SparseList T) where
    -- The lists agree from an index on.
    abbrev Agree : ℕ → Type 0
    Agree i = (k : ℕ) → i ≤ k → at list.slots k ≡ at rhs.slots k

    abbrev Decides : ℕ → Result Bool → Type 0
    Decides i result = (b : Bool) × (result ≡ ok b) × ((b ≡ true) ↔ Agree i)

    round :
        (fuel i j : ℕ) (t u : T)
        → at list.slots i ≡ some t
        → at rhs.slots j ≡ some u
        → (i == list.end_index) ≡ false
        → eq_from eq list rhs (suc fuel) i j ≡ (
            if (i == j) && eq t u
            then eq_from eq list rhs fuel (next list i) (next rhs j)
            else ok false)
    unfolding eq_from
    round fuel i j t u e e' more = rw (more, read-value list i t e, read-value rhs j u e') refl

    last : (fuel i : ℕ) → list.end_index ≡ i → eq_from eq list rhs (suc fuel) i i ≡ ok true
    unfolding eq_from
    last fuel i stop = let here : (i == list.end_index) ≡ true = ground arith in rw here refl

    -- The iterators stand at different indices.
    apart :
        (fuel i j : ℕ) (t u : T)
        → at list.slots i ≡ some t
        → at rhs.slots j ≡ some u
        → (i == list.end_index) ≡ false
        → (i == j) ≡ false
        → eq_from eq list rhs (suc fuel) i j ≡ ok false
    apart fuel i j t u e e' more other = round fuel i j t u e e' more ∙ rw other refl

    Agree-step : (i : ℕ) → at list.slots i ≡ at rhs.slots i → Agree (i + 1) → Agree i
    Agree-step i here later k h = elim (ℕ_discrete i k) [
      | yes same ↦ subst (λ (m : ℕ). at list.slots m ≡ at rhs.slots m) same here
      | no other ↦ later k (omega arith)
    ]

    Decides-false :
        (i : ℕ) (result : Result Bool) → result ≡ ok false → (Agree i → ⊥) → Decides i result
    Decides-false i result e differ = (false, e, ((λ h. cc), λ agree. absurd (differ agree)))

    -- The loops stand at these places.
    placed :
        (fuel i j i' j' : ℕ)
        → i ≡ i'
        → j ≡ j'
        → eq_from eq list rhs fuel i j ≡ eq_from eq list rhs fuel i' j'
    placed fuel i j i' j' e e' =
        ap (λ (m : ℕ). eq_from eq list rhs fuel m j) e ∙ ap (eq_from eq list rhs fuel i') e'

    Decides-step :
        (i : ℕ) (result result' : Result Bool)
        → result ≡ result'
        → at list.slots i ≡ at rhs.slots i
        → Decides (i + 1) result'
        → Decides i result
    Decides-step i result result' e here (b, e', iff) = (
      b,
      e ∙ e',
      ((λ h. Agree-step i here (iff.0 h)), λ agree. iff.1 (λ k above. agree k (omega arith))),
    )

    differs :
        (slots : List (Option T)) (p i : ℕ) (t : T)
        → at slots p ≡ some t
        → at slots i ≡ none
        → ((p == i) ≡ false) × ((i == p) ≡ false)
    differs slots p i t e e' = elim (ℕ_discrete p i) [
      | no other ↦ (ground arith, ground arith)
      | yes same ↦ cc
    ]

    -- Both lists have a value at the index.
    Decides-values :
        (fuel i : ℕ) (t u : T)
        → at list.slots i ≡ some t
        → at rhs.slots i ≡ some u
        → (i == list.end_index) ≡ false
        → Decides (i + 1) (eq_from eq list rhs fuel (next list i) (next rhs i))
        → Decides i (eq_from eq list rhs (suc fuel) i i)
    Decides-values fuel i t u e e' more later =
        let here : (i == i) ≡ true = ground arith in
        elim (Bool-cases (eq t u)) [
          | inl equal ↦
              let same : t ≡ u = (decides t u).0 equal in
              Decides-step i _ _ (round fuel i i t u e e' more ∙ rw (here, equal) refl)
                (e ∙ ap (λ (x : T). some x) same ∙ sym e') later
          | inr other ↦
              Decides-false i _ (round fuel i i t u e e' more ∙ rw (here, other) refl) (λ agree.
                let same : some t ≡ some u = sym e ∙ agree i (omega arith) ∙ e' in
                let equal : t ≡ u = cc in cc ((decides t u).1 equal))
        ]

    eq_from-Decides :
        (limit limit' n fuel i : ℕ)
        → IsValid limit list
        → IsValid limit' rhs
        → list.end_index ≡ rhs.end_index
        → n < fuel
        → i + n ≡ list.end_index
        → Decides i (eq_from eq list rhs fuel (skip list.slots n i) (skip rhs.slots n i))
    unfolding skip next
    eq_from-Decides limit limit' zero zero i v v' ends h e = absurd (omega arith)
    eq_from-Decides limit limit' zero (suc fuel) i v v' ends h e = (
      true,
      last fuel i (omega arith),
      ((λ _ k above. v.beyond k (omega arith) ∙ sym (v'.beyond k (omega arith))), λ _. refl),
    )
    eq_from-Decides limit limit' (suc n) zero i v v' ends h e = absurd (omega arith)
    eq_from-Decides limit limit' (suc n) (suc fuel) i v v' ends h e =
        let (m, top) : (m : ℕ) × (list.end_index ≡ suc m) = (i + n, omega arith) in
        let (x, held) = v.highest m top in
        let (y, held') = v'.highest m (sym ends ∙ top) in
        let (_, below, (t, here)) =
          skip-later list.slots (suc n) i m x (omega arith) (omega arith) held in
        let (_, below', (u, here')) =
          skip-later rhs.slots (suc n) i m y (omega arith) (omega arith) held' in
        elim (Option-cases (at list.slots i)) [
          | inl free ↦ elim (Option-cases (at rhs.slots i)) [
            | inl free' ↦
                Decides-step i _ _
                  (placed (suc fuel) _ _ _ _ (skip-none list.slots n i free)
                    (skip-none rhs.slots n i free'))
                  (free ∙ sym free')
                  (eq_from-Decides limit limit' n (suc fuel) (i + 1) v v' ends (omega arith)
                    (omega arith))
            | inr (w, taken') ↦
                let front = skip-some rhs.slots (suc n) i w taken' in
                Decides-false i _
                  (placed (suc fuel) _ _ _ i refl front
                    ∙ apart fuel (skip list.slots (suc n) i) i t w here taken'
                        (ground (arith, below)) ((differs list.slots _ i t here free).0))
                  (λ agree. cc (agree i (omega arith)))
          ]
          | inr (w, taken) ↦ elim (Option-cases (at rhs.slots i)) [
            | inl free' ↦
                let front = skip-some list.slots (suc n) i w taken in
                Decides-false i _
                  (placed (suc fuel) _ _ i _ front refl
                    ∙ apart fuel i (skip rhs.slots (suc n) i) w u taken here' (ground arith)
                        ((differs rhs.slots _ i u here' free').1))
                  (λ agree. cc (agree i (omega arith)))
            | inr (w', taken') ↦
                let more : (i == list.end_index) ≡ false = ground arith in
                let left : list.end_index - (i + 1) ≡ n = omega arith in
                let left' : rhs.end_index - (i + 1) ≡ n = omega arith in
                let later : Decides (i + 1) (eq_from eq list rhs fuel (next list i) (next rhs i)) =
                  rw (left, left')
                    (eq_from-Decides limit limit' n fuel (i + 1) v v' ends (omega arith)
                      (omega arith)) in
                let at_i =
                  placed (suc fuel) _ _ i i (skip-some list.slots (suc n) i w taken)
                    (skip-some rhs.slots (suc n) i w' taken') in
                let (b, e'', iff) = Decides-values fuel i w w' taken taken' more later in
                (b, at_i ∙ e'', iff)
          ]
        ]

ends-le :
    {T : Type 0} (list rhs : SparseList T) (limit limit' : ℕ)
    → IsValid limit list
    → IsValid limit' rhs
    → ((k : ℕ) → at list.slots k ≡ at rhs.slots k)
    → list.end_index ≤ rhs.end_index
ends-le list rhs limit limit' v v' agree = elim (dec_lt rhs.end_index list.end_index) [
  | no h ↦ omega arith
  | yes h ↦
      let (t, held) = v.highest (list.end_index - 1) (omega arith) in
      let free = v'.beyond (list.end_index - 1) (omega arith) in
      let same = agree (list.end_index - 1) in cc
]

-- `operator ==` of well-formed lists returns, and it returns true exactly when `TryGet` finds the same
-- in both, given a comparison of the values that decides their equality.
pub list_eq-try_get :
    {T : Type 0} (eq : T → T → Bool) (list rhs : SparseList T) (limit limit' : ℕ)
    → ((x y : T) → (eq x y ≡ true) ↔ (x ≡ y))
    → IsValid limit list
    → IsValid limit' rhs
    → (b : Bool) × (list_eq eq list rhs ≡ ok b) × ((b ≡ true) ↔ (try_get list ≡ try_get rhs))
unfolding list_eq begin skip
list_eq-try_get eq list rhs limit limit' decides v v' =
    let here = try_get-function limit list v in
    let there = try_get-function limit' rhs v' in
    elim (Bool-cases (list.end_index == rhs.end_index)) [
      | inl same ↦
          let ends : list.end_index ≡ rhs.end_index = ground arith in
          let (b, e, iff) =
            eq_from-Decides eq decides list rhs limit limit' list.end_index (list.end_index + 1) 0 v
              v' ends (omega arith) (omega arith) in
          (
            b,
            rw same (
                ap
                  (λ (n : ℕ).
                    eq_from eq list rhs (list.end_index + 1) (begin list) (skip rhs.slots n 0))
                  (sym ends)
                ∙ e),
            (
              (λ h. here ∙ fun_ext (λ k. iff.0 h k (omega arith)) ∙ sym there),
              λ h. iff.1 (λ k _. ap (λ (f : ℕ → Option _). f k) (sym here ∙ h ∙ there)),
            ),
          )
      | inr other ↦ (
        false,
        rw other refl,
        (
          (λ h. cc),
          λ h.
              let agree : (k : ℕ) → at list.slots k ≡ at rhs.slots k =
                λ k. ap (λ (f : ℕ → Option _). f k) (sym here ∙ h ∙ there) in
              let below = ends-le list rhs limit limit' v v' agree in
              let above = ends-le rhs list limit' limit v' v (λ k. sym (agree k)) in
              absurd (ground (arith, below, above)),
        ),
      )
    ]
