-- ===== src/SparseList/Contents.antt =====
-- What a sparse list holds, as a function from indices, and how the methods change it.
use mathlib.Core.Path.{fun_ext}
use storm_net.Prelude.{
  ℕ, suc, ◌+◌, ◌-◌, ◌≤◌, ◌<◌, ◌≡◌, refl, sym, ◌∙◌, subst, inl, inr, dec_lt, ◌++◌, false, ◌||◌,
  if◌then◌else◌, ◌==◌, ltb, leb, Bool-cases, Option-cases, length, length-append, length-replicate,
  length-drop, drop, replicate, max, set, Option, none, some, arith,
}
use storm_net.Result.{Result, ok}
use storm_net.ArrayList.Bounds.{length-set}
use storm_net.SparseList.{
  SparseList, at, is_some, shrink, new, clear, try_get, has_at, get_at, remove_at,
}
use storm_net.SparseList.Slots.{
  at-set, at-beyond, at-cleared, shrink-le, shrink-above, shrink-highest,
}
use storm_net.SparseList.Grow.{no_slot, Grown}

-- A function, changed at one place.
abbrev pub update {ℓ} : {A : Type ℓ} → (ℕ → A) → ℕ → A → ℕ → A
update f i a j = if i == j then a else f j

pub raised : (e i : ℕ) → (if (e == 0) || ltb (e - 1) i then i + 1 else e) ≡ max e (i + 1)
raised e i = ground arith

-- Removing where nothing is.
update-same : {T : Type 0} (f : ℕ → Option T) (i j : ℕ) → f i ≡ none → f j ≡ update f i none j
update-same f i j e = elim (Bool-cases (i == j)) [
  | inl same ↦ let equal : i ≡ j = ground arith in rw same (subst (λ (k : ℕ). f k ≡ none) equal e)
  | inr other ↦ rw other refl
]

module _ {T : Type 0} where
  pub record IsValid (limit : ℕ) (list : SparseList T) : Type 0 where
    pub within : list.end_index ≤ length list.slots
    pub granted : length list.slots ≤ limit
    pub beyond : (i : ℕ) → list.end_index ≤ i → at list.slots i ≡ none
    pub highest : (k : ℕ) → list.end_index ≡ suc k → (t : T) × (at list.slots k ≡ some t)

  -- The call returns a well-formed list with these contents.
  abbrev pub Becomes : ℕ → Result (SparseList T) → (ℕ → Option T) → Type 0
  Becomes limit result f =
      (list : SparseList T) × (result ≡ ok list)
      × IsValid limit list
      × ((j : ℕ) → at list.slots j ≡ f j)

  -- Values are below the end.
  pub at-below :
      (limit : ℕ) (list : SparseList T) (i : ℕ) (t : T)
      → IsValid limit list
      → at list.slots i ≡ some t
      → i < list.end_index
  at-below limit list i t v e = elim (dec_lt i list.end_index) [
    | yes h ↦ h
    | no h ↦ cc (v.beyond i (omega arith))
  ]

  pub try_get-at :
      (limit : ℕ) (list : SparseList T) (i : ℕ)
      → IsValid limit list
      → try_get list i ≡ at list.slots i
  unfolding try_get
  try_get-at limit list i v = elim (Bool-cases (leb list.end_index i)) [
    | inl above ↦ ground (arith, v.beyond i (ground arith))
    | inr below ↦ ground arith
  ]

  pub has_at-at :
      (limit : ℕ) (list : SparseList T) (i : ℕ)
      → IsValid limit list
      → has_at list i ≡ is_some (at list.slots i)
  unfolding has_at
  has_at-at limit list i v = elim (Bool-cases (leb list.end_index i)) [
    | inl above ↦ ground (arith, v.beyond i (ground arith))
    | inr below ↦ ground arith
  ]

  pub get_at-at :
      (limit : ℕ) (list : SparseList T) (i : ℕ) (t : T)
      → IsValid limit list
      → at list.slots i ≡ some t
      → get_at list i ≡ ok t
  unfolding get_at
  get_at-at limit list i t v e = elim (Bool-cases (leb list.end_index i)) [
    | inl above ↦ cc (v.beyond i (ground arith))
    | inr below ↦ ground arith
  ]

  pub try_get-function :
      (limit : ℕ) (list : SparseList T) → IsValid limit list → try_get list ≡ at list.slots
  try_get-function limit list v = fun_ext λ i. try_get-at limit list i v

  pub Grown-IsValid :
      (limit n : ℕ) (list list' : SparseList T)
      → IsValid limit list
      → Grown list list' n
      → n ≤ limit
      → list.end_index ≤ n
      → IsValid limit list' × ((j : ℕ) → at list'.slots j ≡ at list.slots j)
  Grown-IsValid limit n list list' v g h k = (
    record {
      within = omega (arith, g.sized, g.same_end);
      granted = omega (arith, g.sized);
      beyond = λ i above. same i ∙ v.beyond i (omega (arith, g.same_end));
      highest = λ m e. let (t, there) = v.highest m (sym g.same_end ∙ e) in (t, same m ∙ there);
    },
    same,
  )
    where
      same : (j : ℕ) → at list'.slots j ≡ at list.slots j
      same j = elim (Bool-cases (ltb j list.end_index)) [
        | inl below ↦ ground (arith, g.same_slots j)
        | inr above ↦ ground (arith, g.same_slots j, v.beyond j (ground arith))
      ]

  -- A value put into a slot of the array.
  abbrev pub with_value : ℕ → T → SparseList T → SparseList T
  with_value i t list = record {
    slots = set list.slots i (some t);
    end_index =
        if (list.end_index == 0) || ltb (list.end_index - 1) i then i + 1 else list.end_index;
  }

  pub with_value-IsValid :
      (limit i : ℕ) (t : T) (list : SparseList T)
      → IsValid limit list
      → i < length list.slots
      → IsValid limit (with_value i t list)
        × ((j : ℕ) → at (set list.slots i (some t)) j ≡ update (at list.slots) i (some t) j)
  with_value-IsValid limit i t list v h =
      let there : (j : ℕ) → at (set list.slots i (some t)) j ≡ update (at list.slots) i (some t) j =
        λ j. at-set list.slots i j (some t) h in
      let ends = raised list.end_index i in
      (
        record {
          within = omega (arith, ends, length-set list.slots i (some t), v.within);
          granted = omega (arith, length-set list.slots i (some t), v.granted);
          beyond = λ j above.
              let other : (i == j) ≡ false = ground (arith, ends) in
              there j ∙ rw other (v.beyond j (omega (arith, ends)));
          highest = λ k e. elim (Bool-cases (i == k)) [
            | inl same ↦ (t, there k ∙ rw same refl)
            | inr other ↦
                let (u, held) = v.highest k (ground (arith, ends)) in (u, there k ∙ rw other held)
          ];
        },
        there,
      )

  pub new-IsValid : (limit : ℕ) → IsValid limit (new {T = T})
  unfolding new
  new-IsValid limit = record {
    within = omega arith;
    granted = omega arith;
    beyond = λ i h. refl;
    highest = λ k e. absurd (omega arith);
  }

  pub clear-IsValid :
      (limit : ℕ) (list : SparseList T)
      → IsValid limit list
      → IsValid limit (clear list) × ((j : ℕ) → at (clear list).slots j ≡ none)
  unfolding clear
  clear-IsValid limit list v =
      let gone : (j : ℕ)
          → at (replicate list.end_index none ++ drop list.end_index list.slots) j ≡ none =
        λ j.
          at-cleared list.end_index list.slots j v.within
          ∙ (elim (Bool-cases (ltb j list.end_index)) [
            | inl below ↦ rw below refl
            | inr above ↦ rw above (v.beyond j (ground arith))
          ]) in
      (
        record {
          within = omega arith;
          granted = omega (
            arith,
            length-append (replicate list.end_index no_slot) (drop list.end_index list.slots),
            length-replicate list.end_index no_slot,
            length-drop list.end_index list.slots,
            v.granted,
            v.within,
          );
          beyond = λ j h. gone j;
          highest = λ k e. absurd (omega arith);
        },
        gone,
      )

  pub remove_at-IsValid :
      (limit i : ℕ) (list : SparseList T)
      → IsValid limit list
      → IsValid limit (remove_at i list)
        × ((j : ℕ) → at (remove_at i list).slots j ≡ update (at list.slots) i none j)
  unfolding remove_at
  remove_at-IsValid limit i list v = elim (Bool-cases (leb (length list.slots) i)) [
    | inl outside ↦
        rw outside (v, λ j. update-same (at list.slots) i j (at-beyond list.slots i (ground arith)))
    | inr inside ↦ elim (Option-cases (at list.slots i)) [
      | inl free ↦ rw (inside, free) (v, λ j. update-same (at list.slots) i j free)
      | inr (t, held) ↦ rw (inside, held) (removed (ground arith))
    ]
  ]
    where
      removed :
          i < length list.slots
          → IsValid limit (record {
            slots = set list.slots i none;
            end_index = shrink (set list.slots i none) list.end_index;
          })
            × ((j : ℕ) → at (set list.slots i none) j ≡ update (at list.slots) i none j)
      removed h =
          let there : (j : ℕ) → at (set list.slots i none) j ≡ update (at list.slots) i none j =
            λ j. at-set list.slots i j none h in
          let less = shrink-le (set list.slots i none) list.end_index in
          (
            record {
              within = omega (arith, length-set list.slots i none, less, v.within);
              granted = omega (arith, length-set list.slots i none, v.granted);
              beyond = λ j above. elim (Bool-cases (ltb j list.end_index)) [
                | inl below ↦
                    shrink-above (set list.slots i none) list.end_index j above (ground arith)
                | inr high ↦ there j ∙ (elim (Bool-cases (i == j)) [
                  | inl same ↦ rw same refl
                  | inr other ↦ rw other (v.beyond j (ground arith))
                ])
              ];
              highest = λ k e. shrink-highest (set list.slots i none) list.end_index k e;
            },
            there,
          )
