-- ===== src/SparseList/Compress.antt =====
-- NetReflectionSparseList.h: `Compress` and `Copy`.
use mathlib.Core.Path.{fun_ext}
use storm_net.Prelude.{
  ℕ, zero, suc, ◌+◌, ◌-◌, ◌≤◌, ◌≡◌, refl, sym, ap, ◌∙◌, List, [], ◌∷◌, ◌++◌, append_assoc,
  append-nil, true, false, ltb, Bool-cases, inl, inr, length, length-append, length-replicate, set,
  map, replicate, Option, none, some, arith,
}
use storm_net.Result.{ok}
use storm_net.SparseList.{SparseList, at, copy, try_get, grow_to}
use storm_net.SparseList.Contents.{IsValid, try_get-function, Grown-IsValid}
use storm_net.SparseList.Grow.{grow_to-GrowsTo}

-- The loop over the slots that are left; `empty_index` is -1 or the first free slot.
pub compress_loop {ℓ} : {T : Type ℓ} → ℕ → ℕ → Option ℕ → List (Option T) → List (Option T)
compress_loop zero index empty_index slots = slots
compress_loop (suc remaining) index empty_index slots = elim (at slots index) [
  | some t ↦ elim empty_index [
    | some free ↦
        compress_loop remaining (index + 1) (some (free + 1))
          (set (set slots free (some t)) index none)
    | none ↦ compress_loop remaining (index + 1) none slots
  ]
  | none ↦ elim empty_index [
    | some free ↦ compress_loop remaining (index + 1) (some free) slots
    | none ↦ compress_loop remaining (index + 1) (some index) slots
  ]
]

unfoldable pub compress : {T : Type 0} → SparseList T → SparseList T
unfolding compress_loop
compress list = record {
  slots = compress_loop (length list.slots) 0 none list.slots;
  end_index = list.end_index;
}

-- The values in the order of their slots.
abbrev pub values {ℓ} : {T : Type ℓ} → List (Option T) → List T
values [] = []
values (none ∷ slots) = values slots
values (some t ∷ slots) = t ∷ values slots

abbrev first_free : ℕ → ℕ → Option ℕ
first_free front zero = none
first_free front (suc gap) = some front

module _ {T : Type 0} where
  abbrev no_slot : Option T
  no_slot = none

  abbrev free_slots : ℕ → List (Option T)
  free_slots n = replicate n none

  at-behind :
      (xs ys : List (Option T)) (x : Option T) (i : ℕ) → i ≡ length xs → at (xs ++ x ∷ ys) i ≡ x
  at-behind [] ys x i e = rw e refl
  at-behind (y ∷ xs) ys x i e = rw e (at-behind xs ys x (length xs) refl)

  set-behind :
      (xs ys : List (Option T)) (x y : Option T) (i : ℕ)
      → i ≡ length xs
      → set (xs ++ x ∷ ys) i y ≡ xs ++ y ∷ ys
  set-behind [] ys x y i e = rw e refl
  set-behind (z ∷ xs) ys x y i e =
      rw e (ap (λ (l : List (Option T)). z ∷ l) (set-behind xs ys x y (length xs) refl))

  free_slots-last :
      (n : ℕ) (xs : List (Option T)) → free_slots n ++ none ∷ xs ≡ none ∷ free_slots n ++ xs
  free_slots-last zero xs = refl
  free_slots-last (suc n) xs = ap (λ (l : List (Option T)). none ∷ l) (free_slots-last n xs)

  at-rest :
      (front rest : List (Option T)) (gap index : ℕ) (x : Option T)
      → index ≡ length front + gap
      → at (front ++ (free_slots gap ++ x ∷ rest)) index ≡ x
  at-rest front rest gap index x e =
      ap (λ (l : List (Option T)). at l index)
        (sym (append_assoc front (free_slots gap) (x ∷ rest)))
      ∙ at-behind (front ++ free_slots gap) rest x index
          (omega (arith, length-append front (free_slots gap), length-replicate gap no_slot))

  free-first :
      (n i : ℕ) (slots : List (Option T))
      → at slots i ≡ none
      → compress_loop (suc n) i none slots ≡ compress_loop n (i + 1) (some i) slots
  unfolding compress_loop
  free-first n i slots e = rw (compress_loop, e) refl

  free-later :
      (n i free : ℕ) (slots : List (Option T))
      → at slots i ≡ none
      → compress_loop (suc n) i (some free) slots ≡ compress_loop n (i + 1) (some free) slots
  unfolding compress_loop
  free-later n i free slots e = rw (compress_loop, e) refl

  taken-in_place :
      (n i : ℕ) (slots : List (Option T)) (t : T)
      → at slots i ≡ some t
      → compress_loop (suc n) i none slots ≡ compress_loop n (i + 1) none slots
  unfolding compress_loop
  taken-in_place n i slots t e = rw (compress_loop, e) refl

  taken-moves :
      (n i free : ℕ) (slots : List (Option T)) (t : T)
      → at slots i ≡ some t
      → compress_loop (suc n) i (some free) slots
        ≡ compress_loop n (i + 1) (some (free + 1)) (set (set slots free (some t)) i none)
  unfolding compress_loop
  taken-moves n i free slots t e = rw (compress_loop, e) refl

  -- The values in order, and behind them the free slots, `gap` of them from before.
  abbrev pub packed : ℕ → List (Option T) → List (Option T)
  packed gap [] = free_slots gap
  packed gap (none ∷ rest) = packed (suc gap) rest
  packed gap (some t ∷ rest) = some t ∷ packed gap rest

  moved :
      (front rest : List (Option T)) (gap index : ℕ) (t : T)
      → index ≡ length front + suc gap
      → set
          (set (front ++ (free_slots (suc gap) ++ some t ∷ rest)) (length front) (some t))
          index
          none
        ≡ (front ++ some t ∷ []) ++ (free_slots (suc gap) ++ rest)
  moved front rest gap index t e =
      ap (λ (l : List (Option T)). set l index none)
        (set-behind front (free_slots gap ++ some t ∷ rest) none (some t) (length front) refl
          ∙ sym (append_assoc front (some t ∷ free_slots gap) (some t ∷ rest)))
      ∙ set-behind (front ++ some t ∷ free_slots gap) rest (some t) none index (
          omega
            (arith, length-append front (some t ∷ free_slots gap), length-replicate gap no_slot))
      ∙ append_assoc front (some t ∷ free_slots gap) (none ∷ rest)
      ∙ ap (λ (l : List (Option T)). front ++ some t ∷ l) (free_slots-last gap rest)
      ∙ sym (append_assoc front (some t ∷ []) (free_slots (suc gap) ++ rest))

  -- Values at the front, free slots behind them, and the slots that are left.
  compress_loop-packs :
      (rest front : List (Option T)) (gap index : ℕ)
      → index ≡ length front + gap
      → compress_loop
          (length rest)
          index
          (first_free (length front) gap)
          (front ++ (free_slots gap ++ rest))
        ≡ front ++ packed gap rest
  unfolding compress_loop
  compress_loop-packs [] front gap index e =
      ap (λ (l : List (Option T)). front ++ l) (append-nil (free_slots gap))
  compress_loop-packs (none ∷ rest) front zero index e =
      free-first (length rest) index (front ++ none ∷ rest) (at-rest front rest 0 index none e)
      ∙ ap (λ (m : ℕ). compress_loop (length rest) (index + 1) (some m) (front ++ none ∷ rest))
          (omega arith)
      ∙ compress_loop-packs rest front 1 (index + 1) (omega arith)
  compress_loop-packs (none ∷ rest) front (suc gap) index e =
      free-later (length rest) index (length front) (front ++ (free_slots (suc gap) ++ none ∷ rest))
        (at-rest front rest (suc gap) index none e)
      ∙ ap
          (λ (l : List (Option T)).
            compress_loop (length rest) (index + 1) (some (length front)) (front ++ l))
          (free_slots-last (suc gap) rest)
      ∙ compress_loop-packs rest front (suc (suc gap)) (index + 1) (omega arith)
  compress_loop-packs (some t ∷ rest) front zero index e =
      taken-in_place (length rest) index (front ++ some t ∷ rest) t
        (at-rest front rest 0 index (some t) e)
      ∙ ap (compress_loop (length rest) (index + 1) none)
          (sym (append_assoc front (some t ∷ []) rest))
      ∙ compress_loop-packs rest (front ++ some t ∷ []) zero (index + 1)
          (omega (arith, length-append front (some t ∷ [])))
      ∙ append_assoc front (some t ∷ []) (packed 0 rest)
  compress_loop-packs (some t ∷ rest) front (suc gap) index e =
      taken-moves (length rest) index (length front)
        (front ++ (free_slots (suc gap) ++ some t ∷ rest)) t
        (at-rest front rest (suc gap) index (some t) e)
      ∙ ap (compress_loop (length rest) (index + 1) (some (length front + 1)))
          (moved front rest gap index t e)
      ∙ ap
          (λ (m : ℕ).
            compress_loop (length rest) (index + 1) (some m)
              ((front ++ some t ∷ []) ++ (free_slots (suc gap) ++ rest)))
          (omega (arith, length-append front (some t ∷ [])))
      ∙ compress_loop-packs rest (front ++ some t ∷ []) (suc gap) (index + 1)
          (omega (arith, length-append front (some t ∷ [])))
      ∙ append_assoc front (some t ∷ []) (packed (suc gap) rest)

  packed-values :
      (gap : ℕ) (slots : List (Option T))
      → packed gap slots
        ≡ map some (values slots) ++ free_slots (gap + length slots - length (values slots))
  packed-values gap [] = ap free_slots (omega arith)
  packed-values gap (none ∷ slots) =
      packed-values (suc gap) slots
      ∙ ap (λ (n : ℕ). map some (values slots) ++ free_slots n) (omega arith)
  packed-values gap (some t ∷ slots) =
      ap (λ (l : List (Option T)). some t ∷ l)
        (packed-values gap slots
          ∙ ap (λ (n : ℕ). map some (values slots) ++ free_slots n) (omega arith))

-- `Compress` moves the values to the front of the array, in their order, and leaves every slot behind
-- them free; the highest index stays what it was, also where it has no value any more.
pub compress_lem :
    {T : Type 0} (list : SparseList T)
    → ((compress list).slots
        ≡ map some (values list.slots)
          ++ replicate (length list.slots - length (values list.slots)) none)
      × ((compress list).end_index ≡ list.end_index)
unfolding compress
compress_lem list = (
  compress_loop-packs list.slots [] 0 0 (omega arith)
      ∙ packed-values 0 list.slots
      ∙ ap (λ (n : ℕ). map some (values list.slots) ++ replicate n none)
          {x = 0 + length list.slots - length (values list.slots)} (omega arith),
  refl,
)

copy-grow_to-small :
    {T : Type 0} (limit : ℕ) (list rhs : SparseList T)
    → ltb (length list.slots) rhs.end_index ≡ true
    → ltb limit (length rhs.slots) ≡ false
    → copy limit list rhs ≡ grow_to limit (length rhs.slots) rhs
unfolding copy grow_to
copy-grow_to-small limit list rhs small granted = rw (small, granted) refl

copy-grow_to-enough :
    {T : Type 0} (limit : ℕ) (list rhs : SparseList T)
    → ltb (length list.slots) rhs.end_index ≡ false
    → ltb limit (length list.slots) ≡ false
    → copy limit list rhs ≡ grow_to limit (length list.slots) rhs
unfolding copy grow_to
copy-grow_to-enough limit list rhs enough granted = rw (enough, granted) refl

copied :
    {T : Type 0} (limit n : ℕ) (list rhs : SparseList T)
    → IsValid limit rhs
    → rhs.end_index ≤ n
    → n ≤ limit
    → ((list' : SparseList T) → grow_to limit n rhs ≡ ok list' → copy limit list rhs ≡ ok list')
    → (list' : SparseList T) × (copy limit list rhs ≡ ok list')
      × IsValid limit list'
      × (try_get list' ≡ try_get rhs)
copied limit n list rhs v room h same = elim (grow_to-GrowsTo limit n rhs v.within room) [
  | inl (over, _) ↦ absurd (omega arith)
  | inr (_, (list', e, g)) ↦
      let (valid, holds) = Grown-IsValid limit n rhs list' v g h room in
      (
        list',
        same list' e,
        valid,
        try_get-function limit list' valid ∙ fun_ext holds ∙ sym (try_get-function limit rhs v),
      )
]

-- `Copy` of a well-formed list, into one whose array is not larger than `malloc` grants, returns, and
-- makes the list well-formed and hold what the other holds.
pub copy-Becomes :
    {T : Type 0} (limit : ℕ) (list rhs : SparseList T)
    → length list.slots ≤ limit
    → IsValid limit rhs
    → (list' : SparseList T) × (copy limit list rhs ≡ ok list')
      × IsValid limit list'
      × (try_get list' ≡ try_get rhs)
copy-Becomes limit list rhs h v = elim (Bool-cases (ltb (length list.slots) rhs.end_index)) [
  | inl small ↦
      let granted : ltb limit (length rhs.slots) ≡ false = ground (arith, v.granted) in
      copied limit (length rhs.slots) list rhs v v.within v.granted
        (λ list' e. copy-grow_to-small limit list rhs small granted ∙ e)
  | inr enough ↦
      copied limit (length list.slots) list rhs v (ground (arith, enough)) h
        (λ list' e. copy-grow_to-enough limit list rhs enough (ground (arith, h)) ∙ e)
]
