-- ===== src/Pool/Grow.antt =====
-- The elements of a new block.
use storm_net.Prelude.{
  ℕ, zero, suc, ◌+◌, ◌*◌, ◌^◌, ◌<◌, ◌≤◌, ◌≡◌, refl, ◌∙◌, List, ◌∷◌, inl, inr, dec_lt, arith,
}
use storm_net.Pool.{store, thread}
use storm_net.Pool.Memory.{store-elsewhere}
use storm_net.Pool.Chain.{
  hit, cover, hit-in, hit-below, hit-beyond, hit-le, cover-grows, Chain, Chain-same, Chain-push,
}

module _ (size : ℕ) where
  -- The free elements after the loop.
  abbrev pub onto : ℕ → ℕ → List ℕ → List ℕ
  onto zero elem free = free
  onto (suc n) elem free = onto n (elem + size) (elem ∷ free)

  -- How many bytes the elements take.
  abbrev pub extent : ℕ → ℕ
  extent zero = 0
  extent (suc n) = size + extent n

  -- In how many of the new elements a byte is.
  abbrev pub hits : ℕ → ℕ → ℕ → ℕ
  hits x zero elem = 0
  hits x (suc n) elem = hit size x elem + hits x n (elem + size)

  -- There is a first one.
  pub onto-cons :
      (n elem : ℕ) (free : List ℕ) → (x : ℕ) × (xs : List ℕ) × (onto (suc n) elem free ≡ x ∷ xs)
  onto-cons zero elem free = (elem, free, refl)
  onto-cons (suc n) elem free = onto-cons n (elem + size) (elem ∷ free)

  pub cover-onto :
      (x n elem : ℕ) (free : List ℕ)
      → cover size x (onto n elem free) ≡ hits x n elem + cover size x free
  cover-onto x zero elem free = omega arith
  cover-onto x (suc n) elem free = omega (arith, cover-onto x n (elem + size) (elem ∷ free))

  pub extent_product : (n : ℕ) → extent n ≡ n * size
  extent_product zero = omega arith
  extent_product (suc n) = omega (arith, extent_product n)

  pub hits-below : (x n elem : ℕ) → x < elem → hits x n elem ≡ 0
  hits-below x zero elem h = refl
  hits-below x (suc n) elem h =
      omega (arith, hit-below size x elem h, hits-below x n (elem + size) (omega arith))

  hits-beyond : (x n elem : ℕ) → elem + extent n ≤ x → hits x n elem ≡ 0
  hits-beyond x zero elem h = refl
  hits-beyond x (suc n) elem h =
      omega
        (arith, hit-beyond size x elem (omega arith), hits-beyond x n (elem + size) (omega arith))

  pub hits-inside : (x n elem : ℕ) → 0 < hits x n elem → (elem ≤ x) × (x < elem + extent n)
  hits-inside x n elem h = (
    elim (dec_lt x elem) [
      | yes below ↦ absurd (omega (arith, h, hits-below x n elem below))
      | no above ↦ omega (arith, above)
    ],
    elim (dec_lt x (elem + extent n)) [
      | yes below ↦ below
      | no above ↦ absurd (omega (arith, h, hits-beyond x n elem (omega (arith, above))))
    ],
  )

  -- No byte is in two of them.
  pub hits-le : (x n elem : ℕ) → hits x n elem ≤ 1
  hits-le x zero elem = omega arith
  hits-le x (suc n) elem = elim (dec_lt x (elem + size)) [
    | yes low ↦ omega (arith, hit-le size x elem, hits-below x n (elem + size) low)
    | no high ↦ omega (arith, hit-beyond size x elem (omega arith), hits-le x n (elem + size))
  ]

  module _ (pointer : 8 ≤ size) where
    thread-elsewhere :
        (n elem current : ℕ) (memory : ℕ → ℕ) (x : ℕ)
        → hits x n elem ≡ 0
        → (thread size n elem current memory).1 x ≡ memory x
    unfolding thread
    thread-elsewhere zero elem current memory x h = refl
    thread-elsewhere (suc n) elem current memory x h =
        thread-elsewhere n (elem + size) elem (store elem current memory) x (omega (arith, h))
        ∙ (elim (dec_lt x elem) [
          | yes below ↦ store-elsewhere elem current memory x (inl below)
          | no above ↦ elim (dec_lt x (elem + 8)) [
            | yes inside ↦ absurd (omega (arith, h, hit-in size x elem (omega arith) (omega arith)))
            | no behind ↦ store-elsewhere elem current memory x (inr (omega arith))
          ]
        ])

    pub thread-Chain :
        (n elem current : ℕ) (memory : ℕ → ℕ) (free : List ℕ)
        → current < 2 ^ 64
        → elem + extent n ≤ 2 ^ 64
        → ((x : ℕ) → hits x n elem + cover size x free ≤ 1)
        → Chain memory current free
        → Chain
            (thread size n elem current memory).1
            (thread size n elem current memory).0
            (onto n elem free)
    unfolding thread
    thread-Chain zero elem current memory free small inside apart c = c
    thread-Chain (suc n) elem current memory free small inside apart c =
        thread-Chain n (elem + size) elem (store elem current memory) (elem ∷ free) (omega arith)
          (omega arith) (λ x. omega (arith, apart x))
          (Chain-push elem memory current free small
            (λ x low high. omega (
              arith,
              apart x,
              hit-in size x elem low (omega arith),
              cover-grows 8 size x free pointer,
            ))
            c)

    -- A list without the new elements stays linked.
    pub thread-keeps :
        (n elem current : ℕ) (memory : ℕ → ℕ) (p : ℕ) (xs : List ℕ)
        → ((x : ℕ) → 0 < cover 8 x xs → hits x n elem ≡ 0)
        → Chain memory p xs
        → Chain (thread size n elem current memory).1 p xs
    thread-keeps n elem current memory p xs apart c =
        Chain-same memory (thread size n elem current memory).1 p xs
          (λ x h. thread-elsewhere n elem current memory x (apart x h)) c
