-- ===== src/Pool/Chain.antt =====
-- Lists that are linked through memory, and the bytes that they cover.
use storm_net.Prelude.{
  ℕ, zero, suc, ◌+◌, ◌^◌, ◌<◌, ◌≤◌, ◌≡◌, refl, List, [], ◌∷◌, true, false, Bool-cases, inl, inr,
  ◌==◌, leb, ltb, ◌&&◌, if◌then◌else◌, length, dec_lt, arith,
}
use storm_net.Result.{ok}
use storm_net.Pool.{store, fetch, free_blocks}
use storm_net.Pool.Memory.{store-elsewhere, fetch-store, load-same}

-- How often an address is in a list.
abbrev pub times : ℕ → List ℕ → ℕ
times x [] = 0
times x (y ∷ ys) = (if x == y then 1 else 0) + times x ys

-- Whether a byte is one of the `size` bytes from an address on.
abbrev pub hit : ℕ → ℕ → ℕ → ℕ
hit size x y = if leb y x && ltb x (y + size) then 1 else 0

-- In how many of the pieces of memory of that size a byte is.
abbrev pub cover : ℕ → ℕ → List ℕ → ℕ
cover size x [] = 0
cover size x (y ∷ ys) = hit size x y + cover size x ys

pub hit-in : (size x y : ℕ) → y ≤ x → x < y + size → hit size x y ≡ 1
hit-in size x y low high = ground (arith, low, high)

pub hit-below : (size x y : ℕ) → x < y → hit size x y ≡ 0
hit-below size x y h = ground (arith, h)

pub hit-beyond : (size x y : ℕ) → y + size ≤ x → hit size x y ≡ 0
hit-beyond size x y h = ground (arith, h)

pub hit-le : (size x y : ℕ) → hit size x y ≤ 1
hit-le size x y = ground arith

pub hit-inside : (size x y : ℕ) → 0 < hit size x y → (y ≤ x) × (x < y + size)
hit-inside size x y h = ground (arith, h)

-- A larger piece covers more.
hit-grows : (size more x y : ℕ) → size ≤ more → hit size x y ≤ hit more x y
hit-grows size more x y h = ground (arith, h)

pub cover-grows : (size more x : ℕ) (xs : List ℕ) → size ≤ more → cover size x xs ≤ cover more x xs
cover-grows size more x [] h = omega arith
cover-grows size more x (y ∷ ys) h =
    omega (arith, hit-grows size more x y h, cover-grows size more x ys h)

pub times-head : (x : ℕ) (xs : List ℕ) → times x (x ∷ xs) ≡ suc (times x xs)
times-head x xs = let same : (x == x) ≡ true = ground arith in rw same (omega arith)

-- A byte that is covered is in one of the pieces.
pub cover-times :
    (size x : ℕ) (xs : List ℕ)
    → 0 < cover size x xs
    → (y : ℕ) × (0 < times y xs) × (y ≤ x) × (x < y + size)
cover-times size x [] h = absurd (omega arith)
cover-times size x (y ∷ ys) h = elim (dec_lt 0 (hit size x y)) [
  | yes here ↦
      let (low, high) = hit-inside size x y here in (y, omega (arith, times-head y ys), low, high)
  | no elsewhere ↦
      let (z, there, low, high) = cover-times size x ys (omega (arith, h, elsewhere)) in
      (z, omega (arith, there), low, high)
]

-- The pointer, and those that are stored at each address, lead through the list and then nowhere.
abbrev pub Chain : (ℕ → ℕ) → ℕ → List ℕ → Type 0
Chain memory p [] = p ≡ 0
Chain memory p (x ∷ xs) = (p ≡ x) × Chain memory (fetch memory x) xs

-- A memory that is the same in the pointers of the list links it in the same way.
pub Chain-same :
    (memory memory' : ℕ → ℕ) (p : ℕ) (xs : List ℕ)
    → ((x : ℕ) → 0 < cover 8 x xs → memory' x ≡ memory x)
    → Chain memory p xs
    → Chain memory' p xs
Chain-same memory memory' p [] same c = c
Chain-same memory memory' p (x ∷ xs) same c =
    let next =
      load-same memory memory' x 8 (λ y low high. same y (omega (arith, hit-in 8 y x low high))) in
    (
      c.0,
      Chain-same memory memory' (fetch memory' x) xs (λ y h. same y (omega (arith, h)))
          (rw next c.1),
    )

pub Chain-store :
    (a v : ℕ) (memory : ℕ → ℕ) (p : ℕ) (xs : List ℕ)
    → ((x : ℕ) → a ≤ x → x < a + 8 → cover 8 x xs ≡ 0)
    → Chain memory p xs
    → Chain (store a v memory) p xs
Chain-store a v memory p xs apart c =
    Chain-same memory (store a v memory) p xs
      (λ x h. elim (dec_lt x a) [
        | yes below ↦ store-elsewhere a v memory x (inl below)
        | no above ↦ elim (dec_lt x (a + 8)) [
          | yes inside ↦ absurd (omega (arith, h, apart x (omega arith) inside))
          | no behind ↦ store-elsewhere a v memory x (inr (omega arith))
        ]
      ])
      c

-- In front of a chain.
pub Chain-push :
    (a : ℕ) (memory : ℕ → ℕ) (p : ℕ) (xs : List ℕ)
    → p < 2 ^ 64
    → ((x : ℕ) → a ≤ x → x < a + 8 → cover 8 x xs ≡ 0)
    → Chain memory p xs
    → Chain (store a p memory) a (a ∷ xs)
Chain-push a memory p xs small apart c =
    (refl, rw (fetch-store a p memory small) (Chain-store a p memory p xs apart c))

-- A loop along a chain sees its elements in order and ends.
pub free_blocks-Chain :
    (memory : ℕ → ℕ) (p : ℕ) (xs : List ℕ) (fuel : ℕ)
    → cover 8 0 xs ≡ 0
    → length xs < fuel
    → Chain memory p xs
    → free_blocks fuel p memory ≡ ok xs
unfolding free_blocks
free_blocks-Chain memory p xs zero some_null enough c = absurd (omega arith)
free_blocks-Chain memory p [] (suc fuel) some_null enough c =
    let null : (p == 0) ≡ true = ground (arith, c) in rw null refl
free_blocks-Chain memory p (x ∷ xs) (suc fuel) some_null enough c = elim (Bool-cases (x == 0)) [
  | inl null ↦
      let e : x ≡ 0 = ground arith in
      absurd (omega (arith, some_null, hit-in 8 0 x (omega (arith, e)) (omega arith)))
  | inr live ↦
      let at : (p == 0) ≡ false = ground (arith, c.0, live) in
      let rest =
        free_blocks-Chain memory (fetch memory x) xs fuel (omega (arith, some_null)) (omega arith)
          c.1 in
      rw (at, c.0, rest) refl
]
