-- ===== src/Pool/Memory.antt =====
-- Pointers in memory.
use storm_net.Prelude.{
  ℕ, zero, suc, ◌+◌, ◌*◌, ◌/◌, ◌%◌, ◌^◌, ◌≤◌, ◌<◌, ◌≡◌, ◌⊎◌, inl, inr, refl, ◌∙◌, true, false, ◌==◌,
  if◌then◌else◌, arith,
}
use storm_net.BitReader.{load}
use storm_net.Pool.{store_bytes, store, fetch}

-- How many words there are of `n` bytes.
abbrev words : ℕ → ℕ
words zero = 1
words (suc n) = 256 * words n

store_bytes-elsewhere :
    (n a w : ℕ) (memory : ℕ → ℕ) (at : ℕ)
    → (at < a) ⊎ (a + n ≤ at)
    → store_bytes n a w memory at ≡ memory at
unfolding store_bytes
store_bytes-elsewhere zero a w memory at outside = refl
store_bytes-elsewhere (suc n) a w memory at (inl before) =
    let other : (at == a) ≡ false = ground arith in
    store_bytes-elsewhere n (a + 1) (w / 256) _ at (inl (omega arith)) ∙ rw other refl
store_bytes-elsewhere (suc n) a w memory at (inr behind) =
    let other : (at == a) ≡ false = ground arith in
    store_bytes-elsewhere n (a + 1) (w / 256) _ at (inr (omega arith)) ∙ rw other refl

load-store_bytes :
    (n a w : ℕ) (memory : ℕ → ℕ) → w < words n → load (store_bytes n a w memory) a n ≡ w
unfolding load store_bytes
load-store_bytes zero a w memory h = omega arith
load-store_bytes (suc n) a w memory h =
    let first = λ (at : ℕ). if at == a then w % 256 else memory at in
    let here : (a == a) ≡ true = ground arith in
    let low : store_bytes n (a + 1) (w / 256) first a ≡ w % 256 =
      store_bytes-elsewhere n (a + 1) (w / 256) first a (inl (omega arith)) ∙ rw here refl in
    omega (arith, low, load-store_bytes n (a + 1) (w / 256) first (omega arith))

pub store-elsewhere :
    (a w : ℕ) (memory : ℕ → ℕ) (at : ℕ) → (at < a) ⊎ (a + 8 ≤ at) → store a w memory at ≡ memory at
unfolding store
store-elsewhere a w memory at outside = store_bytes-elsewhere 8 a w memory at outside

pub fetch-store : (a w : ℕ) (memory : ℕ → ℕ) → w < 2 ^ 64 → fetch (store a w memory) a ≡ w
unfolding store
fetch-store a w memory h = load-store_bytes 8 a w memory (omega arith)

pub load-same :
    (memory memory' : ℕ → ℕ) (a n : ℕ)
    → ((x : ℕ) → a ≤ x → x < a + n → memory' x ≡ memory x)
    → load memory' a n ≡ load memory a n
unfolding load
load-same memory memory' a zero same = refl
load-same memory memory' a (suc n) same = omega (
  arith,
  same a (omega arith) (omega arith),
  load-same memory memory' (a + 1) n (λ x low high. same x (omega arith) (omega arith)),
)
