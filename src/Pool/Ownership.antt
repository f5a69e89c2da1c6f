-- ===== src/Pool/Ownership.antt =====
-- What a pool has handed out, what it keeps for later, and what it has from `malloc`.
use storm_net.Prelude.{
  ℕ, suc, ◌+◌, ◌-◌, ◌^◌, ◌<◌, ◌≤◌, ◌≡◌, refl, ap, List, [], ◌∷◌, Bool-cases, ◌⊎◌, inl, inr, ◌==◌,
  if◌then◌else◌, length, ℕ_discrete, dec_lt, arith,
}
use storm_net.Pool.{Pool, empty_pool, store, fetch}
use storm_net.Pool.Chain.{
  times, hit, hit-in, cover, cover-grows, cover-times, Chain, Chain-same, Chain-store, Chain-push,
}

-- A list without one occurrence of an address.
abbrev pub without : ℕ → List ℕ → List ℕ
without t [] = []
without t (x ∷ xs) = if t == x then xs else x ∷ without t xs

cover-without :
    (size x t : ℕ) (xs : List ℕ)
    → 0 < times t xs
    → cover size x xs ≡ cover size x (without t xs) + hit size x t
cover-without size x t [] h = absurd (omega arith)
cover-without size x t (y ∷ ys) h = elim (Bool-cases (t == y)) [
  | inl same ↦
      let e : t ≡ y = ground arith in
      rw same (omega (arith, ap {B = ℕ} (λ (z : ℕ). hit size x z) e))
  | inr other ↦ rw other (
      let there : 0 < times t ys = (let h' = rw other at h in omega (arith, h')) in
      omega (arith, cover-without size x t ys there))
]

length-without : (t : ℕ) (xs : List ℕ) → 0 < times t xs → length xs ≡ suc (length (without t xs))
length-without t [] h = absurd (omega arith)
length-without t (y ∷ ys) h = elim (Bool-cases (t == y)) [
  | inl same ↦ rw same refl
  | inr other ↦ rw other (
      let there : 0 < times t ys = (let h' = rw other at h in omega (arith, h')) in
      omega (arith, length-without t ys there))
]

-- Inside one of the blocks.
abbrev pub Inside : ℕ → List ℕ → ℕ → Type 0
Inside block_size blocks x = (b : ℕ) × (0 < times b blocks) × (b ≤ x) × (x < b + block_size)

-- What `malloc` promises: an address that is not null, of memory that ends within the words of 64
-- bits and overlaps with no other block.
abbrev pub Fresh : ℕ → List ℕ → ℕ → Type 0
Fresh block_size blocks block =
    (0 < block)
    × (block + block_size ≤ 2 ^ 64)
    × ((b : ℕ) → 0 < times b blocks → (b + block_size ≤ block) ⊎ (block + block_size ≤ b))

module _ (block_size size : ℕ) where
  pub record Owns (blocks free live : List ℕ) (p : Pool) : Type 0 where
    pub chain_free : Chain p.memory p.current free
    pub chain_blocks : Chain p.memory p.first_block blocks
    -- No byte is in two elements, or in an element and in the pointer at the front of a block.
    pub apart : (x : ℕ) → cover size x free + (cover size x live + cover 8 x blocks) ≤ 1
    pub not_null : cover size 0 free + (cover size 0 live + cover 8 0 blocks) ≡ 0
    pub inside : (x : ℕ) → 0 < cover size x free + cover size x live → Inside block_size blocks x
    pub in_memory : (b : ℕ) → 0 < times b blocks → b + block_size ≤ 2 ^ 64
    pub counted : p.allocated ≡ length live

  pub empty-Owns : (memory : ℕ → ℕ) → Owns [] [] [] (empty_pool memory)
  unfolding empty_pool
  empty-Owns memory = record {
    chain_free = refl;
    chain_blocks = refl;
    apart = λ x. omega arith;
    not_null = refl;
    inside = λ x h. absurd (omega arith);
    in_memory = λ b h. absurd (omega arith);
    counted = refl;
  }

  -- The first free element is handed out.
  pub take-Owns :
      (blocks live : List ℕ) (x : ℕ) (free : List ℕ) (p : Pool)
      → Owns blocks (x ∷ free) live p
      → Owns blocks free
          (x ∷ live)
          (record p { current = fetch p.memory x; allocated = p.allocated + 1 })
  take-Owns blocks live x free p o = record {
    chain_free = o.chain_free.1;
    chain_blocks = o.chain_blocks;
    apart = λ y. omega (arith, o.apart y);
    not_null = omega (arith, o.not_null);
    inside = λ y h. o.inside y (omega (arith, h));
    in_memory = o.in_memory;
    counted = omega (arith, o.counted);
  }

  pub use-Owns :
      (blocks free live : List ℕ) (memory : ℕ → ℕ) (p : Pool)
      → 8 ≤ size
      → ((x : ℕ) → cover size x live ≡ 0 → memory x ≡ p.memory x)
      → Owns blocks free live p
      → Owns blocks free live (record p { memory = memory })
  use-Owns blocks free live memory p pointer same o = record {
    chain_free =
        Chain-same p.memory memory p.current free
          (λ x h. same x (omega (arith, h, o.apart x, cover-grows 8 size x free pointer)))
          o.chain_free;
    chain_blocks =
        Chain-same p.memory memory p.first_block blocks
          (λ x h. same x (omega (arith, h, o.apart x))) o.chain_blocks;
    apart = o.apart;
    not_null = o.not_null;
    inside = o.inside;
    in_memory = o.in_memory;
    counted = o.counted;
  }

  -- The pointer to the first free element is a word.
  current-small :
      (blocks free live : List ℕ) (p : Pool)
      → 8 ≤ size
      → Owns blocks free live p
      → p.current < 2 ^ 64
  current-small blocks [] live p pointer o = omega (arith, o.chain_free)
  current-small blocks (x ∷ free) live p pointer o =
      let here = hit-in size x x (omega arith) (omega arith) in
      let (b, known, from, to) = o.inside x (omega (arith, here)) in
      omega (arith, o.chain_free.0, o.in_memory b known, from, to)

  pub give-Owns :
      (blocks free live : List ℕ) (t : ℕ) (p : Pool)
      → 8 ≤ size
      → 0 < times t live
      → Owns blocks free live p
      → Owns blocks (t ∷ free) (without t live) (record p {
        memory = store t p.current p.memory;
        allocated = p.allocated - 1;
        current = t;
      })
  give-Owns blocks free live t p pointer there o =
      let taken =
        λ (x : ℕ) (low : t ≤ x) (high : x < t + 8). hit-in size x t low (omega (arith, high)) in
      let split = λ (x : ℕ). cover-without size x t live there in
      record {
        chain_free =
            Chain-push t p.memory p.current free (current-small blocks free live p pointer o)
              (λ x low high.
                omega
                  (arith, o.apart x, taken x low high, split x, cover-grows 8 size x free pointer))
              o.chain_free;
        chain_blocks =
            Chain-store t p.current p.memory p.first_block blocks
              (λ x low high. omega (arith, o.apart x, taken x low high, split x)) o.chain_blocks;
        apart = λ x. omega (arith, o.apart x, split x);
        not_null = omega (arith, o.not_null, split 0);
        inside = λ x h. o.inside x (omega (arith, h, split x));
        in_memory = o.in_memory;
        counted = omega (arith, o.counted, length-without t live there);
      }

  -- A pool with a live element counts it.
  pub live-counted :
      (blocks free live : List ℕ) (t : ℕ) (p : Pool)
      → 0 < times t live
      → Owns blocks free live p
      → 0 < p.allocated
  live-counted blocks free live t p there o = omega (arith, o.counted, length-without t live there)

  -- A new block holds no byte that is known.
  pub Fresh-absent :
      (blocks free live : List ℕ) (p : Pool) (block x : ℕ)
      → 8 ≤ block_size
      → Owns blocks free live p
      → Fresh block_size blocks block
      → block ≤ x
      → x < block + block_size
      → cover size x free + (cover size x live + cover 8 x blocks) ≡ 0
  Fresh-absent blocks free live p block x room o fresh low high =
      elim (ℕ_discrete (cover size x free + (cover size x live + cover 8 x blocks)) 0) [
        | yes none_there ↦ none_there
        | no some_there ↦
            let (b, known, from, to) : Inside block_size blocks x =
              elim (dec_lt 0 (cover 8 x blocks)) [
                | yes in_front ↦
                    let (b, known, from, to) = cover-times 8 x blocks in_front in
                    (b, omega (arith, known), omega (arith, from), omega (arith, to))
                | no elsewhere ↦ o.inside x (omega (arith, some_there, elsewhere))
              ] in
            absurd (elim (fresh.2 b known) [
              | inl below ↦ omega (arith, below, low, high, from, to)
              | inr above ↦ omega (arith, above, low, high, from, to)
            ])
      ]
