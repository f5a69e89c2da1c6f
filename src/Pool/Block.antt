-- ===== src/Pool/Block.antt =====
-- What a pool owns after `Grow`.
use storm_net.Prelude.{
  ℕ, ◌+◌, ◌-◌, ◌^◌, ◌<◌, ◌≤◌, ◌≡◌, List, [], ◌∷◌, false, ◌==◌, ℕ_discrete, dec_lt, arith,
}
use storm_net.Pool.{Pool, store, grow, elem_size, elems_per_block}
use storm_net.Pool.Chain.{times, times-head, hit, hit-inside, hit-below, hit-le, cover, Chain-push}
use storm_net.Pool.Grow.{
  onto, extent, extent_product, hits, cover-onto, hits-below, hits-inside, hits-le, thread-Chain,
  thread-keeps,
}
use storm_net.Pool.Ownership.{Owns, Fresh, Fresh-absent}
use native.Mathlib.Nat.{div-mul-le_self}

-- The size of an element is the larger one of the two.
pub elem_size-ge : (size_of : ℕ) → (size_of ≤ elem_size size_of) × (8 ≤ elem_size size_of)
unfolding elem_size
elem_size-ge size_of = ground arith

module _ (block_size size_of : ℕ) (some_elems : 0 < elems_per_block block_size size_of) where
  -- The elements of a block end within it.
  fits : 8 + extent (elem_size size_of) (elems_per_block block_size size_of) ≤ block_size
  unfolding elems_per_block
  fits =
      let size = elem_size size_of in
      let bytes = extent_product size (elems_per_block block_size size_of) in
      let whole = div-mul-le_self (block_size - 8) size in
      elim (dec_lt 8 block_size) [
        | yes room ↦ omega (arith, bytes, whole, room)
        | no short ↦ absurd (ground (arith, short, some_elems))
      ]

  -- A byte of a new block is at most in one place.
  new-apart :
      (blocks free live : List ℕ) (p : Pool) (block x : ℕ)
      → Owns block_size (elem_size size_of) blocks free live p
      → Fresh block_size blocks block
      → hits (elem_size size_of) x (elems_per_block block_size size_of) (block + 8)
          + (cover (elem_size size_of) x free
              + (cover (elem_size size_of) x live + cover 8 x (block ∷ blocks)))
        ≤ 1
  new-apart blocks free live p block x o fresh =
      let size = elem_size size_of in
      let n = elems_per_block block_size size_of in
      let absent = λ (low : block ≤ x) (high : x < block + block_size).
        Fresh-absent block_size size blocks free live p block x (omega (arith, fits)) o fresh low
          high in
      elim (dec_lt 0 (hits size x n (block + 8))) [
        | yes there ↦
            let (low, high) = hits-inside size x n (block + 8) there in
            omega (
              arith,
              absent (omega (arith, low)) (omega (arith, high, fits)),
              hits-le size x n (block + 8),
              front-beyond x block low,
            )
        | no miss ↦ elim (dec_lt 0 (hit 8 x block)) [
          | yes front ↦
              let (low, high) = hit-inside 8 x block front in
              omega (arith, absent low (omega (arith, high, fits)), hit-le 8 x block, miss)
          | no other ↦ omega (arith, o.apart x, miss, other)
        ]
      ]
    where
      front-beyond : (x block : ℕ) → block + 8 ≤ x → hit 8 x block ≡ 0
      front-beyond x block h = ground (arith, h)

  pub grow-Owns :
      (blocks live : List ℕ) (p : Pool) (block : ℕ)
      → Owns block_size (elem_size size_of) blocks [] live p
      → Fresh block_size blocks block
      → Owns block_size
          (elem_size size_of)
          (block ∷ blocks)
          (onto (elem_size size_of) (elems_per_block block_size size_of) (block + 8) [])
          live
          (grow block_size size_of block p)
  unfolding grow
  grow-Owns blocks live p block o fresh =
      let size = elem_size size_of in
      let pointer = (elem_size-ge size_of).1 in
      let n = elems_per_block block_size size_of in
      let count = λ (x : ℕ). cover-onto size x n (block + 8) [] in
      let all = λ (x : ℕ). new-apart blocks [] live p block x o fresh in
      let memory = store block p.first_block p.memory in
      let absent = λ (x : ℕ) (low : block ≤ x) (high : x < block + 8).
        Fresh-absent block_size size blocks [] live p block x (omega (arith, fits)) o fresh low
          (omega (arith, high, fits)) in
      record {
        chain_free =
            thread-Chain size pointer n (block + 8) p.current memory []
              (omega (arith, o.chain_free)) (omega (arith, fresh.1, fits))
              (λ x. omega (arith, hits-le size x n (block + 8))) o.chain_free;
        chain_blocks =
            thread-keeps size pointer n (block + 8) p.current memory block (block ∷ blocks)
              (λ x h. omega (arith, all x, h))
              (Chain-push block p.memory p.first_block blocks (first-small blocks live p o)
                (λ x low high. omega (arith, absent x low high)) o.chain_blocks);
        apart = λ x. omega (arith, count x, all x);
        not_null = omega (
          arith,
          count 0,
          o.not_null,
          hit-below 8 0 block fresh.0,
          hits-below size 0 n (block + 8) (omega arith),
        );
        inside = λ x h. elim (dec_lt 0 (hits size x n (block + 8))) [
          | yes there ↦
              let (low, high) = hits-inside size x n (block + 8) there in
              (
                block,
                omega (arith, times-head block blocks),
                omega (arith, low),
                omega (arith, high, fits),
              )
          | no miss ↦
              let (b, known, from, to) = o.inside x (omega (arith, h, miss, count x)) in
              (b, omega (arith, known), from, to)
        ];
        in_memory = λ b h. elim (ℕ_discrete b block) [
          | yes new ↦ omega (arith, new, fresh.1)
          | no old ↦ o.in_memory b (known_before b block blocks old h)
        ];
        counted = o.counted;
      }
    where
      known_before :
          (b block : ℕ) (blocks : List ℕ)
          → (b ≡ block → ⊥)
          → 0 < times b (block ∷ blocks)
          → 0 < times b blocks
      known_before b block blocks old h =
          let other : (b == block) ≡ false = ground (arith, old) in
          let h' = rw other at h in omega (arith, h')

      first-small :
          (blocks live : List ℕ) (p : Pool)
          → Owns block_size (elem_size size_of) blocks [] live p
          → p.first_block < 2 ^ 64
      first-small [] live p o = omega (arith, o.chain_blocks)
      first-small (b ∷ blocks) live p o =
          let bound = o.in_memory b (omega (arith, times-head b blocks)) in
          omega (arith, o.chain_blocks.0, bound, fits)
