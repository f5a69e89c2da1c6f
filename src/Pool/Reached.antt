-- ===== src/Pool/Reached.antt =====
-- Every pool that allocations, deallocations and writes to live elements lead to.
use storm_net.Prelude.{
  ℕ, zero, suc, ◌+◌, ◌^◌, ◌<◌, ◌≤◌, ◌≡◌, refl, sym, subst, List, [], ◌∷◌, true, false, ◌==◌, ltb,
  if◌then◌else◌, length, arith,
}
use storm_net.Result.{ok, err, assertion_failed}
use storm_net.Pool.{
  Pool, empty_pool, fetch, grow, allocate, deallocate, elem_size, elems_per_block,
  destroy_all_blocks,
}
use storm_net.Pool.Chain.{times, hit-in, cover, free_blocks-Chain}
use storm_net.Pool.Grow.{onto, onto-cons}
use storm_net.Pool.Ownership.{
  Owns, Fresh, Inside, without, empty-Owns, take-Owns, give-Owns, use-Owns, live-counted,
}
use storm_net.Pool.Block.{elem_size-ge, grow-Owns}

module _ (block_size size_of : ℕ) where
  -- The blocks, the elements handed out, and the pool. The count, an `int`, has room. The constructor of an element and its user
  -- write to live elements only.
  pub data Reached : List ℕ → List ℕ → Pool → Type 0 where
    start : (memory : ℕ → ℕ) → Reached [] [] (empty_pool memory)
    allocated :
        {blocks live : List ℕ} {p : Pool} (block : ℕ)
        → Fresh block_size blocks block
        → p.allocated + 1 < 2 ^ 31
        → Reached blocks live p
        → Reached
            (if p.current == 0 then block ∷ blocks else blocks)
            ((allocate block_size size_of block p).0 ∷ live)
            (allocate block_size size_of block p).1
    deallocated :
        {blocks live : List ℕ} {p p' : Pool} (t : ℕ)
        → 0 < times t live
        → deallocate t p ≡ ok p'
        → Reached blocks live p
        → Reached blocks (without t live) p'
    used :
        {blocks live : List ℕ} {p : Pool} (memory : ℕ → ℕ)
        → ((x : ℕ) → cover (elem_size size_of) x live ≡ 0 → memory x ≡ p.memory x)
        → Reached blocks live p
        → Reached blocks live (record p { memory = memory })

  abbrev Owned : List ℕ → List ℕ → Pool → Type 0
  Owned blocks live p = (free : List ℕ) × Owns block_size (elem_size size_of) blocks free live p

  take-current :
      (blocks live : List ℕ) (x : ℕ) (free : List ℕ) (p : Pool)
      → Owns block_size (elem_size size_of) blocks (x ∷ free) live p
      → Owned blocks
          (p.current ∷ live)
          (record p { current = fetch p.memory p.current; allocated = p.allocated + 1 })
  take-current blocks live x free p o = (
    free,
    subst
        (λ (y : ℕ).
          Owns block_size (elem_size size_of) blocks free (y ∷ live)
            (record p { current = fetch p.memory y; allocated = p.allocated + 1 }))
        (sym o.chain_free.0) (take-Owns block_size (elem_size size_of) blocks live x free p o),
  )

  give-Owned :
      (blocks free live : List ℕ) (t : ℕ) (p p' : Pool)
      → 0 < times t live
      → deallocate t p ≡ ok p'
      → Owns block_size (elem_size size_of) blocks free live p
      → Owned blocks (without t live) p'
  unfolding deallocate
  give-Owned blocks free live t p p' there e o =
      let size = elem_size size_of in
      let some : (p.allocated == 0) ≡ false =
        (let counted = live-counted block_size size blocks free live t p there o in
          ground (arith, counted)) in
      let returned = rw some at e in
      (
        t ∷ free,
        subst (λ (q : Pool). Owns block_size size blocks (t ∷ free) (without t live) q)
            (cc returned)
            (give-Owns block_size size blocks free live t p (elem_size-ge size_of).1 there o),
      )

  module _ (some_elems : 0 < elems_per_block block_size size_of) where
    allocate-Owned :
        (blocks free live : List ℕ) (p : Pool) (block : ℕ)
        → Owns block_size (elem_size size_of) blocks free live p
        → Fresh block_size blocks block
        → Owned
            (if p.current == 0 then block ∷ blocks else blocks)
            ((allocate block_size size_of block p).0 ∷ live)
            (allocate block_size size_of block p).1
    unfolding allocate
    allocate-Owned blocks [] live p block o fresh =
        let null : (p.current == 0) ≡ true = ground (arith, o.chain_free) in
        let grown = grow block_size size_of block p in
        let (x, xs, split) = some_new (elems_per_block block_size size_of) some_elems (block + 8) in
        rw null (
          take-current (block ∷ blocks) live x xs grown (
            subst
              (λ (f : List ℕ). Owns block_size (elem_size size_of) (block ∷ blocks) f live grown)
              split (grow-Owns block_size size_of some_elems blocks live p block o fresh)))
      where
        some_new :
            (n : ℕ)
            → 0 < n
            → (elem : ℕ) → (x : ℕ) × (xs : List ℕ) × (onto (elem_size size_of) n elem [] ≡ x ∷ xs)
        some_new zero h elem = absurd (omega arith)
        some_new (suc n) h elem = onto-cons (elem_size size_of) n elem []
    allocate-Owned blocks (x ∷ free) live p block o fresh =
        let there : (p.current == 0) ≡ false =
          (let some : 0 < x = not_zero x free live blocks o.not_null in
            ground (arith, o.chain_free.0, some)) in
        rw there (take-current blocks live x free p o)
      where
        not_zero :
            (x : ℕ) (free live blocks : List ℕ)
            → cover (elem_size size_of) 0 (x ∷ free)
                + (cover (elem_size size_of) 0 live + cover 8 0 blocks)
              ≡ 0
            → 0 < x
        not_zero zero free live blocks h = absurd (
            omega (
              arith,
              h,
              hit-in (elem_size size_of) 0 0 (omega arith)
                  (omega (arith, (elem_size-ge size_of).1)),
            ))
        not_zero (suc x) free live blocks h = omega arith

    pub Reached-Owned :
        (blocks live : List ℕ) (p : Pool) → Reached blocks live p → Owned blocks live p
    Reached-Owned blocks live p (start memory) =
        ([], empty-Owns block_size (elem_size size_of) memory)
    Reached-Owned blocks live p
          (allocated {blocks = bs} {live = ts} {p = q} block fresh room before) =
        let (free, o) = Reached-Owned bs ts q before in allocate-Owned bs free ts q block o fresh
    Reached-Owned blocks live p (deallocated {live = ts} {p = q} t there e before) =
        let (free, o) = Reached-Owned blocks ts q before in
        give-Owned blocks free ts t q p there e o
    Reached-Owned blocks live p (used {p = q} memory same before) =
        let (free, o) = Reached-Owned blocks live q before in
        (
          free,
          use-Owns block_size (elem_size size_of) blocks free live memory q (elem_size-ge size_of).1
              same o,
        )

-- `kElemSize` is the larger one of the size of an element and the size of a pointer.
elem_size-eq : (size_of : ℕ) → elem_size size_of ≡ (if ltb size_of 8 then 8 else size_of)
unfolding elem_size
elem_size-eq size_of = refl

-- In every pool that allocations, deallocations of live elements and writes to live elements lead to,
-- `Allocate` returns an element that is not null, and no byte of it, counted with the larger one of
-- the size of an element and the 8 bytes of a pointer, is in a live element or in the pointer at the
-- front of a block; each of these bytes lies inside a block of the pool, which after the call has the
-- new block when there was no free element; and the pool counts its live elements. A block holds at
-- least one element (`kElemsPerBlock`), the count `m_Allocated` of live elements has room in an `int`,
-- now and at the earlier allocations, and `malloc` returns memory that is not null, ends within the
-- addresses of 64 bits and overlaps with no block of the pool.
pub Reached-allocate :
    (block_size size_of block : ℕ) (blocks live : List ℕ) (p : Pool)
    → 0 < elems_per_block block_size size_of
    → Fresh block_size blocks block
    → p.allocated + 1 < 2 ^ 31
    → Reached block_size size_of blocks live p
    → (0 < (allocate block_size size_of block p).0)
      × ((x : ℕ)
          → (allocate block_size size_of block p).0 ≤ x
          → x < (allocate block_size size_of block p).0 + (if ltb size_of 8 then 8 else size_of)
          → (cover (if ltb size_of 8 then 8 else size_of) x live ≡ 0)
            × (cover 8 x (if p.current == 0 then block ∷ blocks else blocks) ≡ 0)
            × Inside block_size (if p.current == 0 then block ∷ blocks else blocks) x)
      × (p.allocated ≡ length live)
Reached-allocate block_size size_of block blocks live p some_elems fresh room reached =
    let t = (allocate block_size size_of block p).0 in
    let (_, before) = Reached-Owned block_size size_of some_elems blocks live p reached in
    let (_, o) =
      Reached-Owned block_size size_of some_elems _ _ _ (allocated block fresh room reached) in
    rw (sym (elem_size-eq size_of)) (
      not_null t (elem_size size_of) (elem_size-ge size_of).1 _ _ _ o.not_null,
      λ x low high.
          let here = hit-in (elem_size size_of) x t low high in
          (
            omega (arith, o.apart x, here),
            omega (arith, o.apart x, here),
            o.inside x (omega (arith, here)),
          ),
      before.counted,
    )
  where
    not_null :
        (t size : ℕ)
        → 8 ≤ size
        → (free live blocks : List ℕ)
        → cover size 0 free + (cover size 0 (t ∷ live) + cover 8 0 blocks) ≡ 0
        → 0 < t
    not_null zero size pointer free live blocks h =
        absurd (omega (arith, h, hit-in size 0 0 (omega arith) (omega (arith, pointer))))
    not_null (suc t) size pointer free live blocks h = omega arith

-- In every pool that allocations, deallocations of live elements and writes to live elements lead to,
-- `DestroyAllBlocks` stops at its assertion exactly when an element is live; otherwise it ends, has
-- freed every block that the pool has from `malloc`, in order, and leaves a pool without blocks and
-- without free elements, its memory and count as they were. The pointers at the front of two blocks
-- never overlap, so no block is freed twice. Fuel for one more test than there are blocks is enough.
-- A block holds at least one element (`kElemsPerBlock`), and the count had room in an `int` at the
-- allocations.
pub Reached-destroy_all_blocks :
    (block_size size_of fuel : ℕ) (blocks live : List ℕ) (p : Pool)
    → 0 < elems_per_block block_size size_of
    → length blocks < fuel
    → Reached block_size size_of blocks live p
    → (destroy_all_blocks fuel p ≡ (
        if length live == 0
        then ok (blocks, record p { first_block = 0; current = 0 })
        else err assertion_failed))
      × ((x : ℕ) → cover 8 x blocks ≤ 1)
unfolding destroy_all_blocks
Reached-destroy_all_blocks block_size size_of fuel blocks live p some_elems enough reached =
    let (_, o) = Reached-Owned block_size size_of some_elems blocks live p reached in
    let freed =
      free_blocks-Chain p.memory p.first_block blocks fuel (omega (arith, o.not_null)) enough
        o.chain_blocks in
    (rw (o.counted, freed) refl, λ x. omega (arith, o.apart x))
