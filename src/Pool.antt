-- ===== src/Pool.antt =====
-- NetPoolAllocator.h: blocks of elements, and the list of the free ones through their first words.
-- Pointers are words of eight bytes, and the memory is a function from addresses to bytes. `assert`
-- stops the program.
pub mod Memory
pub mod Chain
pub mod Grow
pub mod Ownership
pub mod Block
pub mod Reached
use storm_net.Prelude.{ℕ, zero, suc, ◌+◌, ◌-◌, ◌/◌, ◌%◌, ◌==◌, ltb, List, [], ◌∷◌, if◌then◌else◌}
use storm_net.Result.{Result, ok, err, does_not_return, assertion_failed, ◌>>=◌}
use storm_net.BitReader.{load}

pub record Pool : Type 0 where
  pub first_block : ℕ
  pub current : ℕ
  pub allocated : ℕ
  pub memory : ℕ → ℕ

unfoldable pub empty_pool : (ℕ → ℕ) → Pool
empty_pool memory = record { first_block = 0; current = 0; allocated = 0; memory = memory }

-- `n` bytes of a word, lowest first.
unfoldable pub store_bytes : ℕ → ℕ → ℕ → (ℕ → ℕ) → ℕ → ℕ
store_bytes zero address word memory = memory
store_bytes (suc n) address word memory =
    store_bytes n (address + 1) (word / 256) (λ at. if at == address then word % 256 else memory at)

-- `elem->m_Next = ...`, or the pointer at the front of a block.
unfoldable pub store : ℕ → ℕ → (ℕ → ℕ) → ℕ → ℕ
unfolding store_bytes
store address pointer memory = store_bytes 8 address pointer memory

-- `elem->m_Next` and `block->m_NextBlock`
abbrev pub fetch : (ℕ → ℕ) → ℕ → ℕ
fetch memory address = load memory address 8

-- `kElemSize` and `kElemsPerBlock`, for elements of a size and blocks of a size.
unfoldable pub elem_size : ℕ → ℕ
elem_size size_of = if ltb size_of 8 then 8 else size_of

unfoldable pub elems_per_block : ℕ → ℕ → ℕ
unfolding elem_size
elems_per_block block_size size_of = (block_size - 8) / elem_size size_of

-- The loop of `Grow`, over the elements that are left; `elem` is the address of the next one.
unfoldable pub thread : ℕ → ℕ → ℕ → ℕ → (ℕ → ℕ) → ℕ × (ℕ → ℕ)
thread size zero elem current memory = (current, memory)
thread size (suc remaining) elem current memory =
    thread size remaining (elem + size) elem (store elem current memory)

module _ (block_size size_of : ℕ) where
  -- `Grow`, with the address that `malloc` returns.
  unfoldable pub grow : ℕ → Pool → Pool
  grow block p =
      let threaded =
        thread (elem_size size_of) (elems_per_block block_size size_of) (block + 8) p.current
          (store block p.first_block p.memory) in
      record p { first_block = block; current = threaded.0; memory = threaded.1 }

  -- `Allocate`, before the constructor runs on the element.
  unfoldable pub allocate : ℕ → Pool → ℕ × Pool
  unfolding grow
  allocate block p =
      let grown = if p.current == 0 then grow block p else p in
      (
        grown.current,
        record grown {
          current = fetch grown.memory grown.current;
          allocated = grown.allocated + 1;
        },
      )

-- `Deallocate`, after the destructor. The count must not fall below zero.
unfoldable pub deallocate : ℕ → Pool → Result Pool
deallocate t p =
    if p.allocated == 0
    then err assertion_failed
    else ok
        (record p { memory = store t p.current p.memory; allocated = p.allocated - 1; current = t })

-- The loop of `DestroyAllBlocks`, with the blocks that it frees; the fuel counts its tests.
unfoldable pub free_blocks : ℕ → ℕ → (ℕ → ℕ) → Result (List ℕ)
free_blocks zero block memory = err does_not_return
free_blocks (suc fuel) block memory =
    let rest = (free_blocks fuel (fetch memory block) memory >>= λ freed. ok (block ∷ freed)) in
    if block == 0 then ok [] else rest

unfoldable pub destroy_all_blocks : ℕ → Pool → Result (List ℕ × Pool)
destroy_all_blocks fuel p =
    if p.allocated == 0
    then (free_blocks fuel p.first_block p.memory >>= λ freed.
        ok (freed, record p { first_block = 0; current = 0 }))
    else err assertion_failed

-- The move constructor, and what it leaves behind.
pub move_pool : Pool → Pool × Pool
move_pool rhs = (rhs, record rhs { first_block = 0; current = 0 })

-- `operator =` from a pool that is moved, with the blocks that it frees first.
pub assign_pool : ℕ → Pool → Pool → Result (List ℕ × Pool × Pool)
assign_pool fuel target rhs =
    let (moved, left) = move_pool rhs in
    destroy_all_blocks fuel target >>= λ freed. ok (freed.0, moved, left)
