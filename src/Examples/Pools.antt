-- ===== src/Examples/Pools.antt =====
-- The pool allocator with blocks of two elements of 16 bytes.
use storm_net.Prelude.{
  ℕ, ◌+◌, ◌^◌, ◌<◌, ◌≤◌, ◌≡◌, refl, arith, [], ◌∷◌, ◌==◌, if◌then◌else◌, length, inl,
}
use storm_net.Result.{ok, err, assertion_failed}
use storm_net.Pool.{
  Pool, empty_pool, store, grow, allocate, deallocate, destroy_all_blocks, elems_per_block,
}
use storm_net.Pool.Chain.{cover, times-head}
use storm_net.Pool.Ownership.{Fresh, Inside, without}
use storm_net.Pool.Reached.{
  Reached, start, allocated, deallocated, Reached-allocate, Reached-destroy_all_blocks,
}

abbrev nowhere : ℕ → ℕ
nowhere a = 0

-- The pool after one allocation, with the block at 100, and the element.
abbrev one_live : Pool
one_live = (allocate 40 16 100 (empty_pool nowhere)).1

abbrev first_elem : ℕ
first_elem = (allocate 40 16 100 (empty_pool nowhere)).0

two_elems : elems_per_block 40 16 ≡ 2
unfolding elems_per_block
two_elems = refl

first-Fresh : Fresh 40 [] 100
first-Fresh = (omega arith, omega arith, λ b h. absurd (omega arith))

one_live-Reached : Reached 40 16 (100 ∷ []) (first_elem ∷ []) one_live
one_live-Reached =
    unfold empty_pool in
    allocated {p = empty_pool nowhere} 100 first-Fresh (omega arith) (start nowhere)

one_live_room : one_live.allocated + 1 < 2 ^ 31
unfolding allocate grow empty_pool
one_live_room = omega arith

next-Fresh : Fresh 40 (100 ∷ []) 200
next-Fresh = (omega arith, omega arith, λ b h. inl (ground arith))

Reached-allocate_example :
    (0 < (allocate 40 16 200 one_live).0)
    × ((x : ℕ)
        → (allocate 40 16 200 one_live).0 ≤ x
        → x < (allocate 40 16 200 one_live).0 + 16
        → (cover 16 x (first_elem ∷ []) ≡ 0)
          × (cover 8 x (if one_live.current == 0 then 200 ∷ 100 ∷ [] else 100 ∷ []) ≡ 0)
          × Inside 40 (if one_live.current == 0 then 200 ∷ 100 ∷ [] else 100 ∷ []) x)
    × (one_live.allocated ≡ 1)
Reached-allocate_example =
    Reached-allocate 40 16 200 (100 ∷ []) (first_elem ∷ []) one_live (omega (arith, two_elems))
      next-Fresh one_live_room one_live-Reached

-- The pool after the element has been given back.
abbrev given_back : Pool
given_back = record one_live {
  memory = store first_elem one_live.current one_live.memory;
  allocated = 0;
  current = first_elem;
}

deallocate-first_elem : deallocate first_elem one_live ≡ ok given_back
unfolding deallocate allocate grow empty_pool
deallocate-first_elem = refl

given_back-Reached : Reached 40 16 (100 ∷ []) (without first_elem (first_elem ∷ [])) given_back
given_back-Reached =
    deallocated first_elem (omega (arith, times-head first_elem [])) deallocate-first_elem
      one_live-Reached

Reached-destroy_all_blocks_example :
    (destroy_all_blocks 2 given_back ≡ (
      if length (without first_elem (first_elem ∷ [])) == 0
      then ok (100 ∷ [], record given_back { first_block = 0; current = 0 })
      else err assertion_failed))
    × ((x : ℕ) → cover 8 x (100 ∷ []) ≤ 1)
Reached-destroy_all_blocks_example =
    Reached-destroy_all_blocks 40 16 2 (100 ∷ []) (without first_elem (first_elem ∷ [])) given_back
      (omega (arith, two_elems)) (omega arith) given_back-Reached
