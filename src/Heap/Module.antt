-- ===== src/Heap/Module.antt =====
-- loader/heap.cpp: the block of a module, which a type descriptor's tag turns into a record block.
use oberon.Prelude.{ap, ℕ, ◌+◌, ◌-◌, ◌≤◌, ◌^◌, ◌≡◌, ◌∙◌, refl, arith, some, List, [], ◌∷◌, ◌++◌}
use oberon.Machine.State.{Machine, returns}
use oberon.Machine.Memory.{load4, store4, with_bytes}
use oberon.Machine.RoundTrip.{load4-store4, load4-store4_apart, store4_outside}
use oberon.Heap.{Heap, heap_address}
use oberon.Heap.Size.{block_size}
use oberon.Heap.Tags.{tag_sum}
use oberon.Heap.Arrays.{new_module}
use oberon.Heap.Allocated.{
  IsHeap, HasRoom, advanced, free_space, system_bytes, system_new_lem, heap_address_lem,
  write_4_lem, IsHeap-advanced,
}
use oberon.Heap.Walk.{Block, dblk}
use oberon.Heap.Laid.{Laid, Laid-snoc, Same, still_free, system-Same, load4-Same}
use oberon.Heap.Filled.{IsDescriptor}

module _ (heap : Heap) (m : Machine) (is : IsHeap heap m) (n : ℕ) (fits : n + 20 ≤ 2 ^ 31)
    (room : HasRoom heap m (block_size n)) (td : ℕ) (has : IsDescriptor m td) where
  open is use {positive, mapped, first, from, curr_aligned, small}

  abbrev size : ℕ
  size = block_size n

  abbrev tagged : ℕ → ℕ
  tagged = store4 (system_bytes heap size m) (heap.curr_heap + 4 - 4) (td + 1)

  td_address : (b : ℕ → ℕ) → heap_address (some td) (with_bytes b m) ≡ returns td (with_bytes b m)
  td_address b =
      heap_address_lem (with_bytes b m) td (omega (arith, has.from)) has.from has.upto
        (omega (arith, has.upto))

  new_module_lem :
      new_module heap (some td) n m
      ≡ returns (heap.curr_heap + 4, advanced heap size) (with_bytes tagged m)
  unfolding new_module
  new_module_lem =
      rw
        (
          system_new_lem heap m is n fits room,
          td_address (system_bytes heap size m),
          has.aligned,
          td_address (system_bytes heap size m),
          tag_sum td 1 has.aligned (omega arith),
          write_4_lem (with_bytes (system_bytes heap size m) m) (heap.curr_heap + 4 - 4) (td + 1)
              (omega arith) (omega arith),
        )
        refl

  new_tag : load4 tagged heap.curr_heap ≡ td + 1
  new_tag =
      ap (λ p. load4 tagged p) here
      ∙ (load4-store4 (system_bytes heap size m) (heap.curr_heap + 4 - 4) (td + 1) ∙ omega arith)
    where
      here : heap.curr_heap ≡ heap.curr_heap + 4 - 4
      here = omega arith

  tagged_free : load4 tagged (heap.curr_heap + size) ≡ free_space heap m - size + 4
  tagged_free =
      load4-store4_apart (system_bytes heap size m) (heap.curr_heap + 4 - 4) (td + 1)
        (heap.curr_heap + size) (omega arith)
      ∙ still_free heap m is n fits room

  tagged-Same : Same heap.curr_heap m.bytes tagged
  tagged-Same q h =
      store4_outside (system_bytes heap size m) (heap.curr_heap + 4 - 4) (td + 1) q (omega arith)
      ∙ system-Same heap m is n fits room q h

  -- In a well-formed heap that consists of given blocks and has room, with an allocated type
  -- descriptor that gives the size of the block, the allocation of a module replaces the tag of
  -- its system block by the marked address of the descriptor, so that the blocks are extended by a
  -- record block, and leaves the heap well formed.
  pub new_module-Laid :
      (xs : List Block)
      → Laid heap m xs
      → td + 20 ≤ heap.curr_heap
      → load4 m.bytes (td + 16) ≡ size
      → (m' : Machine) × (new_module heap (some td) n m
          ≡ returns (heap.curr_heap + 4, advanced heap size) m')
        × (load4 m'.bytes heap.curr_heap ≡ td + 1)
        × IsHeap (advanced heap size) m'
        × Laid (advanced heap size) m' (xs ++ (record { kind = dblk; size = size } ∷ []))
  new_module-Laid xs laid below at_size = (
    with_bytes tagged m,
    new_module_lem,
    new_tag,
    IsHeap-advanced heap m is size (omega arith) room tagged tagged_free,
    Laid-snoc heap m is xs laid size room (omega arith) tagged dblk tagged-Same (omega arith) (
      td,
      new_tag,
      has.aligned,
      has.from,
      omega arith,
      load4-Same heap.curr_heap m.bytes tagged tagged-Same (td + 16) (omega arith) ∙ at_size,
    ),
  )
