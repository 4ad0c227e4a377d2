-- ===== src/Heap/Exhausted.antt =====
-- loader/heap.cpp: the allocation of a block that does not fit.
use oberon.Prelude.{ℕ, ◌+◌, ◌≤◌, ◌^◌, ◌≡◌, refl, arith, ◌⊎◌, inl, inr, some, false}
use oberon.Machine.State.{Machine, BuildType, alpha, beta, halts, fatal}
use oberon.Execute.{heap_pointer_ok}
use oberon.Heap.{Heap, heap_address, get_heap_block, system_new}
use oberon.Heap.Size.{block_size, align_block_size_lem}

-- A build that tests pointers.
abbrev pub IsTested : BuildType → Type 0
IsTested b = (b ≡ alpha) ⊎ (b ≡ beta)

refused :
    (m : Machine) (p : ℕ)
    → IsTested m.build
    → m.block.base + m.memory.n_bytes ≤ p
    → heap_address (some p) m ≡ halts fatal
unfolding heap_address
refused m p (inl e) beyond = rw (e, outside) refl
  where
    outside : heap_pointer_ok m (some p) ≡ false
    outside = ground arith
refused m p (inr e) beyond = rw (e, outside) refl
  where
    outside : heap_pointer_ok m (some p) ≡ false
    outside = ground arith

-- In a build that tests pointers, the allocation of a system block that does not end below the end
-- of the heap ends the program.
pub system_new-exhausted :
    (heap : Heap) (m : Machine) (n : ℕ)
    → IsTested m.build
    → n + 20 ≤ 2 ^ 31
    → m.block.base + m.memory.n_bytes ≤ heap.curr_heap + block_size n
    → system_new heap n m ≡ halts fatal
unfolding system_new get_heap_block
system_new-exhausted heap m n tested fits beyond =
    rw (align_block_size_lem n m fits, refused m (heap.curr_heap + block_size n) tested beyond) refl
