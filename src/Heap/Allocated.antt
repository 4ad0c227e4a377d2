-- ===== src/Heap/Allocated.antt =====
-- loader/heap.cpp: the invariant of the heap, and what an allocation changes.
use oberon.Prelude.{ℕ, ◌+◌, ◌-◌, ◌%◌, ◌^◌, ◌≤◌, ◌<◌, ◌≡◌, refl, arith, some, true, bit_and}
use oberon.Prelude.Tests.{◌==◌}
use oberon.Prelude.Bits.{bit_and_mask}
use oberon.Prelude.Word.{uint32, sub32}
use oberon.Machine.State.{Machine, BuildType, alpha, beta, release, returns, pure, returns->>}
use oberon.Machine.Memory.{load4, store4, with_bytes, write_4}
use oberon.Machine.RoundTrip.{load4-store4, load4-store4_apart, store4_outside}
use oberon.Heap.{Heap, heap_address, get_heap_block, system_new}
use oberon.Heap.Size.{block_size, align_block_size_lem}
use oberon.Heap.Tags.{tag_sum}

-- Bytes from `curr_heap` to the end of the memory.
abbrev pub free_space : Heap → Machine → ℕ
free_space heap m = m.memory.n_bytes - (heap.curr_heap - heap.oberon_heap)

-- The memory is aligned and mapped, with its addresses below bit 30, and what is not allocated is one free block.
pub record IsHeap (heap : Heap) (m : Machine) : Type 0 where
  pub positive : 0 < m.block.base
  pub base_aligned : m.block.base % 16 ≡ 0
  pub whole : m.memory.n_bytes % 16 ≡ 0
  pub mapped : m.memory.n_bytes + 16 ≤ m.block.size
  pub small : m.block.base + m.block.size ≤ 2 ^ 30
  pub first : heap.oberon_heap ≡ m.block.base + 12
  pub from : heap.oberon_heap ≤ heap.curr_heap
  pub curr_aligned : (heap.curr_heap + 4) % 16 ≡ 0
  pub inside : heap.curr_heap < m.block.base + m.memory.n_bytes
  pub free : load4 m.bytes heap.curr_heap ≡ free_space heap m + 4

-- A block of `size` bytes fits, and leaves a free block.
abbrev pub HasRoom : Heap → Machine → ℕ → Type 0
HasRoom heap m size = heap.curr_heap + size < m.block.base + m.memory.n_bytes

abbrev pub advanced : Heap → ℕ → Heap
advanced heap size = record heap { curr_heap = heap.curr_heap + size }

-- In every build.
address_in :
    (m : Machine) (b : BuildType) (p : ℕ)
    → 0 < p
    → m.block.base ≤ p
    → p < m.block.base + m.memory.n_bytes
    → p < 2 ^ 32
    → heap_address (some p) (record m { build = b }) ≡ returns p (record m { build = b })
unfolding heap_address
address_in m alpha p positive lo hi small = ground arith
address_in m beta p positive lo hi small = ground arith
address_in m release p positive lo hi small = ground arith

pub heap_address_lem :
    (m : Machine) (p : ℕ)
    → 0 < p
    → m.block.base ≤ p
    → p < m.block.base + m.memory.n_bytes
    → p < 2 ^ 32
    → heap_address (some p) m ≡ returns p m
heap_address_lem m = address_in m m.build

-- A word of the block.
pub write_4_lem :
    (m : Machine) (p v : ℕ)
    → m.block.base ≤ p
    → p + 4 ≤ m.block.base + m.block.size
    → write_4 (some p) v m ≡ returns tt (with_bytes (store4 m.bytes p v) m)
unfolding write_4
write_4_lem m p v lo hi = ground arith

-- The bytes once the remainder is a free block.
abbrev pub freed : Heap → ℕ → Machine → ℕ → ℕ
freed heap size m =
    let curr = heap.curr_heap + size in
    store4 (store4 m.bytes curr (free_space heap m - size + 4)) (curr + 4) 0

module _ (heap : Heap) (m : Machine) (is : IsHeap heap m) (size : ℕ) (paragraphs : size % 16 ≡ 0)
    (room : HasRoom heap m size) where
  open is use {
    positive, base_aligned, whole, mapped, small, first, from, curr_aligned, inside, free,
  }

  remainder :
      sub32 (uint32 m.memory.n_bytes) (sub32 (heap.curr_heap + size) heap.oberon_heap)
      ≡ free_space heap m - size
  remainder = ground arith

  remainder_aligned : (free_space heap m - size) % 16 ≡ 0
  remainder_aligned = ground arith

  remainder_low : bit_and (free_space heap m - size) 15 ≡ 0
  remainder_low = omega (arith, bit_and_mask 4 (free_space heap m - size))

  pub get_heap_block_lem :
      get_heap_block heap size m
      ≡ returns (heap.curr_heap, advanced heap size) (with_bytes (freed heap size m) m)
  unfolding get_heap_block
  get_heap_block_lem =
      rw
        (
          heap_address_lem m (heap.curr_heap + size) (ground arith) (ground arith) room
              (ground arith),
          heap_address_lem m heap.oberon_heap (ground arith) (ground arith) (ground arith)
              (ground arith),
          remainder,
          remainder_low,
          tag_sum (free_space heap m - size) 4 remainder_aligned (omega arith),
          write_4_lem m (heap.curr_heap + size) (free_space heap m - size + 4) (omega arith)
              (omega arith),
        )
        (returns->> (write_4 (some (heap.curr_heap + size + 4)) 0)
          (pure (heap.curr_heap, advanced heap size))
          (write_4_lem
            (with_bytes (store4 m.bytes (heap.curr_heap + size) (free_space heap m - size + 4)) m)
            (heap.curr_heap + size + 4) 0 (omega arith) (omega arith)))

  -- The free block is the rest, whatever is written below it.
  pub IsHeap-advanced :
      (b : ℕ → ℕ)
      → load4 b (heap.curr_heap + size) ≡ free_space heap m - size + 4
      → IsHeap (advanced heap size) (with_bytes b m)
  IsHeap-advanced b e = record {
    positive = positive;
    base_aligned = base_aligned;
    whole = whole;
    mapped = is.mapped;
    small = small;
    first = first;
    from = ground arith;
    curr_aligned = ground arith;
    inside = room;
    free = ground arith;
  }

  pub freed_tag : load4 (freed heap size m) (heap.curr_heap + size) ≡ free_space heap m - size + 4
  freed_tag =
      rw
        (
          load4-store4_apart (store4 m.bytes (heap.curr_heap + size) (free_space heap m - size + 4))
              (heap.curr_heap + size + 4) 0 (heap.curr_heap + size) (omega arith),
          load4-store4 m.bytes (heap.curr_heap + size) (free_space heap m - size + 4),
        )
        (omega arith)

  pub freed_below : (q : ℕ) → q < heap.curr_heap + size → freed heap size m q ≡ m.bytes q
  freed_below q h =
      rw
        (
          store4_outside (store4 m.bytes (heap.curr_heap + size) (free_space heap m - size + 4))
              (heap.curr_heap + size + 4) 0 q (omega arith),
          store4_outside m.bytes (heap.curr_heap + size) (free_space heap m - size + 4) q
              (omega arith),
        )
        refl

-- The bytes once a system block is allocated.
abbrev pub system_bytes : Heap → ℕ → Machine → ℕ → ℕ
system_bytes heap size m = store4 (freed heap size m) heap.curr_heap (size + 3)

module _ (heap : Heap) (m : Machine) (is : IsHeap heap m) (n : ℕ) (small : n + 20 ≤ 2 ^ 31)
    (room : HasRoom heap m (block_size n)) where
  open is use {positive, mapped, first, from, curr_aligned, inside}

  paragraphs : block_size n % 16 ≡ 0
  paragraphs = omega arith

  below : heap.curr_heap + 16 < 2 ^ 32
  below = omega (arith, is.small)

  aligned : (uint32 (heap.curr_heap + 4) % 16 == 0) ≡ true
  aligned = ground arith

  -- The result of the allocation of a system block, and the bytes after it.
  pub system_new_lem :
      system_new heap n m
      ≡ returns
          (heap.curr_heap + 4, advanced heap (block_size n))
          (with_bytes (system_bytes heap (block_size n) m) m)
  unfolding system_new
  system_new_lem =
      rw
        (
          align_block_size_lem n m small,
          get_heap_block_lem heap m is (block_size n) paragraphs room,
          aligned,
          tag_sum (block_size n) 3 paragraphs (omega arith),
          write_4_lem (with_bytes (freed heap (block_size n) m) m) heap.curr_heap (block_size n + 3)
              (omega arith) (omega arith),
        )
        refl
