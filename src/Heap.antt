-- ===== src/Heap.antt =====
-- loader/heap.cpp and loader/heap.h: the heap that the loader builds for the Oberon system. An address is
-- the host address less `allocated_heap_upper_32`, `allocated_heap` is the base of the block of the
-- machine, and `total_heap_size_in_bytes` the number of bytes of its memory. Sizes and counts are
-- not negative.
pub mod Size
pub mod Allocated
pub mod Tags
pub mod Arrays
pub mod Make
pub mod Walk
pub mod Tiles
pub mod Laid
pub mod Described
pub mod Filled
pub mod Made
pub mod Exhausted
pub mod Module
use oberon.Prelude.{
  ℕ, zero, suc, ◌+◌, ◌-◌, ◌*◌, ◌/◌, ◌%◌, ◌^◌, Bool, true, false, ◌&&◌, ◌||◌, not, Option, none,
  some, List, [], ◌∷◌, bit_and, bit_or,
}
use oberon.Prelude.Tests.{◌==◌, ltb, leb, if◌then◌else◌}
use oberon.Prelude.Int.{ℤ, pos, negsuc, pos_part, neg_part}
use oberon.Prelude.Word.{uint32, sub32, int32, not32, checked}
use oberon.O3.{neg, add, modulo}
use oberon.Machine.State.{
  M, Machine, alpha, beta, release, returns, halts, pure, halt, fatal, undefined, defined, assert,
  ◌>>=◌, ◌>>◌,
}
use oberon.Machine.Memory.{Haddr, heap_to_host, read_4_ze, write_4, with_bytes}
use oberon.Execute.{heap_pointer_ok}

-- heap.h: the size of a paragraph.
abbrev pub allocation_block_size : ℕ
allocation_block_size = 16

-- block_tag_t, and the masks made of its members.
abbrev pub blk_mark : ℕ
blk_mark = 1

abbrev pub blk_syst : ℕ
blk_syst = 2

abbrev pub blk_free : ℕ
blk_free = 4

abbrev pub blk_aray : ℕ
blk_aray = 8

abbrev pub system_block : ℕ
system_block = 3

abbrev pub marked_array : ℕ
marked_array = 9

abbrev pub tag_mask : ℕ
tag_mask = not32 15

abbrev pub hpav : ℕ
hpav = 12

-- The file's pointers into the block.
pub record Heap : Type 0 where
  pub oberon_heap : ℕ
  pub curr_heap : ℕ

-- validate_heap_pointer.
unfoldable pub validate_heap_pointer : Haddr → M (Unit {0})
validate_heap_pointer p m = elim m.build [
  | release ↦ returns tt m
  | alpha ↦ if heap_pointer_ok m p then returns tt m else halts fatal
  | beta ↦ if heap_pointer_ok m p then returns tt m else halts fatal
]

abbrev pub host_to_heap : Haddr → ℕ
host_to_heap none = 0
host_to_heap (some p) = uint32 p

abbrev pub same_haddr : Haddr → Haddr → Bool
same_haddr none none = true
same_haddr none (some q) = false
same_haddr (some p) none = false
same_haddr (some p) (some q) = p == q

unfoldable pub heap_address : Haddr → M ℕ
unfolding validate_heap_pointer
heap_address p = do
  validate_heap_pointer p
  assert (same_haddr p (heap_to_host (host_to_heap p)))
  pure (host_to_heap p)

-- Of an address of the Oberon system.
unfoldable pub host_address : ℕ → M Haddr
unfolding validate_heap_pointer
host_address offset = if offset == 0 then pure none else (do
  let result = heap_to_host offset
  validate_heap_pointer result
  assert (offset == host_to_heap result)
  pure result)

-- The result of a sum of `int`, which is not negative here.
unfoldable pub align_block_size : ℕ → M ℕ
align_block_size number_of_bytes = do
  sum ← defined (add (pos number_of_bytes) (pos 4))
  opposite ← defined (neg sum)
  padding ← defined (modulo opposite (pos allocation_block_size))
  size ← defined (add sum padding)
  pure (pos_part size)

unfoldable pub get_heap_block : Heap → ℕ → M (ℕ × Heap)
unfolding heap_address
get_heap_block heap size = do
  let curr_heap = heap.curr_heap + size
  curr ← heap_address (some curr_heap)
  first ← heap_address (some heap.oberon_heap)
  let allocated_bytes = sub32 curr first
  λ m.
      (do
        let free_space = sub32 (uint32 m.memory.n_bytes) allocated_bytes
        assert (bit_and free_space (not32 tag_mask) == 0)
        write_4 (some curr_heap) (bit_or free_space blk_free)
        write_4 (some (curr_heap + 4)) 0
        pure (heap.curr_heap, record heap { curr_heap = curr_heap }))
        m

unfoldable pub system_new : Heap → ℕ → M (ℕ × Heap)
unfolding align_block_size get_heap_block
system_new heap size = do
  block_size ← align_block_size size
  (adr, heap') ← get_heap_block heap block_size
  assert (uint32 (adr + 4) % allocation_block_size == 0)
  write_4 (some adr) (bit_or block_size system_block)
  pure (adr + 4, heap')

-- new_array: the address after the tag, the size of the block, and the heap.
unfoldable pub new_array : Heap → ℕ → ℕ → M (ℕ × ℕ × Heap)
unfolding align_block_size get_heap_block
new_array heap size dataoffs = do
  block_size ← align_block_size size
  (adr, heap') ← get_heap_block heap block_size
  assert (dataoffs % allocation_block_size == 0)
  data_address ← heap_address (some (adr + 4 + dataoffs))
  write_4 (some adr) (bit_or data_address marked_array)
  pure (adr + 4, block_size, heap')
