-- ===== src/Heap/Make.antt =====
-- loader/heap.cpp: the heap that the loader starts with. The host gives the pages, and `page_size`.
use oberon.Prelude.{ℕ, ◌+◌, ◌-◌, ◌*◌, ◌%◌, ◌^◌, Bool, ◌&&◌, ◌||◌, some, bit_and, bit_or}
use oberon.Prelude.Tests.{◌==◌, leb, ltb, if◌then◌else◌}
use oberon.Prelude.Word.{uint32, not32, int32, add32, pattern32}
use oberon.Prelude.Int.{pos}
use oberon.O3.{neg, modulo}
use oberon.Machine.State.{M, returns, pure, halt, undefined, defined, assert, ◌>>=◌, ◌>>◌}
use oberon.Machine.Memory.{write_4, with_bytes, within}
use oberon.Heap.{Heap, hpav, blk_free, allocation_block_size}

-- heap.h: the bytes of the heap and the stack, from their sizes in megabytes.
abbrev pub total_heap_size : ℕ → ℕ → ℕ
total_heap_size heap_mb stack_mb = heap_mb * 1024 * 1024 + stack_mb * 1024 * 1024

-- The pages for a heap of `sz` bytes.
unfoldable pub compute_heap_size : ℕ → ℕ → M ℕ
compute_heap_size page_size sz = do
  let heap_size = bit_and (uint32 (sz + hpav + page_size)) (not32 (page_size - 1))
  assert (page_size == 4096 || page_size == 16384)
  assert (heap_size % page_size == 0)
  pure heap_size

-- Bits 31 and 30.
abbrev pub gc_bits : ℕ
gc_bits = 2 ^ 31 + 2 ^ 30

-- Of the 64-bit host address.
unfoldable pub validate_heap_upper_bits : ℕ → ℕ → Bool
validate_heap_upper_bits heap heap_size =
    let beg_gc_clear = bit_and heap gc_bits == 0 in
    let end_gc_clear = bit_and (heap + heap_size) gc_bits == 0 in beg_gc_clear && end_gc_clear

abbrev pub zeroed : (ℕ → ℕ) → ℕ → ℕ → ℕ → ℕ
zeroed bytes p n q = if leb p q && ltb q (p + n) then 0 else bytes q

-- internal_make_heap, once internal_heap_allocate has set the block of the machine.
unfoldable pub internal_make_heap : ℕ → M Heap
internal_make_heap s m =
    (do
      assert (m.block.base % 4096 == 0)
      if within m.block m.block.base (s + hpav)
          then (λ m'. returns tt (with_bytes (zeroed m'.bytes m'.block.base (s + hpav)) m'))
          else halt undefined
      opposite ← defined (neg (int32 m.block.base))
      padding ← defined (modulo opposite (pos allocation_block_size))
      let h = add32 m.block.base (pattern32 padding)
      assert (h % allocation_block_size == 0)
      let oberon_heap = h + hpav
      assert ((oberon_heap + 4) % allocation_block_size == 0)
      write_4 (some oberon_heap) (bit_or s blk_free)
      write_4 (some (oberon_heap + 4)) 0
      pure (record { oberon_heap = oberon_heap; curr_heap = oberon_heap }))
      m
