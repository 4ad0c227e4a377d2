-- ===== src/Test/Heaps.antt =====
-- The theorems on the heap at a heap of one megabyte.
use oberon.Prelude.{ℕ, ◌+◌, ◌-◌, ◌/◌, ◌≡◌, refl, arith, inl, some, [], ◌∷◌, ◌++◌}
use oberon.Machine.State.{Machine, halts, fatal, returns}
use oberon.Machine.Memory.{load4, store4}
use oberon.Heap.{Heap, system_new}
use oberon.Heap.Size.{block_size}
use oberon.Heap.Arrays.{new_module}
use oberon.Heap.Make.{internal_make_heap, total_heap_size}
use oberon.Heap.Made.{make-IsHeap-Laid, new_heap, compute_heap_size_lem}
use oberon.Heap.Allocated.{IsHeap, advanced}
use oberon.Heap.Walk.{walk, sblk, ablk, dblk}
use oberon.Heap.Laid.{Laid, system_new-Laid, walk-Laid, free_block}
use oberon.Heap.Filled.{
  simple_elem, new_elem_array-Laid, new_elem_array, elem_array_len, IsDescriptor, array_size,
}
use oberon.Heap.Exhausted.{system_new-exhausted}
use oberon.Heap.Module.{new_module-Laid}
use oberon.Test.{machine}

abbrev pub megabyte : ℕ
megabyte = 1048576

-- 257 pages at the first megabyte.
abbrev pages : Machine
pages = record machine {
  memory = record { beg = megabyte + 12; end = megabyte + megabyte + 12; n_bytes = megabyte };
  block = record { base = megabyte; size = megabyte + 4096 };
}

-- The empty heap there.
abbrev pub heap : Heap
heap = new_heap pages

abbrev pub empty : Machine
empty = record pages { bytes = store4 (λ p. 0) (megabyte + 12) (megabyte + 4) }

pub empty-IsHeap : IsHeap heap empty
empty-IsHeap = record {
  positive = omega arith;
  base_aligned = omega arith;
  whole = omega arith;
  mapped = omega arith;
  small = omega arith;
  first = refl;
  from = omega arith;
  curr_aligned = omega arith;
  inside = omega arith;
  free = ground arith;
}

make-IsHeap-Laid_example :
    (m' : Machine) × (internal_make_heap (total_heap_size 1 0) pages ≡ returns (new_heap pages) m')
    × IsHeap (new_heap pages) m'
    × Laid (new_heap pages) m' []
make-IsHeap-Laid_example =
    make-IsHeap-Laid pages 4096 1 0 (inl refl) (omega arith) (omega arith) refl (omega arith) refl
      (compute_heap_size_lem 4096 megabyte pages (inl refl) refl (omega arith))

system_new-Laid_example :
    (m' : Machine) × (system_new heap 100 empty
      ≡ returns (megabyte + 12 + 4, advanced heap (block_size 100)) m')
    × IsHeap (advanced heap (block_size 100)) m'
    × Laid
        (advanced heap (block_size 100))
        m'
        ([] ++ (record { kind = sblk; size = block_size 100 } ∷ []))
system_new-Laid_example =
    system_new-Laid heap empty empty-IsHeap 100 (omega arith) (omega arith) [] refl

walk-Laid_example :
    walk (megabyte / 16 + 1) (megabyte + 12) (megabyte + 12 + megabyte) empty
    ≡ returns (some ([] ++ (free_block heap empty ∷ []))) empty
walk-Laid_example = walk-Laid heap empty empty-IsHeap [] refl

-- The last paragraph as a type descriptor.
pub descriptor : IsDescriptor empty (megabyte + megabyte - 16)
descriptor = record { aligned = refl; from = omega arith; upto = omega arith }

new_elem_array-Laid_example :
    (m' : Machine) × (new_elem_array simple_elem heap 5 4 (some (megabyte + megabyte - 16)) empty
      ≡ returns (some (megabyte + 12 + 4 + 16), advanced heap (array_size simple_elem 5 4)) m')
    × IsHeap (advanced heap (array_size simple_elem 5 4)) m'
    × Laid
        (advanced heap (array_size simple_elem 5 4))
        m'
        ([] ++ (record { kind = ablk; size = array_size simple_elem 5 4 } ∷ []))
    × (elem_array_len simple_elem (some (megabyte + 12 + 4 + 16)) m' ≡ returns 5 m')
new_elem_array-Laid_example =
    new_elem_array-Laid heap empty empty-IsHeap (megabyte + megabyte - 16) descriptor [] refl
      simple_elem 5 4 (omega arith) (omega arith) (omega arith)

system_new-exhausted_example : system_new heap megabyte empty ≡ halts fatal
system_new-exhausted_example =
    system_new-exhausted heap empty megabyte (inl refl) (omega arith) (omega arith)

-- A system block of 48 bytes with a type descriptor of records of 48 bytes in it.
abbrev used_heap : Heap
used_heap = advanced heap 48

abbrev used : Machine
used = record pages {
  bytes =
      store4 (store4 (store4 (λ p. 0) (megabyte + 12) 51) (megabyte + 32) 48) (megabyte + 60)
        (megabyte - 48 + 4);
}

used-IsHeap : IsHeap used_heap used
used-IsHeap = record {
  positive = omega arith;
  base_aligned = omega arith;
  whole = omega arith;
  mapped = omega arith;
  small = omega arith;
  first = refl;
  from = omega arith;
  curr_aligned = omega arith;
  inside = omega arith;
  free = ground arith;
}

used-Laid : Laid used_heap used (record { kind = sblk; size = 48 } ∷ [])
used-Laid =
    (record { positive = omega arith; paragraphs = refl; tag = ground arith }, omega arith, refl)

used-IsDescriptor : IsDescriptor used (megabyte + 16)
used-IsDescriptor = record { aligned = refl; from = omega arith; upto = omega arith }

new_module-Laid_example :
    (m' : Machine) × (new_module used_heap (some (megabyte + 16)) 40 used
      ≡ returns (megabyte + 12 + 48 + 4, advanced used_heap 48) m')
    × (load4 m'.bytes (megabyte + 12 + 48) ≡ megabyte + 16 + 1)
    × IsHeap (advanced used_heap 48) m'
    × Laid
        (advanced used_heap 48)
        m'
        (record { kind = sblk; size = 48 } ∷ record { kind = dblk; size = 48 } ∷ [])
new_module-Laid_example =
    new_module-Laid used_heap used used-IsHeap 40 (omega arith) (omega arith) (megabyte + 16)
      used-IsDescriptor (record { kind = sblk; size = 48 } ∷ []) used-Laid (omega arith)
      (ground arith)
