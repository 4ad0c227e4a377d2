-- ===== src/Heap/Filled.antt =====
-- loader/heap.cpp: the three kinds of arrays that the loader allocates, and their lengths.
use oberon.Prelude.{
  ap, ℕ, zero, suc, ◌+◌, ◌-◌, ◌*◌, ◌%◌, ◌^◌, ◌≤◌, ◌<◌, ◌≡◌, refl, ◌∙◌, arith, some, List, [], ◌∷◌,
  ◌++◌, bit_or, false,
}
use oberon.Prelude.Tests.{◌==◌}
use oberon.Machine.State.{Machine, returns, M, pure, ◌>>◌}
use oberon.Machine.Memory.{Haddr, with_bytes, read_4_ze}
use oberon.O3.{add}
use native.Mathlib.Nat.{mul-suc}
use oberon.Heap.{Heap, heap_address}
use oberon.Heap.Size.{block_size}
use oberon.Heap.Tags.{tag_sum}
use oberon.Heap.Arrays.{
  new_simple_elem_array, new_record_elem_array, new_pointer_elem_array, simple_elem_array_len,
  record_elem_array_len, pointer_elem_array_len, deadbeef, product, sum, alignment_check,
}
use oberon.Heap.Allocated.{IsHeap, HasRoom, advanced, heap_address_lem}
use oberon.Heap.Walk.{ablk, Block}
use oberon.Heap.Laid.{Laid}
use oberon.Heap.Tiles.{read_4_ze_lem}
use oberon.Heap.Described.{
  nth, new_array_lem, describe_lem, tagged, described, described-IsHeap, described-Laid,
  load4-with_words, with_words,
}

-- A type descriptor: an aligned address of the heap.
pub record IsDescriptor (m : Machine) (td : ℕ) : Type 0 where
  pub aligned : td % 16 ≡ 0
  pub from : m.block.base ≤ td
  pub upto : td < m.block.base + m.memory.n_bytes

-- The words of the descriptors.
abbrev pub simple_words : ℕ → ℕ → ℕ → List ℕ
simple_words size n td = size ∷ deadbeef ∷ n ∷ (td + 9) ∷ []

abbrev record_words : ℕ → ℕ → ℕ → List ℕ
record_words size n td = size ∷ n ∷ 0 ∷ 0 ∷ deadbeef ∷ deadbeef ∷ n ∷ (td + 9) ∷ []

abbrev pointer_words : ℕ → ℕ → ℕ → List ℕ
pointer_words size n td = size ∷ n ∷ 0 ∷ deadbeef ∷ deadbeef ∷ deadbeef ∷ n ∷ (td + 9) ∷ []

product_lem : (n e : ℕ) (m : Machine) → n * e < 2 ^ 31 → product n e m ≡ returns (n * e) m
product_lem n e m small = ground arith

sum_lem : (n e : ℕ) (m : Machine) → n + e < 2 ^ 31 → sum n e m ≡ returns (n + e) m
unfolding add
sum_lem n e m small = ground arith

factor : (n e : ℕ) → 0 < n * e → n ≤ n * e
factor n zero positive = absurd (omega arith)
factor n (suc e) positive = omega (arith, mul-suc n e)

abbrev found : ℕ → Heap → Haddr × Heap
found p h = (some p, h)

module _ (heap : Heap) (m : Machine) (is : IsHeap heap m) (td : ℕ) (has : IsDescriptor m td) where
  open is use {positive, mapped, first, from, curr_aligned, base_aligned, small}

  td_address : (b : ℕ → ℕ) → heap_address (some td) (with_bytes b m) ≡ returns td (with_bytes b m)
  td_address b =
      heap_address_lem (with_bytes b m) td (omega (arith, has.from)) has.from has.upto
        (omega (arith, has.upto))

  td_flags : bit_or td 9 ≡ td + 9
  td_flags = tag_sum td 9 has.aligned (omega arith)

  not_empty : (b : ℕ) → 0 < b → (b == 0) ≡ false
  not_empty b positive = ground arith

  checked_result :
      (b : ℕ → ℕ) (p : ℕ) (h : Heap)
      → p % 16 ≡ 0
      → m.block.base ≤ p
      → p < m.block.base + m.memory.n_bytes
      → (alignment_check (some p) >> pure (found p h)) (with_bytes b m)
        ≡ returns (found p h) (with_bytes b m)
  unfolding alignment_check
  checked_result b p h aligned lo hi =
      rw (heap_address_lem (with_bytes b m) p (omega arith) lo hi (omega arith), aligned) refl

  -- new_simple_elem_array.
  pub new_simple_lem :
      (n e : ℕ)
      → 0 < n * e
      → n * e + 36 ≤ 2 ^ 31
      → HasRoom heap m (block_size (n * e + 16))
      → new_simple_elem_array heap n e (some td) m
        ≡ returns
            (some (heap.curr_heap + 4 + 16), advanced heap (block_size (n * e + 16)))
            (with_bytes
              (described heap m (n * e + 16) (simple_words (block_size (n * e + 16)) n td))
              m)
  unfolding new_simple_elem_array
  new_simple_lem n e some_bytes fits room =
      rw
        (
          td_address m.bytes,
          has.aligned,
          product_lem n e m (omega arith),
          not_empty (n * e) some_bytes,
          sum_lem (n * e) 16 m (omega arith),
          new_array_lem heap m is (n * e + 16) (omega arith) room
              (simple_words (block_size (n * e + 16)) n td) (omega arith) refl,
          td_address (tagged heap m (n * e + 16) (simple_words (block_size (n * e + 16)) n td)),
          td_flags,
          describe_lem heap m is (n * e + 16) (omega arith) room
              (simple_words (block_size (n * e + 16)) n td) (omega arith) refl,
        )
        (checked_result
          (described heap m (n * e + 16) (simple_words (block_size (n * e + 16)) n td))
          (heap.curr_heap + 4 + 16) (advanced heap (block_size (n * e + 16))) (omega arith)
          (omega arith) (omega arith))

  -- new_record_elem_array.
  new_record_lem :
      (n e : ℕ)
      → 0 < n * e
      → n * e + 52 ≤ 2 ^ 31
      → HasRoom heap m (block_size (n * e + 32))
      → new_record_elem_array heap n e (some td) m
        ≡ returns
            (some (heap.curr_heap + 4 + 32), advanced heap (block_size (n * e + 32)))
            (with_bytes
              (described heap m (n * e + 32) (record_words (block_size (n * e + 32)) n td))
              m)
  unfolding new_record_elem_array
  new_record_lem n e some_bytes fits room =
      rw
        (
          td_address m.bytes,
          has.aligned,
          product_lem n e m (omega arith),
          not_empty (n * e) some_bytes,
          sum_lem (n * e) 32 m (omega arith),
          new_array_lem heap m is (n * e + 32) (omega arith) room
              (record_words (block_size (n * e + 32)) n td) (omega arith) refl,
          td_address (tagged heap m (n * e + 32) (record_words (block_size (n * e + 32)) n td)),
          td_flags,
          describe_lem heap m is (n * e + 32) (omega arith) room
              (record_words (block_size (n * e + 32)) n td) (omega arith) refl,
        )
        (checked_result
          (described heap m (n * e + 32) (record_words (block_size (n * e + 32)) n td))
          (heap.curr_heap + 4 + 32) (advanced heap (block_size (n * e + 32))) (omega arith)
          (omega arith) (omega arith))

  -- new_pointer_elem_array.
  new_pointer_lem :
      (n e : ℕ)
      → 0 < n * 4
      → n * 4 + 52 ≤ 2 ^ 31
      → HasRoom heap m (block_size (n * 4 + 32))
      → new_pointer_elem_array heap n e (some td) m
        ≡ returns
            (some (heap.curr_heap + 4 + 32), advanced heap (block_size (n * 4 + 32)))
            (with_bytes
              (described heap m (n * 4 + 32) (pointer_words (block_size (n * 4 + 32)) n td))
              m)
  unfolding new_pointer_elem_array
  new_pointer_lem n e some_bytes fits room =
      rw
        (
          td_address m.bytes,
          has.aligned,
          product_lem n 4 m (omega arith),
          not_empty (n * 4) some_bytes,
          td_address m.bytes,
          sum_lem (n * 4) 32 m (omega arith),
          new_array_lem heap m is (n * 4 + 32) (omega arith) room
              (pointer_words (block_size (n * 4 + 32)) n td) (omega arith) refl,
          td_flags,
          describe_lem heap m is (n * 4 + 32) (omega arith) room
              (pointer_words (block_size (n * 4 + 32)) n td) (omega arith) refl,
        )
        (checked_result
          (described heap m (n * 4 + 32) (pointer_words (block_size (n * 4 + 32)) n td))
          (heap.curr_heap + 4 + 32) (advanced heap (block_size (n * 4 + 32))) (omega arith)
          (omega arith) (omega arith))

-- The three kinds of arrays.
pub data Elements : Type 0 where
  simple_elem record_elem pointer_elem : Elements

abbrev pub new_elem_array : Elements → Heap → ℕ → ℕ → Haddr → M (Haddr × Heap)
new_elem_array simple_elem = new_simple_elem_array
new_elem_array record_elem = new_record_elem_array
new_elem_array pointer_elem = new_pointer_elem_array

abbrev pub elem_array_len : Elements → Haddr → M ℕ
elem_array_len simple_elem = simple_elem_array_len
elem_array_len record_elem = record_elem_array_len
elem_array_len pointer_elem = pointer_elem_array_len

-- The bytes of the data, and of the descriptor before it.
abbrev pub data_size : Elements → ℕ → ℕ → ℕ
data_size simple_elem n e = n * e
data_size record_elem n e = n * e
data_size pointer_elem n e = n * 4

abbrev pub header_size : Elements → ℕ
header_size simple_elem = 16
header_size record_elem = 32
header_size pointer_elem = 32

-- The block of an array of `n` elements of `e` bytes.
abbrev pub array_size : Elements → ℕ → ℕ → ℕ
array_size k n e = block_size (data_size k n e + header_size k)

module _ (heap : Heap) (m : Machine) (is : IsHeap heap m) (td : ℕ) (has : IsDescriptor m td)
    (xs : List Block) (laid : Laid heap m xs) where
  open is use {positive, mapped, first, from, curr_aligned, base_aligned, small}

  pub bound_at :
      (b : ℕ → ℕ) (ws : List ℕ) (q i n : ℕ)
      → q ≡ heap.curr_heap + 4 + i * 4
      → nth ws i ≡ some n
      → n < 2 ^ 32
      → q + 4 ≤ m.block.base + m.block.size
      → read_4_ze (some q) (with_bytes (with_words b (heap.curr_heap + 4) ws) m)
        ≡ returns n (with_bytes (with_words b (heap.curr_heap + 4) ws) m)
  bound_at b ws q i n at word small hi =
      let m' = with_bytes (with_words b (heap.curr_heap + 4) ws) m in
      read_4_ze_lem m' q (omega arith) hi
      ∙ ap (λ v. returns v m') (load4-with_words ws b (heap.curr_heap + 4) q i n at word small)

  -- In a well-formed heap that consists of given blocks, with an aligned type descriptor in the
  -- heap and room for the block, each of the three functions that allocate an array of data that
  -- is not empty returns the address of the data, extends the blocks by one array block of the
  -- size of the data and the descriptor of the array, leaves the heap well formed, and the length
  -- of the array at that address is the number of elements.
  pub new_elem_array-Laid :
      (k : Elements) (n e : ℕ)
      → 0 < data_size k n e
      → data_size k n e + header_size k + 20 ≤ 2 ^ 31
      → HasRoom heap m (array_size k n e)
      → (m' : Machine) × (new_elem_array k heap n e (some td) m
          ≡ returns
              (some (heap.curr_heap + 4 + header_size k), advanced heap (array_size k n e))
              m')
        × IsHeap (advanced heap (array_size k n e)) m'
        × Laid
            (advanced heap (array_size k n e))
            m'
            (xs ++ (record { kind = ablk; size = array_size k n e } ∷ []))
        × (elem_array_len k (some (heap.curr_heap + 4 + header_size k)) m' ≡ returns n m')
  unfolding simple_elem_array_len record_elem_array_len pointer_elem_array_len
  new_elem_array-Laid simple_elem n e some_bytes fits room =
      let ws = simple_words (block_size (n * e + 16)) n td in
      (
        with_bytes (described heap m (n * e + 16) ws) m,
        new_simple_lem heap m is td has n e some_bytes (omega arith) room,
        described-IsHeap heap m is (n * e + 16) (omega arith) room ws (omega arith) refl,
        described-Laid heap m is (n * e + 16) (omega arith) room ws (omega arith) refl td 3 xs laid
            refl refl refl has.aligned (omega (arith, has.upto)),
        bound_at (tagged heap m (n * e + 16) ws) ws (heap.curr_heap + 4 + 16 - 16 + 8) 2 n
            (omega arith) refl (omega (arith, factor n e some_bytes)) (omega arith),
      )
  new_elem_array-Laid record_elem n e some_bytes fits room =
      let ws = record_words (block_size (n * e + 32)) n td in
      (
        with_bytes (described heap m (n * e + 32) ws) m,
        new_record_lem heap m is td has n e some_bytes (omega arith) room,
        described-IsHeap heap m is (n * e + 32) (omega arith) room ws (omega arith) refl,
        described-Laid heap m is (n * e + 32) (omega arith) room ws (omega arith) refl td 7 xs laid
            refl refl refl has.aligned (omega (arith, has.upto)),
        bound_at (tagged heap m (n * e + 32) ws) ws (heap.curr_heap + 4 + 32 - 32 + 24) 6 n
            (omega arith) refl (omega (arith, factor n e some_bytes)) (omega arith),
      )
  new_elem_array-Laid pointer_elem n e some_bytes fits room =
      let ws = pointer_words (block_size (n * 4 + 32)) n td in
      (
        with_bytes (described heap m (n * 4 + 32) ws) m,
        new_pointer_lem heap m is td has n e some_bytes (omega arith) room,
        described-IsHeap heap m is (n * 4 + 32) (omega arith) room ws (omega arith) refl,
        described-Laid heap m is (n * 4 + 32) (omega arith) room ws (omega arith) refl td 7 xs laid
            refl refl refl has.aligned (omega (arith, has.upto)),
        bound_at (tagged heap m (n * 4 + 32) ws) ws (heap.curr_heap + 4 + 32 - 32 + 24) 6 n
            (omega arith) refl (omega arith) (omega arith),
      )
