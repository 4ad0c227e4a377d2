-- ===== src/Heap/Made.antt =====
-- loader/heap.cpp: the heap that the loader starts with is well formed and empty.
use oberon.Prelude.{
  ap, sym, ℕ, ◌+◌, ◌-◌, ◌*◌, ◌/◌, ◌%◌, ◌^◌, ◌≤◌, ◌<◌, ◌≡◌, refl, arith, ◌∙◌, ◌⊎◌, inl, inr, true,
  some, [],
}
use oberon.Prelude.Word.{uint32, int32, add32}
use oberon.Prelude.Int.{pos, negsuc}
use oberon.Machine.State.{Machine, returns, halts, Outcome}
use oberon.Machine.Memory.{load4, with_bytes, store4, within}
use oberon.Machine.RoundTrip.{load4-store4, load4-store4_apart}
use oberon.O3.{neg, modulo, rem, sub}
use oberon.Heap.{Heap}
use oberon.Heap.Tags.{tag_sum, bit_and_high}
use oberon.Heap.Make.{compute_heap_size, internal_make_heap, zeroed, total_heap_size}
use oberon.Heap.Allocated.{IsHeap, write_4_lem}
use oberon.Heap.Laid.{Laid}

-- The sizes of pages that the code knows.
abbrev pub IsPageSize : ℕ → Type 0
IsPageSize page = (page ≡ 4096) ⊎ (page ≡ 16384)

-- 16384 divides the size of the heap.
pub compute_heap_size_lem :
    (page s : ℕ) (m : Machine)
    → IsPageSize page
    → s % 16384 ≡ 0
    → s + 2 * page < 2 ^ 32
    → compute_heap_size page s m ≡ returns (s + page) m
unfolding compute_heap_size
compute_heap_size_lem page s m (inl e) whole small =
    rw (e, bit_and_high 20 12 (uint32 (s + 12 + 4096)), size) (ground arith)
  where
    size : uint32 (s + 12 + 4096) / 2 ^ 12 % 2 ^ 20 * 2 ^ 12 ≡ s + 4096
    size = omega arith
compute_heap_size_lem page s m (inr e) whole small =
    rw (e, bit_and_high 18 14 (uint32 (s + 12 + 16384)), size) (ground arith)
  where
    size : uint32 (s + 12 + 16384) / 2 ^ 14 % 2 ^ 18 * 2 ^ 14 ≡ s + 16384
    size = omega arith

abbrev pub new_heap : Machine → Heap
new_heap m = record { oberon_heap = m.block.base + 12; curr_heap = m.block.base + 12 }

module _ (m : Machine) (s : ℕ) (positive : 0 < m.block.base) (page : m.block.base % 4096 ≡ 0)
    (mapped : s + 16 ≤ m.block.size) (small : m.block.base + m.block.size ≤ 2 ^ 30)
    (some_bytes : 0 < s) (whole : s % 16 ≡ 0) where
  abbrev base : ℕ
  base = m.block.base

  abbrev made : ℕ → ℕ
  made = store4 (store4 (zeroed m.bytes base (s + 12)) (base + 12) (s + 4)) (base + 12 + 4) 0

  signed : int32 base ≡ pos base
  signed = ground arith

  opposite : neg (pos base) ≡ some (negsuc (base - 1))
  unfolding neg
  opposite = ground arith

  no_padding : modulo (negsuc (base - 1)) (pos 16) ≡ some (pos 0)
  unfolding modulo neg rem sub
  no_padding = ground arith

  contained : within m.block base (s + 12) ≡ true
  contained = ground arith

  start : add32 base 0 ≡ base
  start = omega arith

  aligned : base % 16 ≡ 0
  aligned = omega arith

  aligned_tag : (base + 12 + 4) % 16 ≡ 0
  aligned_tag = omega arith

  internal_make_heap_lem : internal_make_heap s m ≡ returns (new_heap m) (with_bytes made m)
  unfolding internal_make_heap
  internal_make_heap_lem =
      rw
        (
          page,
          contained,
          signed,
          opposite,
          no_padding,
          start,
          aligned,
          aligned_tag,
          tag_sum s 4 whole (omega arith),
          write_4_lem (with_bytes (zeroed m.bytes base (s + 12)) m) (base + 12) (s + 4)
              (omega arith) (omega arith),
          write_4_lem (with_bytes (store4 (zeroed m.bytes base (s + 12)) (base + 12) (s + 4)) m)
              (base + 12 + 4) 0 (omega arith) (omega arith),
        )
        refl

  free_tag : load4 made (base + 12) ≡ s + 4
  free_tag =
      load4-store4_apart (store4 (zeroed m.bytes base (s + 12)) (base + 12) (s + 4)) (base + 12 + 4)
        0 (base + 12) (omega arith)
      ∙ (load4-store4 (zeroed m.bytes base (s + 12)) (base + 12) (s + 4) ∙ omega arith)

  made-IsHeap : m.memory.n_bytes ≡ s → IsHeap (new_heap m) (with_bytes made m)
  made-IsHeap total = record {
    positive = positive;
    base_aligned = omega arith;
    whole = omega arith;
    mapped = omega arith;
    small = small;
    first = refl;
    from = omega arith;
    curr_aligned = omega arith;
    inside = omega arith;
    free = omega (arith, free_tag);
  }

value : Outcome ℕ → ℕ
value (returns v m) = v
value (halts h) = 0

module _ (m : Machine) (page heap_mb stack_mb : ℕ) where
  abbrev s : ℕ
  s = total_heap_size heap_mb stack_mb

  block_bytes :
      IsPageSize page
      → s + 2 * page < 2 ^ 32
      → compute_heap_size page s m ≡ returns m.block.size m
      → s + page ≡ m.block.size
  unfolding value
  block_bytes known small e =
      ap value (sym (compute_heap_size_lem page s m known (omega arith) small) ∙ e)

  -- On pages of either known size, of the number that is computed for the heap and the stack,
  -- aligned and below bit 30, the heap that is made is well formed and has no allocated block.
  pub make-IsHeap-Laid :
      IsPageSize page
      → 0 < heap_mb + stack_mb
      → 0 < m.block.base
      → m.block.base % page ≡ 0
      → m.block.base + total_heap_size heap_mb stack_mb + page ≤ 2 ^ 30
      → m.memory.n_bytes ≡ total_heap_size heap_mb stack_mb
      → compute_heap_size page (total_heap_size heap_mb stack_mb) m ≡ returns m.block.size m
      → (m' : Machine) × (internal_make_heap (total_heap_size heap_mb stack_mb) m
          ≡ returns (new_heap m) m')
        × IsHeap (new_heap m) m'
        × Laid (new_heap m) m' []
  make-IsHeap-Laid known some_mb positive aligned small total size = (
    with_bytes (made m s positive page_4096 mapped below (omega arith) (omega arith)) m,
    internal_make_heap_lem m s positive page_4096 mapped below (omega arith) (omega arith),
    made-IsHeap m s positive page_4096 mapped below (omega arith) (omega arith) total,
    refl,
  )
    where
      page_4096 : m.block.base % 4096 ≡ 0
      page_4096 = ground arith

      block : s + page ≡ m.block.size
      block = block_bytes known (ground arith) size

      mapped : s + 16 ≤ m.block.size
      mapped = ground (arith, block)

      below : m.block.base + m.block.size ≤ 2 ^ 30
      below = ground (arith, block)
