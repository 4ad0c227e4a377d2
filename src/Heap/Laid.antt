-- ===== src/Heap/Laid.antt =====
-- loader/heap.cpp: the allocated blocks as a list, which each allocation extends.
use oberon.Prelude.{
  ℕ, suc, ◌+◌, ◌-◌, ◌*◌, ◌/◌, ◌%◌, ◌^◌, ◌≤◌, ◌<◌, ◌≡◌, refl, subst, ◌∙◌, arith, some, List, [], ◌∷◌,
  ◌++◌,
}
use oberon.Machine.State.{Machine, returns}
use oberon.Machine.Memory.{load4, with_bytes}
use oberon.Machine.RoundTrip.{load4-store4, load4-store4_apart, store4_outside}
use oberon.Heap.{Heap, system_new}
use oberon.Heap.Size.{block_size}
use oberon.Heap.Allocated.{
  IsHeap, HasRoom, advanced, free_space, freed, system_bytes, system_new_lem, IsHeap-advanced,
  freed_tag, freed_below,
}
use oberon.Heap.Walk.{Kind, sblk, ablk, fblk, dblk, Block, walk}
use oberon.Heap.Tiles.{HasTag, HasBlock, Tiles, length, Covers, walk-Tiles}

-- The heap consists of the blocks `xs` up to `curr_heap`.
abbrev pub Laid : Heap → Machine → List Block → Type 0
Laid heap m xs = Tiles m.bytes m.block.base heap.curr_heap heap.oberon_heap xs heap.curr_heap

-- Bytes below `hi` are the same.
abbrev pub Same : ℕ → (ℕ → ℕ) → (ℕ → ℕ) → Type 0
Same hi b b' = (q : ℕ) → q < hi → b' q ≡ b q

pub load4-Same :
    (hi : ℕ) (b b' : ℕ → ℕ) → Same hi b b' → (p : ℕ) → p + 4 ≤ hi → load4 b' p ≡ load4 b p
load4-Same hi b b' same p inside =
    rw
      (
        same p (omega arith),
        same (p + 1) (omega arith),
        same (p + 2) (omega arith),
        same (p + 3) (omega arith),
      )
      refl

module _ (b b' : ℕ → ℕ) (lo hi hi' : ℕ) (same : Same hi b b') (grows : hi ≤ hi') where
  HasTag-Same : (a s : ℕ) (k : Kind) → a + 8 ≤ hi → HasTag b lo hi a k s → HasTag b' lo hi' a k s
  HasTag-Same a s sblk fits tag = load4-Same hi b b' same a (omega arith) ∙ tag
  HasTag-Same a s fblk fits tag = load4-Same hi b b' same a (omega arith) ∙ tag
  HasTag-Same a s ablk fits (d, e, at_size, aligned, from, upto, flag) = (
    d,
    load4-Same hi b b' same a (omega arith) ∙ e,
    load4-Same hi b b' same (a + 4) (omega arith) ∙ at_size,
    aligned,
    from,
    omega arith,
    rw (load4-Same hi b b' same (d - 4) (omega arith)) flag,
  )
  HasTag-Same a s dblk fits (d, e, aligned, from, upto, at_size) = (
    d,
    load4-Same hi b b' same a (omega arith) ∙ e,
    aligned,
    from,
    omega arith,
    load4-Same hi b b' same (d + 16) (omega arith) ∙ at_size,
  )

  HasBlock-Same :
      (a : ℕ) (x : Block) → a + x.size ≤ hi → HasBlock b lo hi a x → HasBlock b' lo hi' a x
  HasBlock-Same a x fits has = record {
    positive = has.positive;
    paragraphs = has.paragraphs;
    tag = HasTag-Same a x.size x.kind (omega (arith, has.positive, has.paragraphs)) has.tag;
  }

  -- One more block after the others.
  pub Tiles-snoc :
      (xs : List Block) (a y : ℕ) (x : Block)
      → y ≤ hi
      → Tiles b lo hi a xs y
      → HasBlock b' lo hi' y x
      → Tiles b' lo hi' a (xs ++ (x ∷ [])) (y + x.size)
  Tiles-snoc [] a y x below tiles has = rw tiles (has, omega arith, refl)
  Tiles-snoc (z ∷ zs) a y x below (hz, fits, tiles) has = (
    HasBlock-Same a z (omega arith) hz,
    omega arith,
    Tiles-snoc zs (a + z.size) y x below tiles has,
  )

-- Each block has a paragraph at least.
pub Tiles-length :
    (b : ℕ → ℕ) (lo hi : ℕ) (xs : List Block) (a z : ℕ)
    → Tiles b lo hi a xs z
    → a + length xs * 16 ≤ z
Tiles-length b lo hi [] a z tiles = omega arith
Tiles-length b lo hi (x ∷ xs) a z (has, fits, tiles) =
    omega (arith, Tiles-length b lo hi xs (a + x.size) z tiles, has.positive, has.paragraphs)

length-snoc : (xs : List Block) (x : Block) → length (xs ++ (x ∷ [])) ≡ suc (length xs)
length-snoc [] x = refl
length-snoc (y ∷ ys) x = rw (length-snoc ys x) refl

abbrev pub free_block : Heap → Machine → Block
free_block heap m = record { kind = fblk; size = free_space heap m }

module _ (heap : Heap) (m : Machine) (is : IsHeap heap m) where
  open is use {
    positive, whole, mapped, small, first, from, curr_aligned, inside, base_aligned, free,
  }

  covers : Covers m heap.curr_heap (heap.oberon_heap + m.memory.n_bytes)
  covers = record {
    positive = positive;
    mapped = mapped;
    small = small;
    below = omega arith;
    end = omega arith;
  }

  has_free : HasBlock m.bytes m.block.base heap.curr_heap heap.curr_heap (free_block heap m)
  has_free = record { positive = omega arith; paragraphs = omega arith; tag = free }

  -- The walk over a well-formed heap that consists of given blocks ends within one round for each
  -- paragraph of memory and one more, and finds these blocks and then one free block with the rest
  -- of the memory.
  pub walk-Laid :
      (xs : List Block)
      → Laid heap m xs
      → walk (m.memory.n_bytes / 16 + 1) heap.oberon_heap (heap.oberon_heap + m.memory.n_bytes) m
        ≡ returns (some (xs ++ (free_block heap m ∷ []))) m
  walk-Laid xs laid =
      walk-Tiles m heap.curr_heap (heap.oberon_heap + m.memory.n_bytes) covers
        (m.memory.n_bytes / 16 + 1) (xs ++ (free_block heap m ∷ [])) heap.oberon_heap (omega arith)
        tiles
        (rw (length-snoc xs (free_block heap m)) (
          omega (
            arith,
            Tiles-length m.bytes m.block.base heap.curr_heap xs heap.oberon_heap heap.curr_heap
                laid,
          )))
    where
      tiles :
          Tiles m.bytes m.block.base heap.curr_heap heap.oberon_heap
            (xs ++ (free_block heap m ∷ []))
            (heap.oberon_heap + m.memory.n_bytes)
      tiles =
          subst
            (Tiles m.bytes m.block.base heap.curr_heap heap.oberon_heap
              (xs ++ (free_block heap m ∷ [])))
            (omega arith)
            (Tiles-snoc m.bytes m.bytes m.block.base heap.curr_heap heap.curr_heap (λ q h. refl)
              (omega arith) xs heap.oberon_heap heap.curr_heap (free_block heap m) (omega arith)
              laid has_free)

  module _ (xs : List Block) (laid : Laid heap m xs) (size : ℕ) (room : HasRoom heap m size)
      (paragraphs : size % 16 ≡ 0) where
    -- What is written from `curr_heap` on extends the list.
    pub Laid-snoc :
        (b : ℕ → ℕ) (k : Kind)
        → Same heap.curr_heap m.bytes b
        → 0 < size
        → HasTag b m.block.base (heap.curr_heap + size) heap.curr_heap k size
        → Laid (advanced heap size) (with_bytes b m) (xs ++ (record { kind = k; size = size } ∷ []))
    Laid-snoc b k same big tag =
        Tiles-snoc m.bytes b m.block.base heap.curr_heap (heap.curr_heap + size) same (omega arith)
          xs heap.oberon_heap heap.curr_heap (record { kind = k; size = size }) (omega arith) laid
          (record { positive = big; paragraphs = paragraphs; tag = tag })

  module _ (n : ℕ) (fits : n + 20 ≤ 2 ^ 31) (room : HasRoom heap m (block_size n)) where
    abbrev size : ℕ
    size = block_size n

    system_tag : load4 (system_bytes heap size m) heap.curr_heap ≡ size + 3
    system_tag =
        rw (load4-store4 (freed heap size m) heap.curr_heap (size + 3)) (omega (arith, room, small))

    pub still_free :
        load4 (system_bytes heap size m) (heap.curr_heap + size) ≡ free_space heap m - size + 4
    still_free =
        load4-store4_apart (freed heap size m) heap.curr_heap (size + 3) (heap.curr_heap + size)
          (omega arith)
        ∙ freed_tag heap m is size (omega arith) room

    pub system-Same : Same heap.curr_heap m.bytes (system_bytes heap size m)
    system-Same q h =
        store4_outside (freed heap size m) heap.curr_heap (size + 3) q (omega arith)
        ∙ freed_below heap m is size (omega arith) room q (omega arith)

    -- In a well-formed heap that consists of given blocks and has room for the block, the
    -- allocation of a system block returns the address after its tag, extends the blocks by a
    -- system block of the rounded size, and leaves the heap well formed.
    pub system_new-Laid :
        (xs : List Block)
        → Laid heap m xs
        → (m' : Machine) × (system_new heap n m
            ≡ returns (heap.curr_heap + 4, advanced heap size) m')
          × IsHeap (advanced heap size) m'
          × Laid (advanced heap size) m' (xs ++ (record { kind = sblk; size = size } ∷ []))
    system_new-Laid xs laid = (
      with_bytes (system_bytes heap size m) m,
      system_new_lem heap m is n fits room,
      IsHeap-advanced heap m is size (omega arith) room (system_bytes heap size m) still_free,
      Laid-snoc xs laid size room (omega arith) (system_bytes heap size m) sblk system-Same
          (omega arith) system_tag,
    )
