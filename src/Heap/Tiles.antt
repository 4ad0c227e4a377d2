-- ===== src/Heap/Tiles.antt =====
-- loader/heap.cpp: the heap as a list of blocks, and the walk over it.
use oberon.Prelude.{
  ℕ, zero, suc, ◌+◌, ◌-◌, ◌*◌, ◌/◌, ◌%◌, ◌^◌, ◌≤◌, ◌<◌, ◌≡◌, refl, arith, some, List, [], ◌∷◌,
}
use oberon.Prelude.Tests.{lt→ltb, ltb-eq-false}
use oberon.Prelude.Bits.{bit_and_mask}
use oberon.Machine.State.{Machine, BuildType, alpha, beta, release, returns}
use oberon.Machine.Memory.{load4, read_4_ze}
use oberon.Heap.{host_address}
use oberon.Heap.Tags.{tag_high, syst_flag, free_flag, aray_flag}
use oberon.Heap.Walk.{
  Kind, sblk, ablk, fblk, dblk, Block, block_at, array_block, record_block, walk, moved,
}

-- The word of a block at `a`, and the words it leads to, which lie in [lo, hi).
abbrev pub HasTag : (ℕ → ℕ) → ℕ → ℕ → ℕ → Kind → ℕ → Type 0
HasTag b lo hi a sblk size = load4 b a ≡ size + 3
HasTag b lo hi a fblk size = load4 b a ≡ size + 4
HasTag b lo hi a ablk size =
    (data_at : ℕ) × (load4 b a ≡ data_at + 9)
    × (load4 b (a + 4) ≡ size)
    × (data_at % 16 ≡ 0)
    × (lo + 4 ≤ data_at)
    × (data_at < hi)
    × (load4 b (data_at - 4) % 16 ≡ 9)
HasTag b lo hi a dblk size =
    (td : ℕ) × (load4 b a ≡ td + 1)
    × (td % 16 ≡ 0)
    × (lo ≤ td)
    × (td + 20 ≤ hi)
    × (load4 b (td + 16) ≡ size)

pub record HasBlock (b : ℕ → ℕ) (lo hi a : ℕ) (x : Block) : Type 0 where
  pub positive : 0 < x.size
  pub paragraphs : x.size % 16 ≡ 0
  pub tag : HasTag b lo hi a x.kind x.size

-- The blocks lie side by side from `a` to `z`.
abbrev pub Tiles : (ℕ → ℕ) → ℕ → ℕ → ℕ → List Block → ℕ → Type 0
Tiles b lo hi a [] z = a ≡ z
Tiles b lo hi a (x ∷ xs) z =
    HasBlock b lo hi a x × (a + x.size ≤ z) × Tiles b lo hi (a + x.size) xs z

abbrev pub length : List Block → ℕ
length [] = 0
length (x ∷ xs) = suc (length xs)

address_valid :
    (m : Machine) (b : BuildType) (p : ℕ)
    → 0 < p
    → m.block.base ≤ p
    → p < m.block.base + m.memory.n_bytes
    → p < 2 ^ 32
    → host_address p (record m { build = b }) ≡ returns (some p) (record m { build = b })
unfolding host_address
address_valid m alpha p positive lo hi small = ground arith
address_valid m beta p positive lo hi small = ground arith
address_valid m release p positive lo hi small = ground arith

pub host_address_lem :
    (m : Machine) (p : ℕ)
    → 0 < p
    → m.block.base ≤ p
    → p < m.block.base + m.memory.n_bytes
    → p < 2 ^ 32
    → host_address p m ≡ returns (some p) m
host_address_lem m = address_valid m m.build

pub read_4_ze_lem :
    (m : Machine) (p : ℕ)
    → m.block.base ≤ p
    → p + 4 ≤ m.block.base + m.block.size
    → read_4_ze (some p) m ≡ returns (load4 m.bytes p) m
unfolding read_4_ze
read_4_ze_lem m p lo hi = ground arith

-- The block of the machine covers what the walk reads.
pub record Covers (m : Machine) (hi z : ℕ) : Type 0 where
  pub positive : 0 < m.block.base
  pub mapped : m.memory.n_bytes + 16 ≤ m.block.size
  pub small : m.block.base + m.block.size ≤ 2 ^ 30
  pub below : hi ≤ m.block.base + m.memory.n_bytes
  pub end : z ≤ m.block.base + m.memory.n_bytes + 12

module _ (m : Machine) (hi z : ℕ) (covers : Covers m hi z) (a : ℕ) (lo : m.block.base ≤ a) where
  open covers use {positive, mapped, small, below, end}

  -- What follows the tag of an array and that of a record.
  array_block_lem :
      (d s : ℕ)
      → d % 16 ≡ 0
      → m.block.base + 4 ≤ d
      → d < hi
      → a + 8 ≤ z
      → load4 m.bytes (a + 4) ≡ s
      → load4 m.bytes (d - 4) % 16 ≡ 9
      → array_block a (d + 9) m ≡ returns (record { kind = ablk; size = s }) m
  unfolding array_block
  array_block_lem d s aligned from upto fits at_size flag =
      rw
        (
          read_4_ze_lem m (a + 4) (omega arith) (omega arith),
          at_size,
          tag_high (d + 9) (omega arith),
          data_at,
          host_address_lem m d (omega arith) (omega arith) (omega arith) (omega arith),
          bit_and_mask 4 (d + 9),
          flags_low,
          tag_high d (omega arith),
          paragraph,
          read_4_ze_lem m (d - 4) (omega arith) (omega arith),
          bit_and_mask 4 (load4 m.bytes (d - 4)),
          flag,
        )
        (ground arith)
    where
      data_at : d + 9 - (d + 9) % 16 ≡ d
      data_at = omega arith

      flags_low : (d + 9) % 16 ≡ 9
      flags_low = omega arith

      paragraph : (d - d % 16) % 16 ≡ 0
      paragraph = omega arith

  record_block_lem :
      (d s : ℕ)
      → d % 16 ≡ 0
      → m.block.base ≤ d
      → d + 20 ≤ hi
      → load4 m.bytes (d + 16) ≡ s
      → record_block (d + 1) m ≡ returns (record { kind = dblk; size = s }) m
  unfolding record_block
  record_block_lem d s aligned from upto at_size =
      rw
        (
          tag_high (d + 1) (omega arith),
          data_at,
          host_address_lem m d (omega arith) (omega arith) (omega arith) (omega arith),
          read_4_ze_lem m (d + 16) (omega arith) (omega arith),
          at_size,
        )
        refl
    where
      data_at : d + 1 - (d + 1) % 16 ≡ d
      data_at = omega arith

  block_at-HasTag :
      (k : Kind) (s : ℕ)
      → 0 < s
      → s % 16 ≡ 0
      → a + s ≤ z
      → HasTag m.bytes m.block.base hi a k s
      → block_at a m ≡ returns (record { kind = k; size = s }) m
  unfolding block_at
  block_at-HasTag sblk s big whole fits tag =
      rw
        (read_4_ze_lem m a lo (omega arith), tag, syst_flag (s + 3), tag_high (s + 3) (omega arith))
        (ground arith)
  block_at-HasTag fblk s big whole fits tag =
      rw
        (
          read_4_ze_lem m a lo (omega arith),
          tag,
          syst_flag (s + 4),
          aray_flag (s + 4),
          free_flag (s + 4),
          tag_high (s + 4) (omega arith),
        )
        (ground arith)
  block_at-HasTag ablk s big whole fits (d, e, at_size, aligned, from, upto, flag) =
      rw (read_4_ze_lem m a lo (omega arith), e, syst_flag (d + 9), aray_flag (d + 9), syst, aray)
        (array_block_lem d s aligned from upto (omega arith) at_size flag)
    where
      syst : (d + 9) / 2 % 2 * 2 ≡ 0
      syst = omega arith

      aray : (d + 9) / 8 % 2 * 8 ≡ 8
      aray = omega arith
  block_at-HasTag dblk s big whole fits (d, e, aligned, from, upto, at_size) =
      rw
        (
          read_4_ze_lem m a lo (omega arith),
          e,
          syst_flag (d + 1),
          aray_flag (d + 1),
          free_flag (d + 1),
          syst,
          aray,
          free,
        )
        (record_block_lem d s aligned from upto at_size)
    where
      syst : (d + 1) / 2 % 2 * 2 ≡ 0
      syst = omega arith

      aray : (d + 1) / 8 % 2 * 8 ≡ 0
      aray = omega arith

      free : (d + 1) / 4 % 2 * 4 ≡ 0
      free = omega arith

module _ (m : Machine) (hi z : ℕ) (covers : Covers m hi z) where
  open covers use {mapped, small, end}

  moved_by : (a s : ℕ) → a + s ≤ z → moved a s ≡ a + s
  moved_by a s fits = ground arith

  -- The walk from a block to the end of the heap finds the blocks.
  pub walk-Tiles :
      (n : ℕ) (xs : List Block) (a : ℕ)
      → m.block.base ≤ a
      → Tiles m.bytes m.block.base hi a xs z
      → length xs < n
      → walk n a z m ≡ returns (some xs) m
  unfolding walk
  walk-Tiles zero xs a lo tiles enough = absurd (omega arith)
  walk-Tiles (suc n) [] a lo tiles enough = rw (ltb-eq-false a z (omega arith)) refl
  walk-Tiles (suc n) (x ∷ xs) a lo (has, fits, tiles) enough =
      rw
        (
          lt→ltb a z (omega (arith, has.positive)),
          block_at-HasTag m hi z covers a lo x.kind x.size has.positive has.paragraphs fits has.tag,
          moved_by a x.size fits,
          walk-Tiles n xs (a + x.size) (omega arith) tiles (omega arith),
        )
        refl
