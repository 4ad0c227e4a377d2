-- ===== src/Heap/Size.antt =====
-- loader/heap.cpp: the size of a block.
use oberon.Prelude.{ℕ, ◌+◌, ◌*◌, ◌/◌, ◌^◌, ◌≤◌, ◌≡◌, arith}
use oberon.Machine.State.{Machine, returns}
use oberon.O3.{neg, add, modulo, rem, sub}
use oberon.Heap.{align_block_size}

-- The least multiple of 16 that has room for `n` bytes and a tag.
abbrev pub block_size : ℕ → ℕ
block_size n = (n + 19) / 16 * 16

pub align_block_size_lem :
    (n : ℕ) (m : Machine) → n + 20 ≤ 2 ^ 31 → align_block_size n m ≡ returns (block_size n) m
unfolding align_block_size add neg modulo rem sub
align_block_size_lem n m small = ground arith
