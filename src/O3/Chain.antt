-- ===== src/O3/Chain.antt =====
-- loader/o3.cpp: the list of modules as a list of addresses.
use oberon.Prelude.{ℕ, ◌+◌, ◌*◌, ◌^◌, ◌≤◌, ◌<◌, ◌≡◌, refl, arith, Option, none, some, List, [], ◌∷◌}
use oberon.Prelude.Text.{length}
use oberon.Machine.State.{Machine, returns}
use oberon.Machine.Memory.{load4}
use oberon.Heap.Tiles.{host_address_lem, read_4_ze_lem}
use oberon.Heap.{host_address}
use oberon.O3.Layout.{field_at, next}

-- From the address `a` the words at the beginning of the modules lead through the addresses `xs`, which
-- grow by the size of a module at least, to 0.
abbrev pub Chain : (ℕ → ℕ) → ℕ → ℕ → ℕ → List ℕ → Type 0
Chain b lo hi a [] = a ≡ 0
Chain b lo hi a (x ∷ xs) = (a ≡ x) × (lo ≤ x) × (x + 64 ≤ hi) × Chain b (x + 64) hi (load4 b x) xs

-- The memory is mapped, and its addresses are words other than 0.
pub record IsMapped (m : Machine) : Type 0 where
  pub positive : 0 < m.block.base
  pub whole : m.memory.n_bytes ≤ m.block.size
  pub small : m.block.base + m.block.size ≤ 2 ^ 32

-- The modules of a machine.
abbrev pub Modules : Machine → ℕ → List ℕ → Type 0
Modules m a xs = Chain m.bytes m.block.base (m.block.base + m.memory.n_bytes) a xs

-- The host address of the first module.
abbrev pub first_of : List ℕ → Option ℕ
first_of [] = none
first_of (x ∷ xs) = some x

pub Chain-length :
    (b : ℕ → ℕ) (lo hi a : ℕ) (xs : List ℕ)
    → lo ≤ hi
    → Chain b lo hi a xs
    → lo + length xs * 64 ≤ hi
Chain-length b lo hi a [] below chain = omega arith
Chain-length b lo hi a (x ∷ xs) below (e, from, fits, chain) =
    omega (arith, Chain-length b (x + 64) hi (load4 b x) xs fits chain)

module _ (m : Machine) (is : IsMapped m) where
  open is use {positive, whole, small}

  abbrev hi : ℕ
  hi = m.block.base + m.memory.n_bytes

  pub first_lem :
      (lo a : ℕ) (xs : List ℕ)
      → m.block.base ≤ lo
      → Chain m.bytes lo hi a xs
      → host_address a m ≡ returns (first_of xs) m
  unfolding host_address
  first_lem lo a [] from e = rw e refl
  first_lem lo a (x ∷ xs) from (e, above, fits, chain) =
      rw e (host_address_lem m x (omega arith) (omega arith) (omega arith) (omega arith))

  pub next_lem :
      (x : ℕ) → m.block.base ≤ x → x + 64 ≤ hi → field_at x next m ≡ returns (load4 m.bytes x) m
  next_lem x from fits = rw at_zero (read_4_ze_lem m x from (omega arith))
    where
      at_zero : x + 0 ≡ x
      at_zero = omega arith
