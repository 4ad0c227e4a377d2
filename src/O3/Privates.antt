-- ===== src/O3/Privates.antt =====
-- loader/o3.cpp: the private symbols of a module are written outside the memory.
use oberon.Prelude.{ℕ, suc, ◌+◌, ◌≤◌, ◌<◌, ◌≡◌, refl, arith, some}
use oberon.Prelude.Int.{pos}
use oberon.Prelude.Word.{uint8}
use oberon.Machine.State.{undefined, halts}
use oberon.Machine.Memory.{load4, write_4}
use oberon.Heap.Tiles.{host_address_lem, read_4_ze_lem}
use oberon.O3.Loader.{Loader, stops, in_machine}
use oberon.O3.Blocks.{read_privates, read_private, read_symbol_info}
use oberon.O3.Chain.{IsMapped}
use oberon.O3.Found.{byte_lem}

outside :
    (b : ℕ) (l : Loader)
    → 268 ≤ l.machine.block.base
    → write_4 (some (uint8 b + 8)) 0 l.machine ≡ halts undefined
unfolding write_4
outside b l above = ground arith

-- Where the block lies above the first 268 bytes of the host, and a module and the array of its
-- private symbols in the memory, reading one or more private symbols ends in an undefined write: a
-- byte of the array is taken as the address of a symbol.
pub privates_undefined :
    (m n a : ℕ) (l : Loader)
    → IsMapped l.machine
    → 268 ≤ l.machine.block.base
    → l.machine.block.base ≤ m
    → m + 64 ≤ l.machine.block.base + l.machine.memory.n_bytes
    → load4 l.machine.bytes (m + 24) ≡ a
    → l.machine.block.base ≤ a
    → a < l.machine.block.base + l.machine.memory.n_bytes
    → read_privates m (pos (suc n)) l ≡ stops (in_machine undefined)
unfolding read_privates read_private read_symbol_info
privates_undefined m n a l is above from fits at lo hi =
    rw
      (
        read_4_ze_lem l.machine (m + 24) (omega arith) (omega (arith, is.whole)),
        at,
        host_address_lem l.machine a (omega arith) lo hi (omega (arith, is.whole, is.small)),
        at_first,
        byte_lem l.machine is a lo hi,
        outside (l.machine.bytes a) l above,
      )
      refl
  where
    at_first : a + 0 ≡ a
    at_first = omega arith
